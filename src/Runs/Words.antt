-- ===== src/Runs/Words.antt =====
-- Small runs of the key tree and of the cached dictionary: the theorems at concrete inputs.
use wtools.Prelude.{ℕ, ◌≡◌, refl, arith, true, false, Option, some, List, [], ◌∷◌, ◌++◌, replicate}
use wtools.Buffer.{Bytes}
use wtools.Bkv.{ok, Bkv}
use wtools.Val
use wtools.Val.Maps.{recorder}
use wtools.Bkv.Spec.{str}
use wtools.Keytree.{
  Error, no_error, key, unallocated, allocated, absent, present, Head, head, empty_head, nulls,
  Keytree,
}
use wtools.Keytree.Insert.{wg_keytree_add, wg_keytree_create}
use wtools.Keytree.Lookup.{wg_keytree_strcmp, wg_keytree_weakcmp, wg_keytree_keyget}
use wtools.Keytree.Walk.{Visit, wg_keytree_foreach}
use wtools.Keytree.Release.{wg_keytree_release}
use wtools.Keytree.Nodes.{node, IsWellKey, IsWellHead}
use wtools.Keytree.Adding.{HasMemory}
use wtools.Keytree.Names.{path_of, Spells-path_of}
use wtools.Keytree.Searching.{strcmp-lookup}
use wtools.Keytree.Folding.{ends_bare, weakcmp-strcmp}
use wtools.Keytree.Vocabulary.{elem_of, IsAdded, wg_keytree_add-IsAdded}
use wtools.Keytree.Learning.{wg_keytree_add-strcmp, wg_keytree_add-keyget}
use wtools.Keytree.Creation.{Listed, elems, learn_all, blank, Built, wg_keytree_create-Built}
use wtools.Keytree.Visits.{Visited, IsShallowKey, IsShallow, visits_key}
use wtools.Keytree.Walking.{wg_keytree_foreach-play}
use wtools.Keytree.Releasing.{blocks_key, wg_keytree_release-blocks}
use wtools.Keytree.Agreeing.{collect, foreach_iff_keyget}
use wtools.Dico.{DicoType, DicoCtx, bkv_dico_create, bkv_dico_destroy}
use wtools.Dico.Cached.{key_of_data, s_dico_plugs}
use wtools.Dico.Spec.{Word, entries_of}
use wtools.Dico.Names.{Plenty}
use wtools.Dico.Filling.{cached_ctx, add_names, IsFilled, cached_dico-IsFilled}
use wtools.Dico.Listing.{cached_dico_destroyed}
use wtools.Dico.Known.{cached_dico_destroyed-keyget}
use wtools.Runs.Memory.{plain_libc}
use mathlib.Core.List.{Memᴰ}
use mathlib.Core.Logic.{◌↔◌}

plenty : Plenty plain_libc
plenty n = (replicate n 0, refl)

memory : HasMemory plain_libc
memory = record { array = λ kind. plenty _; node_key = plenty 96 }

-- The word "ab" with the data 5.
abbrev below_a : Head
below_a =
    head (allocated 1 (absent (present (key true 5 empty_head) (nulls 24)))) unallocated unallocated
      unallocated

abbrev lists : Head
lists =
    head (allocated 1 (present (key false 0 below_a) (nulls 25))) unallocated unallocated
      unallocated

abbrev tree : Keytree
tree = record { flags = 0; lists = lists }

tree-IsWellHead : IsWellHead lists
unfolding IsWellKey
tree-IsWellHead =
    ((refl, refl, (((refl, refl, ((tt, tt, tt, tt), tt)), tt, tt, tt), tt)), tt, tt, tt)

tree-IsShallow : IsShallow 128 lists
unfolding IsShallowKey
tree-IsShallow = (((((tt, tt, tt, refl), tt), tt, tt, refl), tt), tt, tt, refl)

abbrev ab : Bytes
ab = b'a' ∷ b'b' ∷ []

abbrev ac : Bytes
ac = b'a' ∷ b'c' ∷ []

wg_keytree_add-IsAdded_example :
    IsAdded tree (path_of ac) 7 (wg_keytree_add plain_libc (some tree) (some (elem_of ac [] 7)))
wg_keytree_add-IsAdded_example =
    wg_keytree_add-IsAdded plain_libc tree ac [] (path_of ac) 7 memory tree-IsWellHead
      (Spells-path_of 0 ac refl (refl, (refl, tt))) (omega arith)

wg_keytree_add-strcmp_example :
    (t : Keytree) × (code : Error) × (out : Option ℕ) × (wg_keytree_add plain_libc
        (some tree)
        (some (elem_of ac [] 7))
      ≡ some (code, out, some t))
    × (wg_keytree_strcmp (some t) (some (ac ++ (0 ∷ []))) ≡ some no_error)
wg_keytree_add-strcmp_example =
    wg_keytree_add-strcmp plain_libc tree ac [] 7 ac 0 [] memory tree-IsWellHead refl
      (refl, (refl, tt)) (omega arith) (refl, (refl, tt)) refl

wg_keytree_add-keyget_example :
    (t : Keytree) × (code : Error) × (out : Option ℕ) × (wg_keytree_add plain_libc
        (some tree)
        (some (elem_of ac [] 7))
      ≡ some (code, out, some t))
    × (wg_keytree_keyget (some t) (some (ab ++ (b'=' ∷ [])))
        ≡ wg_keytree_keyget (some tree) (some (ab ++ (b'=' ∷ []))))
wg_keytree_add-keyget_example =
    wg_keytree_add-keyget plain_libc tree ac [] 7 ab b'=' [] memory tree-IsWellHead refl
      (refl, (refl, tt)) (omega arith) (refl, (refl, tt)) refl

strcmp-lookup_example : wg_keytree_strcmp (some tree) (some (ab ++ (b' ' ∷ []))) ≡ some no_error
unfolding node
strcmp-lookup_example = strcmp-lookup tree ab b' ' [] tree-IsWellHead (refl, (refl, tt)) refl

weakcmp-strcmp_example :
    wg_keytree_weakcmp (some tree) (some (b'a' ∷ b'b' ∷ b' ' ∷ []))
    ≡ wg_keytree_strcmp (some tree) (some (b'a' ∷ b'b' ∷ b' ' ∷ []))
unfolding ends_bare
weakcmp-strcmp_example = weakcmp-strcmp tree b'a' (b'b' ∷ []) b' ' [] (refl, (refl, tt)) refl refl

abbrev listed : List Listed
listed =
    record { word = ab; rest = 0 ∷ []; path = path_of ab; data_ = 5 }
    ∷ record { word = ac; rest = 0 ∷ []; path = path_of ac; data_ = 7 }
    ∷ []

wg_keytree_create-Built_example :
    (code : Error) × (r : Option Keytree) × (wg_keytree_create plain_libc 0
        (some (elems listed))
        false
      ≡ some (code, some r))
    × Built (learn_all blank listed) code r
wg_keytree_create-Built_example = wg_keytree_create-Built plain_libc 0 listed refl memory (
  omega arith,
  Spells-path_of 0 ab refl (refl, (refl, tt)),
  (omega arith, Spells-path_of 0 ac refl (refl, (refl, tt)), tt),
)

abbrev note_visit : Visit (List Visited)
note_visit = λ d e data_ p_str. some ((e, data_, p_str) ∷ d)

wg_keytree_foreach-play_example :
    wg_keytree_foreach note_visit tree []
    ≡ some (no_error, (true, 5, ab) ∷ (false, 0, b'a' ∷ []) ∷ [])
unfolding visits_key
wg_keytree_foreach-play_example =
    wg_keytree_foreach-play note_visit tree [] tree-IsWellHead tree-IsShallow

wg_keytree_release-blocks_example : wg_keytree_release (some tree) ≡ some (no_error, 5)
unfolding blocks_key
wg_keytree_release-blocks_example = wg_keytree_release-blocks tree tree-IsWellHead

abbrev names : List Word
names = (5, ab) ∷ (7, b'a' ∷ []) ∷ []

cached_dico-IsFilled_example :
    (c : DicoCtx) × (bkv_dico_create plain_libc s_dico_plugs (some DicoType.cached) false
      ≡ some (ok, some c))
    × IsFilled 128 names (add_names plain_libc c names)
cached_dico-IsFilled_example =
    cached_dico-IsFilled plain_libc 128 names plenty
      ((refl, (refl, tt)), omega arith, omega arith, ((refl, tt), omega arith, omega arith, tt))

cached_dico_destroyed_example :
    (h : Bkv) × (m : Bytes) × ((priv : Option (cached_ctx tree).plug.Priv) × (bkv_dico_destroy
          plain_libc
          (cached_ctx tree)
          false
        ≡ some (ok, priv, some h)))
    × (h.ptr ≡ some m)
    × (Val.val_foreach (recorder m) m 0 [] ≡ Val.returns ok ((5, str ab) ∷ []))
unfolding visits_key
cached_dico_destroyed_example =
    cached_dico_destroyed plain_libc tree plenty tree-IsWellHead tree-IsShallow
      (omega arith, omega arith, tt) (omega arith)

foreach_iff_keyget_example :
    (seen : List Visited) × (wg_keytree_foreach collect tree [] ≡ some (no_error, seen))
    × (Memᴰ (true, 5, ab) seen
        ↔ wg_keytree_keyget (some tree) (some (ab ++ (b',' ∷ []))) ≡ some (no_error, some 5))
foreach_iff_keyget_example =
    foreach_iff_keyget tree ab b',' [] 5 tree-IsWellHead tree-IsShallow (refl, (refl, tt))
      (omega arith) refl

cached_dico_destroyed-keyget_example :
    (h : Bkv) × (m : Bytes) × (words : List Word) × ((priv : Option (cached_ctx tree).plug.Priv)
      × (bkv_dico_destroy plain_libc (cached_ctx tree) false ≡ some (ok, priv, some h)))
    × (h.ptr ≡ some m)
    × (Val.val_foreach (recorder m) m 0 [] ≡ Val.returns ok (entries_of words))
    × (Memᴰ (5, ab) words
        ↔ (d : ℕ) × (wg_keytree_keyget (some tree) (some (ab ++ (0 ∷ [])))
            ≡ some (no_error, some d))
          × (key_of_data d ≡ 5))
unfolding visits_key
cached_dico_destroyed-keyget_example =
    cached_dico_destroyed-keyget plain_libc tree 5 ab plenty tree-IsWellHead tree-IsShallow
      (omega arith, omega arith, tt) (omega arith) (refl, (refl, tt)) (omega arith)
