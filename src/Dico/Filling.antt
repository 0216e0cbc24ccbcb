-- ===== src/Dico/Filling.antt =====
-- A dictionary of the cached plug (bkv/dico/src/bkv_dico_cached.c) from its creation to the names
-- in it.
use wtools.Prelude.{
  ℕ, ◌%◌, ◌≤◌, ◌<◌, ◌≡◌, refl, sym, ap, ◌∙◌, arith, true, false, Option, none, some, List, [], ◌∷◌,
  ◌++◌, length,
}
use wtools.Prelude.Int.{ℤ, eqb_ℤ}
use wtools.Prelude.Chain.{◌>>=◌, bind-cong}
use wtools.Buffer.{Bytes}
use wtools.Libc.{Libc}
use wtools.Bkv.{ok}
use wtools.Keytree.{empty_head, Keytree}
use wtools.Keytree.Insert.{sizeof_head, wg_keytree_create}
use wtools.Keytree.Nodes.{Slot, relation, expect, IsWellHead, IsWellKey}
use wtools.Keytree.Names.{path_of, IsName}
use wtools.Keytree.Searching.{lookup}
use wtools.Keytree.Creation.{Vocabulary, blank, lookup-empty}
use wtools.Keytree.Shallow.{HasShortWords, HasShortWords-add, IsShallow-HasShortWords}
use wtools.Keytree.Visits.{IsShallow}
use wtools.Dico.{DicoType, DicoCtx, bkv_dico_create, bkv_dico_key_add, sizeof_dico_ctx, new_ctx}
use wtools.Dico.Cached.{dico_cached_create, dico_cached_key_add, s_dico_cached_plug, s_dico_plugs}
use wtools.Dico.Spec.{Word}
use wtools.Dico.Names.{Plenty, dico_cached_key_add-Remembers}

-- A context of the cached plug over a tree.
unfoldable pub cached_ctx : Keytree → DicoCtx
unfolding s_dico_cached_plug
cached_ctx t = record { plug = s_dico_cached_plug; priv_handle = some (some t) }

-- A caller that adds the names in order as strings, up to the first code that is not BKV_OK.
unfoldable pub add_names : Libc → DicoCtx → List Word → Option (ℤ × DicoCtx)
unfolding bkv_dico_key_add
add_names libc c [] = some (ok, c)
add_names libc c ((key, s) ∷ ws) = do
  r ← bkv_dico_key_add libc c key none (s ++ (0 ∷ [])) (length s)
  elim (eqb_ℤ ok r.0) [ true ↦ add_names libc r.2 ws | false ↦ some (r.0, r.2) ]

-- The map from paths to keys once the names were added: the first data of a key stays.
abbrev pub name_all : Vocabulary → List Word → Vocabulary
name_all v [] = v
name_all v ((key, s) ∷ ws) = name_all (λ q. expect (relation q (path_of s)) (v q) key) ws

-- Names of one to `room` characters.
abbrev pub AllNames : ℕ → List Word → Type 0
AllNames room [] = Unit
AllNames room ((key, s) ∷ ws) = IsName s × (0 < length s) × (length s ≤ room) × AllNames room ws

-- A caller's dictionary with the names in it.
record Holds (v : Vocabulary) (ws : List Word) (room : ℕ) (run : Option (ℤ × DicoCtx))
    : Type 1 where
  pub tree : Keytree
  pub ran : run ≡ some (ok, cached_ctx tree)
  pub well : IsWellHead tree.lists
  short : HasShortWords room tree
  pub names : (q : List Slot) → lookup tree q ≡ name_all v ws q

-- A call of the plug, by the dictionary.
through_plug :
    (libc : Libc) (t tree : Keytree) (key : ℕ) (final_key given : Option ℕ) (str : Bytes) (len : ℕ)
    → dico_cached_key_add libc (some (some t)) key final_key str len
      ≡ some (ok, given, some (some tree))
    → bkv_dico_key_add libc (cached_ctx t) key final_key str len ≡ some (ok, given, cached_ctx tree)
unfolding bkv_dico_key_add s_dico_cached_plug cached_ctx
through_plug libc t tree key final_key given str len run =
    bind-cong (dico_cached_key_add libc (some (some t)) key final_key str len) run (λ r. refl)

add_names-Holds :
    (libc : Libc) (room : ℕ) (ws : List Word) (t : Keytree) (v : Vocabulary)
    → Plenty libc
    → IsWellHead t.lists
    → t.flags % 2 ≡ 0
    → HasShortWords room t
    → ((q : List Slot) → lookup t q ≡ v q)
    → AllNames room ws
    → Holds v ws room (add_names libc (cached_ctx t) ws)
unfolding add_names
add_names-Holds libc room [] t v m w even short same ns = record {
  tree = t;
  ran = refl;
  well = w;
  short = short;
  names = same;
}
add_names-Holds libc room ((key, s) ∷ ws) t v m w even short same ns =
    let a = dico_cached_key_add-Remembers libc t key none s m w even ns.0 ns.1 in
    let even' : a.tree.flags % 2 ≡ 0 = ap (λ f. f % 2) a.same_flags ∙ even in
    let later =
      add_names-Holds libc room ws a.tree (λ q. expect (relation q (path_of s)) (v q) key) m a.well
        even' (HasShortWords-add room t a.tree s key short ns.0 ns.2 a.grown)
        (λ q. a.grown q ∙ ap (λ o. expect (relation q (path_of s)) o key) (same q)) ns.3 in
    record {
      tree = later.tree;
      ran =
          bind-cong (bkv_dico_key_add libc (cached_ctx t) key none (s ++ (0 ∷ [])) (length s))
            (through_plug libc t a.tree key none _ (s ++ (0 ∷ [])) (length s) a.ran) (λ r. refl)
          ∙ later.ran;
      well = later.well;
      short = later.short;
      names = later.names;
    }

-- The context that the plug makes, and the dictionary around it.
cached_plugged :
    (libc : Libc)
    → Plenty libc
    → dico_cached_create libc
      ≡ some (ok, some (some (some (record { flags = 0; lists = empty_head }))))
unfolding dico_cached_create wg_keytree_create
cached_plugged libc m = rw ((m sizeof_head).1, dico_cached_create, wg_keytree_create) (rw (m 8).1)

cached_created :
    (libc : Libc)
    → Plenty libc
    → bkv_dico_create libc s_dico_plugs (some DicoType.cached) false
      ≡ some (ok, some (cached_ctx (record { flags = 0; lists = empty_head })))
unfolding bkv_dico_create new_ctx s_dico_plugs s_dico_cached_plug cached_ctx
cached_created libc m =
    bind-cong (dico_cached_create libc) (cached_plugged libc m) (λ made. refl)
    ∙ rw (m sizeof_dico_ctx).1

HasShortWords-empty : (room : ℕ) → HasShortWords room (record { flags = 0; lists = empty_head })
HasShortWords-empty room [] x there = (omega arith, tt)
HasShortWords-empty room (s ∷ q) x there =
    let nothing : none ≡ some x = sym (lookup-empty 0 (s ∷ q)) ∙ there in cc

-- A dictionary of the cached plug that a caller has filled: its tree is well formed, has words of
-- at most `room` letters and digits, and is the map of the names that were added.
pub record IsFilled (room : ℕ) (ws : List Word) (run : Option (ℤ × DicoCtx)) : Type 1 where
  pub tree : Keytree
  pub ran : run ≡ some (ok, cached_ctx tree)
  pub well : IsWellHead tree.lists
  pub shallow : IsShallow room tree.lists
  pub names : (q : List Slot) → lookup tree q ≡ name_all blank ws q

-- Where every allocation succeeds, a cached dictionary can be created, and names of one to `room`
-- letters and digits are added to it in order, each with BKV_OK: its tree is then well formed, no
-- deeper than `room`, and holds at each path what the names leave there when they are added one
-- by one to an empty map, in which a key that exists keeps its data.
pub cached_dico-IsFilled :
    (libc : Libc) (room : ℕ) (ws : List Word)
    → Plenty libc
    → AllNames room ws
    → (c : DicoCtx) × (bkv_dico_create libc s_dico_plugs (some DicoType.cached) false
        ≡ some (ok, some c))
      × IsFilled room ws (add_names libc c ws)
unfolding IsWellKey
cached_dico-IsFilled libc room ws m ns =
    let t : Keytree = record { flags = 0; lists = empty_head } in
    let held =
      add_names-Holds libc room ws t blank m (tt, tt, tt, tt) refl (HasShortWords-empty room)
        (lookup-empty 0) ns in
    (
      cached_ctx t,
      cached_created libc m,
      record {
        tree = held.tree;
        ran = held.ran;
        well = held.well;
        shallow = IsShallow-HasShortWords room held.tree held.well held.short;
        names = held.names;
      },
    )
