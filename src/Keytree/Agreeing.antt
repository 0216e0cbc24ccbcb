-- ===== src/Keytree/Agreeing.antt =====
-- The walk and the search of kt/src/keytree.c on the same tree.
use wtools.Prelude.{
  ℕ, ◌<◌, ◌≡◌, refl, sym, ap, ◌∙◌, Bool, true, false, ◌||◌, Option, none, some, List, [], ◌∷◌, ◌++◌,
  length,
}
use wtools.Prelude.Chain.{bind-cong}
use wtools.Buffer.{Bytes}
use wtools.Keytree.{no_error, Keytree}
use wtools.Keytree.Chars.{is_space, is_cntrl, is_punct}
use wtools.Keytree.Lookup.{wg_keytree_keyget}
use wtools.Keytree.Nodes.{IsWellHead}
use wtools.Keytree.Names.{path_of, IsName}
use wtools.Keytree.Searching.{lookup}
use wtools.Keytree.Fetching.{answer, keyget-lookup}
use wtools.Keytree.Walk.{Visit, wg_keytree_foreach}
use wtools.Keytree.Visits.{Visited, IsShallow, visits}
use wtools.Keytree.Walking.{play, wg_keytree_foreach-play}
use wtools.Keytree.Words.{visits-lookup, lookup-visits}
use mathlib.Core.List.{Memᴰ, append_assoc, append-nil}
use mathlib.Core.Logic.{◌↔◌}
use mathlib.Core.Option.{some_inj}

-- A callback that notes down its arguments.
abbrev pub collect : Visit (List Visited)
collect seen e data_ p_str = some (seen ++ ((e, data_, p_str) ∷ []))

play-collect : (vs seen : List Visited) → play collect vs seen ≡ some (seen ++ vs)
play-collect [] seen = ap some (sym (append-nil seen))
play-collect ((e, d, s) ∷ vs) seen =
    play-collect vs (seen ++ ((e, d, s) ∷ [])) ∙ ap some (append_assoc seen ((e, d, s) ∷ []) vs)

pub foreach-collect :
    (t : Keytree)
    → IsWellHead t.lists
    → IsShallow 128 t.lists
    → wg_keytree_foreach collect t [] ≡ some (no_error, visits t.lists [])
foreach-collect t w short =
    wg_keytree_foreach-play collect t [] w short
    ∙ bind-cong (play collect (visits t.lists []) []) (play-collect (visits t.lists []) [])
        (λ d. refl)

-- An answer with data comes of the end of a word.
answered : (o : Option (Bool × ℕ)) (d : ℕ) → answer o ≡ (no_error, some d) → o ≡ some (true, d)
answered none d e = let wrong : none ≡ some d = ap (λ r. r.1) e in cc
answered (some (false, x)) d e = let wrong : none ≡ some d = ap (λ r. r.1) e in cc
answered (some (true, x)) d e =
    let same : some x ≡ some d = ap (λ r. r.1) e in ap (λ y. some (true, y)) (some_inj.0 same)

-- In a well-formed tree, `wg_keytree_keyget` finds a name, which is not empty, before a punctuation
-- character, a space, a control character or the NUL, with data just where the map of paths has
-- the end of a word with them.
pub keyget_iff_lookup :
    (t : Keytree) (word : Bytes) (sep : ℕ) (rest : Bytes) (d : ℕ)
    → IsWellHead t.lists
    → IsName word
    → (is_punct sep || is_space sep || is_cntrl sep) ≡ true
    → wg_keytree_keyget (some t) (some (word ++ (sep ∷ rest))) ≡ some (no_error, some d)
      ↔ lookup t (path_of word) ≡ some (true, d)
keyget_iff_lookup t word sep rest d w n s =
    let run = keyget-lookup t word sep rest w n s in
    (
      λ e. answered (lookup t (path_of word)) d (some_inj.0 (sym run ∙ e)),
      λ e. run ∙ ap (λ o. some (answer o)) e,
    )

-- In a well-formed tree of words of at most 128 letters and digits, the walk and the search agree:
-- `wg_keytree_foreach` answers W_NO_ERROR, and among the arguments of its calls of the callback
-- there is a name, which is not empty, as the end of a word with some data just if
-- `wg_keytree_keyget` finds these data for the name before a punctuation character, a space, a
-- control character or the NUL.
pub foreach_iff_keyget :
    (t : Keytree) (word : Bytes) (sep : ℕ) (rest : Bytes) (d : ℕ)
    → IsWellHead t.lists
    → IsShallow 128 t.lists
    → IsName word
    → 0 < length word
    → (is_punct sep || is_space sep || is_cntrl sep) ≡ true
    → (seen : List Visited) × (wg_keytree_foreach collect t [] ≡ some (no_error, seen))
      × (Memᴰ (true, d, word) seen
          ↔ wg_keytree_keyget (some t) (some (word ++ (sep ∷ rest))) ≡ some (no_error, some d))
foreach_iff_keyget t word sep rest d w short n lt s =
    let found = keyget_iff_lookup t word sep rest d w n s in
    (
      visits t.lists [],
      foreach-collect t w short,
      (
        λ m. found.1 (visits-lookup t (true, d, word) w m).2,
        λ e. lookup-visits t word true d n lt (found.0 e),
      ),
    )
