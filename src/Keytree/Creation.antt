-- ===== src/Keytree/Creation.antt =====
-- `wg_keytree_create` of kt/src/keytree.c with a list of words.
use wtools.Prelude.{
  ℕ, ◌<◌, ◌≡◌, refl, ap, ◌∙◌, Bool, false, Option, none, some, List, [], ◌∷◌, length,
}
use wtools.Buffer.{Bytes}
use wtools.Libc.{Libc}
use wtools.Keytree.{Error, no_error, exists, empty_head, Keytree}
use wtools.Keytree.Insert.{
  Elem, parse_file_create_key, wg_keytree_add, add_list, sizeof_head, wg_keytree_create,
}
use wtools.Keytree.Nodes.{Slot, node, relation, expect, IsWellKey, IsWellHead}
use wtools.Keytree.Adding.{HasMemory}
use wtools.Keytree.Growing.{Spells, outcome, node-fresh}
use wtools.Keytree.Searching.{lookup}
use wtools.Keytree.Vocabulary.{elem_of, wg_keytree_add-IsAdded}

-- A word of a list: its characters, what stands behind them, their places and its data.
pub record Listed : Type 0 where
  pub word : Bytes
  pub rest : Bytes
  pub path : List Slot
  pub data_ : ℕ

abbrev pub elems : List Listed → List Elem
elems [] = []
elems (l ∷ ls) = elem_of l.word l.rest l.data_ ∷ elems ls

-- Words that are not empty and whose characters have their places.
abbrev pub AllSpelt : ℕ → List Listed → Type 0
AllSpelt flags [] = Unit
AllSpelt flags (l ∷ ls) = (0 < length l.word) × Spells flags l.word l.path × AllSpelt flags ls

-- A map from paths to keys, and what it is once the words were added one by one: nothing where
-- one of them has a key already.
abbrev pub Vocabulary : Type 0
Vocabulary = List Slot → Option (Bool × ℕ)

abbrev pub learn : Vocabulary → Listed → Vocabulary
learn v l q = expect (relation q l.path) (v q) l.data_

abbrev pub learn_all : Vocabulary → List Listed → Option Vocabulary
learn_all v [] = some v
learn_all v (l ∷ ls) =
    let more = learn_all (learn v l) ls in elim (v l.path) [ none ↦ more | some x ↦ none ]

-- The root and nothing below it.
abbrev pub blank : Vocabulary
blank [] = some (false, 0)
blank (s ∷ q) = none

-- A result of `add_list` or `wg_keytree_create`: the tree of the map, or the error.
pub data Built : Option Vocabulary → Error → Option Keytree → Type 0 where
  refused : Built none exists none
  built :
      {v : Vocabulary} {t : Keytree}
      → IsWellHead t.lists
      → ((q : List Slot) → lookup t q ≡ v q)
      → Built (some v) no_error (some t)

-- A list that was added as far as its words go.
abbrev Builds : Libc → Keytree → List Listed → Vocabulary → Type 0
Builds libc t ls v =
    (code : Error) × (r : Option Keytree) × (add_list libc (elems ls) t ≡ some (code, r))
    × Built (learn_all v ls) code r

-- The first word of a list, from what was at its path.
add_list_step :
    (libc : Libc) (t tree : Keytree) (l : Listed) (ls : List Listed) (v : Vocabulary)
    (o : Option (Bool × ℕ)) (code : Error) (out : Option ℕ)
    → v l.path ≡ o
    → (code, out) ≡ outcome o
    → wg_keytree_add libc (some t) (some (elem_of l.word l.rest l.data_))
      ≡ some (code, out, some tree)
    → Builds libc tree ls (learn v l)
    → Builds libc t (l ∷ ls) v
unfolding add_list wg_keytree_add
add_list_step libc t tree l ls v none code out at_ a run below =
    let failed : code ≡ no_error = ap (λ p. p.0) a in
    let run' : parse_file_create_key libc (elem_of l.word l.rest l.data_) t
        ≡ some (no_error, out, some tree) =
      rw failed at run in
    (below.0, below.1, rw (run', add_list) below.2, rw (at_, learn_all) below.3)
add_list_step libc t tree l ls v (some x) code out at_ a run below =
    let failed : code ≡ exists = ap (λ p. p.0) a in
    let run' : parse_file_create_key libc (elem_of l.word l.rest l.data_) t
        ≡ some (exists, out, some tree) =
      rw failed at run in
    (exists, none, rw (run', add_list), rw (at_, learn_all) refused)

add_list-Built :
    (libc : Libc) (t : Keytree) (ls : List Listed) (v : Vocabulary)
    → HasMemory libc
    → IsWellHead t.lists
    → ((q : List Slot) → lookup t q ≡ v q)
    → AllSpelt t.flags ls
    → Builds libc t ls v
unfolding add_list
add_list-Built libc t [] v m w same sp = (no_error, some t, refl, built w same)
add_list-Built libc t (l ∷ ls) v m w same sp =
    let a = wg_keytree_add-IsAdded libc t l.word l.rest l.path l.data_ m w sp.1 sp.0 in
    let below =
      add_list-Built libc a.tree ls (learn v l) m a.well
        (λ q. a.grown q ∙ ap (λ o. expect (relation q l.path) o l.data_) (same q))
        (rw (a.same_flags) sp.2) in
    add_list_step libc t a.tree l ls v (v l.path) a.code a.out refl
      (a.answers ∙ ap outcome (same l.path)) a.ran below

pub lookup-empty :
    (flags : ℕ) (q : List Slot) → lookup (record { flags = flags; lists = empty_head }) q ≡ blank q
unfolding node
lookup-empty flags [] = refl
lookup-empty flags (s ∷ q) = node-fresh s q

-- `wg_keytree_create` on words that are not empty, whose characters have their places, where the
-- allocations succeed: if each word's path has no key when its turn comes, W_NO_ERROR and a
-- well-formed tree, the map of the words added one by one to an empty map; else W_E_EXISTS and
-- NULL.
pub wg_keytree_create-Built :
    (libc : Libc) (flags : ℕ) (ls : List Listed) {block : Bytes}
    → libc.malloc sizeof_head ≡ some block
    → HasMemory libc
    → AllSpelt flags ls
    → (code : Error) × (r : Option Keytree) × (wg_keytree_create libc flags (some (elems ls)) false
        ≡ some (code, some r))
      × Built (learn_all blank ls) code r
unfolding wg_keytree_create IsWellKey
wg_keytree_create-Built libc flags ls a m sp =
    let t : Keytree = record { flags = flags; lists = empty_head } in
    let (code, r, run, b) =
      add_list-Built libc t ls blank m (tt, tt, tt, tt) (lookup-empty flags) sp in
    (code, r, rw (a, run, wg_keytree_create), b)
