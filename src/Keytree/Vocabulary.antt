-- ===== src/Keytree/Vocabulary.antt =====
-- `wg_keytree_add` of kt/src/keytree.c, and the searches behind it.
use wtools.Prelude.{
  ℕ, ◌+◌, ◌<◌, ◌≡◌, inl, inr, refl, sym, ap, ◌∙◌, arith, true, false, Bool-cases, Option, some,
  List, [], ◌∷◌, ◌++◌, length, ==_iff,
}
use wtools.Buffer.{Bytes}
use wtools.Libc.{Libc}
use wtools.Keytree.{Error, Key, key, Head, head_of, Keytree}
use wtools.Keytree.Insert.{done, Elem, tree_of, parse_file_create_key, wg_keytree_add}
use wtools.Keytree.Lookup.{first_char}
use wtools.Keytree.Nodes.{
  Slot, same_slot, node, itself, apart, relation, expect, IsWellKey, IsWellHead,
}
use wtools.Keytree.Parsing.{same_kind_refl}
use wtools.Keytree.Adding.{HasMemory}
use wtools.Keytree.Growing.{Spells, outcome, same_slot-eq}
use wtools.Keytree.Rounds.{parse_key-IsParsed}
use wtools.Keytree.Names.{slot_of, path_of, IsName, slot_of-first}
use wtools.Keytree.Searching.{lookup}

-- The element of a word that stands at the start of a string.
abbrev pub elem_of : Bytes → Bytes → ℕ → Elem
elem_of word rest data_ = record { str = word ++ rest; len = length word; udata = data_ }

-- A run of `wg_keytree_add` that reached its end: the tree with the word in it.
pub record IsAdded (t : Keytree) (path : List Slot) (data_ : ℕ)
    (run : Option (Error × Option ℕ × Option Keytree)) : Type 0 where
  pub tree : Keytree
  pub code : Error
  pub out : Option ℕ
  pub ran : run ≡ some (code, out, some tree)
  pub answers : (code, out) ≡ outcome (lookup t path)
  pub same_flags : tree.flags ≡ t.flags
  pub well : IsWellHead tree.lists
  pub grown : (q : List Slot) → lookup tree q ≡ expect (relation q path) (lookup t q) data_

root_of :
    (k : Key) (path : List Slot) (h : Head) (data_ : ℕ)
    → 0 < length path
    → node k [] ≡ expect (relation [] path) (node (key false 0 h) []) data_
    → k ≡ key false 0 (head_of k)
unfolding node relation
root_of (key e d h') [] h data_ lt eq = absurd (omega arith)
root_of (key e d h') (s ∷ path) h data_ lt eq = cc

-- The tree of the root that the loop reached.
IsAdded-root :
    (t : Keytree) (path : List Slot) (data_ : ℕ) (k : Key) (code : Error) (out : Option ℕ)
    → 0 < length path
    → (code, out) ≡ outcome (lookup t path)
    → IsWellKey k
    → ((q : List Slot) → node k q ≡ expect (relation q path) (lookup t q) data_)
    → IsAdded t path data_ (some (tree_of t (done k code out)))
unfolding IsWellKey
IsAdded-root t path data_ (key e d h) code out lt a w grown =
    let root = root_of (key e d h) path t.lists data_ lt (grown []) in
    record {
      tree = record t { lists = h };
      code = code;
      out = out;
      ran = refl;
      answers = a;
      same_flags = refl;
      well = w;
      grown = λ q. ap (λ k. node k q) (sym root) ∙ grown q;
    }

-- Where the allocations succeed, a word which is not empty and whose characters have their places
-- is added to a well-formed tree: the tree stays well formed and keeps its flags. The code is
-- W_NO_ERROR if nothing was at the word's path, and else W_E_EXISTS with the data that were there
-- in `*udata`. Then the word's path ends a word, with the new data if nothing was there; paths
-- above it that were missing are there and end no word; any other path is as before.
pub wg_keytree_add-IsAdded :
    (libc : Libc) (t : Keytree) (word rest : Bytes) (path : List Slot) (data_ : ℕ)
    → HasMemory libc
    → IsWellHead t.lists
    → Spells t.flags word path
    → 0 < length word
    → IsAdded t path data_ (wg_keytree_add libc (some t) (some (elem_of word rest data_)))
unfolding wg_keytree_add IsWellKey
wg_keytree_add-IsAdded libc t [] rest path data_ m w sp lt = absurd (omega arith)
wg_keytree_add-IsAdded libc t (c ∷ cs) rest [] data_ m w sp lt = absurd sp
wg_keytree_add-IsAdded libc t (c ∷ cs) rest (s ∷ path) data_ m w sp lt =
    let p =
      parse_key-IsParsed libc t.flags data_ (c ∷ cs) rest (s ∷ path) false false
        (key false 0 t.lists) m sp w (λ e. cc) (inr lt) in
    rw (p.ran, parse_file_create_key)
      (IsAdded-root t (s ∷ path) data_ p.tree p.code p.out (omega arith) p.answers p.well p.grown)

-- Names with the same places are the same.
pub path_of-eq :
    (v w : Bytes) → IsName v → IsName w → relation (path_of v) (path_of w) ≡ itself → v ≡ w
unfolding relation
path_of-eq [] [] m n e = refl
path_of-eq [] (c ∷ cs) m n e = cc
path_of-eq (c ∷ cs) [] m n e = cc
path_of-eq (b ∷ bs) (c ∷ cs) m n e = elim (Bool-cases (same_slot (slot_of b) (slot_of c))) [
  | inr ne ↦ let wrong : apart ≡ itself = rw (ne, relation) at e in cc
  | inl eq ↦
      let rest : relation (path_of bs) (path_of cs) ≡ itself = rw (eq, relation) at e in
      let first =
        sym (slot_of-first b m.0)
        ∙ ap (λ s. first_char s.0 + s.1) (same_slot-eq (slot_of b) (slot_of c) eq)
        ∙ slot_of-first c n.0 in
      let others = path_of-eq bs cs m.1 n.1 rest in λ p. first p ∷ others p
]

pub relation_self : (word : List Slot) → relation word word ≡ itself
unfolding relation
relation_self [] = refl
relation_self ((kind, i) ∷ word) =
    let e : same_slot (kind, i) (kind, i) ≡ true = rw (same_kind_refl kind, (==_iff i i).1 refl) in
    rw (e, relation) (relation_self word)
