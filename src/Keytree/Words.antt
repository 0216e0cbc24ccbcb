-- ===== src/Keytree/Words.antt =====
-- The words that `wg_keytree_foreach` of kt/src/keytree.c visits.
use wtools.Prelude.{
  ℕ, zero, suc, ◌+◌, ◌-◌, ◌<◌, ◌≡◌, refl, sym, ap, ◌∙◌, arith, Bool, true, false, inl, inr, Option,
  none, some, List, [], ◌∷◌, length,
}
use wtools.Buffer.{Bytes}
use wtools.Keytree.{
  Key, key, KeyList, unallocated, allocated, Keys, end, absent, present, Kind, lower, upper, number,
  other, size, pick, Keytree,
}
use wtools.Keytree.Chars.{is_digit, is_upper, is_alnum}
use wtools.Keytree.Nodes.{
  Slot, child_in, child, node, length_keys, IsWellKey, IsWellHead, IsWellList,
}
use wtools.Keytree.Parsing.{follow, node-follow, IsWellList-pick}
use wtools.Keytree.Names.{slot_of, path_of, IsName}
use wtools.Keytree.Searching.{child-IsWellKey, lookup}
use wtools.Keytree.Walk.{walk_char}
use wtools.Keytree.Visits.{Visited, visits_key, visits}
use wtools.Keytree.Walking.{is_walked}
use wtools.Keytree.Shallow.{AllWalked, AllWalked-path_of}
use wtools.Keytree.Listing.{word_of, visits_key_complete, visits_sound}
use mathlib.Core.List.{Memᴰ}
use mathlib.Core.List.Memᴰ

-- Places inside the arrays.
abbrev InRange : List Slot → Type 0
InRange [] = Unit
InRange ((kind, i) ∷ q) = (i < size kind) × InRange q

child-inside :
    (n : ℕ) (list : KeyList) (i : ℕ) {k : Key} → IsWellList n list → child list i ≡ some k → i < n
unfolding IsWellKey
child-inside n unallocated i w e = cc
child-inside n (allocated nb ks) i {k} w e = rw (sym w.0) (inside ks i e)
  where
    inside : (ks : Keys) (i : ℕ) → child_in ks i ≡ some k → i < length_keys ks
    inside end i e = cc
    inside (absent ks) zero e = cc
    inside (present x ks) zero e = omega arith
    inside (absent ks) (suc i) e = omega (arith, inside ks i e)
    inside (present x ks) (suc i) e = omega (arith, inside ks i e)

node-InRange :
    (k : Key) (q : List Slot) (x : Bool × ℕ) → IsWellKey k → node k q ≡ some x → InRange q
node-InRange k [] x w there = tt
node-InRange (key e d h) ((kind, i) ∷ q) x w there =
    let there' = sym (node-follow e d h kind i q) ∙ there in
    let wh : IsWellHead h = unfold IsWellKey in w in
    below (child (pick kind h) i) refl there' (IsWellList-pick kind h wh)
      (λ k' w' t. node-InRange k' q x w' t)
  where
    below :
        (o : Option Key)
        → child (pick kind h) i ≡ o
        → follow o q ≡ some x
        → IsWellList (size kind) (pick kind h)
        → ((k' : Key) → IsWellKey k' → node k' q ≡ some x → InRange q)
        → (i < size kind) × InRange q
    below none at_ t w rest = cc
    below (some k') at_ t w rest = (
      child-inside (size kind) (pick kind h) i w at_,
      rest k' (child-IsWellKey (size kind) (pick kind h) i w k' at_) t,
    )

slot_of-walk_char :
    (kind : Kind) (i : ℕ)
    → is_walked kind ≡ true
    → i < size kind
    → slot_of (walk_char kind + i) ≡ (kind, i)
slot_of-walk_char lower i e lt =
    let d : is_digit (97 + i) ≡ false = ground arith in
    let u : is_upper (97 + i) ≡ false = ground arith in
    let same : 97 + i - 97 ≡ i = omega arith in rw (d, u, same)
slot_of-walk_char upper i e lt =
    let d : is_digit (65 + i) ≡ false = ground arith in
    let u : is_upper (65 + i) ≡ true = ground arith in
    let same : 65 + i - 65 ≡ i = omega arith in rw (d, u, same)
slot_of-walk_char number i e lt =
    let d : is_digit (48 + i) ≡ true = ground arith in
    let same : 48 + i - 48 ≡ i = omega arith in rw (d, same)
slot_of-walk_char other i e lt = cc

alnum-walk_char :
    (kind : Kind) (i : ℕ)
    → is_walked kind ≡ true
    → i < size kind
    → is_alnum (walk_char kind + i) ≡ true
alnum-walk_char lower i e lt = ground arith
alnum-walk_char upper i e lt = ground arith
alnum-walk_char number i e lt = ground arith
alnum-walk_char other i e lt = cc

path_of-word_of : (q : List Slot) → AllWalked q → InRange q → path_of (word_of q) ≡ q
path_of-word_of [] a r = refl
path_of-word_of ((kind, i) ∷ q) a r =
    λ p. slot_of-walk_char kind i a.0 r.0 p ∷ path_of-word_of q a.1 r.1 p

IsName-word_of : (q : List Slot) → AllWalked q → InRange q → IsName (word_of q)
IsName-word_of [] a r = tt
IsName-word_of ((kind, i) ∷ q) a r = (alnum-walk_char kind i a.0 r.0, IsName-word_of q a.1 r.1)

walk_char-slot_of : (c : ℕ) → is_alnum c ≡ true → walk_char (slot_of c).0 + (slot_of c).1 ≡ c
walk_char-slot_of c e = ground arith

word_of-path_of : (word : Bytes) → IsName word → word_of (path_of word) ≡ word
word_of-path_of [] n = refl
word_of-path_of (c ∷ cs) n = λ p. walk_char-slot_of c n.0 p ∷ word_of-path_of cs n.1 p

-- Every visit of a well-formed tree is of a name, which is not empty, with what the map of paths
-- has for it.
pub visits-lookup :
    (t : Keytree) (v : Visited)
    → IsWellHead t.lists
    → Memᴰ v (visits t.lists [])
    → IsName v.2 × (0 < length v.2) × (lookup t (path_of v.2) ≡ some (v.0, v.1))
unfolding IsWellKey
visits-lookup t v w m =
    let ((kind, i), q, a, there, str) = visits_sound t.lists [] v m in
    let there' = node-follow false 0 t.lists kind i q ∙ there in
    let r = node-InRange (key false 0 t.lists) ((kind, i) ∷ q) (v.0, v.1) w there' in
    rw str (
      IsName-word_of ((kind, i) ∷ q) a r,
      omega arith,
      ap (lookup t) (path_of-word_of ((kind, i) ∷ q) a r) ∙ there',
    )

-- Every name that is not empty is visited if the map of paths has it.
pub lookup-visits :
    (t : Keytree) (word : Bytes) (e : Bool) (d : ℕ)
    → IsName word
    → 0 < length word
    → lookup t (path_of word) ≡ some (e, d)
    → Memᴰ (e, d, word) (visits t.lists [])
unfolding visits_key
lookup-visits t [] e d n lt there = absurd (omega arith)
lookup-visits t (c ∷ cs) e d n lt there =
    let m =
      visits_key_complete (key false 0 t.lists) [] (path_of (c ∷ cs)) e d
        (AllWalked-path_of (c ∷ cs) n) there in
    let m' = Memᴰ.cast (λ i. (e, d, sym (word_of-path_of (c ∷ cs) n) i)) m in
    elim (Memᴰ.cases_cons m') [
      | inl same ↦ let str : c ∷ cs ≡ [] = ap (λ x. x.2) same in cc
      | inr below ↦ below
    ]
