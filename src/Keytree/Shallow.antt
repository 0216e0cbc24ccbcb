-- ===== src/Keytree/Shallow.antt =====
-- How long the words of a tree of kt/src/keytree.c are, from its map of paths.
use wtools.Prelude.{
  ℕ, zero, suc, ◌≤◌, ◌<◌, ◌≡◌, ◌≢◌, refl, sym, ap, ◌∙◌, arith, Bool, true, false, Bool-cases, inl,
  inr, Option, some, List, [], ◌∷◌, length,
}
use wtools.Buffer.{Bytes}
use wtools.Keytree.{
  Key, key, KeyList, unallocated, allocated, Keys, end, absent, present, Head, head, Kind, lower,
  upper, number, other, pick, get, Keytree,
}
use wtools.Keytree.Nodes.{
  Slot, same_slot, child_in, child, node, Relation, itself, above, apart, relation, expect, count,
  IsWellKey, IsWellHead, IsWellList, IsWellKeys,
}
use wtools.Keytree.Growing.{same_slot-eq}
use wtools.Keytree.Parsing.{follow, node-follow}
use wtools.Keytree.Names.{path_of, IsName}
use wtools.Keytree.Searching.{lookup}
use wtools.Keytree.Walking.{is_walked}
use wtools.Keytree.Visits.{keys_of, IsShallowKey, IsShallow, IsShallowList, IsShallowKeys}

-- Paths of letters and digits, and those of at most `room` of them.
abbrev pub AllWalked : List Slot → Type 0
AllWalked [] = Unit
AllWalked (s ∷ q) = (is_walked s.0 ≡ true) × AllWalked q

abbrev pub IsShort : ℕ → List Slot → Type 0
IsShort room q = (length q ≤ room) × AllWalked q

-- All the paths below a key are short.
abbrev Paths : ℕ → Key → Type 0
Paths room k = (q : List Slot) (x : Bool × ℕ) → node k q ≡ some x → IsShort room q

-- The same for the keys of an array in a list.
abbrev KeysPaths : ℕ → Kind → Keys → Type 0
KeysPaths room kind ks =
    (j : ℕ) (k : Key)
    → get ks j ≡ some (some k)
    → (q : List Slot) (x : Bool × ℕ) → node k q ≡ some x
    → (length q < room) × (is_walked kind ≡ true) × AllWalked q

node_self : (k : Key) → (x : Bool × ℕ) × (node k [] ≡ some x)
unfolding node
node_self (key e d h) = ((e, d), refl)

list-Paths :
    (room : ℕ) (e : Bool) (d : ℕ) (h : Head) (kind : Kind) (nb : ℕ) (ks : Keys)
    → Paths room (key e d h)
    → pick kind h ≡ allocated nb ks
    → KeysPaths room kind ks
list-Paths room e d h kind nb ks p at_ j k got q x there =
    let found : child_in ks j ≡ some k = rw (got, child_in) in
    let short = p ((kind, j) ∷ q) x (
      node-follow e d h kind j q
      ∙ ap (λ l. follow (child l j) q) at_
      ∙ ap (λ o. follow o q) found
      ∙ there) in
    (omega (arith, short.0), short.1.0, short.1.1)

other-empty : (room : ℕ) (ks : Keys) → KeysPaths room other ks → count ks ≡ 0
other-empty room end p = refl
other-empty room (absent ks) p =
    other-empty room ks (λ j k got q x there. p (suc j) k got q x there)
other-empty room (present k ks) p =
    let (x, self) = node_self k in let no = (p 0 k refl [] x self).1 in cc

other-unused :
    (room : ℕ) (n : ℕ) (o : KeyList)
    → IsWellList n o
    → ((nb : ℕ) (ks : Keys) → o ≡ allocated nb ks → KeysPaths room other ks)
    → keys_of o ≡ 0
unfolding IsWellKey
other-unused room n unallocated w p = refl
other-unused room n (allocated nb ks) w p = w.1 ∙ other-empty room ks (p nb ks refl)

mutual
  unfolding IsWellKey IsShallowKey

  IsShallowKey-Paths : (room : ℕ) (k : Key) → IsWellKey k → Paths room k → IsShallowKey room k
  IsShallowKey-Paths room (key e d (head l u n o)) w p =
      let in_list : (kind : Kind) (nb : ℕ) (ks : Keys)
          → pick kind (head l u n o) ≡ allocated nb ks
          → KeysPaths room kind ks =
        λ kind nb ks at_. list-Paths room e d (head l u n o) kind nb ks p at_ in
      (
        IsShallowList-Paths room 26 l lower w.0 (in_list lower),
        IsShallowList-Paths room 26 u upper w.1 (in_list upper),
        IsShallowList-Paths room 10 n number w.2 (in_list number),
        other-unused room 26 o w.3 (in_list other),
      )

  IsShallowList-Paths :
      (room n : ℕ) (list : KeyList) (kind : Kind)
      → IsWellList n list
      → ((nb : ℕ) (ks : Keys) → list ≡ allocated nb ks → KeysPaths room kind ks)
      → IsShallowList room list
  IsShallowList-Paths room n unallocated kind w p = tt
  IsShallowList-Paths room n (allocated nb ks) kind w p =
      IsShallowKeys-Paths room ks kind w.2 (p nb ks refl)

  IsShallowKeys-Paths :
      (room : ℕ) (ks : Keys) (kind : Kind)
      → IsWellKeys ks
      → KeysPaths room kind ks
      → IsShallowKeys room ks
  IsShallowKeys-Paths room end kind w p = tt
  IsShallowKeys-Paths room (absent ks) kind w p =
      IsShallowKeys-Paths room ks kind w (λ j k got q x there. p (suc j) k got q x there)
  IsShallowKeys-Paths zero (present k ks) kind w p =
      let (x, self) = node_self k in let lt = (p 0 k refl [] x self).0 in absurd (omega arith)
  IsShallowKeys-Paths (suc room) (present k ks) kind w p = (
    IsShallowKey-Paths room k w.0
        (λ q x there. let short = p 0 k refl q x there in (omega (arith, short.0), short.2)),
    IsShallowKeys-Paths (suc room) ks kind w.1 (λ j k got q x there. p (suc j) k got q x there),
  )

-- A tree all of whose paths are short.
abbrev pub HasShortWords : ℕ → Keytree → Type 0
HasShortWords room t = (q : List Slot) (x : Bool × ℕ) → lookup t q ≡ some x → IsShort room q

pub IsShallow-HasShortWords :
    (room : ℕ) (t : Keytree) → IsWellHead t.lists → HasShortWords room t → IsShallow room t.lists
unfolding IsWellKey IsShallowKey
IsShallow-HasShortWords room t w p = IsShallowKey-Paths room (key false 0 t.lists) w p

pub AllWalked-path_of : (word : Bytes) → IsName word → AllWalked (path_of word)
AllWalked-path_of [] n = tt
AllWalked-path_of (c ∷ cs) n = (ground arith, AllWalked-path_of cs n.1)

length-path_of : (word : Bytes) → length (path_of word) ≡ length word
length-path_of [] = refl
length-path_of (c ∷ cs) = omega (arith, length-path_of cs)

-- What is not apart from a short path is short.
IsShort-prefix :
    (room : ℕ) (q path : List Slot) → IsShort room path → relation q path ≢ apart → IsShort room q
unfolding relation
IsShort-prefix room [] path s ne = (omega arith, tt)
IsShort-prefix room (t ∷ q) [] s ne = absurd (ne refl)
IsShort-prefix zero (t ∷ q) (s ∷ path) short ne = absurd (omega (arith, short.0))
IsShort-prefix (suc room) (t ∷ q) (s ∷ path) short ne = elim (Bool-cases (same_slot t s)) [
  | inr away ↦ absurd (ne (rw (away, relation)))
  | inl eq ↦
      let rest =
        IsShort-prefix room q path (omega (arith, short.0), short.1.1)
          (λ e. ne (rw (eq, relation) e)) in
      (omega (arith, rest.0), (ap (λ s. is_walked s.0) (same_slot-eq t s eq) ∙ short.1.0, rest.1))
]

-- A word of at most `room` letters and digits leaves the words short.
pub HasShortWords-add :
    (room : ℕ) (t tree : Keytree) (word : Bytes) (data_ : ℕ)
    → HasShortWords room t
    → IsName word
    → length word ≤ room
    → ((q : List Slot) → lookup tree q ≡ expect (relation q (path_of word)) (lookup t q) data_)
    → HasShortWords room tree
HasShortWords-add room t tree word data_ p n le grown q x there =
    let short : IsShort room (path_of word) =
      (omega (arith, le, length-path_of word), AllWalked-path_of word n) in
    from (relation q (path_of word)) (lookup t q) (IsShort-prefix room q (path_of word) short) (p q)
      (sym (grown q) ∙ there)
  where
    from :
        (r : Relation) (o : Option (Bool × ℕ))
        → (r ≢ apart → IsShort room q)
        → ((x : Bool × ℕ) → o ≡ some x → IsShort room q)
        → expect r o data_ ≡ some x
        → IsShort room q
    from itself o within before e = within (λ r. cc)
    from above o within before e = within (λ r. cc)
    from apart o within before e = before x e
