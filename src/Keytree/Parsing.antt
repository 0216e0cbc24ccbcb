-- ===== src/Keytree/Parsing.antt =====
-- A key of the tree of kt/src/keytree.c with a child stored anew, path by path.
use wtools.Prelude.{
  ℕ, ◌≡◌, inl, inr, refl, sym, ap, ◌∙◌, arith, Bool, true, false, Bool-cases, Option, none, some,
  List, ◌∷◌, ◌==◌, ==_iff, if◌then◌else◌,
}
use wtools.Keytree.{
  Key, key, KeyList, allocated, Keys, Head, head, Kind, lower, upper, number, other, same_kind,
  size, pick, put,
}
use wtools.Keytree.Nodes.{
  Slot, same_slot, child_in, child, node, IsWellKey, IsWellHead, IsWellList, IsStored,
}
use wtools.Keytree.Adding.{IsReady}

pick-put_same : (kind : Kind) (x : KeyList) (h : Head) → pick kind (put kind x h) ≡ x
pick-put_same lower x (head l u n o) = refl
pick-put_same upper x (head l u n o) = refl
pick-put_same number x (head l u n o) = refl
pick-put_same other x (head l u n o) = refl

pick-put_other :
    (a b : Kind) (x : KeyList) (h : Head) → same_kind a b ≡ false → pick a (put b x h) ≡ pick a h
pick-put_other lower lower x (head l u n o) ne = cc
pick-put_other lower upper x (head l u n o) ne = refl
pick-put_other lower number x (head l u n o) ne = refl
pick-put_other lower other x (head l u n o) ne = refl
pick-put_other upper lower x (head l u n o) ne = refl
pick-put_other upper upper x (head l u n o) ne = cc
pick-put_other upper number x (head l u n o) ne = refl
pick-put_other upper other x (head l u n o) ne = refl
pick-put_other number lower x (head l u n o) ne = refl
pick-put_other number upper x (head l u n o) ne = refl
pick-put_other number number x (head l u n o) ne = cc
pick-put_other number other x (head l u n o) ne = refl
pick-put_other other lower x (head l u n o) ne = refl
pick-put_other other upper x (head l u n o) ne = refl
pick-put_other other number x (head l u n o) ne = refl
pick-put_other other other x (head l u n o) ne = cc

pub same_kind-eq : (a b : Kind) → same_kind a b ≡ true → a ≡ b
same_kind-eq lower lower e = refl
same_kind-eq lower upper e = cc
same_kind-eq lower number e = cc
same_kind-eq lower other e = cc
same_kind-eq upper lower e = cc
same_kind-eq upper upper e = refl
same_kind-eq upper number e = cc
same_kind-eq upper other e = cc
same_kind-eq number lower e = cc
same_kind-eq number upper e = cc
same_kind-eq number number e = refl
same_kind-eq number other e = cc
same_kind-eq other lower e = cc
same_kind-eq other upper e = cc
same_kind-eq other number e = cc
same_kind-eq other other e = refl

pub same_kind_refl : (a : Kind) → same_kind a a ≡ true
same_kind_refl lower = refl
same_kind_refl upper = refl
same_kind_refl number = refl
same_kind_refl other = refl

pub IsWellList-pick : (kind : Kind) (h : Head) → IsWellHead h → IsWellList (size kind) (pick kind h)
unfolding IsWellKey
IsWellList-pick lower (head l u n o) w = w.0
IsWellList-pick upper (head l u n o) w = w.1
IsWellList-pick number (head l u n o) w = w.2
IsWellList-pick other (head l u n o) w = w.3

IsWellHead-put :
    (kind : Kind) (x : KeyList) (h : Head)
    → IsWellHead h
    → IsWellList (size kind) x
    → IsWellHead (put kind x h)
unfolding IsWellKey
IsWellHead-put lower x (head l u n o) w v = (v, w.1, w.2, w.3)
IsWellHead-put upper x (head l u n o) w v = (w.0, v, w.2, w.3)
IsWellHead-put number x (head l u n o) w v = (w.0, w.1, v, w.3)
IsWellHead-put other x (head l u n o) w v = (w.0, w.1, w.2, v)

abbrev pub follow : Option Key → List Slot → Option (Bool × ℕ)
follow none q = none
follow (some k) q = node k q

pub node-follow :
    (e : Bool) (d : ℕ) (h : Head) (a : Kind) (j : ℕ) (q : List Slot)
    → node (key e d h) ((a, j) ∷ q) ≡ follow (child (pick a h) j) q
unfolding node
node-follow e d h a j q =
    elim (child (pick a h) j) as (λ o. (elim o [ none ↦ none | some k ↦ node k q ]) ≡ follow o q) [
      | none ↦ refl
      | some k ↦ refl
    ]

-- A key with its child at a place stored anew: every path below it.
module _ (e : Bool) (d : ℕ) (h : Head) (kind : Kind) (i nb : ℕ) (ks ks' : Keys) (c c' : Key)
    (new : Bool) (ready : IsReady (size kind) (pick kind h) i nb ks c new)
    (s : IsStored ks ks' i c' 0) where
  abbrev pub placed : Key
  placed = key e d (put kind (allocated nb ks') h)

  child-placed : (j : ℕ) → (j == i) ≡ false → child (allocated nb ks') j ≡ child (pick kind h) j
  child-placed j ne = rw (s.elsewhere j ne, child_in) (ready.elsewhere j ne)

  node_at_kind :
      (j : ℕ) (q : List Slot)
      → node placed ((kind, j) ∷ q)
        ≡ (if same_slot (kind, j) (kind, i) then node c' q else node (key e d h) ((kind, j) ∷ q))
  node_at_kind j q =
      node-follow e d (put kind (allocated nb ks') h) kind j q
      ∙ ap (λ l. follow (child l j) q) (pick-put_same kind (allocated nb ks') h)
      ∙ elim (Bool-cases (j == i)) [
        | inl here ↦
            let got : child_in ks' i ≡ some c' = rw (s.there, child_in) in
            let stored : follow (child_in ks' j) q ≡ node c' q =
              rw ((==_iff j i).0 here) (ap (λ o. follow o q) got) in
            stored ∙ rw (same_kind_refl kind, here)
        | inr away ↦
            ap (λ o. follow o q) (child-placed j away)
            ∙ sym (node-follow e d h kind j q)
            ∙ rw (same_kind_refl kind, away)
      ]

  pub node-placed :
      (t : Slot) (q : List Slot)
      → node placed (t ∷ q)
        ≡ (if same_slot t (kind, i) then node c' q else node (key e d h) (t ∷ q))
  node-placed (a, j) q = elim (Bool-cases (same_kind a kind)) [
    | inr ne ↦
        node-follow e d (put kind (allocated nb ks') h) a j q
        ∙ ap (λ l. follow (child l j) q) (pick-put_other a kind (allocated nb ks') h ne)
        ∙ sym (node-follow e d h a j q)
        ∙ rw ne
    | inl eq ↦ rw (same_kind-eq a kind eq) (node_at_kind j q)
  ]

  pub IsWellKey-placed : IsWellHead h → IsWellKey c' → IsWellKey placed
  unfolding IsWellKey
  IsWellKey-placed w v =
      IsWellHead-put kind (allocated nb ks') h w
        (s.same_length ∙ ready.sized, omega (arith, ready.counted, s.counted), s.well v ready.well)
