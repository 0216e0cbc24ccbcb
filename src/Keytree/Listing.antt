-- ===== src/Keytree/Listing.antt =====
-- The keys that `wg_keytree_foreach` of kt/src/keytree.c visits, and the map of paths.
use wtools.Prelude.{
  ℕ, zero, suc, ◌+◌, ◌≡◌, refl, sym, ap, ◌∙◌, arith, Bool, inl, inr, Option, none, some, List, [],
  ◌∷◌, ◌++◌,
}
use wtools.Buffer.{Bytes}
use wtools.Keytree.{
  Key, key, KeyList, unallocated, allocated, Keys, end, absent, present, Head, head, Kind, lower,
  upper, number, other, pick, get,
}
use wtools.Keytree.Nodes.{Slot, child_in, child, node}
use wtools.Keytree.Parsing.{follow, node-follow}
use wtools.Keytree.Walk.{walk_char}
use wtools.Keytree.Visits.{Visited, visits_key, visits, visits_list, visits_keys}
use wtools.Keytree.Shallow.{AllWalked}
use mathlib.Core.List.{Memᴰ, append-nil, append_assoc}
use mathlib.Core.List.Memᴰ

-- The characters of a path.
abbrev pub word_of : List Slot → Bytes
word_of [] = []
word_of ((kind, i) ∷ q) = (walk_char kind + i) ∷ word_of q

-- What a child is in its list.
child-get :
    (ks : Keys) (j : ℕ) (q : List Slot) (x : Bool × ℕ)
    → follow (child_in ks j) q ≡ some x
    → (k : Key) × (get ks j ≡ some (some k)) × (node k q ≡ some x)
child-get ks j q x e = held (get ks j) e
  where
    held :
        (o : Option (Option Key))
        → follow (elim o [ none ↦ none | some found ↦ found ]) q ≡ some x
        → (k : Key) × (o ≡ some (some k)) × (node k q ≡ some x)
    held none e = cc
    held (some none) e = cc
    held (some (some k)) e = (k, refl, e)

-- Equal places in an array, and equal strings behind a key.
cast_place :
    {vs : List Visited} (e : Bool) (d : ℕ) (p_str : Bytes) (c : ℕ) {c' : ℕ} (q : Bytes)
    → c' ≡ c
    → Memᴰ (e, d, p_str ++ (c ∷ q)) vs
    → Memᴰ (e, d, p_str ++ (c' ∷ q)) vs
cast_place e d p_str c q same m = Memᴰ.cast (λ i. (e, d, p_str ++ (same i ∷ q))) m

cast_longer :
    {vs : List Visited} (e : Bool) (d : ℕ) (p_str : Bytes) (c : ℕ) {c' : ℕ} (q : Bytes)
    → c' ≡ c
    → Memᴰ (e, d, (p_str ++ (c ∷ [])) ++ q) vs
    → Memᴰ (e, d, p_str ++ (c' ∷ q)) vs
cast_longer e d p_str c q same m =
    cast_place e d p_str c q same (Memᴰ.cast (λ i. (e, d, sym (append_assoc p_str (c ∷ []) q) i)) m)

mutual
  unfolding node visits_key

  pub visits_key_complete :
      (k : Key) (p_str : Bytes) (q : List Slot) (e : Bool) (d : ℕ)
      → AllWalked q
      → node k q ≡ some (e, d)
      → Memᴰ (e, d, p_str ++ word_of q) (visits_key k p_str)
  visits_key_complete (key e0 d0 h) p_str [] e d a there =
      Memᴰ.head
        (let e' : e ≡ e0 = cc in let d' : d ≡ d0 = cc in λ i. (e' i, d' i, append-nil p_str i))
  visits_key_complete (key e0 d0 (head l u n o)) p_str ((lower, j) ∷ q) e d a there = Memᴰ.tail (
      Memᴰ.append_left _ (
        visits_list_complete l lower p_str j q e d a.1
          (sym (node-follow e0 d0 (head l u n o) lower j q) ∙ there)))
  visits_key_complete (key e0 d0 (head l u n o)) p_str ((upper, j) ∷ q) e d a there = Memᴰ.tail (
      Memᴰ.append_right (visits_list l lower p_str) (
        Memᴰ.append_left _ (
          visits_list_complete u upper p_str j q e d a.1
            (sym (node-follow e0 d0 (head l u n o) upper j q) ∙ there))))
  visits_key_complete (key e0 d0 (head l u n o)) p_str ((number, j) ∷ q) e d a there = Memᴰ.tail (
      Memᴰ.append_right (visits_list l lower p_str) (
        Memᴰ.append_right (visits_list u upper p_str) (
          visits_list_complete n number p_str j q e d a.1
            (sym (node-follow e0 d0 (head l u n o) number j q) ∙ there))))
  visits_key_complete k p_str ((other, j) ∷ q) e d a there = cc

  visits_list_complete :
      (list : KeyList) (kind : Kind) (p_str : Bytes) (j : ℕ) (q : List Slot) (e : Bool) (d : ℕ)
      → AllWalked q
      → follow (child list j) q ≡ some (e, d)
      → Memᴰ (e, d, p_str ++ word_of ((kind, j) ∷ q)) (visits_list list kind p_str)
  visits_list_complete unallocated kind p_str j q e d a there = cc
  visits_list_complete (allocated nb ks) kind p_str j q e d a there =
      let (k, got, at_) = child-get ks j q (e, d) there in
      cast_place e d p_str (walk_char kind + (0 + j)) (word_of q) (omega arith)
        (visits_keys_complete ks kind 0 p_str j q e d k a got at_)

  visits_keys_complete :
      (ks : Keys) (kind : Kind) (i : ℕ) (p_str : Bytes) (j : ℕ) (q : List Slot) (e : Bool) (d : ℕ)
      (k : Key)
      → AllWalked q
      → get ks j ≡ some (some k)
      → node k q ≡ some (e, d)
      → Memᴰ (e, d, p_str ++ word_of ((kind, i + j) ∷ q)) (visits_keys ks kind i p_str)
  visits_keys_complete end kind i p_str j q e d k a got there = cc
  visits_keys_complete (absent ks) kind i p_str zero q e d k a got there = cc
  visits_keys_complete (absent ks) kind i p_str (suc j) q e d k a got there =
      cast_place e d p_str (walk_char kind + (i + 1 + j)) (word_of q) (omega arith)
        (visits_keys_complete ks kind (i + 1) p_str j q e d k a got there)
  visits_keys_complete (present x ks) kind i p_str zero q e d k a got there = Memᴰ.append_left _ (
      cast_longer e d p_str (walk_char kind + i) (word_of q) (omega arith) (
        visits_key_complete x (p_str ++ ((walk_char kind + i) ∷ [])) q e d a
          (let same : x ≡ k = cc in rw same there)))
  visits_keys_complete (present x ks) kind i p_str (suc j) q e d k a got there =
      Memᴰ.append_right (visits_key x (p_str ++ ((walk_char kind + i) ∷ []))) (
        cast_place e d p_str (walk_char kind + (i + 1 + j)) (word_of q) (omega arith)
          (visits_keys_complete ks kind (i + 1) p_str j q e d k a got there))

mutual
  unfolding node visits_key

  visits_key_sound :
      (k : Key) (p_str : Bytes) (v : Visited)
      → Memᴰ v (visits_key k p_str)
      → (q : List Slot) × (AllWalked q) × (node k q ≡ some (v.0, v.1)) × (v.2 ≡ p_str ++ word_of q)
  visits_key_sound (key e d h) p_str v (Memᴰ.head same) = (
    [],
    tt,
    (λ i. some ((sym same i).0, (sym same i).1)),
    ap (λ x. x.2) same ∙ sym (append-nil p_str),
  )
  visits_key_sound (key e d h) p_str v (Memᴰ.tail m) =
      let (s, q, a, there, str) = visits_sound h p_str v m in
      (s ∷ q, a, node-follow e d h s.0 s.1 q ∙ there, str)

  pub visits_sound :
      (h : Head) (p_str : Bytes) (v : Visited)
      → Memᴰ v (visits h p_str)
      → (s : Slot) × (q : List Slot) × (AllWalked (s ∷ q))
        × (follow (child (pick s.0 h) s.1) q ≡ some (v.0, v.1))
        × (v.2 ≡ p_str ++ word_of (s ∷ q))
  visits_sound (head l u n o) p_str v m = elim (Memᴰ.append_cases (visits_list l lower p_str) m) [
    | inl here ↦
        let (j, q, a, there, str) = visits_list_sound l lower p_str v here in
        ((lower, j), q, (refl, a), there, str)
    | inr later ↦ elim (Memᴰ.append_cases (visits_list u upper p_str) later) [
      | inl here ↦
          let (j, q, a, there, str) = visits_list_sound u upper p_str v here in
          ((upper, j), q, (refl, a), there, str)
      | inr here ↦
          let (j, q, a, there, str) = visits_list_sound n number p_str v here in
          ((number, j), q, (refl, a), there, str)
    ]
  ]

  visits_list_sound :
      (list : KeyList) (kind : Kind) (p_str : Bytes) (v : Visited)
      → Memᴰ v (visits_list list kind p_str)
      → (j : ℕ) × (q : List Slot) × (AllWalked q)
        × (follow (child list j) q ≡ some (v.0, v.1))
        × (v.2 ≡ p_str ++ word_of ((kind, j) ∷ q))
  visits_list_sound unallocated kind p_str v m = absurd (Memᴰ.not-nil m)
  visits_list_sound (allocated nb ks) kind p_str v m =
      let (j, q, a, there, str) = visits_keys_sound ks kind 0 p_str v m in
      (j, q, a, there, str ∙ ap (λ n. p_str ++ ((walk_char kind + n) ∷ word_of q)) (omega arith))

  visits_keys_sound :
      (ks : Keys) (kind : Kind) (i : ℕ) (p_str : Bytes) (v : Visited)
      → Memᴰ v (visits_keys ks kind i p_str)
      → (j : ℕ) × (q : List Slot) × (AllWalked q)
        × (follow (child_in ks j) q ≡ some (v.0, v.1))
        × (v.2 ≡ p_str ++ word_of ((kind, i + j) ∷ q))
  visits_keys_sound end kind i p_str v m = absurd (Memᴰ.not-nil m)
  visits_keys_sound (absent ks) kind i p_str v m =
      let (j, q, a, there, str) = visits_keys_sound ks kind (i + 1) p_str v m in
      (
        suc j,
        q,
        a,
        there,
        str ∙ ap (λ n. p_str ++ ((walk_char kind + n) ∷ word_of q)) (omega arith),
      )
  visits_keys_sound (present x ks) kind i p_str v m =
      elim (Memᴰ.append_cases (visits_key x (p_str ++ ((walk_char kind + i) ∷ []))) m) [
        | inl here ↦
            let (q, a, there, str) =
              visits_key_sound x (p_str ++ ((walk_char kind + i) ∷ [])) v here in
            (
              0,
              q,
              a,
              there,
              str
                  ∙ append_assoc p_str ((walk_char kind + i) ∷ []) (word_of q)
                  ∙ ap (λ n. p_str ++ ((walk_char kind + n) ∷ word_of q)) (omega arith),
            )
        | inr later ↦
            let (j, q, a, there, str) = visits_keys_sound ks kind (i + 1) p_str v later in
            (
              suc j,
              q,
              a,
              there,
              str ∙ ap (λ n. p_str ++ ((walk_char kind + n) ∷ word_of q)) (omega arith),
            )
      ]
