-- ===== src/Json/Tools/Alike.antt =====
-- What it takes that the trees of bkv/json/tools/src/bkv_json_tools.c compare as equal.
use wtools.Prelude.{
  ℕ, zero, suc, ◌≡◌, refl, sym, ◌∙◌, true, false, Option, none, some, [], ◌∷◌, ◌==◌, ==_iff,
  if◌then◌else◌, Bool-cases, inl, inr, arith, ◌+◌, ◌++◌, length, length-append,
}
use wtools.Prelude.Int.{ℤ, pos, negsuc, minus_one, eqb_ℤ}
use wtools.Prelude.Chain.{◌>>=◌, bind-eq-some}
use wtools.Buffer.{Bytes, load, read_all}
use wtools.Buffer.Laws.{store_all_full, get_elem?-append_back}
use wtools.Libc.{Libc}
use wtools.Bkv.{inv_arg}
use wtools.Bkv.Append.{read_all_whole}
use mathlib.Core.List.{append_assoc}
use wtools.Json.Tools.{
  Node, string, number, object, array, yes, no, null, Members, end, member, Elems, nil, elem,
  node_type, number_of, object_of, values_of, same_string, json_tools_node_compare, members_compare,
  elems_compare, on_type, below_thousandth, not_abs, terminated, bkv_json_tools_compare,
}
use mathlib.Core.Logic.{◌↔◌}
use mathlib.Core.Option.{some_inj}

same_string-eq : (s t : Bytes) → same_string s t ≡ true → s ≡ t
same_string-eq [] [] e = refl
same_string-eq [] (d ∷ t) e = cc
same_string-eq (c ∷ s) [] e = cc
same_string-eq (c ∷ s) (d ∷ t) e = elim (Bool-cases (c == d)) [
  | inl q ↦ (let same = same_string-eq s t (rw q at e) in cc ((==_iff c d).0 q, same))
  | inr q ↦ (let absurd' = rw q at e in cc absurd')
]

same_string_self : (s : Bytes) → same_string s s ≡ true
same_string_self [] = refl
same_string_self (c ∷ s) = rw ((==_iff c c).1 refl) (same_string_self s)

zero_suc : (n : ℕ) → (0 == suc n) ≡ false
zero_suc n = ground arith

module _ {D : Type 0} (minus : D → D → ℤ) where
  -- The same type and: numbers that differ by less than 1; the members of an object in the same
  -- order under the same keys, with what is alike, at the start of those of the other; the first
  -- elements alike. Nothing is asked of strings.
  unfoldable mutual
    pub Alike : Node D → Node D → Type 0
    Alike (string s) b = node_type b ≡ 1
    Alike (number d) b = (node_type b ≡ 2) × (e : D) × (number_of b ≡ some e) × (minus d e ≡ pos 0)
    Alike (object ms) b =
        (node_type b ≡ 3) × (ns : Members D) × (object_of b ≡ some ns) × Begins ms ns
    Alike (array n vs) b =
        (node_type b ≡ 4) × (ws : Elems D) × (values_of b ≡ some ws) × AlikeUpTo n vs ws
    Alike yes b = node_type b ≡ 5
    Alike no b = node_type b ≡ 6
    Alike null b = node_type b ≡ 7

    pub Begins : Members D → Members D → Type 0
    Begins end ns = Unit
    Begins (member k v ms) end = ⊥
    Begins (member k v ms) (member l w ns) = (k ≡ l) × Alike v w × Begins ms ns

    pub AlikeUpTo : ℕ → Elems D → Elems D → Type 0
    AlikeUpTo zero vs ws = Unit
    AlikeUpTo (suc n) nil ws = ⊥
    AlikeUpTo (suc n) (elem v vs) nil = ⊥
    AlikeUpTo (suc n) (elem v vs) (elem w ws) = Alike v w × AlikeUpTo n vs ws

  -- A result of 0 lets the loop go on.
  went_on :
      (o rest : Option ℤ)
      → (o >>= λ r. if eqb_ℤ (pos 0) r then rest else some minus_one) ≡ some (pos 0)
      → (o ≡ some (pos 0)) × (rest ≡ some (pos 0))
  went_on none rest e = cc
  went_on (some (pos zero)) rest e = (refl, e)
  went_on (some (pos (suc n))) rest e = let wrong = rw (zero_suc n) at e in cc wrong
  went_on (some (negsuc n)) rest e = cc

  -- A comparison with the result 0 was of equal types.
  of_type :
      (type : ℕ) (b : Node D) (result : Option ℤ)
      → on_type type b result ≡ some (pos 0)
      → (node_type b ≡ type) × (result ≡ some (pos 0))
  of_type type b result e = elim (Bool-cases (type == node_type b)) [
    | inl q ↦ (sym ((==_iff type (node_type b)).0 q), rw q at e)
    | inr q ↦ (let wrong = rw q at e in cc wrong)
  ]

  on_its_type :
      (type : ℕ) (b : Node D) (result : Option ℤ)
      → node_type b ≡ type
      → on_type type b result ≡ result
  on_its_type type b result e = rw ((==_iff type (node_type b)).1 (sym e)) refl

  close_by :
      (x : ℤ)
      → some (if below_thousandth (not_abs x) then minus_one else pos 0) ≡ some (pos 0)
      → x ≡ pos 0
  close_by (pos zero) e = refl
  close_by (pos (suc n)) e = let wrong = rw (zero_suc n) at e in cc wrong
  close_by (negsuc n) e = cc

  mutual
    unfolding json_tools_node_compare Alike

    equal-Alike : (a b : Node D) → json_tools_node_compare minus a b ≡ some (pos 0) → Alike a b
    equal-Alike (string s) b e = (of_type 1 b _ e).0
    equal-Alike (number d) b e =
        let (k, found) = of_type 2 b _ e in
        let (n, q, close) = bind-eq-some (number_of b) _ found in
        (k, n, q, close_by (minus d n) close)
    equal-Alike (object ms) b e =
        let (k, found) = of_type 3 b _ e in
        let (ns, q, begun) = bind-eq-some (object_of b) _ found in
        (k, ns, q, equal-Begins ms ns begun)
    equal-Alike (array n vs) b e =
        let (k, found) = of_type 4 b _ e in
        let (ws, q, begun) = bind-eq-some (values_of b) _ found in
        (k, ws, q, equal-AlikeUpTo vs ws n begun)
    equal-Alike yes b e = (of_type 5 b _ e).0
    equal-Alike no b e = (of_type 6 b _ e).0
    equal-Alike null b e = (of_type 7 b _ e).0

    equal-Begins : (ms ns : Members D) → members_compare minus ms ns ≡ some (pos 0) → Begins ms ns
    equal-Begins end ns e = tt
    equal-Begins (member k v ms) end e = cc
    equal-Begins (member k v ms) (member l w ns) e = elim (Bool-cases (same_string k l)) [
      | inl q ↦
          (let (here, later) =
              went_on (json_tools_node_compare minus v w) (members_compare minus ms ns)
                (rw q at e) in
            (same_string-eq k l q, equal-Alike v w here, equal-Begins ms ns later))
      | inr q ↦ (let wrong = rw q at e in cc wrong)
    ]

    equal-AlikeUpTo :
        (vs ws : Elems D) (n : ℕ) → elems_compare minus n vs ws ≡ some (pos 0) → AlikeUpTo n vs ws
    equal-AlikeUpTo nil ws zero e = tt
    equal-AlikeUpTo nil ws (suc n) e = cc
    equal-AlikeUpTo (elem v vs) ws zero e = tt
    equal-AlikeUpTo (elem v vs) nil (suc n) e = cc
    equal-AlikeUpTo (elem v vs) (elem w ws) (suc n) e =
        let (here, later) =
          went_on (json_tools_node_compare minus v w) (elems_compare minus n vs ws) e in
        (equal-Alike v w here, equal-AlikeUpTo vs ws n later)

  mutual
    unfolding json_tools_node_compare Alike

    Alike-equal : (a b : Node D) → Alike a b → json_tools_node_compare minus a b ≡ some (pos 0)
    Alike-equal (string s) b k = on_its_type 1 b _ k
    Alike-equal (number d) b (k, n, q, close) = on_its_type 2 b _ k ∙ rw (q, close) refl
    Alike-equal (object ms) b (k, ns, q, begun) =
        on_its_type 3 b _ k ∙ rw q (begun_equal ms ns begun)
    Alike-equal (array n vs) b (k, ws, q, begun) =
        on_its_type 4 b _ k ∙ rw q (up_to_equal vs ws n begun)
    Alike-equal yes b k = on_its_type 5 b _ k
    Alike-equal no b k = on_its_type 6 b _ k
    Alike-equal null b k = on_its_type 7 b _ k

    begun_equal : (ms ns : Members D) → Begins ms ns → members_compare minus ms ns ≡ some (pos 0)
    begun_equal end ns h = refl
    begun_equal (member k v ms) end h = absurd h
    begun_equal (member k v ms) (member l w ns) (q, h, hs) =
        rw (sym q, same_string_self k, Alike-equal v w h) (begun_equal ms ns hs)

    up_to_equal :
        (vs ws : Elems D) (n : ℕ) → AlikeUpTo n vs ws → elems_compare minus n vs ws ≡ some (pos 0)
    up_to_equal nil ws zero h = refl
    up_to_equal nil ws (suc n) h = absurd h
    up_to_equal (elem v vs) ws zero h = refl
    up_to_equal (elem v vs) nil (suc n) h = absurd h
    up_to_equal (elem v vs) (elem w ws) (suc n) (h, hs) =
        rw (Alike-equal v w h) (up_to_equal vs ws n hs)

  node_compare-Alike :
      (a b : Node D) → (json_tools_node_compare minus a b ≡ some (pos 0)) ↔ Alike a b
  node_compare-Alike a b = (equal-Alike a b, Alike-equal a b)

  compared :
      (o p : Option (Node D))
      → (elim o [
        | none ↦ some inv_arg
        | some a ↦ elim p [ none ↦ some inv_arg | some b ↦ json_tools_node_compare minus a b ]
      ]
          ≡ some (pos 0))
        ↔ ((x y : Node D) × (o ≡ some x) × (p ≡ some y) × Alike x y)
  compared none p = (λ e. absurd (cc e), λ h. absurd (cc (h.2)))
  compared (some a) none = (λ e. absurd (cc e), λ h. absurd (cc (h.3)))
  compared (some a) (some b) = (
    λ e. (a, b, refl, refl, equal-Alike a b e),
    λ (x, y, p, q, h). rw (some_inj.0 p, some_inj.0 q) (Alike-equal x y h),
  )

  -- A text whose last byte is no NUL is copied, with a NUL behind it.
  terminated_copy :
      (libc : Libc) (s block : Bytes) (c : ℕ)
      → (c == 0) ≡ false
      → libc.malloc (suc (length s) + 1) ≡ some block
      → terminated libc (s ++ (c ∷ [])) (suc (length s)) ≡ some (s ++ (c ∷ 0 ∷ []))
  unfolding terminated
  terminated_copy libc s block c n e =
      let last : load (length s) (s ++ (c ∷ [])) ≡ some c =
        get_elem?-append_back (length s) 0 s (c ∷ []) (omega arith) in
      let k : length (s ++ (c ∷ [])) ≡ suc (length s) = omega (arith, length-append s (c ∷ [])) in
      let whole : read_all (suc (length s)) 0 (s ++ (c ∷ [])) ≡ some (s ++ (c ∷ [])) =
        rw k at (read_all_whole (s ++ (c ∷ [])) [] 0 refl) in
      let size : length block ≡ length (s ++ (c ∷ 0 ∷ [])) =
        omega (arith, length-append s (c ∷ 0 ∷ []), libc.malloc-length (suc (length s) + 1) e) in
      rw (
        last,
        n,
        e,
        whole,
        append_assoc s (c ∷ []) (0 ∷ []),
        store_all_full (s ++ (c ∷ 0 ∷ [])) block size,
      )

  -- With memory at hand, of two texts, the second of at least one byte and without a NUL behind it,
  -- `bkv_json_tools_compare` answers 0 exactly if yajl makes trees of both that are alike: trees of
  -- the same type, whatever two strings are; two numbers whose difference is 0 as an `int`; an
  -- object whose members stand at the start of those of the other under the same keys and are
  -- alike; an array whose first elements, as many as `u.object.len` says of it, are alike.
  pub tools_compare-Alike :
      (parse : Bytes → Option (Node D)) (libc : Libc) (a s block : Bytes) (c : ℕ)
      → (c == 0) ≡ false
      → libc.malloc (suc (length s) + 1) ≡ some block
      → (bkv_json_tools_compare minus parse libc a (s ++ (c ∷ [])) (suc (length s)) ≡ some (pos 0))
        ↔ ((x y : Node D) × (parse a ≡ some x) × (parse (s ++ (c ∷ 0 ∷ [])) ≡ some y) × Alike x y)
  unfolding bkv_json_tools_compare
  tools_compare-Alike parse libc a s block c n e =
      rw (terminated_copy libc s block c n e) (compared (parse a) (parse (s ++ (c ∷ 0 ∷ []))))
