-- ===== src/Json/Texts.antt =====
-- The walk of `bkv_to_json` (bkv/json/src/bkv_json.c) over a map of strings.
use wtools.Prelude.{
  ℕ, zero, suc, ◌+◌, ◌%◌, ◌≤◌, ◌<◌, ◌≡◌, inl, inr, refl, ap, ◌∙◌, arith, false, Bool-cases,
  Option-cases, Option, none, some, List, [], ◌∷◌, ◌++◌, length, length-append, lt→ltb, ◌==◌,
  if◌then◌else◌,
}
use wtools.Prelude.Int.{ℤ, pos, eqb_ℤ}
use wtools.Prelude.Chain.{◌>>=◌, bind-cong}
use wtools.Buffer.{Bytes}
use wtools.Bkv.{ok}
use wtools.Bkv.Arrays.{array_elem_key}
use wtools.Bkv.Spec.{header, str, encode, encode_all, AllFit}
use wtools.ByteOrder.{bytes_u16}
use wtools.Val
use wtools.Val.Entries.{HoldsAt, round_header, round-encode}
use wtools.Val.Found.{BkvVal}
use wtools.Val.Get.{bkv_val_foreach}
use wtools.Val.Maps.{
  HoldsAt-append, HoldsAt-length, length-le-encode_all, map_end, map_bytes, loop_next, loop_stop,
}
use wtools.Dico.Spec.{Word, entries_of}
use wtools.Dico.Direct.{no_key}
use wtools.Json.{
  Text, ToJsonParser, ToJsonCtx, name_of, reply, with_name, bkv_to_json_str, bkv_to_json_map_open,
  bkv_to_json_map_close, s_bkv_callbacks,
}
use wtools.Json.Naming.{name_at, name_of-names, NoElems, write_texts, write_map, walked}

loop_fault :
    {D : Type 0} (cb : Val.Callbacks D) (m : Bytes) (base fuel : ℕ) (c : Val.Cursor D)
    → Val.round cb m c ≡ none
    → Val.loop cb m base (suc fuel) c ≡ Val.fault
unfolding Val.loop
loop_fault cb m base fuel c e = rw (e, Val.loop)

length-entries_of : (ws : List Word) → length (entries_of ws) ≡ length ws
length-entries_of [] = refl
length-entries_of ((key, s) ∷ ws) = omega (arith, length-entries_of ws)

module _ {P : Type 0} (parser : ToJsonParser P) (m : Bytes) (c : ToJsonCtx P)
    (names : ℕ → Option Text)
    (looks : (key : ℕ) → name_of m c.dico_val key ≡ some (names key)) where
  -- The context with the parser's data.
  abbrev over : P → ToJsonCtx P
  over d = record c { priv_data = d }

  abbrev answered : Option Text → P → Text → Option (ℕ × ToJsonCtx P)
  answered none d s = some (Val.stop_loop, over d)
  answered (some t) d s = reply parser m (over d) (parser.to_json_str_fn d t s)

  str-answered :
      (d : P) (p key q len : ℕ)
      → (key == array_elem_key) ≡ false
      → bkv_to_json_str parser m (over d) p key q len ≡ answered (names key) d (q, len)
  unfolding bkv_to_json_str
  str-answered d p key q len ne =
      let named : Option (ℕ × ToJsonCtx P) =
        with_name parser m (over d) key Val.stop_loop (λ s. parser.to_json_str_fn d s (q, len)) in
      ap
        (λ b. if b then reply parser m (over d) (parser.to_json_array_str_fn d (q, len)) else named)
        ne
      ∙ bind-cong (name_of m c.dico_val key) (looks key) (λ found. refl)
      ∙ same (names key)
    where
      same :
          (o : Option Text)
          → elim o as (λ x. Option (ℕ × ToJsonCtx P)) [
            | none ↦ some (Val.stop_loop, over d)
            | some s ↦ reply parser m (over d) (parser.to_json_str_fn d s (q, len))
          ]
            ≡ answered o d (q, len)
      same none = refl
      same (some t) = refl

  abbrev cursor : P → ℕ → ℤ → Val.Cursor (ToJsonCtx P)
  cursor d p deep = record { user = over d; ptr = p; map_deep = deep }

  -- The round at the end of the map.
  texts_end :
      (junk base fuel p : ℕ) (d : P)
      → HoldsAt m p (map_end junk)
      → Val.loop (s_bkv_callbacks parser m) m base (suc fuel) (cursor d p (pos 1))
        ≡ walked c (write_texts parser names p [] d)
  unfolding Val.round Val.case s_bkv_callbacks bkv_to_json_map_close
  texts_end junk base fuel p d h = elim (Option-cases (parser.to_json_map_close_fn d)) [
    | inl e ↦
        loop_fault (s_bkv_callbacks parser m) m base fuel (cursor d p (pos 1)) (rw (h.0, h.1.0, e))
        ∙ rw e
    | inr ((code, d'), e) ↦
        loop_stop (s_bkv_callbacks parser m) m base fuel (cursor d p (pos 1)) Val.stop_loop
          (cursor d' (p + 2) (pos 0)) (rw (h.0, h.1.0, e)) refl
        ∙ rw e
  ]

  -- The rounds from a string on, by what the walk of the rest is.
  texts_step :
      (base fuel p p' key len : ℕ) (es : List Word) (d : P)
      → Val.round (s_bkv_callbacks parser m) m (cursor d p (pos 1))
        ≡ (answered (names key) d (p + 2 + 2, len) >>= λ a. some (Val.go_on p' (pos 1) a))
      → base < p'
      → ((d' : P)
          → Val.loop (s_bkv_callbacks parser m) m base fuel (cursor d' p' (pos 1))
            ≡ walked c (write_texts parser names p' es d'))
      → Val.loop (s_bkv_callbacks parser m) m base (suc fuel) (cursor d p (pos 1))
        ≡ walked c (elim (names key) [
          | none ↦ some d
          | some t ↦
              (parser.to_json_str_fn d t (p + 2 + 2, len) >>= λ a.
              if eqb_ℤ ok a.0 then write_texts parser names p' es a.1 else some a.1)
        ])
  texts_step base fuel p p' key len es d run lt rest =
      let cb = s_bkv_callbacks parser m in
      elim (Option-cases (names key)) [
        | inl e ↦
            loop_stop cb m base fuel (cursor d p (pos 1)) Val.stop_loop (cursor d p' (pos 1))
              (rw e at run) refl
            ∙ rw e
        | inr (t, e) ↦
            let run' = rw e at run in
            elim (Option-cases (parser.to_json_str_fn d t (p + 2 + 2, len))) [
              | inl e' ↦ loop_fault cb m base fuel (cursor d p (pos 1)) (rw e' at run') ∙ rw (e, e')
              | inr ((code, d'), e') ↦
                  let run2 = rw e' at run' in
                  elim (Bool-cases (eqb_ℤ ok code)) [
                    | inl good ↦
                        loop_next cb m base fuel (cursor d p (pos 1)) 0 (cursor d' p' (pos 1))
                          (rw good at run2) (lt→ltb base p' lt)
                        ∙ rest d'
                        ∙ rw (e, e', good)
                    | inr bad ↦
                        loop_stop cb m base fuel (cursor d p (pos 1)) Val.stop_loop
                          (cursor d' p' (pos 1)) (rw bad at run2) refl
                        ∙ rw (e, e', bad)
                  ]
            ]
      ]

  -- That the walk from `p` on, inside the map, ends as that of a map with no more strings.
  abbrev pub Ends : ℕ → ℕ → ℕ → Type 0
  Ends base rounds p =
      (fuel : ℕ) (d : P)
      → rounds < fuel
      → Val.loop (s_bkv_callbacks parser m) m base fuel (cursor d p (pos 1))
        ≡ walked c (write_texts parser names p [] d)

  pub map_end-Ends : (junk base p : ℕ) → HoldsAt m p (map_end junk) → Ends base 0 p
  map_end-Ends junk base p h zero d lt = absurd (omega arith)
  map_end-Ends junk base p h (suc fuel) d lt = texts_end junk base fuel p d h

  texts_loop :
      (base rounds fuel p p' : ℕ) (es : List Word) (d : P)
      → AllFit (entries_of es)
      → NoElems es
      → HoldsAt m p (encode_all (entries_of es))
      → p' ≡ p + length (encode_all (entries_of es))
      → Ends base rounds p'
      → base < p
      → length es + rounds < fuel
      → Val.loop (s_bkv_callbacks parser m) m base fuel (cursor d p (pos 1))
        ≡ walked c (write_texts parser names p es d)
  unfolding s_bkv_callbacks
  texts_loop base rounds zero p p' es d f ne h e ends lt n = absurd (omega arith)
  texts_loop base rounds (suc fuel) p p' [] d f ne h e ends lt n =
      let q : p' ≡ p = omega arith in (rw q at ends) (suc fuel) d (omega arith)
  texts_loop base rounds (suc fuel) p p' ((key, s) ∷ es) d (lk, fv, f) ne h e ends lt n =
      let bs = encode key (str s) in
      let q = p + length bs in
      let (here, back) = HoldsAt-append m p q bs (encode_all (entries_of es)) h refl in
      let called =
        round-encode (s_bkv_callbacks parser m) m (cursor d p (pos 1)) key lk (str s) fv here in
      let lt' : base < q = omega arith in
      let e' : p' ≡ q + length (encode_all (entries_of es)) =
        omega (arith, e, length-append bs (encode_all (entries_of es))) in
      texts_step base fuel p q key (length s) es d
        (called
          ∙ ap (λ r. r >>= λ a. some (Val.go_on q (pos 1) a))
              (str-answered d (p + 2 + 2) key (p + 2 + 2) (length s) ne.0))
        lt' (λ d'. texts_loop base rounds fuel q p' es d' f ne.1 back e' ends lt' (omega arith))

  -- The round at the header of the map, of key BKV_NO_KEY.
  open_round :
      (base : ℕ) (bs : Bytes) (d : P)
      → c.jump_next_map ≡ false
      → HoldsAt m base (header 1 no_key ++ bs)
      → Val.round (s_bkv_callbacks parser m) m (cursor d base (pos 0)) ≡ (
          reply parser m (over d) (parser.to_json_map_open_fn d none) >>= λ a.
          Val.enter_map m base (pos 0) a)
  unfolding Val.case s_bkv_callbacks bkv_to_json_map_open
  open_round base bs d j h =
      round_header (s_bkv_callbacks parser m) m (cursor d base (pos 0)) no_key (omega arith) 1
        Val.map_open (omega arith) refl h.0 h.1.0
      ∙ rw (j, bkv_to_json_map_open)

  -- The walk over the map, from the context with the parser's data `d`, by how it ends behind the
  -- strings.
  pub walk-write_map :
      (base size rounds p : ℕ) (es : List Word) (tail : Bytes) (d : P)
      → c.jump_next_map ≡ false
      → AllFit (entries_of es)
      → NoElems es
      → HoldsAt m base (header 1 no_key ++ (bytes_u16 size ++ (encode_all (entries_of es) ++ tail)))
      → p ≡ base + 2 + 2 + length (encode_all (entries_of es))
      → Ends base rounds p
      → rounds ≤ length tail
      → Val.val_foreach (s_bkv_callbacks parser m) m base (over d)
        ≡ walked c (write_map parser names base es d)
  unfolding Val.val_foreach Val.enter_map
  walk-write_map base size rounds p es tail d j f ne h pe ends le =
      let cb = s_bkv_callbacks parser m in
      let bs = encode_all (entries_of es) in
      let q : base + 1 + 1 + 1 + 1 ≡ base + 2 + 2 = omega arith in
      let (inner, behind) = HoldsAt-append m (base + 2 + 2) p bs tail (rw q at h.1.1.1.1) pe in
      let inside = HoldsAt-length m base _ (no_key % 256 ∷ (bytes_u16 size ++ (bs ++ tail))) h in
      let few : length es + rounds < length m = omega (
        arith,
        inside,
        length-entries_of es,
        length-le-encode_all (entries_of es),
        length-append bs tail,
      ) in
      let lt : base < base + 2 + 2 = omega arith in
      let e : length m + 1 ≡ suc (length m) = omega arith in
      let run = open_round base (bytes_u16 size ++ (bs ++ tail)) d j h in
      rw e (elim (Option-cases (parser.to_json_map_open_fn d none)) [
        | inl e ↦ loop_fault cb m base (length m) (cursor d base (pos 0)) (rw e at run) ∙ rw e
        | inr ((code, d'), e) ↦
            let run' = rw e at run in
            elim (Bool-cases (eqb_ℤ ok code)) [
              | inl good ↦
                  loop_next cb m base (length m) (cursor d base (pos 0)) 0
                    (cursor d' (base + 2 + 2) (pos 1)) (rw good at run')
                    (lt→ltb base (base + 2 + 2) lt)
                  ∙ texts_loop base rounds (length m) (base + 2 + 2) p es d' f ne inner pe ends lt
                      few
                  ∙ rw (e, good)
              | inr bad ↦
                  loop_stop cb m base (length m) (cursor d base (pos 0)) Val.stop_loop
                    (cursor d' (base + 2 + 2) (pos 1)) (rw bad at run') refl
                  ∙ rw (e, bad)
            ]
      ])

-- In a block that holds a map of strings with the key BKV_NO_KEY, of values that fit and are not
-- elements of an array, and a dictionary of names that fit, the walk of `bkv_to_json` over the map
-- calls the parser for its opening, for each string in order with the place of the first name of
-- its key, and for its end, with the data that the call before left. It stops behind a call that
-- does not answer BKV_OK or before a string whose key has no name, but it always returns BKV_OK,
-- unless a call faults.
pub bkv_val_foreach-write_map :
    {P : Type 0} (parser : ToJsonParser P) (m : Bytes) (c : ToJsonCtx P) (v : BkvVal)
    (base size junk at_ dico dico_size dico_junk : ℕ) (es ws : List Word)
    → dico ≤ 0xFFF
    → AllFit (entries_of es)
    → AllFit (entries_of ws)
    → NoElems es
    → HoldsAt m base (map_bytes no_key size (entries_of es) junk)
    → HoldsAt m at_ (map_bytes dico dico_size (entries_of ws) dico_junk)
    → v.priv ≡ some base
    → c.dico_val.priv ≡ some at_
    → c.jump_next_map ≡ false
    → bkv_val_foreach m v (s_bkv_callbacks parser m) c
      ≡ walked c (write_map parser (λ key. name_at key (at_ + 2 + 2) ws) base es c.priv_data)
unfolding bkv_val_foreach
bkv_val_foreach-write_map parser m c v base size junk at_ dico dico_size dico_junk es ws le f g ne h
      hd e k j =
    let looks : (key : ℕ) → name_of m c.dico_val key ≡ some (name_at key (at_ + 2 + 2) ws) =
      λ key. name_of-names m at_ dico dico_size dico_junk key ws c.dico_val le g hd k in
    let names = λ (key : ℕ). name_at key (at_ + 2 + 2) ws in
    let bs = encode_all (entries_of es) in
    let q : base + 1 + 1 + 1 + 1 ≡ base + 2 + 2 = omega arith in
    let (inner, behind) =
      HoldsAt-append m (base + 2 + 2) (base + 2 + 2 + length bs) bs (map_end junk)
        (rw q at h.1.1.1.1) refl in
    let ends = map_end-Ends parser m c names looks junk base (base + 2 + 2 + length bs) behind in
    rw e (
      walk-write_map parser m c names looks base size 0 (base + 2 + 2 + length bs) es (map_end junk)
        c.priv_data j f ne h refl ends (omega arith))
