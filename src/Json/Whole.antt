-- ===== src/Json/Whole.antt =====
-- `bkv_to_json` (bkv/json/src/bkv_json.c) on a whole document: a map of strings, with a dictionary
-- of the names of the keys inside of it, behind the strings.
use wtools.Prelude.{
  ℕ, zero, suc, ◌+◌, ◌^◌, ◌<◌, ◌≡◌, inl, inr, refl, ap, ◌∙◌, arith, false, Bool-cases, Option, none,
  some, List, [], ◌∷◌, ◌++◌, length, lt→ltb, ◌==◌, if◌then◌else◌,
}
use wtools.Prelude.Int.{pos, minus_one, eqb_ℤ}
use wtools.Prelude.Chain.{◌>>=◌, bind-cong}
use wtools.Buffer.{Bytes}
use wtools.Bkv.{ok, Handle}
use wtools.Bkv.Create.{bkv_get_head}
use wtools.Bkv.Spec.{header, Entry, encode_all, AllFit}
use wtools.ByteOrder.{bytes_u16}
use wtools.Val
use wtools.Val.Entries.{HoldsAt, round_header, length_of}
use wtools.Val.Found.{ValType, BkvVal, key_invalid}
use wtools.Val.Get.{bkv_val_foreach, bkv_val_init, bkv_val_get2}
use wtools.Val.Get.Heads.{init-header}
use wtools.Val.Get.Search.Inner.{object_at, AllOther, bkv_val_get2-inner}
use wtools.Val.Maps.{HoldsAt-append, map_end, map_bytes, loop_next}
use wtools.Dico.Spec.{Word, entries_of}
use wtools.Dico.Direct.{dico_key, no_key}
use wtools.Json.{
  Text, ToJsonParser, ToJsonCtx, bkv_val_unset, name_of, bkv_to_json_map_open, s_bkv_callbacks,
}
use wtools.Json.Convert.{walk, finish, bkv_to_json}
use wtools.Json.Naming.{name_at, name_of-names, NoElems, write_map, walked}
use wtools.Json.Texts.{Ends, map_end-Ends, walk-write_map}
use mathlib.Core.List.{append_assoc}
use mathlib.Core.Path.{subst}

-- A map of entries with a dictionary of names behind them, inside of it.
abbrev pub object_bytes : ℕ → List Entry → ℕ → List Entry → ℕ → ℕ → Bytes
object_bytes size es dico_size names dico_junk junk =
    header 1 no_key
    ++ (bytes_u16 size
        ++ ((encode_all es ++ map_bytes dico_key dico_size names dico_junk) ++ map_end junk))

-- Where the entries and the names stand in such a document.
pub object_bytes-parts :
    (m : Bytes) (size : ℕ) (es : List Entry) (dico_size : ℕ) (names : List Entry)
    (dico_junk junk : ℕ)
    → HoldsAt m 0 (object_bytes size es dico_size names dico_junk junk)
    → HoldsAt m 4 (encode_all es)
      × HoldsAt m (4 + length (encode_all es) + 2 + 2) (encode_all names)
object_bytes-parts m size es dico_size names dico_junk junk h =
    let bs = encode_all es in
    let dico = map_bytes dico_key dico_size names dico_junk in
    let p = 4 + length bs in
    let inner =
      (HoldsAt-append m 4 (4 + length (bs ++ dico)) (bs ++ dico) (map_end junk) h.1.1.1.1 refl).0 in
    let (values, behind) = HoldsAt-append m 4 p bs dico inner refl in
    let q : p + 1 + 1 + 1 + 1 ≡ p + 2 + 2 = omega arith in
    let inside = rw q at behind.1.1.1.1 in
    (
      values,
      (HoldsAt-append m (p + 2 + 2) (p + 2 + 2 + length (encode_all names)) (encode_all names)
          (map_end dico_junk) inside refl).0,
    )

module _ {P : Type 0} (parser : ToJsonParser P) (m : Bytes) (c : ToJsonCtx P)
    (names : ℕ → Option Text)
    (looks : (key : ℕ) → name_of m c.dico_val key ≡ some (names key)) where
  -- The round at the header of the dictionary, which the walk leaves out.
  dico_round :
      (p size : ℕ) (bs : Bytes) (d : P)
      → c.jump_next_map ≡ false
      → 0 < size
      → size < 2 ^ 16
      → HoldsAt m p (header 1 dico_key ++ (bytes_u16 size ++ bs))
      → Val.round
          (s_bkv_callbacks parser m)
          m
          (record { user = record c { priv_data = d }; ptr = p; map_deep = pos 1 })
        ≡ some (
            Val.next Val.goto_end_map
              (record { user = record c { priv_data = d }; ptr = p + size; map_deep = pos 1 }))
  unfolding Val.case s_bkv_callbacks bkv_to_json_map_open Val.enter_map
  dico_round p size bs d j lt small h =
      let q2 : p + 1 + 1 ≡ p + 2 = omega arith in
      let q3 : p + 1 + 1 + 1 ≡ p + 3 = omega arith in
      let b2 = rw q2 at h.1.1.0 in
      let b3 = rw q3 at h.1.1.1.0 in
      let some_size : (size == 0) ≡ false = ground arith in
      round_header (s_bkv_callbacks parser m) m
        (record { user = record c { priv_data = d }; ptr = p; map_deep = pos 1 }) dico_key
        (omega arith) 1 Val.map_open (omega arith) refl h.0 h.1.0
      ∙ rw (j, b2, b3, length_of size small, some_size)

  dico-Ends :
      (base p size junk dico_junk : ℕ) (ws : List Entry)
      → c.jump_next_map ≡ false
      → size ≡ length (map_bytes dico_key size ws dico_junk)
      → size < 2 ^ 16
      → base < p
      → HoldsAt m p (map_bytes dico_key size ws dico_junk ++ map_end junk)
      → Ends parser m c names looks base 1 p
  dico-Ends base p size junk dico_junk ws j whole small lt h zero d n = absurd (omega arith)
  dico-Ends base p size junk dico_junk ws j whole small lt h (suc fuel) d n =
      let bs = map_bytes dico_key size ws dico_junk in
      let (here, back) =
        HoldsAt-append m p (p + size) bs (map_end junk) h (ap (λ k. p + k) whole) in
      loop_next (s_bkv_callbacks parser m) m base fuel
        (record { user = record c { priv_data = d }; ptr = p; map_deep = pos 1 }) Val.goto_end_map
        (record { user = record c { priv_data = d }; ptr = p + size; map_deep = pos 1 })
        (dico_round p size (encode_all ws ++ map_end dico_junk) d j (omega arith) small here)
        (lt→ltb base (p + size) (omega arith))
      ∙ map_end-Ends parser m c names looks junk base (p + size) back fuel d (omega arith)

-- The head of the document, as `bkv_val_init` has it.
abbrev head_val : BkvVal
head_val = record bkv_val_unset { val_type = ValType.object; key = no_key; priv = some 0 }

module _ {P : Type 0} (parser : ToJsonParser P) (m : Bytes) (size dico_size dico_junk junk : ℕ)
    (es ws : List Word) (f : AllFit (entries_of es)) (g : AllFit (entries_of ws)) (ne : NoElems es)
    (other : AllOther dico_key (entries_of es))
    (whole : dico_size ≡ length (map_bytes dico_key dico_size (entries_of ws) dico_junk))
    (small : dico_size < 2 ^ 16)
    (holds : HoldsAt m 0
      (object_bytes size (entries_of es) dico_size (entries_of ws) dico_junk junk)) where
  abbrev place : ℕ
  place = 0 + 2 + 2 + length (encode_all (entries_of es))

  abbrev dico_bytes : Bytes
  dico_bytes = map_bytes dico_key dico_size (entries_of ws) dico_junk

  abbrev tail : Bytes
  tail = dico_bytes ++ map_end junk

  abbrev names : ℕ → Option Text
  names key = name_at key (place + 2 + 2) ws

  apart : HoldsAt m 0 (header 1 no_key ++ (bytes_u16 size ++ (encode_all (entries_of es) ++ tail)))
  apart =
      subst (λ bs. HoldsAt m 0 (header 1 no_key ++ (bytes_u16 size ++ bs)))
        (append_assoc (encode_all (entries_of es)) dico_bytes (map_end junk)) holds

  tail-HoldsAt : HoldsAt m place tail
  tail-HoldsAt = (HoldsAt-append m 4 place (encode_all (entries_of es)) tail apart.1.1.1.1 refl).1

  dico-found :
      bkv_val_get2 m
        (some head_val)
        (some (dico_key ∷ key_invalid ∷ []))
        (pos 1)
        (bkv_val_unset ∷ [])
      ≡ Val.returns ok (object_at place bkv_val_unset ∷ [])
  dico-found =
      bkv_val_get2-inner m _ 0 no_key size dico_key (entries_of es) (pos 1) head_val bkv_val_unset
        [] (omega arith) (omega arith) f other apart refl

  abbrev walk_ctx : P → ToJsonCtx P
  walk_ctx d = record {
    jump_next_map = false;
    dico_val = object_at place bkv_val_unset;
    priv_data = d;
  }

  looks : (key : ℕ) → name_of m (object_at place bkv_val_unset) key ≡ some (names key)
  looks key =
      name_of-names m place dico_key dico_size dico_junk key ws (object_at place bkv_val_unset)
        (omega arith) g
        (HoldsAt-append m place (place + length dico_bytes) dico_bytes (map_end junk) tail-HoldsAt
          refl).0
        refl

  walked_lem :
      (d : P)
      → bkv_val_foreach m head_val (s_bkv_callbacks parser m) (walk_ctx d)
        ≡ walked (walk_ctx d) (write_map parser names 0 es d)
  unfolding bkv_val_foreach
  walked_lem d =
      walk-write_map parser m (walk_ctx d) names looks 0 size 1 place es tail d refl f ne apart refl
        (dico-Ends parser m (walk_ctx d) names looks 0 place dico_size junk dico_junk
          (entries_of ws) refl whole small (omega arith) tail-HoldsAt)
        (omega arith)

  finish-walked :
      (c : ToJsonCtx P) (o : Option P)
      → finish parser (walked c o) ≡ (o >>= λ d'. parser.to_json_finalize d')
  finish-walked c none = refl
  finish-walked c (some d') = refl

-- On a handle whose block holds a map of strings, of values that fit, are no elements of an array
-- and no dictionary, with a dictionary of names that fit inside of it, behind the strings,
-- `bkv_to_json` answers what the initialisation of the parser answers, if that is -1. Else it calls
-- the parser for the opening of the map, for each string in order with the place of the first name
-- of its key, and for the end of the map, up to the first code that is not BKV_OK or the first
-- string whose key has no name, and in any case answers what the finalisation answers then, unless
-- a call faults.
pub bkv_to_json-write_map :
    {P : Type 0} (parser : ToJsonParser P) (m : Bytes) (h : Handle) (d : P)
    (size dico_size dico_junk junk : ℕ) (es ws : List Word)
    → AllFit (entries_of es)
    → AllFit (entries_of ws)
    → NoElems es
    → AllOther dico_key (entries_of es)
    → dico_size ≡ length (map_bytes dico_key dico_size (entries_of ws) dico_junk)
    → dico_size < 2 ^ 16
    → HoldsAt m 0 (object_bytes size (entries_of es) dico_size (entries_of ws) dico_junk junk)
    → h.bkv.ptr ≡ some m
    → bkv_to_json parser d (some h) ≡ (
        parser.to_json_init d >>= λ a.
        if eqb_ℤ minus_one a.0
        then some (a.0, a.1)
        else (write_map parser
              (λ key. name_at key (4 + length (encode_all (entries_of es)) + 2 + 2) ws)
              0
              es
              a.1
            >>= λ d'. parser.to_json_finalize d'))
unfolding bkv_to_json walk bkv_get_head bkv_val_init bkv_val_foreach
bkv_to_json-write_map parser m h d size dico_size dico_junk junk es ws f g ne other whole small
      holds held =
    bind-cong (parser.to_json_init d) refl (λ a. elim (Bool-cases (eqb_ℤ minus_one a.0)) [
      | inl e ↦ rw e
      | inr e ↦
          let names =
            λ (key : ℕ). name_at key (0 + 2 + 2 + length (encode_all (entries_of es)) + 2 + 2) ws in
          let c =
            walk_ctx parser m size dico_size dico_junk junk es ws f g ne other whole small holds
              a.1 in
          rw
            (
              e,
              held,
              init-header m bkv_val_unset 0 no_key
                  (bytes_u16 size
                    ++ ((encode_all (entries_of es)
                          ++ map_bytes dico_key dico_size (entries_of ws) dico_junk)
                        ++ map_end junk))
                  (omega arith) holds,
              dico-found parser m size dico_size dico_junk junk es ws f g ne other whole small
                  holds,
            )
            (ap (finish parser) (
                walked_lem parser m size dico_size dico_junk junk es ws f g ne other whole small
                  holds a.1)
              ∙ finish-walked parser m size dico_size dico_junk junk es ws f g ne other whole small
                  holds c (write_map parser names 0 es a.1))
    ])
