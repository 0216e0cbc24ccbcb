-- ===== src/Json/Naming.antt =====
-- What `bkv_to_json` (bkv/json/src/bkv_json.c) hands its parser for a map of strings, with the
-- names of a dictionary.
use wtools.Prelude.{
  ℕ, ◌+◌, ◌≤◌, ◌≡◌, inl, inr, refl, ap, ◌∙◌, false, Bool-cases, Option, none, some, List, [], ◌∷◌,
  length, ◌==◌, if◌then◌else◌,
}
use wtools.Prelude.Int.{pos, eqb_ℤ}
use wtools.Prelude.Chain.{◌>>=◌}
use wtools.Buffer.{Bytes}
use wtools.Bkv.{ok}
use wtools.Bkv.Arrays.{array_elem_key}
use wtools.Bkv.Spec.{str, encode, AllFit}
use wtools.Val
use wtools.Val.Entries.{HoldsAt}
use wtools.Val.Found.{BkvVal}
use wtools.Val.Get.Search.{first_match, result, bkv_val_get2-map_bytes}
use wtools.Val.Maps.{map_bytes}
use wtools.Dico.Spec.{Word, entries_of}
use wtools.Json.{Text, ToJsonParser, ToJsonCtx, bkv_val_unset, text_found, name_of}

-- Where the first name of a key stands, of names whose bytes stand from `p` on.
abbrev pub name_at : ℕ → ℕ → List Word → Option Text
name_at k p [] = none
name_at k p ((key, s) ∷ ws) =
    let later = name_at k (p + length (encode key (str s))) ws in
    if key == k then some (p + 2 + 2, length s) else later

text_found-names :
    (k p : ℕ) (ws : List Word)
    → text_found (result (first_match k p (entries_of ws) bkv_val_unset) bkv_val_unset [])
      ≡ some (name_at k p ws)
text_found-names k p [] = refl
text_found-names k p ((key, s) ∷ ws) = elim (Bool-cases (key == k)) [
  | inl e ↦ rw e
  | inr e ↦ rw e (text_found-names k (p + length (encode key (str s))) ws)
]

-- A search in a dictionary of names that fit, whose map stands in the block with a key of 12 bits,
-- gives the first name of the key, or none.
pub name_of-names :
    (m : Bytes) (base dico size junk k : ℕ) (ws : List Word) (v : BkvVal)
    → dico ≤ 0xFFF
    → AllFit (entries_of ws)
    → HoldsAt m base (map_bytes dico size (entries_of ws) junk)
    → v.priv ≡ some base
    → name_of m v k ≡ some (name_at k (base + 2 + 2) ws)
unfolding name_of
name_of-names m base dico size junk k ws v le fit h at_ =
    ap text_found (
      bkv_val_get2-map_bytes m base dico size junk k (entries_of ws) (pos 1) v bkv_val_unset [] le
        fit h at_)
    ∙ text_found-names k (base + 2 + 2) ws

-- Keys of values that are not in arrays.
abbrev pub NoElems : List Word → Type 0
NoElems [] = Unit
NoElems ((key, s) ∷ ws) = ((key == array_elem_key) ≡ false) × NoElems ws

-- What the walk returns, from what became of the parser's data.
abbrev pub walked : {P : Type 0} → ToJsonCtx P → Option P → Val.Outcome (ToJsonCtx P)
walked c none = Val.fault
walked c (some d) = Val.returns ok (record c { priv_data = d })

module _ {P : Type 0} (parser : ToJsonParser P) (names : ℕ → Option Text) where
  -- The calls of the parser for the strings from `p` on, and for the end of their map: up to the
  -- first key with no name or the first code that is not BKV_OK.
  abbrev pub write_texts : ℕ → List Word → P → Option P
  write_texts p [] d = parser.to_json_map_close_fn d >>= λ a. some a.1
  write_texts p ((key, s) ∷ es) d =
      let next : P → Option P = λ d'. write_texts (p + length (encode key (str s))) es d' in
      elim (names key) [
        | none ↦ some d
        | some t ↦
            (parser.to_json_str_fn d t (p + 2 + 2, length s) >>= λ a.
            if eqb_ℤ ok a.0 then next a.1 else some a.1)
      ]

  -- The whole map.
  abbrev pub write_map : ℕ → List Word → P → Option P
  write_map p es d = parser.to_json_map_open_fn d none >>= λ a.
      if eqb_ℤ ok a.0 then write_texts (p + 2 + 2) es a.1 else some a.1
