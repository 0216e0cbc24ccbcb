-- ===== src/Print/Lines.antt =====
-- What `bkv_print2` of bkv/src/bkv_print.c prints for a map.
use wtools.Prelude.{
  ℕ, ◌+◌, ◌%◌, ◌≤◌, ◌≡◌, refl, sym, ap, ◌∙◌, arith, some, List, [], ◌∷◌, ◌++◌, ◌==◌, length,
  if◌then◌else◌, Bool-cases, inl, inr,
}
use wtools.Prelude.Int.{pos}
use wtools.Buffer.{Bytes}
use wtools.Bkv.{ok, Handle}
use wtools.Bkv.Create.{bkv_get_head}
use wtools.Bkv.Spec as Spec
use wtools.Bkv.Spec.{Value, encode, Entry, encode_all, AllFit, header}
use wtools.Val
use wtools.Val.Entries.{HoldsAt, call}
use wtools.Val.Get.{bkv_val_foreach}
use wtools.Val.Get.Heads.{init-header}
use wtools.ByteOrder.{bytes_u16}
use mathlib.Core.List.{append_assoc, append-nil}
use wtools.Val.Maps.{map_end, map_bytes}
use wtools.Val.Walks.{AllGood, steps, val_foreach-steps}
use wtools.Json.{bkv_val_unset}
use wtools.Print.{
  Line, Output, map_open, map_close, uint16, uint32, uint64, str, float, boolean, signed, printed,
  s_bkv_callbacks, bkv_print2,
}

-- A string up to its first NUL.
abbrev pub up_to_nul : Bytes → Bytes
up_to_nul [] = []
up_to_nul (b ∷ bs) = let rest = b ∷ up_to_nul bs in if b == 0 then [] else rest

-- The line of a value. A double has none.
abbrev pub line_of : ℕ → Value → List Line
line_of key (Spec.u16 v) = uint16 key v ∷ []
line_of key (Spec.u32 v) = uint32 key (signed 32 v) ∷ []
line_of key (Spec.u64 v) = uint64 key (signed 64 v) ∷ []
line_of key (Spec.float v) = float key v ∷ []
line_of key (Spec.double v) = []
line_of key (Spec.boolean b) = boolean key b ∷ []
line_of key (Spec.str s) = str key (up_to_nul s) ∷ []

abbrev pub lines_of : List Entry → List Line
lines_of [] = []
lines_of ((key, v) ∷ es) = line_of key v ++ lines_of es

abbrev pub IsNoDouble : Value → Type 0
IsNoDouble (Spec.double v) = ⊥
IsNoDouble v = Unit

printed-HoldsAt :
    (m : Bytes) (p : ℕ) (s : Bytes) → HoldsAt m p s → printed (length s) p m ≡ some (up_to_nul s)
unfolding printed
printed-HoldsAt m p [] h = refl
printed-HoldsAt m p (b ∷ s) h = elim (Bool-cases (b == 0)) [
  | inl e ↦ rw (h.0, e)
  | inr e ↦ rw (h.0, e, printed-HoldsAt m (p + 1) s h.1)
]

abbrev step : Output → ℕ → Value → Output
step out key v = out ++ line_of key v

calls :
    (m : Bytes) (out : Output) (p key : ℕ) (v : Value)
    → IsNoDouble v
    → HoldsAt m p (encode key v)
    → call (s_bkv_callbacks m) out p (pos 1) key v ≡ some (0, step out key v)
unfolding s_bkv_callbacks
calls m out p key (Spec.u16 v) n h = refl
calls m out p key (Spec.u32 v) n h = refl
calls m out p key (Spec.u64 v) n h = refl
calls m out p key (Spec.float v) n h = refl
calls m out p key (Spec.double v) n h = absurd n
calls m out p key (Spec.boolean b) n h = refl
calls m out p key (Spec.str s) n h =
    let q : p + 1 + 1 + 1 + 1 ≡ p + 2 + 2 = omega arith in
    rw (printed-HoldsAt m (p + 2 + 2) s (rw q at h.1.1.1.1))

steps-lines_of : (out : Output) (es : List Entry) → steps step out es ≡ out ++ lines_of es
steps-lines_of out [] = sym (append-nil out)
steps-lines_of out ((key, v) ∷ es) =
    steps-lines_of (step out key v) es ∙ append_assoc out (line_of key v) (lines_of es)

-- What a map prints: its key, a line for each entry, and the second byte of its end.
abbrev pub printout : ℕ → List Entry → ℕ → List Line
printout key es junk = map_open key ∷ (lines_of es ++ (map_close (junk % 256) ∷ []))

foreach-printout :
    (m : Bytes) (key size junk : ℕ) (es : List Entry) (out : Output)
    → key ≤ 0xFFF
    → AllFit es
    → AllGood IsNoDouble es
    → HoldsAt m 0 (map_bytes key size es junk)
    → Val.val_foreach (s_bkv_callbacks m) m 0 out ≡ Val.returns ok (out ++ printout key es junk)
unfolding s_bkv_callbacks Val.case Val.enter_map Val.round
foreach-printout m key size junk es out le f g h =
    let id : 0 + junk % 256 ≡ junk % 256 = omega arith in
    let close : Output → Output = λ d. d ++ (map_close (junk % 256) ∷ []) in
    val_foreach-steps (s_bkv_callbacks m) m step IsNoDouble (calls m) 0 key size junk es out
      (λ d. d ++ (map_open key ∷ [])) close le f g h refl (λ q d' e. rw (e.0, e.1.0, id))
    ∙ ap (Val.returns ok)
        (ap close (steps-lines_of (out ++ (map_open key ∷ [])) es) ∙ simp append_assoc)

-- `bkv_print2`, on a handle whose block starts with a map with a key of 12 bits, of entries that
-- fit and are no doubles, answers BKV_OK and prints, behind what was printed before, a line for
-- the opening of the map, a line for each entry in order, of a string what stands before its first
-- NUL and of 32 and 64 bits the signed number, and a line for the end of the map with the second
-- byte of its end, whatever it is, for its key.
pub bkv_print2-printout :
    (m : Bytes) (h : Handle) (key size junk : ℕ) (es : List Entry) (out : Output)
    → key ≤ 0xFFF
    → AllFit es
    → AllGood IsNoDouble es
    → HoldsAt m 0 (map_bytes key size es junk)
    → h.bkv.ptr ≡ some m
    → bkv_print2 (some h) out ≡ Val.returns ok (out ++ printout key es junk)
unfolding bkv_print2 bkv_get_head bkv_val_foreach
bkv_print2-printout m h key size junk es out le f g holds held =
    let head =
      init-header m bkv_val_unset 0 key (bytes_u16 size ++ (encode_all es ++ map_end junk)) le
        holds in
    rw (held, head) (foreach-printout m key size junk es out le f g holds)
