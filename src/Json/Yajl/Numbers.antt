-- ===== src/Json/Yajl/Numbers.antt =====
-- `get_number` of bkv/json/src/bkv_json_yajl.c: the type and the value of a number's text.
use wtools.Prelude.{
  ℕ, zero, suc, ◌+◌, ◌-◌, ◌*◌, ◌%◌, ◌^◌, Option, none, some, ltb, ◌==◌, if◌then◌else◌,
}
use wtools.Prelude.Chain.{◌>>=◌}
use wtools.Buffer.{Bytes, load}

-- The floating point of the machine, which the model takes as it is. A `float` is its bits.
pub record Floats : Type 1 where
  pub Double : Type 0
  pub of_u64 : ℕ → Double
  -- A `char`, from its byte.
  pub of_char : ℕ → Double
  pub ten : Double
  pub plus : Double → Double → Double
  pub times : Double → Double → Double
  pub over : Double → Double → Double
  pub to_float : Double → ℕ

-- `numberVal[l_offset]-'0'` for a signed `char`, added to a `uint64_t`.
abbrev pub minus_zero : ℕ → ℕ
minus_zero c = if ltb c 128 then c + 2 ^ 64 - b'0' else c + 2 ^ 64 - 256 - b'0'

module _ (fl : Floats) where
  open fl use {Double, of_u64, of_char, ten, plus, times, over, to_float}

  -- `*p_type`, with the value of the pointer that it selects.
  pub data Decimal : Type 0 where
    u16 u32 u64 float : ℕ → Decimal
    double : Double → Decimal

  -- The variables of the loop; `l_double` is set from the first point on, as `l_floating` is.
  pub record Scan : Type 0 where
    pub value : ℕ
    pub floating : Option Double
    pub divisor : Double
    pub multi : ℕ

  -- A round on a character that is not a point, at the offset `i`. Where `l_multi` leaves the
  -- range of an `int` it faults.
  unfoldable pub digit : ℕ → ℕ → Scan → Option Scan
  digit i c s = elim s.floating [
    | some d ↦ some (record s {
      floating = some (plus d (over (of_char c) s.divisor));
      divisor = times s.divisor (times s.divisor ten);
    })
    | none ↦
        if ltb (s.multi * 10) (2 ^ 31)
        then some (record s {
          value = ((if ltb 0 i then s.value * 10 % 2 ^ 64 else s.value) + minus_zero c) % 2 ^ 64;
          multi = s.multi * 10;
        })
        else none
  ]

  -- The rounds that are left, from the offset `i` on.
  unfoldable pub scan : ℕ → ℕ → Bytes → Scan → Option Scan
  unfolding digit
  scan zero i str s = some s
  scan (suc n) i str s = do
    c ← load i str
    s' ← if c == b'.' then some (record s { floating = some (of_u64 s.value) }) else digit i c s
    scan n (i + 1) str s'

  -- What the end stores, from the length of the text.
  abbrev pub classify : ℕ → Scan → Decimal
  classify len s = elim s.floating [
    | some d ↦ if ltb len 8 then Decimal.float (to_float d) else Decimal.double d
    | none ↦
        if ltb s.value (2 ^ 16)
        then Decimal.u16 s.value
        else if ltb s.value (2 ^ 32)
        then Decimal.u32 s.value
        else Decimal.u64 s.value
  ]

  unfoldable pub get_number : Bytes → ℕ → Option Decimal
  unfolding scan
  get_number str len = do
    s ← scan len 0 str (record { value = 0; floating = none; divisor = ten; multi = 1 })
    some (classify len s)
