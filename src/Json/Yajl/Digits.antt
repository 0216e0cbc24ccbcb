-- ===== src/Json/Yajl/Digits.antt =====
-- Decimal numbers in the eyes of `get_number` of bkv/json/src/bkv_json_yajl.c.
use wtools.Prelude.{
  zero, suc, ◌⊎◌, lt→ltb, ℕ, ◌+◌, ◌*◌, ◌^◌, ◌≤◌, ◌<◌, ◌≡◌, refl, ap, arith, false, Bool-cases, inl,
  inr, none, some, List, [], ◌∷◌, ◌++◌, length, length-append, ltb, ◌==◌, ltb→lt,
}
use wtools.Buffer.{Bytes, load}
use wtools.Buffer.Laws.{get_elem?-append_back}
use wtools.Json.Yajl.Numbers.{Floats, Decimal, Scan, digit, scan, classify, get_number}
use mathlib.Core.List.{append_assoc}
use native.Mathlib.Decide.{dec_lt, dec_le}

-- The number that digits stand for, behind the digits of `v`.
abbrev pub value_from : ℕ → List ℕ → ℕ
value_from v [] = v
value_from v (d ∷ ds) = value_from (v * 10 + d) ds

abbrev pub AllDigits : List ℕ → Type 0
AllDigits [] = Unit
AllDigits (d ∷ ds) = (d < 10) × AllDigits ds

abbrev pub characters : List ℕ → Bytes
characters [] = []
characters (d ∷ ds) = (b'0' + d) ∷ characters ds

-- A whole number of the smallest type that it fits, of those of 16 and 32 bits.
abbrev pub Fitted : {fl : Floats} → ℕ → Decimal fl → Type 0
Fitted n (Decimal.u16 k) = (k ≡ n) × (n < 2 ^ 16)
Fitted n (Decimal.u32 k) = (k ≡ n) × (2 ^ 16 ≤ n) × (n < 2 ^ 32)
Fitted n _ = ⊥

value-le : (v : ℕ) (ds : List ℕ) → v ≤ value_from v ds
value-le v [] = omega arith
value-le v (d ∷ ds) = omega (arith, value-le (v * 10 + d) ds)

length-characters : (ds : List ℕ) → length (characters ds) ≡ length ds
length-characters [] = refl
length-characters (d ∷ ds) = omega (arith, length-characters ds)

-- `m` with `n` zeros behind it.
abbrev ten_to : ℕ → ℕ → ℕ
ten_to m zero = m
ten_to m (suc n) = ten_to (m * 10) n

le-ten_to : (m n : ℕ) → m ≤ ten_to m n
le-ten_to m zero = omega arith
le-ten_to m (suc n) = omega (arith, le-ten_to (m * 10) n)

ten_to_mono : (m n k : ℕ) → n ≤ k → ten_to m n ≤ ten_to m k
ten_to_mono m zero k le = le-ten_to m k
ten_to_mono m (suc n) zero le = absurd (omega arith)
ten_to_mono m (suc n) (suc k) le = ten_to_mono (m * 10) n k (omega arith)

-- Digits behind a number of fewer digits than `m`.
value-lt : (v m : ℕ) (ds : List ℕ) → AllDigits ds → v < m → value_from v ds < ten_to m (length ds)
value-lt v m [] a lt = lt
value-lt v m (d ∷ ds) (ld, a) lt = value-lt (v * 10 + d) (m * 10) ds a (omega arith)

module _ (fl : Floats) where
  abbrev whole : ℕ → ℕ → Scan fl
  whole v multi = record { value = v; floating = none; divisor = fl.ten; multi = multi }

  digit-whole :
      (i v d multi : ℕ)
      → d < 10
      → v * 10 + d < 2 ^ 64
      → (ltb 0 i ≡ false → v ≡ 0)
      → multi * 10 < 2 ^ 31
      → digit fl i (b'0' + d) (whole v multi) ≡ some (whole (v * 10 + d) (multi * 10))
  unfolding digit
  digit-whole i v d multi lt small first room = rw (lt→ltb (multi * 10) (2 ^ 31) room) (
      ap (λ n. some (whole n (multi * 10)))
        (elim (Bool-cases (ltb 0 i)) [
          | inl later ↦ rw later (ground arith)
          | inr start ↦ let zero_v : v ≡ 0 = first start in rw (start, zero_v) (ground arith)
        ]))

  digit-past : (i c v multi : ℕ) → 2 ^ 31 ≤ multi * 10 → digit fl i c (whole v multi) ≡ none
  unfolding digit
  digit-past i c v multi le = let past : ltb (multi * 10) (2 ^ 31) ≡ false = ground arith in rw past

  -- `l_multi` has one digit more than there were rounds.
  scan-characters :
      (ds : List ℕ) (front rest : Bytes) (i v multi : ℕ)
      → i ≡ length front
      → AllDigits ds
      → v < multi
      → (ltb 0 i ≡ false → v ≡ 0)
      → ten_to multi (length ds) < 2 ^ 31
      → scan fl (length ds) i (front ++ (characters ds ++ rest)) (whole v multi)
        ≡ some (whole (value_from v ds) (ten_to multi (length ds)))
  unfolding scan
  scan-characters [] front rest i v multi e a lt first room = refl
  scan-characters (d ∷ ds) front rest i v multi e (ld, a) lt first room =
      let c = b'0' + d in
      let here : load i (front ++ (c ∷ (characters ds ++ rest))) ≡ some c =
        get_elem?-append_back i 0 front (c ∷ (characters ds ++ rest)) (omega (arith, e)) in
      let point : (c == b'.') ≡ false = ground arith in
      let fits : multi * 10 < 2 ^ 31 = omega (arith, room, le-ten_to (multi * 10) (length ds)) in
      let later =
        scan-characters ds (front ++ (c ∷ [])) rest (i + 1) (v * 10 + d) (multi * 10)
          (omega (arith, e, length-append front (c ∷ []))) a (omega arith) (ground arith) room in
      rw (here, point, digit-whole i v d multi ld (omega arith) first fits)
        (rw (append_assoc front (c ∷ []) (characters ds ++ rest)) at later)

  scan-past :
      (ds : List ℕ) (front rest : Bytes) (i v multi : ℕ)
      → i ≡ length front
      → AllDigits ds
      → v < multi
      → (ltb 0 i ≡ false → v ≡ 0)
      → multi < 2 ^ 31
      → 2 ^ 31 ≤ ten_to multi (length ds)
      → scan fl (length ds) i (front ++ (characters ds ++ rest)) (whole v multi) ≡ none
  unfolding scan
  scan-past [] front rest i v multi e a lt first room past = absurd (omega arith)
  scan-past (d ∷ ds) front rest i v multi e (ld, a) lt first room past =
      let c = b'0' + d in
      let here : load i (front ++ (c ∷ (characters ds ++ rest))) ≡ some c =
        get_elem?-append_back i 0 front (c ∷ (characters ds ++ rest)) (omega (arith, e)) in
      let point : (c == b'.') ≡ false = ground arith in
      elim (dec_lt (multi * 10) (2 ^ 31)) [
        | yes fits ↦
            (let later =
                scan-past ds (front ++ (c ∷ [])) rest (i + 1) (v * 10 + d) (multi * 10)
                  (omega (arith, e, length-append front (c ∷ []))) a (omega arith) (ground arith)
                  fits past in
              rw (here, point, digit-whole i v d multi ld (omega arith) first fits)
                (rw (append_assoc front (c ∷ []) (characters ds ++ rest)) at later))
        | no wide ↦ rw (here, point, digit-past i c v multi (omega arith))
      ]

-- The text of a whole number in decimal digits, whatever stands behind it: at most nine digits are
-- read as this number, of the smaller of the types of 16 and 32 bits that it fits; with ten digits
-- or more the `int` l_multi overflows.
pub get_number-characters :
    (fl : Floats) (ds : List ℕ) (rest : Bytes)
    → AllDigits ds
    → ((length ds ≤ 9)
        × (d : Decimal fl) × (get_number fl (characters ds ++ rest) (length ds) ≡ some d)
        × Fitted (value_from 0 ds) d)
      ⊎ ((10 ≤ length ds) × (get_number fl (characters ds ++ rest) (length ds) ≡ none))
unfolding get_number
get_number-characters fl ds rest a = elim (dec_le (length ds) 9) [
  | yes few ↦
      (let room : ten_to 1 (length ds) ≤ 1_000_000_000 = ten_to_mono 1 (length ds) 9 few in
        let read =
          scan-characters fl ds [] rest 0 0 1 refl a (omega arith) (λ _. refl)
            (omega (arith, room)) in
        let small = value-lt 0 1 ds a (omega arith) in
        let (d, e, fit) =
          sorted (length ds) (value_from 0 ds) (ten_to 1 (length ds))
            (omega (arith, small, room)) in
        inl (few, d, rw read (ap some e), fit))
  | no many ↦
      (let past : 10_000_000_000 ≤ ten_to 1 (length ds) =
          ten_to_mono 1 10 (length ds) (omega arith) in
        inr (
          omega arith,
          rw (
              scan-past fl ds [] rest 0 0 1 refl a (omega arith) (λ _. refl) (omega arith)
                (omega (arith, past))),
        ))
]
  where
    sorted :
        (len n multi : ℕ)
        → n < 2 ^ 32
        → (d : Decimal fl) × (classify fl len (whole fl n multi) ≡ d) × Fitted n d
    sorted len n multi lt = elim (Bool-cases (ltb n (2 ^ 16))) [
      | inl small16 ↦ (Decimal.u16 n, rw small16, (refl, ltb→lt n (2 ^ 16) small16))
      | inr large16 ↦ (Decimal.u32 n, rw (large16, lt→ltb n (2 ^ 32) lt), (refl, ground arith, lt))
    ]
