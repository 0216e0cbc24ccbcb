-- ===== src/Keytree/Chars.antt =====
-- The classes of characters of kt/src/keytree.c: `word_type` and `word_weak_type`, over the
-- functions of <ctype.h> in the C locale.
use wtools.Prelude.{
  ℕ, ◌+◌, ◌-◌, ◌%◌, Bool, not, ◌&&◌, ◌||◌, Option, none, some, ltb, leb, ◌==◌, if◌then◌else◌,
}
use wtools.Keytree.{Kind, lower, upper, number, other}

abbrev pub between : ℕ → ℕ → ℕ → Bool
between lo hi c = leb lo c && leb c hi

abbrev pub is_digit : ℕ → Bool
is_digit c = between b'0' b'9' c

abbrev pub is_upper : ℕ → Bool
is_upper c = between b'A' b'Z' c

abbrev pub is_lower : ℕ → Bool
is_lower c = between b'a' b'z' c

abbrev pub is_alpha : ℕ → Bool
is_alpha c = is_upper c || is_lower c

abbrev pub is_alnum : ℕ → Bool
is_alnum c = is_digit c || is_alpha c

abbrev pub is_space : ℕ → Bool
is_space c = between 9 13 c || c == 32

abbrev pub is_cntrl : ℕ → Bool
is_cntrl c = ltb c 32 || c == 127

abbrev pub is_punct : ℕ → Bool
is_punct c = between 33 126 c && not (is_alnum c)

-- `word_type`: the list of a character, or `none` for 0.
unfoldable pub word_type : ℕ → Option Kind
word_type c =
    if is_digit c
    then some number
    else if is_alpha c
    then if is_upper c then some upper else if is_lower c then some lower else none
    else none

-- The answers of `word_weak_type`: 0, 1, 2, 3, and -1 as a `uint8_t`.
pub data WeakType : Type 0 where
  unmanaged : WeakType
  plain : Kind → WeakType

-- `*ret_c` before the switch.
abbrev pub fold_case : ℕ → ℕ → ℕ
fold_case flags c = if flags % 2 == 1 && between b'A' b'Z' c then b'a' + (c - b'A') else c

-- The switch on `*ret_c`: the letter e with an accent, and the first byte of a pair in UTF-8.
abbrev pub fold_accent : ℕ → ℕ
fold_accent c = if between 0xe8 0xeb c || c == 0xc3 then b'e' else c

abbrev pub letter_type : ℕ → WeakType
letter_type c =
    if is_alpha c
    then if is_upper c then plain upper else if is_lower c then plain lower else plain other
    else plain other

-- The type, and `*ret_c` where it is written. KT_WEAK_TYPE_CASE_SENSITIVE is the lowest flag.
unfoldable pub word_weak_type : ℕ → ℕ → WeakType × Option ℕ
word_weak_type flags c =
    if c == 10
    then (unmanaged, none)
    else if is_digit c
    then (plain number, some c)
    else (let r = fold_accent (fold_case flags c) in
        if r == b' ' || r == b'?' then (unmanaged, some r) else (letter_type r, some r))
