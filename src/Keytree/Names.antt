-- ===== src/Keytree/Names.antt =====
-- The words of letters and digits, whose characters `word_type` and `word_weak_type` of
-- kt/src/keytree.c put at the same place.
use wtools.Prelude.{
  ℕ, ◌+◌, ◌-◌, ◌%◌, ◌<◌, ◌≡◌, arith, true, false, ◌||◌, none, some, List, [], ◌∷◌, if◌then◌else◌,
}
use wtools.Buffer.{Bytes}
use wtools.Keytree.{lower, upper, number, size}
use wtools.Keytree.Chars.{
  is_digit, is_upper, is_alnum, is_space, is_cntrl, is_punct, word_type, word_weak_type,
}
use wtools.Keytree.Insert.{slot, place_of}
use wtools.Keytree.Lookup.{first_char}
use wtools.Keytree.Nodes.{Slot}
use wtools.Keytree.Growing.{Spells}

-- The place of a letter or a digit: its list, and its distance from the first of its range.
abbrev pub slot_of : ℕ → Slot
slot_of c =
    if is_digit c
    then (number, c - b'0')
    else if is_upper c
    then (upper, c - b'A')
    else (lower, c - b'a')

abbrev pub path_of : Bytes → List Slot
path_of [] = []
path_of (c ∷ cs) = slot_of c ∷ path_of cs

-- Letters and digits only.
abbrev pub IsName : Bytes → Type 0
IsName [] = Unit
IsName (c ∷ cs) = (is_alnum c ≡ true) × IsName cs

pub word_type-alnum : (c : ℕ) → is_alnum c ≡ true → word_type c ≡ some (slot_of c).0
unfolding word_type
word_type-alnum c e = ground arith

pub slot_of-inside : (c : ℕ) → is_alnum c ≡ true → (slot_of c).1 < size (slot_of c).0
slot_of-inside c e = ground arith

pub slot_of-first : (c : ℕ) → is_alnum c ≡ true → first_char (slot_of c).0 + (slot_of c).1 ≡ c
slot_of-first c e = ground arith

pub place_of-alnum :
    (flags c : ℕ)
    → flags % 2 ≡ 0
    → is_alnum c ≡ true
    → place_of flags c ≡ slot (slot_of c).0 (slot_of c).1
unfolding place_of word_weak_type
place_of-alnum flags c even e = ground arith

pub word_type-apart : (c : ℕ) → is_alnum c ≡ false → word_type c ≡ none
unfolding word_type
word_type-apart c e = ground arith

pub separator-not_alnum :
    (c : ℕ) → (is_punct c || is_space c || is_cntrl c) ≡ true → is_alnum c ≡ false
separator-not_alnum c e = ground arith

pub alnum-no_separator :
    (c : ℕ) → is_alnum c ≡ true → (is_punct c || is_space c || is_cntrl c) ≡ false
alnum-no_separator c e = ground arith

pub alnum-no_end : (c : ℕ) → is_alnum c ≡ true → (is_space c || is_cntrl c) ≡ false
alnum-no_end c e = ground arith

-- The places of a name are those of the parser.
pub Spells-path_of :
    (flags : ℕ) (word : Bytes) → flags % 2 ≡ 0 → IsName word → Spells flags word (path_of word)
Spells-path_of flags [] even n = tt
Spells-path_of flags (c ∷ cs) even n =
    (place_of-alnum flags c even n.0, slot_of-inside c n.0, Spells-path_of flags cs even n.1)
