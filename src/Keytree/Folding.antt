-- ===== src/Keytree/Folding.antt =====
-- `wg_keytree_weakcmp` of kt/src/keytree.c beside `wg_keytree_strcmp`.
use wtools.Prelude.{
  ℕ, ◌≡◌, refl, sym, ◌∙◌, arith, Bool, true, false, ◌||◌, Option, none, some, [], ◌∷◌, ◌++◌,
  if◌then◌else◌, Bool-cases, inl, inr,
}
use wtools.Prelude.Chain.{◌>>=◌}
use wtools.Buffer.{Bytes, load}
use wtools.Keytree.{
  Error, no_error, operation_failed, Key, key, KeyList, unallocated, allocated, Head, lower, upper,
  number, other, pick, Keytree,
}
use wtools.Keytree.Chars.{
  WeakType, plain, unmanaged, is_digit, is_lower, is_alnum, is_space, is_cntrl, word_type,
  word_weak_type,
}
use wtools.Keytree.Lookup.{
  key_below, next_key, strcmp_loop, wg_keytree_strcmp, weak_key, last_char, weakcmp_loop,
  wg_keytree_weakcmp,
}
use wtools.Keytree.Searching.{strcmp_loop-end, strcmp_step, strcmp_round}

-- Lower-case letters and digits.
abbrev pub IsFolded : Bytes → Type 0
IsFolded [] = Unit
IsFolded (c ∷ cs) = ((is_digit c || is_lower c) ≡ true) × IsFolded cs

abbrev no_lower : Head → Bool
no_lower h = elim (pick lower h) [ unallocated ↦ true | allocated nb ks ↦ false ]

-- That the tree has no list of lower-case letters at the end of the word.
unfoldable pub ends_bare : Head → Bytes → Bool
unfolding next_key
ends_bare h [] = no_lower h
ends_bare h (c ∷ cs) = elim (next_key h c) [
  | none ↦ true
  | some o ↦ elim o [ none ↦ true | some (key e d h') ↦ ends_bare h' cs ]
]

folded_type :
    (flags c : ℕ)
    → (is_digit c || is_lower c) ≡ true
    → word_weak_type flags c ≡ (plain (if is_digit c then number else lower), some c)
unfolding word_weak_type
folded_type flags c a = ground arith

folded_word_type :
    (c : ℕ)
    → (is_digit c || is_lower c) ≡ true
    → word_type c ≡ some (if is_digit c then number else lower)
unfolding word_type
folded_word_type c a = ground arith

weak_key-next_key :
    (h : Head) (flags c : ℕ) (last : Option ℕ)
    → (is_digit c || is_lower c) ≡ true
    → weak_key h c (word_weak_type flags c) last ≡ next_key h c
unfolding next_key
weak_key-next_key h flags c last a =
    rw (folded_type flags c a, next_key, folded_word_type c a)
      (elim (Bool-cases (is_digit c)) [ inl t ↦ rw t refl | inr f ↦ rw f refl ])

last_char-folded :
    (flags c : ℕ) (last : Option ℕ)
    → (is_digit c || is_lower c) ≡ true
    → last_char (word_weak_type flags c) last ≡ some c
last_char-folded flags c last a = rw (folded_type flags c a) refl

abbrev is_number : WeakType × Option ℕ → Bool
is_number (plain number, r) = true
is_number _ = false

apart-is_number :
    (flags sep : ℕ) → is_alnum sep ≡ false → is_number (word_weak_type flags sep) ≡ false
unfolding word_weak_type
apart-is_number flags sep a = ground arith

below_none :
    (h : Head) (first c : ℕ) → no_lower h ≡ true → key_below (pick lower h) first c ≡ some none
below_none h first c b = held (pick lower h) b
  where
    held :
        (list : KeyList)
        → elim list [ unallocated ↦ true | allocated nb ks ↦ false ] ≡ true
        → key_below list first c ≡ some none
    held unallocated e = refl
    held (allocated nb ks) e = cc

-- A character that is no digit, where no lower-case letters are.
weak_key-none :
    (h : Head) (c r : ℕ) (w : WeakType × Option ℕ)
    → is_number w ≡ false
    → no_lower h ≡ true
    → weak_key h c w (some r) ≡ some none
weak_key-none h c r (plain number, x) n b = cc
weak_key-none h c r (plain lower, some x) n b = below_none h b'a' x b
weak_key-none h c r (plain lower, none) n b = below_none h b'a' r b
weak_key-none h c r (plain upper, some x) n b = below_none h b'a' x b
weak_key-none h c r (plain upper, none) n b = below_none h b'a' r b
weak_key-none h c r (plain other, some x) n b = below_none h b'a' x b
weak_key-none h c r (plain other, none) n b = below_none h b'a' r b
weak_key-none h c r (unmanaged, some x) n b = below_none h b'a' x b
weak_key-none h c r (unmanaged, none) n b = below_none h b'a' r b

-- A round of `weakcmp_loop` on what the character leads to.
abbrev weak_step : ℕ → Option ℕ → Bytes → Error → Option Key → Option Error
weak_step flags last cs code none = some code
weak_step flags last cs code (some (key false d h)) = weakcmp_loop flags h cs last code
weak_step flags last cs code (some (key true d h)) = load 0 cs >>= λ after.
    weakcmp_loop flags h cs last (if is_space after || is_cntrl after then no_error else code)

weak_round :
    (flags : ℕ) (h : Head) (c : ℕ) (cs : Bytes) (last : Option ℕ) (code : Error) (o : Option Key)
    → weak_key h c (word_weak_type flags c) last ≡ some o
    → weakcmp_loop flags h (c ∷ cs) last code
      ≡ weak_step flags (last_char (word_weak_type flags c) last) cs code o
unfolding weakcmp_loop
weak_round flags h c cs last code none e = rw (e, weakcmp_loop)
weak_round flags h c cs last code (some (key false d h')) e = rw (e, weakcmp_loop)
weak_round flags h c cs last code (some (key true d h')) e = rw (e, weakcmp_loop)

-- That the two searches answer the same behind a word.
abbrev Agrees : ℕ → Bytes → ℕ → Bytes → Type 0
Agrees flags word sep rest =
    (h : Head) (r : ℕ) (code : Error)
    → ends_bare h word ≡ true
    → weakcmp_loop flags h (word ++ (sep ∷ rest)) (some r) code
      ≡ strcmp_loop h (word ++ (sep ∷ rest)) code

unfoldable ends_below : Bytes → Option Key → Bool
unfolding ends_bare
ends_below cs none = true
ends_below cs (some (key e d h)) = ends_bare h cs

steps_agree :
    (flags : ℕ) (cs : Bytes) (sep : ℕ) (rest : Bytes) (r : ℕ) (code : Error) (o : Option Key)
    → Agrees flags cs sep rest
    → ends_below cs o ≡ true
    → weak_step flags (some r) (cs ++ (sep ∷ rest)) code o ≡ strcmp_step (cs ++ (sep ∷ rest)) code o
unfolding ends_bare ends_below
steps_agree flags cs sep rest r code none ih b = refl
steps_agree flags cs sep rest r code (some (key false d h)) ih b = ih h r code b
steps_agree flags [] sep rest r code (some (key true d h)) ih b = ih h r _ b
steps_agree flags (c ∷ cs) sep rest r code (some (key true d h)) ih b = ih h r _ b

-- A round of a letter or a digit, whatever the character before it.
rounds_agree :
    (flags c : ℕ) (cs : Bytes) (sep : ℕ) (rest : Bytes) (h : Head) (last : Option ℕ) (code : Error)
    → (is_digit c || is_lower c) ≡ true
    → Agrees flags cs sep rest
    → (o : Option (Option Key)) → next_key h c ≡ o
    → elim o [ none ↦ true | some k ↦ ends_below cs k ] ≡ true
    → weakcmp_loop flags h (c ∷ (cs ++ (sep ∷ rest))) last code
      ≡ strcmp_loop h (c ∷ (cs ++ (sep ∷ rest))) code
unfolding weakcmp_loop strcmp_loop
rounds_agree flags c cs sep rest h last code a ih none e b =
    let same = weak_key-next_key h flags c last a ∙ e in
    rw (weakcmp_loop, strcmp_loop, same, e) refl
rounds_agree flags c cs sep rest h last code a ih (some k) e b =
    let cs' = cs ++ (sep ∷ rest) in
    weak_round flags h c cs' last code k (weak_key-next_key h flags c last a ∙ e)
    ∙ rw (last_char-folded flags c last a) (steps_agree flags cs sep rest c code k ih b)
    ∙ sym (strcmp_round h c cs' code k e)

loops_agree :
    (flags : ℕ) (word : Bytes) (sep : ℕ) (rest : Bytes)
    → IsFolded word
    → is_alnum sep ≡ false
    → Agrees flags word sep rest
unfolding ends_bare ends_below
loops_agree flags [] sep rest f a h r code b =
    weak_round flags h sep rest (some r) code none
      (weak_key-none h sep r (word_weak_type flags sep) (apart-is_number flags sep a) b)
    ∙ sym (strcmp_loop-end h sep rest code a)
loops_agree flags (c ∷ cs) sep rest f a h r code b =
    rounds_agree flags c cs sep rest h (some r) code f.0 (loops_agree flags cs sep rest f.1 a)
      (next_key h c) refl b

-- `wg_keytree_weakcmp`, whatever the flags of the tree, answers what `wg_keytree_strcmp` answers on
-- a word of lower-case letters and digits, at least one, before a character that is no letter and
-- no digit, if the tree has no list of lower-case letters at the end of the word.
pub weakcmp-strcmp :
    (t : Keytree) (c : ℕ) (cs : Bytes) (sep : ℕ) (rest : Bytes)
    → IsFolded (c ∷ cs)
    → is_alnum sep ≡ false
    → ends_bare t.lists (c ∷ cs) ≡ true
    → wg_keytree_weakcmp (some t) (some (c ∷ cs ++ (sep ∷ rest)))
      ≡ wg_keytree_strcmp (some t) (some (c ∷ cs ++ (sep ∷ rest)))
unfolding wg_keytree_weakcmp wg_keytree_strcmp ends_bare ends_below
weakcmp-strcmp t c cs sep rest f a b =
    rounds_agree t.flags c cs sep rest t.lists none operation_failed f.0
      (loops_agree t.flags cs sep rest f.1 a) (next_key t.lists c) refl b
