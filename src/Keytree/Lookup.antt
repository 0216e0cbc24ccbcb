-- ===== src/Keytree/Lookup.antt =====
-- The searches of kt/src/keytree.c: `keytree_keyget`, `wg_keytree_strcmp`, `wg_keytree_weakcmp`
-- and `wg_keytree_strcmp_isalnum`. A string is the bytes from its start on, the NUL at its end
-- included; a read behind the last byte faults.
use wtools.Prelude.{
  ℕ, ◌+◌, ◌-◌, true, false, not, ◌||◌, Option, none, some, [], ◌∷◌, leb, if◌then◌else◌,
}
use wtools.Prelude.Int.{ℤ, pos, minus_one}
use wtools.Prelude.Chain.{◌>>=◌}
use wtools.Buffer.{Bytes, load}
use wtools.Keytree.{
  Error, no_error, operation_failed, bad_parameter, Key, key, KeyList, unallocated, allocated, Head,
  Kind, lower, upper, number, other, pick, get, Keytree,
}
use wtools.Keytree.Chars.{
  WeakType, plain, is_space, is_cntrl, is_punct, is_alnum, word_type, word_weak_type,
}

-- The first character of the range of a list.
abbrev pub first_char : Kind → ℕ
first_char lower = b'a'
first_char upper = b'A'
first_char number = b'0'
first_char other = b'!'

-- `if (keys != NULL) l_key = keys[c - first]`; a character below the first faults.
abbrev pub key_below : KeyList → ℕ → ℕ → Option (Option Key)
key_below unallocated first c = some none
key_below (allocated nb ks) first c = if leb first c then get ks (c - first) else none

-- The switch on `word_type` that the searches share, less the other characters.
unfoldable pub next_key : Head → ℕ → Option (Option Key)
unfolding word_type
next_key h c = elim (word_type c) [
  | none ↦ some none
  | some kind ↦ key_below (pick kind h) (first_char kind) c
]

-- The rounds of `keytree_keyget`: a key that ends a word is it where the next character is a
-- separator.
unfoldable pub keyget_loop : Head → Bytes → Option (Option Key)
unfolding next_key
keyget_loop h [] = none
keyget_loop h (c ∷ cs) = do
  found ← next_key h c
  elim found [
    | none ↦ some none
    | some (key e d h') ↦
        let deeper = keyget_loop h' cs in
        elim e [
          | false ↦ deeper
          | true ↦
              (load 0 cs >>= λ after.
              if is_punct after || is_space after || is_cntrl after
              then some (some (key true d h'))
              else deeper)
        ]
  ]

unfoldable pub keytree_keyget : Option Keytree → Option Bytes → Option (Option Key)
unfolding keyget_loop
keytree_keyget none str = some none
keytree_keyget (some t) none = some none
keytree_keyget (some t) (some str) = keyget_loop t.lists str

-- The code, and what is stored in `*data`.
unfoldable pub wg_keytree_keyget : Option Keytree → Option Bytes → Option (Error × Option ℕ)
unfolding keytree_keyget
wg_keytree_keyget t str = do
  found ← keytree_keyget t str
  elim found [ none ↦ some (operation_failed, none) | some (key e d h) ↦ some (no_error, some d) ]

-- The rounds of `wg_keytree_strcmp` with the code so far: the search goes on behind a word.
unfoldable pub strcmp_loop : Head → Bytes → Error → Option Error
unfolding next_key
strcmp_loop h [] code = none
strcmp_loop h (c ∷ cs) code = do
  found ← next_key h c
  elim found [
    | none ↦ some code
    | some (key e d h') ↦ elim e [
      | false ↦ strcmp_loop h' cs code
      | true ↦
          (load 0 cs >>= λ after.
          strcmp_loop h' cs (if is_space after || is_cntrl after then no_error else code))
    ]
  ]

unfoldable pub wg_keytree_strcmp : Option Keytree → Option Bytes → Option Error
unfolding strcmp_loop
wg_keytree_strcmp none str = some bad_parameter
wg_keytree_strcmp (some t) none = some bad_parameter
wg_keytree_strcmp (some t) (some str) = strcmp_loop t.lists str operation_failed

-- One round of `wg_keytree_weakcmp`: the key, and `l_character`, which a newline leaves as it was.
-- Every character that is no digit is looked up among the lower-case letters.
abbrev pub weak_key : Head → ℕ → WeakType × Option ℕ → Option ℕ → Option (Option Key)
weak_key h c (plain number, r) last = key_below (pick number h) b'0' c
weak_key h c (t, some r) last = key_below (pick lower h) b'a' r
weak_key h c (t, none) last = last >>= λ r. key_below (pick lower h) b'a' r

abbrev pub last_char : WeakType × Option ℕ → Option ℕ → Option ℕ
last_char (t, some r) last = some r
last_char (t, none) last = last

unfoldable pub weakcmp_loop : ℕ → Head → Bytes → Option ℕ → Error → Option Error
unfolding word_weak_type
weakcmp_loop flags h [] last code = none
weakcmp_loop flags h (c ∷ cs) last code = do
  found ← weak_key h c (word_weak_type flags c) last
  let last' = last_char (word_weak_type flags c) last
  elim found [
    | none ↦ some code
    | some (key e d h') ↦ elim e [
      | false ↦ weakcmp_loop flags h' cs last' code
      | true ↦
          (load 0 cs >>= λ after.
          weakcmp_loop flags h' cs last'
            (if is_space after || is_cntrl after then no_error else code))
    ]
  ]

-- The argument `weak_type` is not read.
unfoldable pub wg_keytree_weakcmp : Option Keytree → Option Bytes → Option Error
unfolding weakcmp_loop
wg_keytree_weakcmp none str = some bad_parameter
wg_keytree_weakcmp (some t) none = some bad_parameter
wg_keytree_weakcmp (some t) (some str) = weakcmp_loop t.flags t.lists str none operation_failed

-- The switch of `wg_keytree_strcmp_isalnum`, with the list of the other characters.
unfoldable pub any_key : Head → ℕ → Option (Option Key)
unfolding word_type
any_key h c = elim (word_type c) [
  | none ↦ key_below (pick other h) (first_char other) c
  | some kind ↦ key_below (pick kind h) (first_char kind) c
]

-- The rounds with `l_iter` and the length of the longest word so far, or -1.
unfoldable pub isalnum_loop : Head → Bytes → ℕ → ℤ → Option ℤ
unfolding any_key
isalnum_loop h [] iter longest = none
isalnum_loop h (c ∷ cs) iter longest = do
  found ← any_key h c
  elim found [
    | none ↦ some longest
    | some (key e d h') ↦ elim e [
      | false ↦ isalnum_loop h' cs (iter + 1) longest
      | true ↦
          (load 0 cs >>= λ after.
          isalnum_loop h' cs (iter + 1) (if not (is_alnum after) then pos (iter + 1) else longest))
    ]
  ]

unfoldable pub wg_keytree_strcmp_isalnum : Option Keytree → Option Bytes → Option ℤ
unfolding isalnum_loop
wg_keytree_strcmp_isalnum none str = some minus_one
wg_keytree_strcmp_isalnum (some t) none = some minus_one
wg_keytree_strcmp_isalnum (some t) (some str) = isalnum_loop t.lists str 0 minus_one
