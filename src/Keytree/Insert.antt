-- ===== src/Keytree/Insert.antt =====
-- `kt_key_add`, `parse_file_create_key`, `wg_keytree_create` and `wg_keytree_add` of
-- kt/src/keytree.c.
use wtools.Prelude.{
  ℕ, zero, suc, ◌+◌, ◌-◌, ◌*◌, Bool, true, false, ◌&&◌, Option, none, some, List, [], ◌∷◌, leb,
  if◌then◌else◌,
}
use wtools.Prelude.Chain.{◌>>=◌}
use wtools.Buffer.{Bytes}
use wtools.Libc.{Libc}
use wtools.Keytree.{
  Error, no_error, exists, bad_parameter, Key, key, KeyList, unallocated, allocated, Keys, Kind,
  lower, upper, number, other, size, pick, put, empty_head, fresh_key, nulls, get, set, Keytree,
}
use wtools.Keytree.Chars.{WeakType, unmanaged, plain, word_weak_type}

-- `kt_key_add`: a failed `malloc` of the array leaves `*p_key` as it was, one of the key leaves
-- NULL in it. `added` has the list with the key in it, the key, and `*new_elem`.
pub data AddedKey : Type 0 where
  no_array : AddedKey
  no_key : KeyList → AddedKey
  added : ℕ → Keys → Key → Bool → AddedKey

-- `charlist->keys`, allocated with `memset` where it is NULL.
unfoldable pub open_list : Libc → ℕ → KeyList → Option (ℕ × Keys)
open_list libc nb_characters unallocated = elim (libc.malloc (8 * nb_characters)) [
  | none ↦ none
  | some block ↦ some (0, nulls nb_characters)
]
open_list libc nb_characters (allocated nb ks) = some (nb, ks)

-- `sizeof(wg_key_t)` with 64-bit pointers.
abbrev pub sizeof_key : ℕ
sizeof_key = 96

unfoldable pub find_key : Libc → ℕ × Keys → ℕ → Option AddedKey
find_key libc (nb, ks) offset = do
  slot ← get ks offset
  elim slot [
    | some k ↦ some (added nb ks k false)
    | none ↦ elim (libc.malloc sizeof_key) [
      | none ↦ some (no_key (allocated nb ks))
      | some block ↦ (set ks offset fresh_key >>= λ ks'. some (added (nb + 1) ks' fresh_key true))
    ]
  ]

unfoldable pub kt_key_add : Libc → KeyList → ℕ → ℕ → Option AddedKey
unfolding open_list find_key
kt_key_add libc charlist offset nb_characters = elim (open_list libc nb_characters charlist) [
  | none ↦ some no_array
  | some opened ↦ find_key libc opened offset
]

-- What a character leads to: a place in a list, no place in the list of the other characters,
-- whose array is allocated all the same, or nothing.
pub data Place : Type 0 where
  slot : Kind → ℕ → Place
  beyond : Place
  nowhere : Place

-- `l_str[l_iter] - '!'` between 0 and 26.
abbrev pub other_place : ℕ → Place
other_place c = if leb b'!' c && leb (c - b'!') 26 then slot other (c - b'!') else beyond

abbrev pub kind_place : Kind → ℕ → ℕ → Place
kind_place number c r = slot number (c - b'0')
kind_place upper c r = slot upper (c - b'A')
kind_place lower c r = slot lower (r - b'a')
kind_place other c r = other_place c

-- The offsets of the switch, from the character and from `l_char`.
abbrev pub typed_place : ℕ → WeakType × Option ℕ → Place
typed_place c (unmanaged, r) = nowhere
typed_place c (plain kind, none) = nowhere
typed_place c (plain kind, some r) = kind_place kind c r

unfoldable pub place_of : ℕ → ℕ → Place
unfolding word_weak_type
place_of flags c = typed_place c (word_weak_type flags c)

-- The lists whose failed allocations are errors: the tree is released. Those of the letters go
-- unnoticed.
abbrev pub checks_memory : Kind → Bool
checks_memory number = true
checks_memory other = true
checks_memory _ = false

-- The end of `parse_file_create_key`: the key that was reached, the code and what is stored in
-- `*udata`; or the error of a tree that was released.
pub data Parsed : Type 0 where
  done : Key → Error → Option ℕ → Parsed
  released : Parsed

abbrev pub finish : ℕ → Bool → Key → Parsed
finish data_ true (key e d h) = done (key true data_ h) no_error none
finish data_ false (key e d h) = done (key true d h) exists (some d)

-- The child is written in place: the parent with the new child.
unfoldable pub rebuild : Key → Kind → ℕ → ℕ → Keys → Parsed → Option Parsed
rebuild (key e d h) kind offset nb ks released = some released
rebuild (key e d h) kind offset nb ks (done child code out) = do
  ks' ← set ks offset child
  some (done (key e d (put kind (allocated nb ks') h)) code out)

-- The loop over the characters that are left, at the key whose head is `l_key_head`. `l_key` is
-- set but in the first round, where the key stands for the root; to use it unset faults.
unfoldable pub parse_key : Libc → ℕ → ℕ → ℕ → Bytes → Bool → Bool → Key → Option Parsed
unfolding kt_key_add place_of rebuild
parse_key libc flags data_ zero str set_ new_elem k = elim set_ [
  | true ↦ some (finish data_ new_elem k)
  | false ↦ none
]
parse_key libc flags data_ (suc n) [] set_ new_elem k = none
parse_key libc flags data_ (suc n) (c ∷ cs) set_ new_elem (key e d h) =
    let skip : Key → Option Parsed =
      λ k. elim set_ [ true ↦ parse_key libc flags data_ n cs true false k | false ↦ none ] in
    elim (place_of flags c) [
      | nowhere ↦ skip (key e d h)
      | beyond ↦ elim (open_list libc 26 (pick other h)) [
        | none ↦ some released
        | some (nb, ks) ↦ skip (key e d (put other (allocated nb ks) h))
      ]
      | slot kind offset ↦
          (kt_key_add libc (pick kind h) offset (size kind) >>= λ a. elim a [
            | no_array ↦ elim (checks_memory kind) [
              | true ↦ some released
              | false ↦ skip (key e d h)
            ]
            | no_key list ↦ elim (checks_memory kind) [ true ↦ some released | false ↦ none ]
            | added nb ks child new ↦
                (parse_key libc flags data_ n cs true new child
                  >>= rebuild (key e d h) kind offset nb ks)
          ])
    ]

-- `keytree_elem_t`.
pub record Elem : Type 0 where
  pub str : Bytes
  pub len : ℕ
  pub udata : ℕ

-- The code, what `*udata` gets and the tree; no tree is one that was released.
abbrev pub tree_of : Keytree → Parsed → Error × Option ℕ × Option Keytree
tree_of t released = (Error.no_memory, none, none)
tree_of t (done (key e d h) code out) = (code, out, some (record t { lists = h }))

unfoldable pub parse_file_create_key :
    Libc → Elem → Keytree → Option (Error × Option ℕ × Option Keytree)
unfolding parse_key
parse_file_create_key libc elem t = elim elem.len [
  | zero ↦ some (bad_parameter, none, some t)
  | suc n ↦
      (parse_key libc t.flags elem.udata elem.len elem.str false false (key false 0 t.lists)
        >>= λ p. some (tree_of t p))
]

unfoldable pub wg_keytree_add :
    Libc → Option Keytree → Option Elem → Option (Error × Option ℕ × Option Keytree)
unfolding parse_file_create_key
wg_keytree_add libc none e = some (bad_parameter, none, none)
wg_keytree_add libc (some t) none = some (bad_parameter, none, some t)
wg_keytree_add libc (some t) (some e) = parse_file_create_key libc e t

abbrev pub is_no_error : Error → Bool
is_no_error no_error = true
is_no_error _ = false

-- The loop over the list of words, up to the first code that is not W_NO_ERROR.
unfoldable pub add_list : Libc → List Elem → Keytree → Option (Error × Option Keytree)
unfolding parse_file_create_key
add_list libc [] t = some (no_error, some t)
add_list libc (e ∷ es) t = do
  r ← parse_file_create_key libc e t
  elim (is_no_error r.0) [ true ↦ (r.2 >>= λ t'. add_list libc es t') | false ↦ some (r.0, none) ]

-- `sizeof(keytree_head_t)` with 64-bit pointers.
abbrev pub sizeof_head : ℕ
sizeof_head = 80

-- The flags, the list of words, whether `key_head` is NULL. The result holds the code and what
-- is stored in `*key_head`: nothing, NULL or a tree. A failed `malloc` stores nothing and the
-- code stays W_NO_ERROR.
unfoldable pub wg_keytree_create :
    Libc → ℕ → Option (List Elem) → Bool → Option (Error × Option (Option Keytree))
unfolding add_list
wg_keytree_create libc flags none head_null = some (bad_parameter, none)
wg_keytree_create libc flags (some words) true = some (bad_parameter, none)
wg_keytree_create libc flags (some words) false = elim (libc.malloc sizeof_head) [
  | none ↦ some (no_error, none)
  | some block ↦
      (add_list libc words (record { flags = flags; lists = empty_head }) >>= λ r.
      some (r.0, some r.1))
]
