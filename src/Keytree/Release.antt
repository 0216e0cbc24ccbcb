-- ===== src/Keytree/Release.antt =====
-- `wg_key_release` and `wg_keytree_release` of kt/src/keytree.c, `keytree_key_init` and
-- `keytree_key_uninit`. What is released is counted in blocks.
use wtools.Prelude.{
  ℕ, zero, suc, ◌+◌, Bool, true, false, Option, none, some, [], ◌∷◌, ◌==◌, if◌then◌else◌,
}
use wtools.Prelude.Chain.{◌>>=◌}
use wtools.Buffer.{Bytes, store_all, read_all}
use wtools.Libc.{Libc}
use wtools.Keytree.{
  Error, no_error, no_memory, bad_parameter, Key, key, KeyList, unallocated, allocated, Keys, end,
  absent, present, Head, head, Keytree,
}
use wtools.Keytree.Insert.{Elem}

unfoldable mutual
  -- The blocks of a key's lists and the key itself.
  pub release_key : Key → Option ℕ
  release_key (key e d h) = do n ← wg_key_release h; some (n + 1)

  -- The calls of `free` for the lists of a head, the numbers first.
  pub wg_key_release : Head → Option ℕ
  wg_key_release (head l u n o) = do
    a ← release_list 10 n
    b ← release_list 26 u
    c ← release_list 26 l
    d ← release_list 26 o
    some (a + b + c + d)

  pub release_list : ℕ → KeyList → Option ℕ
  release_list nb_characters unallocated = some 0
  release_list nb_characters (allocated nb ks) = do n ← release_keys ks nb_characters; some (n + 1)

  -- The loop over the places that are left.
  pub release_keys : Keys → ℕ → Option ℕ
  release_keys ks zero = some 0
  release_keys end (suc left) = none
  release_keys (absent ks) (suc left) = release_keys ks left
  release_keys (present k ks) (suc left) = do
    n ← release_key k
    m ← release_keys ks left
    some (n + m)

-- The code, and the number of blocks that were freed, the head's own included.
unfoldable pub wg_keytree_release : Option Keytree → Option (Error × ℕ)
unfolding release_key
wg_keytree_release none = some (bad_parameter, 0)
wg_keytree_release (some t) = do n ← wg_key_release t.lists; some (no_error, n + 1)

-- The length of a string, up to its NUL.
abbrev pub strlen : Bytes → Option ℕ
strlen [] = none
strlen (c ∷ cs) = if c == 0 then some 0 else (strlen cs >>= λ n. some (n + 1))

-- The code and, with W_NO_ERROR, the element. The first argument tells whether `k` is NULL.
unfoldable pub keytree_key_init : Libc → Bool → Option Bytes → ℕ → Option (Error × Option Elem)
keytree_key_init libc true str udata_ = some (bad_parameter, none)
keytree_key_init libc false none udata_ = some (bad_parameter, none)
keytree_key_init libc false (some str) udata_ = do
  len ← strlen str
  elim (libc.malloc len) [
    | none ↦ some (no_memory, none)
    | some block ↦
        (read_all len 0 str >>= λ bytes.
        (store_all 0 bytes block >>= λ copy.
        some (no_error, some (record { str = copy; len = len; udata = udata_ }))))
  ]

-- Of an element that is released the code is never set: `none`.
abbrev pub keytree_key_uninit : Option Elem → Option Error
keytree_key_uninit none = some bad_parameter
keytree_key_uninit (some k) = none
