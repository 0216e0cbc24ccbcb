-- ===== src/Keytree/Walk.antt =====
-- `keytree_foreach` and `wg_keytree_foreach` of kt/src/keytree.c.
use wtools.Prelude.{ℕ, ◌+◌, Bool, true, false, ◌&&◌, Option, none, some, [], ◌∷◌, ◌++◌, ltb, length}
use wtools.Prelude.Chain.{◌>>=◌}
use wtools.Buffer.{Bytes}
use wtools.Keytree.{
  Error, no_error, Key, key, KeyList, unallocated, allocated, Keys, end, absent, present, Head,
  head, Kind, lower, upper, number, other, size, Keytree,
}

-- The length of the array `str` of `wg_keytree_foreach`.
abbrev pub str_size : ℕ
str_size = 128

-- The conditions of the four loops, on `l_i`, `l_found` and `nb_keys`.
abbrev pub more : Kind → ℕ → ℕ → ℕ → Bool
more other i found nb = ltb i nb
more kind i found nb = ltb i (size kind) && ltb found nb

-- The character of a place; as in the source, that of the other characters starts at 'a'.
abbrev pub walk_char : Kind → ℕ
walk_char upper = b'A'
walk_char number = b'0'
walk_char _ = b'a'

-- `p_str[strlen] = c` in the array, whose first bytes are `p_str`.
abbrev pub extend : Bytes → ℕ → Option Bytes
extend p_str c = elim (ltb (length p_str) str_size) [
  | true ↦ some (p_str ++ (c ∷ []))
  | false ↦ none
]

-- `wg_keytree_fn_t` over the user's data: the key's `end_of_word` and `udata`, and the string.
-- What it answers is ignored; it may fault.
abbrev pub Visit : Type 0 → Type 0
Visit D = D → Bool → ℕ → Bytes → Option D

module _ {D : Type 0} (fn : Visit D) where
  unfoldable mutual
    pub walk_key : Key → Bytes → D → Option D
    walk_key (key e data_ h) p_str d = do d1 ← fn d e data_ p_str; keytree_foreach h p_str d1

    -- The four loops, one after the other.
    pub keytree_foreach : Head → Bytes → D → Option D
    keytree_foreach (head l u n o) p_str d = do
      d1 ← walk_list l lower p_str d
      d2 ← walk_list u upper p_str d1
      d3 ← walk_list n number p_str d2
      walk_list o other p_str d3

    pub walk_list : KeyList → Kind → Bytes → D → Option D
    walk_list unallocated kind p_str d = some d
    walk_list (allocated nb ks) kind p_str d = walk_keys ks kind nb 0 0 p_str d

    -- A loop from `l_i` on, over what is left of the array; `l_i` behind its end faults.
    pub walk_keys : Keys → Kind → ℕ → ℕ → ℕ → Bytes → D → Option D
    walk_keys end kind nb i found p_str d = elim (more kind i found nb) [
      | true ↦ none
      | false ↦ some d
    ]
    walk_keys (absent ks) kind nb i found p_str d = elim (more kind i found nb) [
      | true ↦ walk_keys ks kind nb (i + 1) found p_str d
      | false ↦ some d
    ]
    walk_keys (present k ks) kind nb i found p_str d = elim (more kind i found nb) [
      | true ↦
          (extend p_str (walk_char kind + i) >>= λ longer.
          (walk_key k longer d >>= λ d1. walk_keys ks kind nb (i + 1) (found + 1) p_str d1))
      | false ↦ some d
    ]

  unfoldable pub wg_keytree_foreach : Keytree → D → Option (Error × D)
  unfolding walk_key
  wg_keytree_foreach t d = do d' ← keytree_foreach t.lists [] d; some (no_error, d')
