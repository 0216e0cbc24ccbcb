-- ===== src/Lg.antt =====
-- lg/src/lg.c, the log: the context of the process with its table of libraries, and the file name
-- of a line. Whether an allocation succeeds is an argument.
pub mod FileNames
pub mod Libraries
use wtools.Prelude.{
  ℕ, zero, suc, ◌+◌, Bool, true, false, Option, none, some, List, [], ◌∷◌, ◌==◌, if◌then◌else◌,
  drop,
}
use wtools.Prelude.Int.{ℤ, pos, minus_one}
use wtools.Prelude.Chain.{◌>>=◌}
use wtools.Buffer.{Bytes, load, store, read_all}
use wtools.Keytree.Release.{strlen}

-- `lg_type_t` and `lg_level_t` of lg/inc/lg.h.
pub data LgType : Type 0 where
  syslog stdout end_type : LgType

pub data LgLevel : Type 0 where
  debug info warn error crit end_level : LgLevel

-- `libname` of an entry of the table, which a fresh entry has not set.
pub data Slot : Type 0 where
  unset : Slot
  name : Bytes → Slot

-- `libs`: NULL, a table, or a pointer to one that was freed.
pub data Libs : Type 0 where
  null freed : Libs
  table : List Slot → Libs

-- `lg_process_ctx_t`.
pub record ProcessCtx : Type 0 where
  pub lg_type : LgType
  pub libs : Libs
  pub nb_libs : ℕ

-- LG_PROCESS_CTX_INIT
abbrev pub s_current_process_ctx : ProcessCtx
s_current_process_ctx = record { lg_type = end_type; libs = null; nb_libs = 0 }

-- LG_E_BAD_PARAMETER; LG_NO_ERROR is 0.
abbrev pub bad_parameter : ℤ
bad_parameter = pos 5

unfoldable pub lg_init : ProcessCtx → Option LgType → ℤ × ProcessCtx
lg_init c none = (bad_parameter, c)
lg_init c (some type) = (pos 0, record c { lg_type = type })

-- The loop of `lg_term` over what is left of the table: each name is read, and freed.
abbrev pub free_names : ℕ → List Slot → Option (Unit {0})
free_names zero slots = some tt
free_names (suc n) [] = none
free_names (suc n) (unset ∷ slots) = none
free_names (suc n) (name s ∷ slots) = free_names n slots

-- The same on the pointer.
abbrev pub free_libs : ℕ → Libs → Option (Unit {0})
free_libs zero l = some tt
free_libs (suc n) (table slots) = free_names (suc n) slots
free_libs (suc n) _ = none

-- `if (NULL != libs){ free(libs); libs=NULL; }`: a table that was freed is freed again, a fault.
abbrev pub free_table : Libs → Option Libs
free_table freed = none
free_table _ = some null

-- `nb_libs` stays as it is.
unfoldable pub lg_term : ProcessCtx → Option (ℤ × ProcessCtx)
lg_term c = do
  _ ← free_libs c.nb_libs c.libs
  l ← free_table c.libs
  some (pos 0, record c { lg_type = end_type; libs = l })

-- The slots of a table of `n` entries that `realloc` makes of `old`.
abbrev pub regrown : ℕ → List Slot → List Slot
regrown zero old = []
regrown (suc n) [] = unset ∷ regrown n []
regrown (suc n) (s ∷ old) = s ∷ regrown n old

-- `realloc` of the table to `n` entries.
abbrev pub realloc_libs : ℕ → Libs → Option (List Slot)
realloc_libs n null = some (regrown n [])
realloc_libs n freed = none
realloc_libs n (table old) = some (regrown n old)

-- What `libs` points to once the new table is freed while `libs` is not set: it was NULL, or the
-- table that `realloc` took.
abbrev pub left_behind : Libs → Libs
left_behind null = null
left_behind l = freed

-- The arguments tell whether `realloc` and `malloc` succeed.
unfoldable pub lg_lib_add : Bool → Bool → ProcessCtx → Bytes → Option (ℤ × ProcessCtx)
unfolding store
lg_lib_add realloc_ok malloc_ok c libname = do
  len ← strlen libname
  slots ← realloc_libs (c.nb_libs + 1) c.libs
  str ← read_all (len + 1) 0 libname
  added ← store c.nb_libs (name str) slots
  if realloc_ok
      then if malloc_ok
        then some (pos 0, record c { libs = table added; nb_libs = c.nb_libs + 1 })
        else some (minus_one, record c { libs = left_behind c.libs })
      else some (minus_one, c)

-- The loop of `filename_offset_compute` with `l_i` and `l_ret_offset`.
unfoldable pub offset_loop : ℕ → ℕ → Bytes → Option ℕ
offset_loop i offset [] = none
offset_loop i offset (c ∷ cs) =
    let later = offset_loop (i + 1) (if c == b'/' then i else offset + 1) cs in
    if c == 0 then some offset else later

unfoldable pub filename_offset_compute : Bytes → Option ℕ
unfolding offset_loop
filename_offset_compute p_filename = offset_loop 0 0 p_filename

-- What a line starts with: the word of its level, where it has one, the rest of the file name, the
-- number of the line and the function, where it is not NULL.
pub record Prefix : Type 0 where
  pub level : Option Bytes
  pub file : Bytes
  pub line : ℕ
  pub function : Option Bytes

abbrev pub level_word : LgLevel → Option Bytes
level_word debug = some (b'D' ∷ b'E' ∷ b'B' ∷ b'G' ∷ [])
level_word info = some (b'I' ∷ b'N' ∷ b'F' ∷ b'O' ∷ [])
level_word warn = some (b'W' ∷ b'A' ∷ b'R' ∷ b'N' ∷ [])
level_word error = some (b'E' ∷ b'R' ∷ b'R' ∷ b'O' ∷ [])
level_word crit = some (b'C' ∷ b'R' ∷ b'I' ∷ b'T' ∷ [])
level_word end_level = none

-- The string at the start of some memory, which `%s` prints.
unfoldable pub c_string : Bytes → Option Bytes
c_string [] = none
c_string (c ∷ cs) =
    let later = c_string cs >>= λ s. some (c ∷ s) in if c == 0 then some [] else later

-- The start of a line of `lg_print`; what the caller's format prints follows.
unfoldable pub lg_print : LgLevel → Bytes → ℕ → Option Bytes → Option Prefix
unfolding filename_offset_compute c_string
lg_print level p_file line function = do
  offset ← filename_offset_compute p_file
  file ← c_string (drop offset p_file)
  some (record { level = level_word level; file = file; line = line; function = function })
