-- ===== src/File.antt =====
-- bkv/src/bkv_file.c, the files behind a document. The system calls are parameters; file
-- descriptors, sizes and addresses are integers, as `int` and pointers that may be -1. What is
-- printed when a call fails is left out.
pub mod Descriptors
use wtools.Prelude.{Bool, ◌||◌, not, Option, none, some, if◌then◌else◌}
use wtools.Prelude.Int.{ℤ, pos, minus_one, eqb_ℤ}
use wtools.Prelude.Chain.{◌>>=◌}
use wtools.Buffer.{Bytes}
use wtools.Bkv.{ok, inv_arg}

-- The flags of `open`: O_RDWR, O_CREAT|O_TRUNC|O_RDWR and O_RDONLY.
pub data Flags : Type 0 where
  rdwr creat_trunc_rdwr rdonly : Flags

-- The protection and the flags of `mmap`.
pub data Mapping : Type 0 where
  write_shared read_write_private read_shared : Mapping

-- The calls, over the state of the system; `fstat` gives the size, unless it fails.
pub record Posix (W : Type 0) : Type 0 where
  pub open_file : Bytes → Flags → ℤ → W → ℤ × W
  pub close : ℤ → W → ℤ × W
  pub ftruncate : ℤ → ℤ → W → ℤ × W
  pub fstat : ℤ → W → Option ℤ × W
  pub mmap : ℤ → Mapping → ℤ → W → ℤ × W
  pub munmap : ℤ → ℤ → W → ℤ × W
  pub syncfs : ℤ → W → ℤ × W

abbrev pub map_failed : ℤ
map_failed = minus_one

-- `*p_fd`, `*p_size` and `*p_ptr`, where they are set.
pub record Opened : Type 0 where
  pub fd : ℤ
  pub size : ℤ
  pub ptr : ℤ

module _ {W : Type 0} (posix : Posix W) where
  open posix use {open_file, close, ftruncate, fstat, mmap, munmap, syncfs}

  -- The code, and `*pp_ptr` where it is set.
  unfoldable pub bkv_file_create_and_mmap : ℤ → ℤ → W → ℤ × Option ℤ × W
  bkv_file_create_and_mmap fd new_size w =
      let (ret, w1) = ftruncate fd new_size w in
      let (ptr, w2) = mmap new_size write_shared fd w1 in
      if eqb_ℤ minus_one ret
      then (ret, none, w1)
      else if eqb_ℤ map_failed ptr
      then (ret, none, w2)
      else (ok, some ptr, w2)

  -- BKV_KO is -1.
  unfoldable pub bkv_file_truncate : ℤ → ℤ → W → ℤ × W
  bkv_file_truncate fd size w =
      let (ret, w1) = ftruncate fd size w in
      if eqb_ℤ minus_one fd
      then (minus_one, w)
      else (if eqb_ℤ (pos 0) ret then ok else minus_one, w1)

  -- The tests behind `open`: the code, where it is set from what it was, and what is stored.
  abbrev pub map_update : ℤ → W → ℤ × Option Opened × W
  map_update fd w =
      let (stat, w1) = fstat fd w in
      elim stat [
        | none ↦ (minus_one, none, w1)
        | some size ↦
            (let (ptr, w2) = mmap size read_write_private fd w1 in
              if eqb_ℤ map_failed ptr
              then (pos 0, none, w2)
              else (ok, some (record { fd = fd; size = size; ptr = ptr }), w2))
      ]

  -- `if (BKV_OK != l_ret){ if (-1 != l_fd){ close(l_fd); } }`
  abbrev pub close_unless_ok : ℤ → ℤ × Option Opened × W → ℤ × Option Opened × W
  close_unless_ok fd (ret, stored, w) =
      if eqb_ℤ ok ret || eqb_ℤ minus_one fd then (ret, stored, w) else (ret, stored, (close fd w).1)

  unfoldable pub bkv_open_file_update : Bytes → ℤ → W → ℤ × Option Opened × W
  bkv_open_file_update p_file mode w =
      let (fd, w1) = open_file p_file rdwr mode w in
      close_unless_ok fd (if eqb_ℤ minus_one fd then (inv_arg, none, w1) else map_update fd w1)

  -- With the mode 0 `l_fd` is not set when it is compared: a fault.
  unfoldable pub bkv_open_file_create_write : Bytes → ℤ → W → Option (ℤ × Option Opened × W)
  bkv_open_file_create_write p_file mode w =
      let (fd, w1) = open_file p_file creat_trunc_rdwr mode w in
      if eqb_ℤ (pos 0) mode
      then none
      else some (
          close_unless_ok fd (
            if eqb_ℤ minus_one fd
            then (inv_arg, none, w1)
            else (ok, some (record { fd = fd; size = pos 0; ptr = pos 0 }), w1)))

  -- The same in `bkv_open_file_readonly`; `l_ptr` and the size are those of the context, where they
  -- are set.
  abbrev pub map_readonly : ℤ → W → ℤ × Option Opened × W × Option (ℤ × ℤ)
  map_readonly fd w =
      let (stat, w1) = fstat fd w in
      elim stat [
        | none ↦ (inv_arg, none, w1, none)
        | some size ↦
            (let (ptr, w2) = mmap size read_shared fd w1 in
              if eqb_ℤ map_failed ptr
              then (inv_arg, none, w2, some (ptr, size))
              else (ok, some (record { fd = fd; size = size; ptr = ptr }), w2, some (ptr, size)))
      ]

  -- `if (-1 == l_ret){ … }`; `l_ptr` is compared with NULL, a fault where it is not set.
  abbrev pub release_if_ko :
      ℤ → ℤ × Option Opened × W × Option (ℤ × ℤ) → Option (ℤ × Option Opened × W)
  release_if_ko fd (ret, stored, w, mapped) =
      let w1 = if eqb_ℤ minus_one fd then w else (close fd w).1 in
      let released = mapped >>= λ m.
      some (ret, stored, if eqb_ℤ (pos 0) m.0 then w1 else (munmap m.0 m.1 w1).1) in
      if eqb_ℤ minus_one ret then released else some (ret, stored, w)

  unfoldable pub bkv_open_file_readonly : Bytes → W → Option (ℤ × Option Opened × W)
  bkv_open_file_readonly p_file w =
      let (fd, w1) = open_file p_file rdonly (pos 0) w in
      release_if_ko fd
        (if eqb_ℤ minus_one fd then (inv_arg, none, w1, none) else map_readonly fd w1)

  unfoldable pub bkv_file_close : ℤ → ℤ → ℤ → W → ℤ × W
  bkv_file_close fd p_ptr len w = (pos 0, (close fd (munmap p_ptr len w).1).1)

  unfoldable pub bkv_file_sync : ℤ → W → ℤ × W
  bkv_file_sync fd w = (pos 0, (syncfs fd w).1)
