-- ===== src/Libc.antt =====
-- What the program takes from the C library: allocation. A new block holds arbitrary bytes, and
-- any call may fail.
use wtools.Prelude.{ℕ, ◌<◌, ◌≡◌, Option, some, length, get_elem?}
use wtools.Buffer.{Bytes}

pub record Libc : Type 0 where
  pub malloc : ℕ → Option Bytes
  pub realloc : Bytes → ℕ → Option Bytes
  pub malloc-length : (n : ℕ) {m : Bytes} → malloc n ≡ some m → length m ≡ n
  pub realloc-length : (m : Bytes) (n : ℕ) {m' : Bytes} → realloc m n ≡ some m' → length m' ≡ n
  pub realloc_keeps :
      (m : Bytes) (n : ℕ) {m' : Bytes} (i : ℕ)
      → realloc m n ≡ some m'
      → i < n
      → i < length m
      → get_elem? m' i ≡ get_elem? m i
