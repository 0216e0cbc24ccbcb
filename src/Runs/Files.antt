-- ===== src/Runs/Files.antt =====
-- Small runs of the files of bkv/src/bkv_file.c: the theorems at concrete inputs.
use wtools.Prelude.{◌+◌, ◌≡◌, refl, ap, false, ◌⊎◌, inr, Option, none, some, List, [], ◌∷◌, length}
use wtools.Prelude.Int.{ℤ, pos, eqb_ℤ}
use wtools.Buffer.{Bytes}
use wtools.Bkv.{ok, inv_arg}
use wtools.File.{Posix, Opened, map_failed, bkv_open_file_update, bkv_open_file_readonly}
use wtools.File.Descriptors.{
  Tracks, HandedOver, open_file_update-HandedOver, open_file_readonly_leaves,
}

abbrev behind_first : List ℤ → List ℤ
behind_first [] = []
behind_first (fd ∷ fds) = fds

-- A system that numbers its descriptors from 3 on, whose files have 40 bytes, and where `mmap`
-- always fails.
abbrev unmappable : Posix (List ℤ)
unmappable = record {
  open_file = λ name flags mode fds. (pos (3 + length fds), pos (3 + length fds) ∷ fds);
  close = λ fd fds. (pos 0, behind_first fds);
  ftruncate = λ fd size fds. (pos 0, fds);
  fstat = λ fd fds. (some (pos 40), fds);
  mmap = λ size mapping fd fds. (map_failed, fds);
  munmap = λ ptr size fds. (pos 0, fds);
  syncfs = λ fd fds. (pos 0, fds);
}

unmappable-Tracks : Tracks unmappable (λ fds. fds)
unmappable-Tracks = record {
  opens = λ name flags mode w. inr (refl, refl);
  closes = λ fd rest w e. ap behind_first e;
  stats = λ fd w. refl;
  maps = λ size mapping fd w. refl;
}

abbrev file : Bytes
file = b'f' ∷ 0 ∷ []

open_file_update-HandedOver_example :
    (let r = bkv_open_file_update unmappable file (pos 0) (pos 3 ∷ []) in
      HandedOver (λ fds. fds) (pos 3 ∷ []) r.0 r.1 r.2
      ⊎ ((eqb_ℤ ok r.0 ≡ false) × (r.1 ≡ none) × (r.2 ≡ pos 3 ∷ [])))
open_file_update-HandedOver_example =
    open_file_update-HandedOver unmappable (λ fds. fds) unmappable-Tracks file (pos 0) (pos 3 ∷ [])

open_file_readonly_leaves_example :
    (ret : ℤ) × (stored : Option Opened) × (w' : List ℤ) × (bkv_open_file_readonly unmappable file
        []
      ≡ some (ret, stored, w'))
    × (w' ≡ pos 3 ∷ [])
    × ((ret ≡ ok) ⊎ ((ret ≡ inv_arg) × (stored ≡ none)))
open_file_readonly_leaves_example =
    open_file_readonly_leaves unmappable (λ fds. fds) unmappable-Tracks file [] refl
