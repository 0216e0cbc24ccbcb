-- ===== src/File/Descriptors.antt =====
-- The file descriptors that bkv/src/bkv_file.c leaves open.
use wtools.Prelude.{
  ◌≡◌, refl, sym, ap, ◌∙◌, true, false, ◌⊎◌, inl, inr, Option, none, some, List, ◌∷◌, Bool-cases,
  Option-cases,
}
use wtools.Prelude.Int.{ℤ, pos, minus_one, eqb_ℤ}
use wtools.Buffer.{Bytes}
use wtools.Bkv.{ok, inv_arg}
use wtools.File.{
  Flags, rdwr, rdonly, Mapping, Posix, Opened, map_failed, map_update, bkv_open_file_update,
  map_readonly, bkv_open_file_readonly,
}

-- What POSIX says of the descriptors of a process: `open` answers -1 or one more descriptor, the
-- others keep them, but `close` gives the one that was opened last back.
pub record Tracks {W : Type 0} (posix : Posix W) (fds : W → List ℤ) : Type 0 where
  pub opens :
      (name : Bytes) (flags : Flags) (mode : ℤ) (w : W)
      → ((eqb_ℤ minus_one (posix.open_file name flags mode w).0 ≡ true)
          × (fds (posix.open_file name flags mode w).1 ≡ fds w))
        ⊎ ((eqb_ℤ minus_one (posix.open_file name flags mode w).0 ≡ false)
            × (fds (posix.open_file name flags mode w).1
                ≡ (posix.open_file name flags mode w).0 ∷ fds w))
  pub closes :
      (fd : ℤ) (rest : List ℤ) (w : W) → fds w ≡ fd ∷ rest → fds (posix.close fd w).1 ≡ rest
  pub stats : (fd : ℤ) (w : W) → fds (posix.fstat fd w).1 ≡ fds w
  pub maps :
      (size : ℤ) (mapping : Mapping) (fd : ℤ) (w : W) → fds (posix.mmap size mapping fd w).1 ≡ fds w

-- A file was opened, and its descriptor is open and handed over.
pub record HandedOver {W : Type 0} (fds : W → List ℤ) (w : W) (ret : ℤ) (stored : Option Opened)
    (w' : W) : Type 0 where
  pub opened : Opened
  pub answered : ret ≡ ok
  pub handed : stored ≡ some opened
  pub held : fds w' ≡ opened.fd ∷ fds w

module _ {W : Type 0} (posix : Posix W) (fds : W → List ℤ) (tracks : Tracks posix fds) where
  -- What `map_update` does with a descriptor that is open.
  mapped :
      (fd : ℤ) (rest : List ℤ) (w : W)
      → fds w ≡ fd ∷ rest
      → (fds (map_update posix fd w).2 ≡ fd ∷ rest)
        × (((eqb_ℤ ok (map_update posix fd w).0 ≡ false) × ((map_update posix fd w).1 ≡ none))
            ⊎ (((map_update posix fd w).0 ≡ ok)
                × (o : Opened) × ((map_update posix fd w).1 ≡ some o)
                × (o.fd ≡ fd)))
  mapped fd rest w e =
      let s = posix.fstat fd w in
      let kept = tracks.stats fd w ∙ e in
      elim (Option-cases s.0) [
        | inl q ↦ rw (map_update, q) (kept, inl (refl, refl))
        | inr (size, q) ↦
            (let m = posix.mmap size Mapping.read_write_private fd s.1 in
              let kept' = tracks.maps size Mapping.read_write_private fd s.1 ∙ kept in
              elim (Bool-cases (eqb_ℤ map_failed m.0)) [
                | inl f ↦ rw (map_update, q, f) (kept', inl (refl, refl))
                | inr f ↦
                    rw (map_update, q, f)
                      (kept', inr (refl, record { fd = fd; size = size; ptr = m.0 }, refl, refl))
              ])
      ]

  -- Where the system keeps track of its descriptors, `bkv_open_file_update` either answers BKV_OK,
  -- hands a descriptor over and leaves that one open, or answers another code, hands nothing over
  -- and leaves open what was open before, also when `fstat` or `mmap` failed.
  pub open_file_update-HandedOver :
      (name : Bytes) (mode : ℤ) (w : W)
      → (let r = bkv_open_file_update posix name mode w in
          HandedOver fds w r.0 r.1 r.2
          ⊎ ((eqb_ℤ ok r.0 ≡ false) × (r.1 ≡ none) × (fds r.2 ≡ fds w)))
  unfolding bkv_open_file_update
  open_file_update-HandedOver name mode w =
      let o = posix.open_file name rdwr mode w in
      elim (tracks.opens name rdwr mode w) [
        | inl (f, kept) ↦ rw f (inr (refl, refl, kept))
        | inr (f, kept) ↦
            (let (held, outcome) = mapped o.0 (fds w) o.1 kept in
              elim outcome [
                | inl (n, unset) ↦
                    rw (f, n)
                      (inr (n, unset, tracks.closes o.0 (fds w) (map_update posix o.0 o.1).2 held))
                | inr (y, opened, q, same) ↦
                    rw (f, y)
                      (inl (record {
                        opened = opened;
                        answered = refl;
                        handed = q;
                        held = held ∙ ap (λ x. x ∷ fds w) (sym same);
                      }))
              ])
      ]

  -- Where the system keeps track of its descriptors, a descriptor that `bkv_open_file_readonly`
  -- opened stays open, also when `fstat` or `mmap` fails and the caller gets BKV_INV_ARG and no
  -- descriptor.
  pub open_file_readonly_leaves :
      (name : Bytes) (w : W)
      → eqb_ℤ minus_one (posix.open_file name rdonly (pos 0) w).0 ≡ false
      → (ret : ℤ) × (stored : Option Opened) × (w' : W) × (bkv_open_file_readonly posix name w
          ≡ some (ret, stored, w'))
        × (fds w' ≡ (posix.open_file name rdonly (pos 0) w).0 ∷ fds w)
        × ((ret ≡ ok) ⊎ ((ret ≡ inv_arg) × (stored ≡ none)))
  unfolding bkv_open_file_readonly
  open_file_readonly_leaves name w f =
      let o = posix.open_file name rdonly (pos 0) w in
      let fd = o.0 in
      let kept : fds o.1 ≡ fd ∷ fds w = elim (tracks.opens name rdonly (pos 0) w) [
        | inl (n, same) ↦ cc (n, f)
        | inr (n, same) ↦ same
      ] in
      let s = posix.fstat fd o.1 in
      let kept' = tracks.stats fd o.1 ∙ kept in
      elim (Option-cases s.0) [
        | inl q ↦ (inv_arg, none, s.1, rw (f, map_readonly, q) refl, kept', inr (refl, refl))
        | inr (size, q) ↦
            (let m = posix.mmap size Mapping.read_shared fd s.1 in
              let kept2 = tracks.maps size Mapping.read_shared fd s.1 ∙ kept' in
              let opened : Opened = record { fd = fd; size = size; ptr = m.0 } in
              elim (Bool-cases (eqb_ℤ map_failed m.0)) [
                | inl g ↦
                    (inv_arg, none, m.1, rw (f, map_readonly, q, g) refl, kept2, inr (refl, refl))
                | inr g ↦ (ok, some opened, m.1, rw (f, map_readonly, q, g) refl, kept2, inl refl)
              ])
      ]
