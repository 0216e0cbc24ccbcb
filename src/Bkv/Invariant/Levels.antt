-- ===== src/Bkv/Invariant/Levels.antt =====
-- The ends of a map and of an array in bkv/src/bkv.c, and what they keep of a handle.
use wtools.Prelude.{
  ℕ, ◌+◌, ◌*◌, ◌%◌, ◌≡◌, ◌∙◌, inl, inr, Bool-cases, Option, some, List, [], ◌∷◌, length,
  if◌then◌else◌,
}
use wtools.Prelude.Int.{ℤ, pos, minus_one, eqb_ℤ, ◌-ℤ◌}
use wtools.Prelude.Chain.{◌>>=◌, bind-eq-some}
use wtools.Bkv.{State, Bkv, at_index}
use wtools.Bkv.Scalars.{hdr_size}
use wtools.Bkv.Nesting.{
  hdr_map_close, map_close_value_size, hdr_array_close, array_close_value_size, length_u16, skip,
  store_index, store_ptr, put_le16_at, state_of, leave_map, close_map_body, leave_array,
  close_array_body,
}
use wtools.Bkv.Invariant.{IsWell, Keeps}
use wtools.Bkv.Invariant.Steps.{
  levels-IsWell, length-store_index, store_ptr-Keeps, put_le16_at-Keeps,
}

-- One level up, in the state that the level below tells.
settle : (h : Bkv) (deep : ℤ) (values : List ℕ) (outermost : State) → Option Bkv
settle h deep values outermost =
    let left : State → Bkv = λ s. record h { deep_value = values; deep_offset = deep; state = s } in
    if eqb_ℤ minus_one deep
    then some (left outermost)
    else (at_index deep values >>= λ c. some (left (state_of c)))

settle-IsWell :
    (h h' : Bkv) (deep : ℤ) (values : List ℕ) (outermost : State)
    → length values ≡ 32
    → settle h deep values outermost ≡ some h'
    → IsWell h
    → IsWell h'
unfolding settle
settle-IsWell h h' deep values outermost n e w =
    let left : State → Bkv = λ s. record h { deep_value = values; deep_offset = deep; state = s } in
    let left-IsWell : (s : State) → IsWell (left s) = λ s.
      levels-IsWell h h.write_offset deep s values h.map_offset h.array_nb_elems w n w.offsets
        w.counts in
    elim (Bool-cases (eqb_ℤ minus_one deep)) [
      | inl t ↦
          let same : left outermost ≡ h' =
            let e' : some (left outermost) ≡ some h' = rw t at e in cc in
          rw same at (left-IsWell outermost)
      | inr t ↦
          let (c, read, last) =
            bind-eq-some (at_index deep values) (λ c. some (left (state_of c))) (rw t at e) in
          let same : left (state_of c) ≡ h' = cc in rw same at (left-IsWell (state_of c))
    ]

leave_map-Keeps : Keeps leave_map
unfolding leave_map settle
leave_map-Keeps h h' e w =
    settle-IsWell h h' (h.deep_offset -ℤ pos 1) h.deep_value State.term w.values e w

leave_array-Keeps : Keeps leave_array
unfolding leave_array settle
leave_array-Keeps h h' e w =
    let deep = h.deep_offset -ℤ pos 1 in
    let (vs, stored, later) =
      bind-eq-some (store_index h.deep_offset 0 h.deep_value) (λ vs. settle h deep vs h.state) e in
    settle-IsWell h h' deep vs h.state
      (length-store_index h.deep_offset 0 h.deep_value stored ∙ w.values) later w

skip-IsWell : (n : ℕ) (h : Bkv) → IsWell h → IsWell (skip n h)
skip-IsWell n h w =
    levels-IsWell h (h.write_offset + n) h.deep_offset h.state h.deep_value h.map_offset
      h.array_nb_elems w w.values w.offsets w.counts

pub close_map_body-Keeps : Keeps close_map_body
unfolding close_map_body
close_map_body-Keeps h h' e w =
    let patch : Bkv → ℕ → Option Bkv =
      λ b start. put_le16_at (start + hdr_size) (length_u16 b.write_offset start) b >>= leave_map in
    let find : Bkv → Option Bkv = λ b. at_index b.deep_offset b.map_offset >>= patch b in
    let end = (hdr_map_close * 16 % 256) ∷ [] in
    let (h1, stored, e1) =
      bind-eq-some (store_ptr h.write_offset end h)
        (λ b. find (skip (hdr_size + map_close_value_size) b)) e in
    let w1 = store_ptr-Keeps (λ b. b.write_offset) end h h1 stored w in
    let h2 = skip (hdr_size + map_close_value_size) h1 in
    let (start, read, e2) = bind-eq-some (at_index h2.deep_offset h2.map_offset) (patch h2) e1 in
    let (h3, patched, e3) =
      bind-eq-some (put_le16_at (start + hdr_size) (length_u16 h2.write_offset start) h2) leave_map
        e2 in
    leave_map-Keeps h3 h' e3 (
      put_le16_at-Keeps (start + hdr_size) (length_u16 h2.write_offset start) h2 h3 patched
        (skip-IsWell (hdr_size + map_close_value_size) h1 w1))

-- The two numbers of an array's header are stored, and the level is left.
patch : ℕ → ℕ → Bkv → Option Bkv
patch start count b = do
  b5 ← put_le16_at (start + hdr_size + 2) count b
  b6 ← put_le16_at (start + hdr_size) (length_u16 b5.write_offset start) b5
  leave_array b6

patch-Keeps : (start count : ℕ) → Keeps (patch start count)
unfolding patch
patch-Keeps start count h h' e w =
    let (h5, first, e1) =
      bind-eq-some (put_le16_at (start + hdr_size + 2) count h)
        (λ b. put_le16_at (start + hdr_size) (length_u16 b.write_offset start) b >>= leave_array)
        e in
    let (h6, second, e2) =
      bind-eq-some (put_le16_at (start + hdr_size) (length_u16 h5.write_offset start) h5)
        leave_array e1 in
    leave_array-Keeps h6 h' e2 (
      put_le16_at-Keeps (start + hdr_size) (length_u16 h5.write_offset start) h5 h6 second
        (put_le16_at-Keeps (start + hdr_size + 2) count h h5 first w))

pub close_array_body-Keeps : Keeps close_array_body
unfolding close_array_body patch
close_array_body-Keeps h h' e w =
    let end = (hdr_array_close * 16 % 256) ∷ [] in
    let filler = 0xee ∷ 0xee ∷ 0xee ∷ [] in
    let count : Bkv → ℕ → Option Bkv =
      λ b start. at_index b.deep_offset b.array_nb_elems >>= λ n. patch start n b in
    let find : Bkv → Option Bkv = λ b. at_index b.deep_offset b.map_offset >>= count b in
    let fill : Bkv → Option Bkv =
      λ b. store_ptr b.write_offset filler b >>= λ c. find (skip array_close_value_size c) in
    let (h1, stored, e1) =
      bind-eq-some (store_ptr h.write_offset end h) (λ b. fill (skip hdr_size b)) e in
    let h2 = skip hdr_size h1 in
    let (h3, filled, e2) =
      bind-eq-some (store_ptr h2.write_offset filler h2) (λ c. find (skip array_close_value_size c))
        e1 in
    let h4 = skip array_close_value_size h3 in
    let (start, read, e3) = bind-eq-some (at_index h4.deep_offset h4.map_offset) (count h4) e2 in
    let (n, counted, e4) =
      bind-eq-some (at_index h4.deep_offset h4.array_nb_elems) (λ n. patch start n h4) e3 in
    let w1 = store_ptr-Keeps (λ b. b.write_offset) end h h1 stored w in
    let w3 =
      store_ptr-Keeps (λ b. b.write_offset) filler h2 h3 filled (skip-IsWell hdr_size h1 w1) in
    patch-Keeps start n h4 h' e4 (skip-IsWell array_close_value_size h3 w3)
