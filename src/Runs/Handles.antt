-- ===== src/Runs/Handles.antt =====
-- A handle from its creation to a map that opens.
use wtools.Prelude.{◌≡◌, refl, arith, some, none, true, ◌∷◌, replicate}
use wtools.Prelude.Int.{pos, minus_one}
use wtools.Buffer.{store}
use wtools.Buffer.Laws.{splice}
use wtools.Bkv.{ok, map_key, State, Bkv, Handle, check_state}
use wtools.Bkv.Create.{bkv_create}
use wtools.Bkv.Spec.{header}
use wtools.Bkv.Documents.{map_open_lem}
use wtools.Bkv.Invariant.{IsWell}
use wtools.Bkv.Invariant.Operations.{run, map_open}
use wtools.Bkv.Invariant.Reach.{here, step, Reaches-IsWell}
use wtools.Bkv.Insertion.{Position, bkv_write_offset_set, bkv_is_inertion_mode_active, bkv_finalize}
use wtools.Bkv.Insertion.Untouched.{untouched}
use wtools.RoundTrip.{new_handle}
use wtools.Runs.Memory.{plain_libc}

abbrev new : Bkv
new = new_handle (replicate 128 0)

abbrev opened : Bkv
opened = record new {
  state = State.in_map;
  ptr = some (splice 0 (header 1 5) (replicate 128 0));
  write_offset = 4;
  deep_offset = pos 0;
  deep_value = map_key ∷ replicate 31 0;
}

new-IsWell : IsWell new
new-IsWell = record {
  block = replicate 128 0;
  is_sized = record { held = refl; sized = refl; no_limit = refl; chunk = refl };
  values = refl;
  offsets = refl;
  counts = refl;
}

map_opens : run plain_libc (map_open 5) new ≡ some (ok, opened)
unfolding run
map_opens =
    map_open_lem plain_libc new (replicate 128 0) 5 minus_one (replicate 32 0)
      (map_key ∷ replicate 31 0) (omega arith)
      (record { held = refl; sized = refl; no_limit = refl; chunk = refl }) refl
      (unfold check_state in refl) (unfold store in refl) (unfold store in refl) (omega arith)

Reaches-IsWell_example : IsWell opened
Reaches-IsWell_example =
    Reaches-IsWell plain_libc new opened (unfold bkv_create in refl)
      (step (map_open 5) new opened ok here map_opens)

abbrev behind_header : Position
behind_header = record { priv = pos 4; bkv_key_length = pos 4; deep_offset = pos 0 }

untouched_example :
    (h1 h2 : Handle) × (p1 : Position) × (bkv_write_offset_set plain_libc
        (some (record { bkv = new; end_hdl = none }))
        (some behind_header)
      ≡ some (ok, some h1, some p1))
    × (bkv_is_inertion_mode_active h1 ≡ true)
    × (bkv_finalize plain_libc (some h1) ≡ some (minus_one, some h2))
    × (h2.bkv.ptr ≡ some (replicate 128 0))
    × (h2.bkv.write_offset ≡ 128)
untouched_example =
    untouched plain_libc new (replicate 128 0) behind_header 8 (map_key ∷ replicate 31 0)
      (record { held = refl; sized = refl; no_limit = refl; chunk = refl }) refl (omega arith)
      (unfold store in refl) refl refl
