-- ===== src/Runs/Numbers.antt =====
-- The numbers of bkv/src/bkv_byteorder.c at concrete values.
use wtools.Prelude.{◌≡◌, arith, none, some, replicate}
use wtools.Buffer.{Bytes}
use wtools.ByteOrder.{cpu_to_lef, lef_to_cpu, cpu_to_le_double, le_double_to_cpu}
use wtools.ByteOrder.Exact.{ReadsBack}
use wtools.ByteOrder.Floats.{lef-round_trip, le_double-low_half}

lef-round_trip_example :
    ReadsBack
      (cpu_to_lef 0x3F80_0000 (replicate 8 0) 0 none)
      (λ m. lef_to_cpu m 0 none)
      (replicate 8 0)
      0
      4
      0x3F80_0000
      none
      none
lef-round_trip_example =
    lef-round_trip 0x3F80_0000 (replicate 8 0) 0 none none (omega arith) (omega arith)

le_double-low_half_example :
    (m : Bytes) × (cpu_to_le_double 0x3FF0_0000_0000_0000 (replicate 8 0) 0 none ≡ some (m, none))
    × (le_double_to_cpu m 0 (some 0) ≡ some (0, some 16))
le_double-low_half_example =
    le_double-low_half 0x3FF0_0000_0000_0000 (replicate 8 0) 0 none (some 0) (omega arith)
