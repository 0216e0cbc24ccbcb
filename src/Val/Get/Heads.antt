-- ===== src/Val/Get/Heads.antt =====
-- `bkv_val_init` of bkv/src/bkv_val.c at the header of a map.
use wtools.Prelude.{ℕ, ◌+◌, ◌*◌, ◌/◌, ◌%◌, ◌≤◌, ◌≡◌, arith, some, ◌++◌}
use wtools.Bkv.{ok}
use wtools.Bkv.Spec.{header}
use wtools.Buffer.{Bytes}
use wtools.Val.Entries.{HoldsAt}
use wtools.Val.Found.{ValType, BkvVal}
use wtools.Val.Get.{bkv_val_init}

pub init-header :
    (m : Bytes) (v : BkvVal) (p key : ℕ) (bs : Bytes)
    → key ≤ 0xFFF
    → HoldsAt m p (header 1 key ++ bs)
    → bkv_val_init m (some v) (some p)
      ≡ some (ok, some (record v { val_type = ValType.object; key = key; priv = some p }))
unfolding bkv_val_init
init-header m v p key bs le h =
    let kind : (1 * 16 + key / 256) / 16 % 16 ≡ 1 = omega arith in
    let id : (1 * 16 + key / 256) % 16 * 256 + key % 256 % 256 ≡ key = omega arith in
    rw (h.0, h.1.0, kind, id)
