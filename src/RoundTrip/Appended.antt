-- ===== src/RoundTrip/Appended.antt =====
-- A document behind another one: `bkv_append` of bkv/src/bkv.c, and a map closed behind it.
use wtools.Prelude.{◌+◌, ◌≤◌, ◌≡◌, arith, false, some, length}
use wtools.Prelude.Int.{pos, ltb_ℤ}
use wtools.Buffer.{Bytes}
use wtools.Buffer.Laws.{store_all-splice}
use wtools.Libc.{Libc}
use wtools.Bkv.{ok, Bkv}
use wtools.Bkv.Insertion.{copy_from, bkv_append}
use wtools.Bkv.Growth.{IsSized}
use wtools.Bkv.Spec.{put}
use wtools.Val.Entries.{HoldsAt}
use wtools.Val.Maps.{read_all-HoldsAt}

-- Where the block has room for it, the document of another handle is put behind the bytes of the
-- handle, which differs by them alone, and the caller gets BKV_OK.
pub bkv_append-put :
    (libc : Libc) (h a : Bkv) (m source bs : Bytes)
    → IsSized h m
    → a.ptr ≡ some source
    → a.write_offset ≡ length bs
    → HoldsAt source 0 bs
    → h.write_offset + length bs ≤ length m
    → bkv_append libc h a ≡ some (ok, put bs h)
unfolding bkv_append copy_from
bkv_append-put libc h a m source bs s e n holds room =
    let fits : ltb_ℤ h.mem_size (pos (h.write_offset + length bs)) ≡ false =
      rw s.sized (ground arith) in
    let stored = store_all-splice h.write_offset bs m room in
    rw (n, fits, e, read_all-HoldsAt source 0 bs holds, s.held, stored)
