-- ===== src/Bkv/Invariant/Reach.antt =====
-- The handles that the operations of bkv/src/bkv.c reach from `bkv_create` in memory.
use wtools.Prelude.{◌≡◌, refl, ap, inl, inr, arith, Option, Option-cases, some, none, replicate}
use wtools.Prelude.Int.{ℤ, pos, minus_one}
use wtools.Buffer.Laws.{splice, length-splice, store_all-splice}
use wtools.Libc.{Libc}
use wtools.Bkv.{ok, Bkv}
use wtools.Bkv.Create.{Create, work_in_ram, bkv_create, fresh, sizeof_bkv, default_mem_chunk_size}
use wtools.Bkv.Invariant.{IsWell}
use wtools.Bkv.Invariant.Operations.{Op, run, run-IsWell}

-- Operations one after the other, with any code; none of them faults.
pub data Reaches (libc : Libc) (start : Bkv) : Bkv → Type 0 where
  here : Reaches libc start start
  step :
      (op : Op) (b c : Bkv) (ret : ℤ)
      → Reaches libc start b
      → run libc op b ≡ some (ret, c)
      → Reaches libc start c

abbrev pub in_ram : Create
in_ram = record {
  create_type = work_in_ram;
  input_ptr = none;
  input_ptr_length = minus_one;
  mem_chunk_size = minus_one;
}

created-IsWell : (libc : Libc) (h : Bkv) → bkv_create libc in_ram ≡ some (ok, some h) → IsWell h
unfolding bkv_create
created-IsWell libc h e = elim (Option-cases (libc.malloc default_mem_chunk_size)) [
  | inl none_left ↦ absurd (ground arith)
  | inr (block, a) ↦
      let n = libc.malloc-length default_mem_chunk_size a in
      let zeros = replicate default_mem_chunk_size 0 in
      let zeroed = store_all-splice 0 zeros block (omega (arith, n)) in
      elim (Option-cases (libc.malloc sizeof_bkv)) [
        | inl no_handle ↦ absurd (let e' = rw (a, zeroed, no_handle) at e in cc)
        | inr (struct, b) ↦
            let made : Bkv = fresh in_ram (record {
              ret = ok;
              ptr = some (splice 0 zeros block);
              size = pos default_mem_chunk_size;
              default_write_offset = 0;
            }) in
            let e' : ◌≡◌ {A = Option (ℤ × Option Bkv)} (some (ok, some made)) (some (ok, some h)) =
              rw (a, zeroed, b) at e in
            let same : made ≡ h = cc in
            let well : IsWell made = record {
              block = splice 0 zeros block;
              is_sized = record {
                held = refl;
                sized = ap pos (omega (arith, n, length-splice 0 zeros block (omega (arith, n))));
                no_limit = refl;
                chunk = refl;
              };
              values = refl;
              offsets = refl;
              counts = refl;
            } in
            rw same at well
      ]
]

-- A handle that operations reach from a new one in memory, in any order and with any codes, has
-- a block of the size that it says and a stack of 32 places.
pub Reaches-IsWell :
    (libc : Libc) (start h : Bkv)
    → bkv_create libc in_ram ≡ some (ok, some start)
    → Reaches libc start h
    → IsWell h
Reaches-IsWell libc start h e here = created-IsWell libc start e
Reaches-IsWell libc start h e (step op b c ret before ran) =
    run-IsWell libc op b c ret ran (Reaches-IsWell libc start b e before)
