-- ===== src/Bkv/Insertion/Untouched.antt =====
-- The insertion mode of bkv/src/bkv.c, entered and left with nothing added in between.
use wtools.Prelude.{
  ℕ, zero, suc, ◌+◌, ◌≤◌, ◌≡◌, refl, ap, ◌∙◌, arith, true, false, some, none, List, [], ◌∷◌, ◌++◌,
  length, take, drop, length-drop, take-append-drop, ltb,
}
use wtools.Prelude.Int.{ℤ, pos, minus_one, ◌+ℤ◌, ◌-ℤ◌, ltb_ℤ}
use wtools.Buffer.{Bytes, store_all}
use wtools.Buffer.Laws.{store_all-splice}
use wtools.Libc.{Libc}
use wtools.Bkv.{ok, map_key, State, Bkv, Handle}
use wtools.Bkv.Create.{
  Create, unsafe_input_buffer, Memory, copy_input, memory, bkv_create, fresh, sizeof_bkv,
}
use wtools.Bkv.Nesting.{store_index}
use wtools.Bkv.Growth.{IsSized}
use wtools.Bkv.Append.{read_all_whole}
use wtools.Bkv.Insertion.{
  Position, copy_from, end_params, reopen, set_offset, bkv_append, bkv_write_offset_set,
  bkv_is_inertion_mode_active, bkv_finalize,
}

drop_all : (n : ℕ) (m : Bytes) → length m ≤ n → drop n m ≡ []
drop_all zero [] le = refl
drop_all zero (x ∷ m) le = absurd (omega arith)
drop_all (suc n) [] le = refl
drop_all (suc n) (x ∷ m) le = drop_all n m (omega arith)

append-nil : (m : Bytes) → m ++ [] ≡ m
append-nil [] = refl
append-nil (x ∷ m) = ap (◌∷◌ x) (append-nil m)

-- A block that is overwritten as a whole.
store_all-whole : (vs block : Bytes) → length block ≡ length vs → store_all 0 vs block ≡ some vs
store_all-whole vs block n =
    store_all-splice 0 vs block (omega (arith, n))
    ∙ ap (λ b. some (vs ++ b)) (drop_all (0 + length vs) block (omega (arith, n)))
    ∙ ap some (append-nil vs)

-- The bytes from `p` on, stored where they are.
store_all-same : (p : ℕ) (m : Bytes) → p ≤ length m → store_all p (drop p m) m ≡ some m
store_all-same p m le =
    let n = length-drop p m in
    store_all-splice p (drop p m) m (omega (arith, n))
    ∙ ap (λ b. some (take p m ++ (drop p m ++ b)))
        (drop_all (p + length (drop p m)) m (omega (arith, n)))
    ∙ ap (λ b. some (take p m ++ b)) (append-nil (drop p m))
    ∙ ap some (take-append-drop p m)

-- The call of `bkv_create` on the end `bs` of a document, and the handle over its copy.
abbrev over : Bytes → Create
over bs = record {
  create_type = unsafe_input_buffer;
  input_ptr = some bs;
  input_ptr_length = pos (length bs);
  mem_chunk_size = minus_one;
}

abbrev copied : Bytes → Memory
copied bs = record {
  ret = ok;
  ptr = some bs;
  size = pos (length bs);
  default_write_offset = length bs;
}

copy_input_lem :
    (libc : Libc) (bs : Bytes) {block : Bytes}
    → libc.malloc (length bs) ≡ some block
    → copy_input libc (over bs) ≡ some (copied bs)
unfolding copy_input
copy_input_lem libc bs {block} e = rw (
  copy_input,
  e,
  read_all_whole bs [] 0 refl,
  store_all-whole bs block (libc.malloc-length (length bs) e),
)

created_tail :
    (libc : Libc) (bs : Bytes) {block struct : Bytes}
    → libc.malloc (length bs) ≡ some block
    → libc.malloc sizeof_bkv ≡ some struct
    → bkv_create libc (over bs) ≡ some (ok, some (fresh (over bs) (copied bs)))
unfolding bkv_create memory
created_tail libc bs e f = rw (copy_input_lem libc bs e) (rw f)

append_tail :
    (libc : Libc) (h a : Bkv) (m : Bytes)
    → h.ptr ≡ some m
    → h.mem_size ≡ pos (length m)
    → h.write_offset ≤ length m
    → a.ptr ≡ some (drop h.write_offset m)
    → a.write_offset ≡ length (drop h.write_offset m)
    → bkv_append libc h a
      ≡ some (
        ok,
        record h { ptr = some m; write_offset = h.write_offset + length (drop h.write_offset m) },
      )
unfolding bkv_append copy_from
append_tail libc h a m held sized le tail n =
    let total = length-drop h.write_offset m in
    let fits : ltb (length m + 0) (h.write_offset + length (drop h.write_offset m) + 0) ≡ false =
      ground (arith, total) in
    rw (n, sized, fits)
      (rw (
        tail,
        read_all_whole (drop h.write_offset m) [] 0 refl,
        held,
        store_all-same h.write_offset m le,
      ))

end_length :
    (m : Bytes) (offset : ℕ)
    → offset ≤ length m
    → pos (length m) -ℤ pos offset ≡ pos (length (drop offset m))
end_length m offset le = ground (arith, length-drop offset m)

-- The handle in insertion mode at `offset`.
abbrev pub inserting : Bkv → Bytes → ℕ → ℤ → List ℕ → Handle
inserting h m offset deep values = record {
  bkv = record h {
    write_offset = offset;
    deep_offset = deep;
    deep_value = values;
    state = State.in_map;
  };
  end_hdl = some (fresh (over (drop offset m)) (copied (drop offset m)));
}

enter :
    (libc : Libc) (h : Bkv) (m : Bytes) (p : Position) (offset : ℕ) (values : List ℕ)
    {block struct : Bytes}
    → IsSized h m
    → offset ≤ length m
    → store_index p.deep_offset map_key h.deep_value ≡ some values
    → libc.malloc (length (drop offset m)) ≡ some block
    → libc.malloc sizeof_bkv ≡ some struct
    → set_offset libc (record { bkv = h; end_hdl = none }) p (pos offset)
      ≡ some (ok, inserting h m offset p.deep_offset values)
unfolding set_offset reopen
enter libc h m p offset values s le stored e f =
    let params : end_params h offset ≡ over (drop offset m) =
      rw (s.held, s.sized, end_length m offset le) in
    let inside : ltb_ℤ h.mem_size (pos offset) ≡ false = rw s.sized (ground arith) in
    rw (inside, params, created_tail libc (drop offset m) e f) (rw stored)

-- With memory at hand, a handle with the default chunk and no limit, set to write behind the key of
-- a value, at a place of its block and at a level of its stack, goes into insertion mode. Finished
-- with nothing added, it answers -1, and the block has the bytes that it had, to its whole length.
pub untouched :
    (libc : Libc) (h : Bkv) (m : Bytes) (p : Position) (offset : ℕ) (values : List ℕ)
    {block struct : Bytes}
    → IsSized h m
    → p.priv +ℤ p.bkv_key_length ≡ pos offset
    → offset ≤ length m
    → store_index p.deep_offset map_key h.deep_value ≡ some values
    → libc.malloc (length (drop offset m)) ≡ some block
    → libc.malloc sizeof_bkv ≡ some struct
    → (h1 h2 : Handle) × (p1 : Position) × (bkv_write_offset_set libc
          (some (record { bkv = h; end_hdl = none }))
          (some p)
        ≡ some (ok, some h1, some p1))
      × (bkv_is_inertion_mode_active h1 ≡ true)
      × (bkv_finalize libc (some h1) ≡ some (minus_one, some h2))
      × (h2.bkv.ptr ≡ some m)
      × (h2.bkv.write_offset ≡ length m)
unfolding bkv_write_offset_set bkv_is_inertion_mode_active bkv_finalize
untouched libc h m p offset values s here le stored e f =
    let total = length-drop offset m in
    let h1 = inserting h m offset p.deep_offset values in
    let p1 : Position = record p { priv = pos offset } in
    let entered = enter libc h m p1 offset values s le stored e f in
    let joined =
      append_tail libc h1.bkv (fresh (over (drop offset m)) (copied (drop offset m))) m s.held
        s.sized le refl refl in
    let h2 : Handle = record h1 {
      bkv = record h1.bkv { ptr = some m; write_offset = offset + length (drop offset m) };
    } in
    (h1, h2, p1, rw (here, entered), refl, rw joined, refl, omega (arith, total))
