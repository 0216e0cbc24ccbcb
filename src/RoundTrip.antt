-- ===== src/RoundTrip.antt =====
-- A document written by bkv/src/bkv.c and read by bkv/src/bkv_val.c.
pub mod Appended
pub mod Outside
use wtools.Prelude.{
  ℕ, ◌+◌, ◌≤◌, ◌≡◌, refl, sym, ap, ◌∙◌, inl, inr, arith, Option, none, some, true, false, List, [],
  ◌∷◌, ◌++◌, length, replicate,
}
use wtools.Prelude.Int.{ℤ, pos, minus_one, eqb_ℤ}
use wtools.Prelude.Chain.{◌>>=◌}
use wtools.Buffer.{Bytes, store}
use wtools.Buffer.Laws.{splice, length-splice, store_all-splice}
use wtools.ByteOrder.{bytes_u16}
use wtools.Libc.{Libc}
use wtools.Bkv.{ok, State, Bkv, check_state}
use wtools.Bkv.Create.{Create, work_in_ram, bkv_create, fresh, sizeof_bkv, default_mem_chunk_size}
use wtools.Bkv.Nesting.{bkv_kv_map_open, bkv_kv_map_close, length_u16, leave_map}
use wtools.Bkv.Spec.{Entry, header, encode_all, AllFit, add_all, put}
use wtools.Bkv.Growth.{IsSized}
use wtools.Bkv.Documents.{add_all-put, map_open_lem, map_close_lem, IsSized-put}
use wtools.Val
use wtools.Val.Entries.{HoldsAt}
use wtools.Val.Holding.{HoldsAt-join, HoldsAt-splice_same, HoldsAt-splice, load-some}
use wtools.Val.Maps.{recorder, reads_all_as, map_end, map_bytes, val_foreach-map_bytes}

abbrev pub ram : Create
ram = record {
  create_type = work_in_ram;
  input_ptr = none;
  input_ptr_length = minus_one;
  mem_chunk_size = minus_one;
}

-- The next call, if the last one answered BKV_OK.
abbrev pub and_then : Option (ℤ × Bkv) → (Bkv → Option (ℤ × Bkv)) → Option (ℤ × Bkv)
and_then r next = r >>= λ a. elim (eqb_ℤ ok a.0) [ true ↦ next a.1 | false ↦ some a ]

-- A caller that opens a map in a handle, adds the entries and closes the map.
unfoldable pub fill : Libc → ℕ → List Entry → Bkv → Option (ℤ × Bkv)
unfolding add_all
fill libc key es h =
    and_then (and_then (bkv_kv_map_open libc h key) (λ b. add_all libc b es))
      (bkv_kv_map_close libc)

-- The handle that `bkv_create` makes over the zeroed block `m`.
abbrev pub new_handle : Bytes → Bkv
new_handle m =
    fresh ram (record {
      ret = ok;
      ptr = some m;
      size = pos default_mem_chunk_size;
      default_write_offset = 0;
    })

-- With memory at hand `bkv_create` makes an empty handle over a block of one chunk.
pub created :
    (libc : Libc) (block struct : Bytes)
    → libc.malloc default_mem_chunk_size ≡ some block
    → libc.malloc sizeof_bkv ≡ some struct
    → (m : Bytes) × (bkv_create libc ram ≡ some (ok, some (new_handle m))) × (length m ≡ 128)
unfolding bkv_create
created libc block struct e f =
    let n = libc.malloc-length 128 e in
    let zeros = replicate 128 0 in
    (
      splice 0 zeros block,
      rw (e, store_all-splice 0 zeros block (omega (arith, n)), f),
      omega (arith, n, length-splice 0 zeros block (omega (arith, n))),
    )

-- A map with the bytes `bs` inside, once its end and its length are stored.
pub HoldsAt-closed :
    (m : Bytes) (key end size : ℕ) (bs : Bytes)
    → HoldsAt m 0 (header 1 key)
    → HoldsAt m 4 bs
    → end ≡ 4 + length bs
    → end + 2 ≤ length m
    → (junk : ℕ) × HoldsAt
        (splice (0 + 2) (bytes_u16 size) (splice end (0x20 ∷ []) m))
        0
        (header 1 key ++ (bytes_u16 size ++ (bs ++ map_end junk)))
HoldsAt-closed m key end size bs head body e room =
    let m3 = splice end (0x20 ∷ []) m in
    let n : length m3 ≡ length m = length-splice end (0x20 ∷ []) m (omega arith) in
    let (junk, there) = load-some (end + 1) m3 (omega (arith, n)) in
    let h3 =
      HoldsAt-splice m end (0x20 ∷ []) 0 (header 1 key) head (omega arith) (inl (omega arith)) in
    let b3 = HoldsAt-splice m end (0x20 ∷ []) 4 bs body (omega arith) (inl (omega arith)) in
    let e3 = HoldsAt-splice_same m end (0x20 ∷ []) (omega arith) in
    let tail3 : HoldsAt m3 end (map_end junk) = (e3.0, (there, tt)) in
    let inner3 = HoldsAt-join m3 4 end bs (map_end junk) b3 tail3 e in
    let h4 =
      HoldsAt-splice m3 (0 + 2) (bytes_u16 size) 0 (header 1 key) h3 (omega (arith, n))
        (inl (omega arith)) in
    let inner4 =
      HoldsAt-splice m3 (0 + 2) (bytes_u16 size) 4 (bs ++ map_end junk) inner3 (omega (arith, n))
        (inr (omega arith)) in
    let s4 = HoldsAt-splice_same m3 (0 + 2) (bytes_u16 size) (omega (arith, n)) in
    let m4 = splice (0 + 2) (bytes_u16 size) m3 in
    (
      junk,
      HoldsAt-join m4 0 2 (header 1 key) (bytes_u16 size ++ (bs ++ map_end junk)) h4
          (HoldsAt-join m4 2 4 (bytes_u16 size) (bs ++ map_end junk) s4 inner4 (omega arith))
          (omega arith),
    )

module _ (libc : Libc) (m : Bytes) (n : length m ≡ 128) (key : ℕ) (es : List Entry)
    (le : key ≤ 0xFFF) (f : AllFit es) (small : length (encode_all es) ≤ 116) where
  unfoldable pub opened : Bkv
  opened = record (new_handle m) {
    state = State.in_map;
    ptr = some (splice 0 (header 1 key) m);
    write_offset = 0 + 2 + 2;
    deep_offset = pos 0;
    deep_value = b'{' ∷ replicate 31 0;
    map_offset = 0 ∷ replicate 31 0;
  }

  pub open_first : bkv_kv_map_open libc (new_handle m) key ≡ some (ok, opened)
  unfolding check_state store opened
  open_first =
      map_open_lem libc (new_handle m) m key minus_one (0 ∷ replicate 31 0) (b'{' ∷ replicate 31 0)
        le (record { held = refl; sized = ap pos (sym n); no_limit = refl; chunk = refl }) refl refl
        refl refl (omega (arith, n))

  unfoldable pub m1 : Bytes
  m1 = splice 0 (header 1 key) m

  m2 : Bytes
  m2 = splice (0 + 2 + 2) (encode_all es) m1

  unfoldable pub behind : ℕ
  behind = 0 + 2 + 2 + length (encode_all es)

  m3 : Bytes
  m3 = splice behind (0x20 ∷ []) m2

  unfoldable pub size : ℕ
  size = length_u16 (behind + 2) 0

  pub m4 : Bytes
  m4 = splice (0 + 2) (bytes_u16 size) m3

  unfoldable pub done : Bkv
  done = record opened {
    state = State.term;
    ptr = some m4;
    write_offset = behind + 2;
    deep_offset = minus_one;
  }

  pub opened-IsSized : IsSized opened m1
  unfolding opened m1
  opened-IsSized = record {
    held = refl;
    sized = ap pos (sym (length-splice 0 (header 1 key) m (omega (arith, n)) ∙ n));
    no_limit = refl;
    chunk = refl;
  }

  pub length1 : length m1 ≡ 128
  unfolding m1
  length1 = omega (arith, n, length-splice 0 (header 1 key) m (omega (arith, n)))

  length2 : length m2 ≡ 128
  unfolding m2
  length2 =
      omega (arith, length1, length-splice (0 + 2 + 2) (encode_all es) m1 (omega (arith, length1)))

  length3 : length m3 ≡ 128
  unfolding m3 behind
  length3 = omega (arith, length2, length-splice behind (0x20 ∷ []) m2 (omega (arith, length2)))

  pub length4 : length m4 ≡ 128
  unfolding m4
  length4 =
      omega (arith, length3, length-splice (0 + 2) (bytes_u16 size) m3 (omega (arith, length3)))

  pub add_second : add_all libc opened es ≡ some (ok, put (encode_all es) opened)
  unfolding opened
  add_second =
      add_all-put libc es opened m1 f (record { in_map = refl; level = refl }) opened-IsSized
        (omega (arith, length1))

  pub close_last : bkv_kv_map_close libc (put (encode_all es) opened) ≡ some (ok, done)
  unfolding opened leave_map m1 m2 m3 m4 done behind size
  close_last =
      map_close_lem libc (put (encode_all es) opened) m2 0 0
        (record { in_map = refl; level = refl })
        (IsSized-put (encode_all es) opened m1 opened-IsSized (omega (arith, length1))) refl
        (omega arith) (omega (arith, length2))

  pub filled : fill libc key es (new_handle m) ≡ some (ok, done)
  unfolding fill
  filled = rw (open_first, add_second, close_last)

  -- What the last block holds.
  pub held : (junk : ℕ) × HoldsAt m4 0 (map_bytes key size es junk)
  unfolding m1 m2 m3 m4 behind
  held =
      let bs = encode_all es in
      let h1 = HoldsAt-splice_same m 0 (header 1 key) (omega (arith, n)) in
      let h2 =
        HoldsAt-splice m1 (0 + 2 + 2) bs 0 (header 1 key) h1 (omega (arith, length1))
          (inl (omega arith)) in
      HoldsAt-closed m2 key behind size bs h2
        (HoldsAt-splice_same m1 (0 + 2 + 2) bs (omega (arith, length1))) refl
        (omega (arith, length2))

-- With memory at hand, a map with a key of 12 bits, of entries that fit and take at most 116
-- bytes in all, can be written into a new handle over one chunk of memory and is closed with
-- BKV_OK; `val_foreach` over its block then hands its callbacks the same entries in the same
-- order, but that of a double only the low half comes back.
pub document_round_trip :
    (libc : Libc) (block struct : Bytes) (key : ℕ) (es : List Entry)
    → libc.malloc default_mem_chunk_size ≡ some block
    → libc.malloc sizeof_bkv ≡ some struct
    → key ≤ 0xFFF
    → AllFit es
    → length (encode_all es) ≤ 116
    → (h h' : Bkv) × (m : Bytes) × (bkv_create libc ram ≡ some (ok, some h))
      × (fill libc key es h ≡ some (ok, h'))
      × (h'.state ≡ State.term)
      × (h'.ptr ≡ some m)
      × (Val.val_foreach (recorder m) m 0 [] ≡ Val.returns ok (reads_all_as es))
unfolding done
document_round_trip libc block struct key es e g le f small =
    let (m, made, n) = created libc block struct e g in
    let (junk, bytes) = held libc m n key es le f small in
    (
      new_handle m,
      done libc m n key es le f small,
      m4 libc m n key es le f small,
      made,
      filled libc m n key es le f small,
      refl,
      refl,
      val_foreach-map_bytes _ 0 key (size libc m n key es le f small) junk es le f bytes,
    )
