-- ===== src/Json/Joined.antt =====
-- What `close_document` of bkv/json/src/bkv_json.c makes of a document of data and of one of its
-- dictionary, both behind the direct plug: one document, with the dictionary inside.
use wtools.Prelude.{
  ℕ, ◌+◌, ◌≤◌, ◌≡◌, refl, arith, Option, some, List, [], ◌∷◌, ◌++◌, length, length-append, inl,
}
use wtools.Prelude.Int.{ℤ, minus_one}
use wtools.Buffer.{Bytes}
use wtools.Buffer.Laws.{splice, length-splice}
use wtools.ByteOrder.{bytes_u16}
use wtools.Libc.{Libc}
use wtools.Bkv.{ok, State, Bkv}
use wtools.Bkv.Nesting.{bkv_kv_map_open, bkv_kv_map_close, leave_map, length_u16}
use wtools.Bkv.Spec.{header, Entry, encode_all, AllFit, put}
use wtools.Bkv.Insertion.{bkv_append}
use wtools.Bkv.Growth.{IsSized}
use wtools.Bkv.Documents.{map_close_lem, IsSized-put}
use wtools.Dico.{bkv_dico_destroy}
use wtools.Dico.Direct.{dico_key, no_key, s_dico_direct_plug, dico_direct_destroy}
use wtools.Dico.Spec.{direct_ctx}
use wtools.Json.Whole.{object_bytes}
use wtools.Json.Convert.{append_dico, close_document}
use wtools.RoundTrip.{
  new_handle, opened, open_first, opened-IsSized, m1, length1, m4, size, behind, done, close_last,
  held, HoldsAt-closed,
}
use wtools.RoundTrip.Appended.{bkv_append-put}
use wtools.Val.Entries.{HoldsAt}
use wtools.Val.Holding.{HoldsAt-splice, HoldsAt-splice_same, HoldsAt-join}
use wtools.Val.Maps.{map_end, map_bytes}

-- What `bkv_from_json` made of a text: a closed document with these entries and names.
pub record Converted (run : Option (ℤ × Option Bkv)) (es names : List Entry) : Type 0 where
  pub document : Bkv
  pub block : Bytes
  pub size : ℕ
  pub dico_size : ℕ
  pub dico_junk : ℕ
  pub junk : ℕ
  pub ran : run ≡ some (ok, some document)
  pub closed : document.state ≡ State.term
  pub held : document.ptr ≡ some block
  pub dico_whole : dico_size ≡ length (map_bytes dico_key dico_size names dico_junk)
  pub whole : document.write_offset ≡ length (object_bytes size es dico_size names dico_junk junk)
  pub bytes : HoldsAt block 0 (object_bytes size es dico_size names dico_junk junk)

module _ (libc : Libc) (m : Bytes) (n : length m ≡ 128) (es ns : List Entry) (f : AllFit es)
    (g : AllFit ns) (small : length (encode_all es) + length (encode_all ns) ≤ 110) where
  abbrev pub first_data : Bkv
  first_data = opened libc m n no_key es (omega arith) f (omega arith)

  abbrev pub first_dico : Bkv
  first_dico = opened libc m n dico_key ns (omega arith) g (omega arith)

  abbrev pub full_data : Bkv
  full_data = put (encode_all es) first_data

  abbrev pub full_dico : Bkv
  full_dico = put (encode_all ns) first_dico

  abbrev dico_size : ℕ
  dico_size = size libc m n dico_key ns (omega arith) g (omega arith)

  abbrev dico_block : Bytes
  dico_block = m4 libc m n dico_key ns (omega arith) g (omega arith)

  abbrev held_dico : (junk : ℕ) × HoldsAt dico_block 0 (map_bytes dico_key dico_size ns junk)
  held_dico = held libc m n dico_key ns (omega arith) g (omega arith)

  abbrev dico_bytes : Bytes
  dico_bytes = map_bytes dico_key dico_size ns held_dico.0

  -- The document of the dictionary, and the data with it behind.
  abbrev dico_document : Bkv
  dico_document = done libc m n dico_key ns (omega arith) g (omega arith)

  abbrev both : Bkv
  both = put dico_bytes full_data

  length-dico_bytes : length dico_bytes ≡ length (encode_all ns) + 6
  length-dico_bytes = omega (arith, length-append (encode_all ns) (map_end held_dico.0))

  abbrev data_block : Bytes
  data_block = splice (0 + 2 + 2) (encode_all es) (splice 0 (header 1 no_key) m)

  full-IsSized : IsSized full_data data_block
  unfolding opened m1
  full-IsSized =
      IsSized-put (encode_all es) first_data _
        (opened-IsSized libc m n no_key es (omega arith) f (omega arith))
        (omega (arith, length1 libc m n no_key es (omega arith) f (omega arith)))

  length-data_block : length data_block ≡ 128
  length-data_block =
      let e = length-splice 0 (header 1 no_key) m (omega (arith, n)) in
      omega (
        arith,
        n,
        e,
        length-splice (0 + 2 + 2) (encode_all es) (splice 0 (header 1 no_key) m)
            (omega (arith, n, e)),
      )

  appended : bkv_append libc full_data dico_document ≡ some (ok, both)
  unfolding done opened behind
  appended =
      bkv_append-put libc full_data dico_document data_block dico_block dico_bytes full-IsSized refl
        (omega (arith, length-dico_bytes)) held_dico.1
        (omega (arith, length-dico_bytes, length-data_block))

  abbrev both_block : Bytes
  both_block = splice (0 + 2 + 2 + length (encode_all es)) dico_bytes data_block

  length-both_block : length both_block ≡ 128
  length-both_block = omega (
    arith,
    length-data_block,
    length-dico_bytes,
    length-splice (0 + 2 + 2 + length (encode_all es)) dico_bytes data_block
        (omega (arith, length-data_block, length-dico_bytes)),
  )

  abbrev end : ℕ
  end = 0 + 2 + 2 + length (encode_all es) + length dico_bytes

  abbrev last_size : ℕ
  last_size = length_u16 (end + 2) 0

  abbrev last_block : Bytes
  last_block = splice (0 + 2) (bytes_u16 last_size) (splice end (0x20 ∷ []) both_block)

  abbrev pub document : Bkv
  document = record both {
    state = State.term;
    ptr = some last_block;
    write_offset = end + 2;
    deep_offset = minus_one;
  }

  closed : bkv_kv_map_close libc both ≡ some (ok, document)
  unfolding opened leave_map
  closed =
      map_close_lem libc both both_block 0 0 (record { in_map = refl; level = refl })
        (IsSized-put dico_bytes full_data data_block full-IsSized
          (omega (arith, length-dico_bytes, length-data_block)))
        refl (omega arith) (omega (arith, length-both_block, length-dico_bytes))

  -- What the last block holds.
  document-HoldsAt :
      (junk : ℕ) × HoldsAt last_block 0 (object_bytes last_size es dico_size ns held_dico.0 junk)
  document-HoldsAt =
      let bs = encode_all es in
      let place = 0 + 2 + 2 + length bs in
      let m0 = splice 0 (header 1 no_key) m in
      let l0 : length m0 ≡ 128 =
        omega (arith, n, length-splice 0 (header 1 no_key) m (omega (arith, n))) in
      let h0 = HoldsAt-splice_same m 0 (header 1 no_key) (omega (arith, n)) in
      let h1 =
        HoldsAt-splice m0 (0 + 2 + 2) bs 0 (header 1 no_key) h0 (omega (arith, l0))
          (inl (omega arith)) in
      let h2 =
        HoldsAt-splice data_block place dico_bytes 0 (header 1 no_key) h1
          (omega (arith, length-data_block, length-dico_bytes)) (inl (omega arith)) in
      let b1 = HoldsAt-splice_same m0 (0 + 2 + 2) bs (omega (arith, l0)) in
      let b2 =
        HoldsAt-splice data_block place dico_bytes (0 + 2 + 2) bs b1
          (omega (arith, length-data_block, length-dico_bytes)) (inl (omega arith)) in
      let d2 =
        HoldsAt-splice_same data_block place dico_bytes
          (omega (arith, length-data_block, length-dico_bytes)) in
      HoldsAt-closed both_block no_key end last_size (bs ++ dico_bytes) h2
        (HoldsAt-join both_block (0 + 2 + 2) place bs dico_bytes b2 d2 refl)
        (omega (arith, length-append bs dico_bytes))
        (omega (arith, length-both_block, length-dico_bytes))

  pub closed_all :
      close_document libc full_data (some (direct_ctx full_dico)) ≡ some (ok, some document)
  unfolding close_document append_dico bkv_dico_destroy s_dico_direct_plug dico_direct_destroy
  closed_all = rw (close_last libc m n dico_key ns (omega arith) g (omega arith), appended, closed)

  pub dico_opened : bkv_kv_map_open libc (new_handle m) dico_key ≡ some (ok, first_dico)
  dico_opened = open_first libc m n dico_key ns (omega arith) g (omega arith)

  pub Converted_lem :
      {run : Option (ℤ × Option Bkv)} → run ≡ some (ok, some document) → Converted run es ns
  unfolding size behind opened
  Converted_lem ran = record {
    document = document;
    block = last_block;
    size = last_size;
    dico_size = dico_size;
    dico_junk = held_dico.0;
    junk = document-HoldsAt.0;
    ran = ran;
    closed = refl;
    held = refl;
    dico_whole = omega (arith, length-dico_bytes);
    whole = omega (
      arith,
      length-append (encode_all es ++ dico_bytes) (map_end document-HoldsAt.0),
      length-append (encode_all es) dico_bytes,
    );
    bytes = document-HoldsAt.1;
  }
