-- ===== src/Json/Yajl/Objects.antt =====
-- An object of strings from JSON and to JSON: bkv/json/src/bkv_json.c with the parser of
-- bkv/json/src/bkv_json_yajl.c.
use wtools.Prelude.{
  ℕ, ◌+◌, ◌≤◌, ◌≡◌, sym, ap, ◌∙◌, arith, true, Option, none, some, List, [], length, length-append,
}
use wtools.Prelude.Int.{ℤ}
use wtools.Prelude.Chain.{◌>>=◌}
use wtools.Buffer.{Bytes}
use wtools.Libc.{Libc}
use wtools.Bkv.{ok, Bkv}
use wtools.Bkv.Spec.{encode_all, AllFit}
use wtools.Val.Maps.{map_end}
use wtools.Dico.{DicoType, sizeof_dico_ctx}
use wtools.Bkv.Create.{sizeof_bkv, default_mem_chunk_size}
use wtools.Dico.Spec.{entries_of}
use wtools.Json.Naming.{name_at}
use wtools.Json.Convert.{bkv_from_json, bkv_to_json}
use wtools.Json.Whole.{object_bytes-parts, bkv_to_json-write_map}
use wtools.Json.Yajl.{Yajl, s_bkv_from_json_yajl_plug}
use wtools.Json.Yajl.Reading.{object_events, Delivers, bkv_from_json-Converted}
use wtools.Json.Joined.{Converted}
use wtools.Json.Yajl.Numbers.{Floats}
use wtools.Json.Yajl.Members.{names_of}
use mathlib.Core.Path.{subst}
use wtools.Json.Yajl.Strings.{
  StringMember, members_of, values_from, named_from, pairs_of, members-AllMean, entries-members_of,
  words-members_of, noting, Named-named_from, write_texts-noting, small-values, small-named,
}

-- The converted document, handed to `bkv_to_json` with the parser that notes down.
noted :
    (ss : List StringMember) (run : Option (ℤ × Option Bkv))
    → length (encode_all (entries_of (values_from 1 ss)))
        + length (encode_all (entries_of (named_from 1 ss)))
      ≤ 110
    → (conv : Converted run (entries_of (values_from 1 ss)) (entries_of (named_from 1 ss)))
    → bkv_to_json (noting conv.block) [] (some (record { bkv = conv.document; end_hdl = none }))
      ≡ some (ok, pairs_of ss)
noted ss run small conv =
    let es = values_from 1 ss in
    let ws = named_from 1 ss in
    let m = conv.block in
    let (f, elems, others) = small-values 1 ss (omega (arith, small)) in
    let g = small-named 1 ss (omega (arith, small)) in
    let place = 0 + 2 + 2 + length (encode_all (entries_of es)) in
    let names = λ (key : ℕ). name_at key (place + 2 + 2) ws in
    let whole =
      bkv_to_json-write_map (noting m) m (record { bkv = conv.document; end_hdl = none }) []
        conv.size conv.dico_size conv.dico_junk conv.junk es ws f g elems others conv.dico_whole
        (omega (
          arith,
          small,
          conv.dico_whole,
          length-append (encode_all (entries_of ws)) (map_end conv.dico_junk),
        ))
        conv.bytes conv.held in
    let (hp, hq) =
      object_bytes-parts m conv.size (entries_of es) conv.dico_size (entries_of ws) conv.dico_junk
        conv.junk conv.bytes in
    let written =
      write_texts-noting m names 1 (0 + 2 + 2) (place + 2 + 2) ss []
        (Named-named_from 1 (place + 2 + 2) ss) hp hq in
    whole ∙ ap (λ o. o >>= λ d. some (ok, d)) written

-- With memory at hand, and yajl as its documentation has it: `bkv_from_json` with a dictionary of
-- the direct plug converts the text of an object of strings, of at most 110 bytes in all with a
-- header of 4 bytes for each name and each string, with BKV_OK; and `bkv_to_json` on the document
-- that it hands over answers BKV_OK and hands its parser the same names and strings, in order.
pub json_round_trip :
    (libc : Libc) (fl : Floats) (yajl : Yajl fl) (ptr : Option Bytes) (len : ℤ)
    (block struct plug_ctx dico_ctx : Bytes) (ss : List StringMember)
    → libc.malloc default_mem_chunk_size ≡ some block
    → libc.malloc sizeof_bkv ≡ some struct
    → libc.malloc 8 ≡ some plug_ctx
    → libc.malloc sizeof_dico_ctx ≡ some dico_ctx
    → yajl.yajl_alloc ≡ true
    → Delivers yajl ptr len (object_events fl (names_of (members_of ss)))
    → length (encode_all (entries_of (values_from 1 ss)))
        + length (encode_all (entries_of (named_from 1 ss)))
      ≤ 110
    → (h : Bkv) × (m : Bytes) × (bkv_from_json libc DicoType.direct
          (s_bkv_from_json_yajl_plug libc fl yajl)
          ptr
          len
        ≡ some (ok, some h))
      × (h.ptr ≡ some m)
      × (bkv_to_json (noting m) [] (some (record { bkv = h; end_hdl = none }))
          ≡ some (ok, pairs_of ss))
json_round_trip libc fl yajl ptr len block struct plug_ctx dico_ctx ss e1 e2 e3 e4 alloc deliver
      small =
    let run = bkv_from_json libc DicoType.direct (s_bkv_from_json_yajl_plug libc fl yajl) ptr len in
    let es = entries-members_of 1 ss in
    let ws = ap entries_of (words-members_of 1 ss) in
    let (f, elems, others) = small-values 1 ss (omega (arith, small)) in
    let conv =
      bkv_from_json-Converted libc fl yajl ptr len block struct plug_ctx dico_ctx (members_of ss) e1
        e2 e3 e4 alloc deliver (members-AllMean fl ss) (subst AllFit (sym es) f)
        (subst AllFit (sym ws) (small-named 1 ss (omega (arith, small)))) (rw (es, ws) small) in
    let conv' : Converted run (entries_of (values_from 1 ss)) (entries_of (named_from 1 ss)) =
      rw (es, ws) at conv in
    (conv'.document, conv'.block, conv'.ran, conv'.held, noted ss run small conv')
