-- ===== src/Json/Yajl/Writing.antt =====
-- `bkv_to_json` (bkv/json/src/bkv_json.c) with the parser of bkv/json/src/bkv_json_yajl.c: the
-- calls of the generator of yajl for a document of strings.
use wtools.Prelude.{
  ℕ, ◌+◌, ◌^◌, ◌<◌, ◌≡◌, ◌∙◌, true, false, Option, none, some, List, [], ◌∷◌, length, Bool-cases,
  Option-cases, inl, inr, if◌then◌else◌,
}
use wtools.Prelude.Int.{ℤ, pos, eqb_ℤ}
use wtools.Buffer.{Bytes}
use wtools.Libc.{Libc}
use wtools.Bkv.{ok, Handle}
use wtools.Bkv.Spec.{str, encode, encode_all, AllFit}
use wtools.Val.Entries.{HoldsAt}
use wtools.Val.Get.Search.Inner.{AllOther}
use wtools.Val.Maps.{map_bytes}
use wtools.Buffer.Laws.{store_all_full}
use wtools.Dico.Direct.{dico_key}
use wtools.Dico.Spec.{Word, entries_of}
use wtools.Json.{Text}
use wtools.Json.Convert.{bkv_to_json}
use wtools.Json.Naming.{name_at, NoElems, write_texts, write_map}
use wtools.Json.Whole.{object_bytes, bkv_to_json-write_map}
use wtools.Json.Yajl.Writer.{
  YajlGen, GenCtx, gen_status_ok, sizeof_ctx, configure, bkv_to_json_yajl_init,
  bkv_to_json_yajl_map_open, bkv_to_json_yajl_map_close, bkv_to_json_yajl_str,
  bkv_to_json_yajl_finalize, s_bkv_to_json_yajl_plug,
}

-- A call of the generator.
pub data Call : Type 0 where
  open_map close_map : Call
  string : Text → Call

-- The calls for strings from the place `p` on, with the names of their keys, and for the end.
abbrev pub calls_from : (ℕ → Option Text) → ℕ → List Word → List Call
calls_from names p [] = close_map ∷ []
calls_from names p ((key, s) ∷ es) =
    let later = calls_from names (p + length (encode key (str s))) es in
    elim (names key) [ none ↦ [] | some t ↦ string t ∷ (string (p + 2 + 2, length s) ∷ later) ]

module _ {G : Type 0} (gen : YajlGen G) where
  abbrev pub call : Call → G → ℤ × G
  call open_map g = gen.yajl_gen_map_open g
  call close_map g = gen.yajl_gen_map_close g
  call (string t) g = gen.yajl_gen_string g t

  -- The generator behind the calls, up to the first status that is not ok.
  abbrev pub run_calls : List Call → G → G
  run_calls [] g = g
  run_calls (c ∷ cs) g =
      let rest = run_calls cs (call c g).1 in
      if eqb_ℤ gen_status_ok (call c g).0 then rest else (call c g).1

  abbrev ctx : G → GenCtx G
  ctx g = record { g = some g; str = none }

  module _ (libc : Libc) (names : ℕ → Option Text) where
    write_texts-calls :
        (p : ℕ) (es : List Word) (g : G)
        → write_texts (s_bkv_to_json_yajl_plug gen libc) names p es (ctx g)
          ≡ some (ctx (run_calls (calls_from names p es) g))
    unfolding s_bkv_to_json_yajl_plug bkv_to_json_yajl_map_close bkv_to_json_yajl_str
    write_texts-calls p [] g =
        elim (Bool-cases (eqb_ℤ gen_status_ok (gen.yajl_gen_map_close g).0)) [
          | inl e ↦ rw e
          | inr e ↦ rw e
        ]
    write_texts-calls p ((key, s) ∷ es) g = elim (Option-cases (names key)) [
      | inl n ↦ rw (write_texts, calls_from, n)
      | inr (t, n) ↦
          let g1 = (gen.yajl_gen_string g t).1 in
          let v : Text = (p + 2 + 2, length s) in
          elim (Bool-cases (eqb_ℤ gen_status_ok (gen.yajl_gen_string g t).0)) [
            | inl e ↦ elim (Bool-cases (eqb_ℤ gen_status_ok (gen.yajl_gen_string g1 v).0)) [
              | inl e' ↦
                  rw (write_texts, calls_from, n, e, e')
                    (write_texts-calls (p + length (encode key (str s))) es
                      (gen.yajl_gen_string g1 v).1)
              | inr e' ↦ rw (write_texts, calls_from, n, e, e')
            ]
            | inr e ↦ rw (write_texts, calls_from, n, e)
          ]
    ]

    write_map-calls :
        (p : ℕ) (es : List Word) (g : G)
        → write_map (s_bkv_to_json_yajl_plug gen libc) names p es (ctx g)
          ≡ some (ctx (run_calls (open_map ∷ calls_from names (p + 2 + 2) es) g))
    unfolding s_bkv_to_json_yajl_plug bkv_to_json_yajl_map_open
    write_map-calls p es g = elim (Bool-cases (eqb_ℤ gen_status_ok (gen.yajl_gen_map_open g).0)) [
      | inl e ↦ rw e (write_texts-calls (p + 2 + 2) es (gen.yajl_gen_map_open g).1)
      | inr e ↦ rw e
    ]

  begun :
      (libc : Libc) (g0 g1 : G) (status : ℤ) (block : Bytes)
      → libc.malloc sizeof_ctx ≡ some block
      → gen.yajl_gen_alloc ≡ some g0
      → gen.yajl_gen_config g0 ≡ (status, g1)
      → eqb_ℤ (pos 0) status ≡ false
      → gen.yajl_alloc ≡ true
      → eqb_ℤ (pos 0) gen.yajl_config ≡ false
      → (s_bkv_to_json_yajl_plug gen libc).to_json_init (record { g = none; str = none })
        ≡ some (pos 0, ctx g1)
  unfolding s_bkv_to_json_yajl_plug bkv_to_json_yajl_init configure
  begun libc g0 g1 status block e1 e2 e3 e4 e5 e6 =
      rw (bkv_to_json_yajl_init, e1, e2, configure, e3, e4, e5, e6)

  ended :
      (libc : Libc) (g : G) (out text : Bytes)
      → gen.yajl_gen_get_buf g ≡ (pos 0, out)
      → libc.malloc (length out) ≡ some text
      → (s_bkv_to_json_yajl_plug gen libc).to_json_finalize (ctx g)
        ≡ some (ok, record { g = none; str = some out })
  unfolding s_bkv_to_json_yajl_plug bkv_to_json_yajl_finalize
  ended libc g out text e7 e8 =
      rw (e7, e8, store_all_full out text (libc.malloc-length (length out) e8))

-- With memory at hand and a yajl that sets its generator up, `bkv_to_json` with the parser of
-- bkv_json_yajl.c, on a handle whose block holds a map of strings, of values that fit, are no
-- elements of an array and no dictionary, with a dictionary of names that fit inside of it, behind
-- the strings, calls the generator for the opening of the map, for the place of the first name of
-- each key and of its string, in order, and for the end of the map, up to the first status that is
-- not ok or the first string whose key has no name. It answers BKV_OK, with a copy of the text
-- that the generator holds then.
pub bkv_to_json-run_calls :
    {G : Type 0} (gen : YajlGen G) (libc : Libc) (m : Bytes) (h : Handle)
    (size dico_size dico_junk junk : ℕ) (es ws : List Word) (g0 g1 : G) (status : ℤ) (out : Bytes)
    (block text : Bytes)
    → AllFit (entries_of es)
    → AllFit (entries_of ws)
    → NoElems es
    → AllOther dico_key (entries_of es)
    → dico_size ≡ length (map_bytes dico_key dico_size (entries_of ws) dico_junk)
    → dico_size < 2 ^ 16
    → HoldsAt m 0 (object_bytes size (entries_of es) dico_size (entries_of ws) dico_junk junk)
    → h.bkv.ptr ≡ some m
    → libc.malloc sizeof_ctx ≡ some block
    → gen.yajl_gen_alloc ≡ some g0
    → gen.yajl_gen_config g0 ≡ (status, g1)
    → eqb_ℤ (pos 0) status ≡ false
    → gen.yajl_alloc ≡ true
    → eqb_ℤ (pos 0) gen.yajl_config ≡ false
    → gen.yajl_gen_get_buf (
        run_calls gen
          (open_map
            ∷ calls_from
                (λ key. name_at key (4 + length (encode_all (entries_of es)) + 2 + 2) ws)
                (0 + 2 + 2)
                es)
          g1)
      ≡ (pos 0, out)
    → libc.malloc (length out) ≡ some text
    → bkv_to_json (s_bkv_to_json_yajl_plug gen libc) (record { g = none; str = none }) (some h)
      ≡ some (ok, record { g = none; str = some out })
bkv_to_json-run_calls gen libc m h size dico_size dico_junk junk es ws g0 g1 status out block text f
      g ne other whole small holds held e1 e2 e3 e4 e5 e6 e7 e8 =
    let names = λ (key : ℕ). name_at key (4 + length (encode_all (entries_of es)) + 2 + 2) ws in
    let run =
      bkv_to_json-write_map (s_bkv_to_json_yajl_plug gen libc) m h (record { g = none; str = none })
        size dico_size dico_junk junk es ws f g ne other whole small holds held in
    run
    ∙ rw
        (
          begun gen libc g0 g1 status block e1 e2 e3 e4 e5 e6,
          write_map-calls gen libc names 0 es g1,
        )
        (ended gen libc (run_calls gen (open_map ∷ calls_from names (0 + 2 + 2) es) g1) out text e7
          e8)
