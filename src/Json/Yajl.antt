-- ===== src/Json/Yajl.antt =====
-- bkv/json/src/bkv_json_yajl.c, the half that reads JSON: the callbacks that the yajl library calls
-- as it reads a text, and `bkv_from_json_yajl_parse`. The library is a parameter. A callback
-- answers 0 to cancel the parse, and anything else to go on.
pub mod Numbers
pub mod Writer
pub mod Digits
pub mod Members
pub mod Reading
pub mod Strings
pub mod Objects
pub mod Writing
use wtools.Prelude.{
  ℕ, ◌+◌, ◌%◌, ◌^◌, Bool, true, false, ◌||◌, Option, none, some, ◌==◌, if◌then◌else◌,
}
use wtools.Prelude.Int.{ℤ, pos, minus_one, eqb_ℤ, ltb_ℤ, ◌+ℤ◌, ◌-ℤ◌}
use wtools.Prelude.Chain.{◌>>=◌}
use wtools.Buffer.{Bytes}
use wtools.Libc.{Libc}
use wtools.Bkv.{ok, inv_arg, Bkv}
use wtools.Bkv.Scalars.{
  bkv_kv_u16_add, bkv_kv_u32_add, bkv_kv_float_add, bkv_kv_boolean_add, bkv_kv_str_add,
}
use wtools.Bkv.Arrays.{
  bkv_kv_array_float_add, bkv_kv_array_boolean_add, bkv_kv_array_str_add, bkv_kv_array_u16_add,
}
use wtools.Bkv.Nesting.{bkv_kv_map_open, bkv_kv_map_close, bkv_kv_array_open, bkv_kv_array_close}
use wtools.Dico.{DicoCtx, bkv_dico_key_add}
use wtools.Dico.Direct.{no_key}
use wtools.Json.Convert.{FromJsonParser}
use wtools.Json.Yajl.Numbers.{Floats, Decimal, get_number}

-- `bkv_from_json_ctx_t`, with the `bkv_from_json_yajl_ctx_t` of its `priv_data`, whose
-- `existing_key_index` is not set until a key comes.
pub record FromJsonCtx : Type 1 where
  pub data_handle : Bkv
  pub dico_handle : Option DicoCtx
  pub deep : ℤ
  pub in_array : Bool
  pub key_index : ℕ
  pub existing_key_index : Option ℕ

-- The code of a callback, and the context.
abbrev pub Reply : Type 1
Reply = Option (ℤ × FromJsonCtx)

-- `l_index`. It is not read before a key came.
abbrev pub index_of : FromJsonCtx → Option ℕ
index_of c = c.existing_key_index >>= λ k. some (if k == no_key then c.key_index else k)

-- A call on the document.
abbrev pub on_data : FromJsonCtx → Option (ℤ × Bkv) → Reply
on_data c r = r >>= λ a. some (a.0, record c { data_handle = a.1 })

-- The same, where the code is printed and 1 is returned.
abbrev pub on_data_1 : FromJsonCtx → Option (ℤ × Bkv) → Reply
on_data_1 c r = r >>= λ a. some (pos 1, record c { data_handle = a.1 })

module _ (libc : Libc) where
  unfoldable pub bkv_json_get_boolean : FromJsonCtx → Bool → Reply
  bkv_json_get_boolean c v =
      if c.in_array
      then on_data c (bkv_kv_array_boolean_add libc c.data_handle v)
      else (index_of c >>= λ i. on_data c (bkv_kv_boolean_add libc c.data_handle i v))

  unfoldable pub bkv_json_get_integer : FromJsonCtx → ℤ → Reply
  bkv_json_get_integer c v = some (pos 0, c)

  module _ (fl : Floats) where
    unfoldable pub bkv_json_get_double : FromJsonCtx → fl.Double → Reply
    bkv_json_get_double c v =
        if c.in_array
        then on_data_1 c (bkv_kv_array_float_add libc c.data_handle (fl.to_float v))
        else (index_of c >>= λ i.
            on_data_1 c (bkv_kv_float_add libc c.data_handle i (fl.to_float v)))

    -- The two switches of `bkv_json_get_number`. A number of another type is printed, and lost.
    unfoldable pub array_number : FromJsonCtx → Decimal fl → Reply
    array_number c (Decimal.u16 n) = on_data_1 c (bkv_kv_array_u16_add libc c.data_handle n)
    array_number c (Decimal.float f) = on_data_1 c (bkv_kv_array_float_add libc c.data_handle f)
    array_number c _ = some (pos 1, c)

    unfoldable pub key_number : FromJsonCtx → ℕ → Decimal fl → Reply
    key_number c i (Decimal.u16 n) = on_data_1 c (bkv_kv_u16_add libc c.data_handle i n)
    key_number c i (Decimal.u32 n) = on_data_1 c (bkv_kv_u32_add libc c.data_handle i n)
    key_number c i (Decimal.float f) = on_data_1 c (bkv_kv_float_add libc c.data_handle i f)
    key_number c i _ = some (pos 1, c)

    unfoldable pub bkv_json_get_number : FromJsonCtx → Bytes → ℕ → Reply
    unfolding get_number array_number key_number
    bkv_json_get_number c str len = do
      d ← get_number fl str len
      if c.in_array then array_number c d else (index_of c >>= λ i. key_number c i d)

  unfoldable pub bkv_json_get_string : FromJsonCtx → Bytes → ℕ → Reply
  bkv_json_get_string c str len =
      if c.in_array
      then on_data_1 c (bkv_kv_array_str_add libc c.data_handle str len)
      else (index_of c >>= λ i. on_data_1 c (bkv_kv_str_add libc c.data_handle i str len))

  -- A level that was opened, unless the code is -1.
  abbrev pub one_deeper : Bool → Reply → Reply
  one_deeper array r = r >>= λ a. some (
      if eqb_ℤ minus_one a.0
      then a
      else (pos 1, record a.1 { deep = a.1.deep +ℤ pos 1; in_array = array || a.1.in_array }))

  -- The key of a level, which is BKV_NO_KEY for the outermost one.
  abbrev pub level_key : FromJsonCtx → Option ℕ
  level_key c = if ltb_ℤ (pos 0) c.deep then index_of c else some no_key

  unfoldable pub bkv_json_start_map : FromJsonCtx → Reply
  bkv_json_start_map c =
      level_key c >>= λ i. one_deeper false (on_data c (bkv_kv_map_open libc c.data_handle i))

  -- 1, unless the code is -1.
  abbrev pub unless_ko : ℤ × FromJsonCtx → ℤ × FromJsonCtx
  unless_ko (ret, c) = (if eqb_ℤ minus_one ret then ret else pos 1, c)

  -- The outermost map stays open where there is a dictionary.
  unfoldable pub bkv_json_end_map : FromJsonCtx → Reply
  bkv_json_end_map c =
      let c' = record c { deep = c.deep -ℤ pos 1 } in
      let closed = on_data c' (bkv_kv_map_close libc c'.data_handle) >>= λ a. some (unless_ko a) in
      if ltb_ℤ (pos 0) c'.deep
      then closed
      else elim c'.dico_handle [ none ↦ closed | some dico ↦ some (minus_one, c') ]

  unfoldable pub bkv_json_start_array : FromJsonCtx → Reply
  bkv_json_start_array c =
      level_key c >>= λ i. one_deeper true (on_data c (bkv_kv_array_open libc c.data_handle i))

  unfoldable pub bkv_json_end_array : FromJsonCtx → Reply
  bkv_json_end_array c =
      let c' = record c { deep = c.deep -ℤ pos 1 } in
      if ltb_ℤ (pos 0) c'.deep
      then (on_data c' (bkv_kv_array_close libc c'.data_handle) >>= λ a.
          some (if eqb_ℤ minus_one a.0 then a else (pos 1, record a.1 { in_array = false })))
      else some (minus_one, c')

  -- What `bkv_dico_key_add` answered, with `l_returned_index`.
  abbrev pub key_added : FromJsonCtx → ℤ × Option ℕ × DicoCtx → ℤ × FromJsonCtx
  key_added c (ret, returned, dico) =
      let c' = record c { dico_handle = some dico } in
      if eqb_ℤ ok ret
      then (ret, record c' { existing_key_index = returned; in_array = false })
      else (ret, c')

  -- With HAS_DICO. The index is a `uint16_t`. Without a dictionary the call faults.
  unfoldable pub bkv_json_map_keys : FromJsonCtx → Bytes → ℕ → Reply
  unfolding bkv_dico_key_add
  bkv_json_map_keys c key keylen =
      let index = (c.key_index + 1) % 2 ^ 16 in
      c.dico_handle >>= λ dico. bkv_dico_key_add libc dico index (some no_key) key keylen >>= λ r.
      some (key_added (record c { key_index = index }) r)

-- What yajl finds in a text. A string, a key or a number is what stands in the text from it on, and
-- its length. Where there is a callback of numbers yajl calls it, and those of integers and
-- doubles not.
pub data Event (fl : Floats) : Type 0 where
  json_null : Event fl
  boolean : Bool → Event fl
  integer : ℤ → Event fl
  double : fl.Double → Event fl
  number string map_key : Bytes → ℕ → Event fl
  start_map end_map start_array end_array : Event fl

-- `callbacks`. That of nulls is NULL, for which yajl goes on.
unfoldable pub callbacks : Libc → (fl : Floats) → Event fl → FromJsonCtx → Reply
unfolding bkv_json_get_boolean bkv_json_get_integer bkv_json_get_double bkv_json_get_number
    bkv_json_get_string bkv_json_start_map bkv_json_map_keys bkv_json_end_map bkv_json_start_array
    bkv_json_end_array
callbacks libc fl json_null c = some (pos 1, c)
callbacks libc fl (boolean v) c = bkv_json_get_boolean libc c v
callbacks libc fl (integer v) c = bkv_json_get_integer libc c v
callbacks libc fl (double v) c = bkv_json_get_double libc fl c v
callbacks libc fl (number str len) c = bkv_json_get_number libc fl c str len
callbacks libc fl (string str len) c = bkv_json_get_string libc c str len
callbacks libc fl start_map c = bkv_json_start_map libc c
callbacks libc fl (map_key str len) c = bkv_json_map_keys libc c str len
callbacks libc fl end_map c = bkv_json_end_map libc c
callbacks libc fl start_array c = bkv_json_start_array libc c
callbacks libc fl end_array c = bkv_json_end_array libc c

-- `yajl_status_ok`, and the status of a parse that a callback cancelled.
abbrev pub status_ok : ℤ
status_ok = pos 0

abbrev pub status_client_canceled : ℤ
status_client_canceled = pos 1

-- The calls of the yajl library: whether `yajl_alloc` gives a handle, what `yajl_free` does with
-- NULL, and `yajl_parse`, the status and the context.
pub record Yajl (fl : Floats) : Type 1 where
  pub yajl_alloc : Bool
  pub yajl_free_null : Option (Unit {0})
  pub yajl_parse : (Event fl → FromJsonCtx → Reply) → FromJsonCtx → Option Bytes → ℤ → Reply

-- The context as `bkv_from_json` and `bkv_from_json_yajl_parse` set it up.
abbrev pub start_ctx : Bkv → Option DicoCtx → FromJsonCtx
start_ctx h dico = record {
  data_handle = h;
  dico_handle = dico;
  deep = pos 0;
  in_array = false;
  key_index = 1;
  existing_key_index = none;
}

unfoldable pub bkv_from_json_yajl_parse :
    Libc
    → (fl : Floats) → Yajl fl
    → Bkv
    → Option DicoCtx
    → Option Bytes
    → ℤ
    → Option (ℤ × Bkv × Option DicoCtx)
unfolding callbacks
bkv_from_json_yajl_parse libc fl yajl h dico ptr len =
    if yajl.yajl_alloc
    then (yajl.yajl_parse (callbacks libc fl) (start_ctx h dico) ptr len >>= λ r.
        some (if eqb_ℤ status_ok r.0 then ok else inv_arg, r.1.data_handle, r.1.dico_handle))
    else (yajl.yajl_free_null >>= λ _. some (inv_arg, h, dico))

unfoldable pub s_bkv_from_json_yajl_plug : Libc → (fl : Floats) → Yajl fl → FromJsonParser
unfolding bkv_from_json_yajl_parse
s_bkv_from_json_yajl_plug libc fl yajl = record {
  from_json_parse = bkv_from_json_yajl_parse libc fl yajl;
}
