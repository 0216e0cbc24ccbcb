-- ===== src/Json.antt =====
-- bkv/json/src/bkv_json.c: a document from JSON and to JSON, behind the parsers of
-- bkv/json/src/json_plugs.h. A parser works on its own `priv_data`; the contexts that the
-- functions of the file pass to their callbacks are never NULL.
pub mod Convert
pub mod Naming
pub mod Texts
pub mod Whole
pub mod Joined
pub mod Tools
pub mod Yajl
use wtools.Prelude.{
  ℕ, ◌+◌, Bool, true, false, Option, none, some, List, [], ◌∷◌, ◌==◌, if◌then◌else◌,
}
use wtools.Prelude.Int.{ℤ, pos, minus_one, eqb_ℤ}
use wtools.Prelude.Chain.{◌>>=◌}
use wtools.Buffer.{Bytes, load}
use wtools.Libc.{Libc}
use wtools.Bkv.{ok, Bkv, Handle}
use wtools.Bkv.Create.{bkv_create, bkv_get_head}
use wtools.Bkv.Nesting.{bkv_kv_map_close}
use wtools.Bkv.Insertion.{bkv_append}
use wtools.Bkv.Arrays.{array_elem_key}
use wtools.Val
use wtools.Val.Found.{ValType, Union, BkvVal, key_invalid}
use wtools.Val.Get.{bkv_val_foreach, bkv_val_get2, bkv_val_init}
use wtools.Dico.{DicoType, Plug, DicoCtx, bkv_dico_create, bkv_dico_destroy}
use wtools.Dico.Cached.{s_dico_plugs}
use wtools.Dico.Direct.{dico_key, no_key, bkv_create_params}

-- A string of the block: its place and its length.
abbrev pub Text : Type 0
Text = ℕ × ℕ

-- `bkv_to_json_parser_s` over `priv_data`. A function returns its code and the data; it may fault.
-- `map_open_fn` is handed no name for NULL; that of `uint16_fn` is only set outside arrays.
pub record ToJsonParser (P : Type 0) : Type 0 where
  pub to_json_init : P → Option (ℤ × P)
  pub to_json_map_open_fn : P → Option Text → Option (ℤ × P)
  pub to_json_map_close_fn : P → Option (ℤ × P)
  pub to_json_array_open_fn : P → ℕ → Text → Option (ℤ × P)
  pub to_json_array_close_fn : P → Option (ℤ × P)
  pub to_json_uint16_fn : P → Bool → Option Text → ℕ → Option (ℤ × P)
  pub to_json_uint32_fn : P → Text → ℕ → Option (ℤ × P)
  pub to_json_uint64_fn : P → Text → ℕ → Option (ℤ × P)
  pub to_json_float_fn : P → Text → ℕ → Option (ℤ × P)
  pub to_json_boolean_fn : P → Text → Bool → Option (ℤ × P)
  pub to_json_array_float_fn : P → ℕ → Option (ℤ × P)
  pub to_json_array_boolean_fn : P → Bool → Option (ℤ × P)
  pub to_json_array_str_fn : P → Text → Option (ℤ × P)
  pub to_json_str_fn : P → Text → Text → Option (ℤ × P)
  pub to_json_finalize : P → Option (ℤ × P)

-- `bkv_to_json_ctx_t`, less the parser.
pub record ToJsonCtx (P : Type 0) : Type 0 where
  pub jump_next_map : Bool
  pub dico_val : BkvVal
  pub priv_data : P

-- BKV_VAL_INIT, and a local `bkv_val_t` whose members are not read before they are written.
abbrev pub bkv_val_unset : BkvVal
bkv_val_unset = record {
  val_type = ValType.end_value;
  key = key_invalid;
  u = Union.unset;
  priv = none;
  bkv_key_length = 0;
  deep_offset = pos 0;
}

-- `l_val.u.string`, where it is the member that was written.
abbrev pub text_of : Union → Option Text
text_of (Union.string s len) = some (s, len)
text_of _ = none

-- What a search stored: `some none` where it answers another code than BKV_OK.
abbrev pub text_found : Val.Outcome (List BkvVal) → Option (Option Text)
text_found Val.fault = none
text_found Val.stuck = none
text_found (Val.returns r vs) =
    if eqb_ℤ ok r then (load 0 vs >>= λ v. text_of v.u >>= λ s. some (some s)) else some none

-- `bkv_val_get2(&l_ctx->dico_val,&l_keys[0],1,&l_val)`
unfoldable pub name_of : Bytes → BkvVal → ℕ → Option (Option Text)
unfolding bkv_val_get2
name_of m dico_val key =
    text_found
      (bkv_val_get2 m (some dico_val) (some (key ∷ key_invalid ∷ [])) (pos 1) (bkv_val_unset ∷ []))

module _ {P : Type 0} (parser : ToJsonParser P) (m : Bytes) where
  abbrev Reply : Type 0
  Reply = Option (ℕ × ToJsonCtx P)

  -- The answer of a callback, from the code of the parser.
  abbrev pub reply : ToJsonCtx P → Option (ℤ × P) → Reply
  reply c r = r >>= λ a.
      some (if eqb_ℤ ok a.0 then Val.action_none else Val.stop_loop, record c { priv_data = a.1 })

  -- A callback that needs the name of its key; `missing` is the answer if it has none.
  abbrev pub with_name : ToJsonCtx P → ℕ → ℕ → (Text → Option (ℤ × P)) → Reply
  with_name c key missing call = do
    found ← name_of m c.dico_val key
    elim found [ none ↦ some (missing, c) | some s ↦ reply c (call s) ]

  unfoldable pub bkv_to_json_map_open : ToJsonCtx P → ℕ → ℕ → Reply
  unfolding name_of
  bkv_to_json_map_open c p key =
      let named =
        with_name c key Val.action_none (λ s. parser.to_json_map_open_fn c.priv_data (some s)) in
      if c.jump_next_map
      then some (Val.goto_end_map, c)
      else if key == dico_key
      then some (Val.goto_end_map, c)
      else if key == no_key
      then reply c (parser.to_json_map_open_fn c.priv_data none)
      else named

  unfoldable pub bkv_to_json_map_close : ToJsonCtx P → ℕ → Reply
  bkv_to_json_map_close c key = reply c (parser.to_json_map_close_fn c.priv_data)

  -- The answer of `bkv_to_json_uint16`, `_uint32` and `_uint64`: `l_ret` is not set if the parser
  -- answers BKV_OK.
  abbrev pub stops : ToJsonCtx P → Option (ℤ × P) → Reply
  stops c r =
      r >>= λ a. if eqb_ℤ ok a.0 then none else some (Val.stop_loop, record c { priv_data = a.1 })

  abbrev pub stops_named : ToJsonCtx P → ℕ → (Text → Option (ℤ × P)) → Reply
  stops_named c key call = do
    found ← name_of m c.dico_val key
    elim found [ none ↦ some (Val.stop_loop, c) | some s ↦ stops c (call s) ]

  unfoldable pub bkv_to_json_uint16 : ToJsonCtx P → ℕ → ℤ → ℕ → ℕ → Reply
  unfolding name_of
  bkv_to_json_uint16 c p deep key value =
      let named =
        stops_named c key (λ s. parser.to_json_uint16_fn c.priv_data false (some s) value) in
      if key == array_elem_key
      then stops c (parser.to_json_uint16_fn c.priv_data true none value)
      else named

  unfoldable pub bkv_to_json_uint32 : ToJsonCtx P → ℕ → ℤ → ℕ → ℕ → Reply
  unfolding name_of
  bkv_to_json_uint32 c p deep key value =
      stops_named c key (λ s. parser.to_json_uint32_fn c.priv_data s value)

  unfoldable pub bkv_to_json_uint64 : ToJsonCtx P → ℕ → ℤ → ℕ → ℕ → Reply
  unfolding name_of
  bkv_to_json_uint64 c p deep key value =
      stops_named c key (λ s. parser.to_json_uint64_fn c.priv_data s value)

  -- A value in an array, or under a name.
  abbrev pub in_array_or_named : ToJsonCtx P → ℕ → Option (ℤ × P) → (Text → Option (ℤ × P)) → Reply
  in_array_or_named c key array call =
      let named = with_name c key Val.stop_loop call in
      if key == array_elem_key then reply c array else named

  unfoldable pub bkv_to_json_str : ToJsonCtx P → ℕ → ℕ → ℕ → ℕ → Reply
  unfolding name_of
  bkv_to_json_str c p key str len =
      in_array_or_named c key (parser.to_json_array_str_fn c.priv_data (str, len))
        (λ s. parser.to_json_str_fn c.priv_data s (str, len))

  unfoldable pub bkv_to_json_array_open : ToJsonCtx P → ℕ → ℕ → ℕ → Reply
  unfolding name_of
  bkv_to_json_array_open c p array_len key =
      with_name c key Val.action_none (λ s. parser.to_json_array_open_fn c.priv_data array_len s)

  unfoldable pub bkv_to_json_array_close : ToJsonCtx P → Reply
  bkv_to_json_array_close c = reply c (parser.to_json_array_close_fn c.priv_data)

  unfoldable pub bkv_to_json_float : ToJsonCtx P → ℕ → ℕ → ℕ → Reply
  unfolding name_of
  bkv_to_json_float c p key f =
      in_array_or_named c key (parser.to_json_array_float_fn c.priv_data f)
        (λ s. parser.to_json_float_fn c.priv_data s f)

  unfoldable pub bkv_to_json_boolean : ToJsonCtx P → ℕ → ℕ → Bool → Reply
  unfolding name_of
  bkv_to_json_boolean c p key v =
      in_array_or_named c key (parser.to_json_array_boolean_fn c.priv_data v)
        (λ s. parser.to_json_boolean_fn c.priv_data s v)

  -- The callback of the doubles is NULL, and is called without a test.
  unfoldable pub s_bkv_callbacks : Val.Callbacks (ToJsonCtx P)
  unfolding bkv_to_json_map_open bkv_to_json_map_close bkv_to_json_array_open
      bkv_to_json_array_close bkv_to_json_uint16 bkv_to_json_uint32 bkv_to_json_uint64
      bkv_to_json_str bkv_to_json_float bkv_to_json_boolean
  s_bkv_callbacks = record {
    map_open = some bkv_to_json_map_open;
    map_close = some bkv_to_json_map_close;
    array_open = some bkv_to_json_array_open;
    array_close = some bkv_to_json_array_close;
    uint16 = bkv_to_json_uint16;
    uint32 = bkv_to_json_uint32;
    uint64 = bkv_to_json_uint64;
    str = bkv_to_json_str;
    float_fn = bkv_to_json_float;
    double_fn = λ c p key v. none;
    boolean_fn = bkv_to_json_boolean;
  }
