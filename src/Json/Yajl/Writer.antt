-- ===== src/Json/Yajl/Writer.antt =====
-- bkv/json/src/bkv_json_yajl.c, the half that writes JSON: the parser of json_plugs.h over the
-- generator of the yajl library, which is a parameter.
use wtools.Prelude.{ℕ, ◌^◌, Bool, not, Option, none, some, ltb, if◌then◌else◌, length}
use wtools.Prelude.Int.{ℤ, pos, minus_one, eqb_ℤ, sub_ℕ}
use wtools.Prelude.Chain.{◌>>=◌}
use wtools.Buffer.{Bytes, store_all}
use wtools.Libc.{Libc}
use wtools.Bkv.{ok, inv_arg, inv_state}
use wtools.Json.{Text, ToJsonParser}

-- The calls of yajl/yajl_gen.h over a generator `G`: each answers a status, 0 for
-- `yajl_gen_status_ok`. A string is handed over as a place in the block and a length. A `float` is
-- its bits, and `double_of` its value as a `double`. `yajl_gen_config` and `yajl_config` answer 0
-- if they fail; `yajl_alloc` tells whether there is a handle.
pub record YajlGen (G : Type 0) : Type 1 where
  pub Double : Type 0
  pub double_of : ℕ → Double
  pub yajl_gen_alloc : Option G
  pub yajl_gen_config : G → ℤ × G
  pub yajl_alloc : Bool
  pub yajl_config : ℤ
  pub yajl_gen_string : G → Text → ℤ × G
  pub yajl_gen_integer : G → ℤ → ℤ × G
  pub yajl_gen_double : G → Double → ℤ × G
  pub yajl_gen_bool : G → Bool → ℤ × G
  pub yajl_gen_map_open : G → ℤ × G
  pub yajl_gen_map_close : G → ℤ × G
  pub yajl_gen_array_open : G → ℤ × G
  pub yajl_gen_array_close : G → ℤ × G
  pub yajl_gen_get_buf : G → ℤ × Bytes

abbrev pub gen_status_ok : ℤ
gen_status_ok = pos 0

-- `(long long int)value` for an unsigned value of 64 bits.
abbrev pub to_long_long : ℕ → ℤ
to_long_long v = if ltb v (2 ^ 63) then pos v else sub_ℕ v (2 ^ 64)

-- `bkv_to_json_yajl_ctx_t`, less the handle, which nothing else reads, and the text that the end
-- makes, which the caller gets. The context of the generator is NULL until the initialisation.
pub record GenCtx (G : Type 0) : Type 0 where
  pub g : Option G
  pub str : Option Bytes

-- The size of `bkv_to_json_yajl_ctx_t`.
abbrev pub sizeof_ctx : ℕ
sizeof_ctx = 48

module _ {G : Type 0} (gen : YajlGen G) where
  open gen use {
    double_of, yajl_gen_string, yajl_gen_integer, yajl_gen_double, yajl_gen_bool, yajl_gen_map_open,
    yajl_gen_map_close, yajl_gen_array_open, yajl_gen_array_close,
  }

  abbrev Reply : Type 0
  Reply = Option (ℤ × GenCtx G)

  -- A call on the generator, `absent` where the context is NULL.
  abbrev pub on_gen : ℤ → GenCtx G → (G → ℤ × G) → Reply
  on_gen absent p call = elim p.g [
    | none ↦ some (absent, p)
    | some g ↦ let r = call g in some (r.0, record p { g = some r.1 })
  ]

  -- One call, `bad` where its status is another than `yajl_gen_status_ok`.
  abbrev pub once : ℤ → (G → ℤ × G) → G → ℤ × G
  once bad call g = let r = call g in (if eqb_ℤ gen_status_ok r.0 then ok else bad, r.1)

  -- Two calls, the second one if the status of the first is `yajl_gen_status_ok`.
  abbrev pub both : ℤ → (G → ℤ × G) → (G → ℤ × G) → G → ℤ × G
  both bad first second g =
      let r = first g in if eqb_ℤ gen_status_ok r.0 then once bad second r.1 else (bad, r.1)

  abbrev pub string_of : Text → G → ℤ × G
  string_of s g = yajl_gen_string g s

  -- The status of the key's string is dropped.
  unfoldable pub bkv_to_json_yajl_map_open : GenCtx G → Option Text → Reply
  bkv_to_json_yajl_map_open p key = on_gen inv_arg p (λ g.
      let named : G = elim key [
        | none ↦ g
        | some s ↦ if ltb 0 s.1 then (yajl_gen_string g s).1 else g
      ] in
      once inv_arg yajl_gen_map_open named)

  unfoldable pub bkv_to_json_yajl_map_close : GenCtx G → Reply
  bkv_to_json_yajl_map_close p = on_gen ok p (once inv_state yajl_gen_map_close)

  unfoldable pub bkv_to_json_yajl_array_open : GenCtx G → ℕ → Text → Reply
  bkv_to_json_yajl_array_open p array_len key =
      on_gen ok p (both inv_state (string_of key) yajl_gen_array_open)

  unfoldable pub bkv_to_json_yajl_array_close : GenCtx G → Reply
  bkv_to_json_yajl_array_close p = on_gen inv_arg p (once inv_arg yajl_gen_array_close)

  -- In an array the name is not looked at; else it is one.
  unfoldable pub bkv_to_json_yajl_uint16 : GenCtx G → Bool → Option Text → ℕ → Reply
  bkv_to_json_yajl_uint16 p is_array name value =
      let integer : G → ℤ × G = λ g. yajl_gen_integer g (to_long_long value) in
      if is_array
      then on_gen ok p (once inv_arg integer)
      else (name >>= λ s. on_gen ok p (both inv_arg (string_of s) integer))

  unfoldable pub bkv_to_json_yajl_uint32 : GenCtx G → Text → ℕ → Reply
  bkv_to_json_yajl_uint32 p name value =
      on_gen ok p (both inv_arg (string_of name) (λ g. yajl_gen_integer g (to_long_long value)))

  unfoldable pub bkv_to_json_yajl_uint64 : GenCtx G → Text → ℕ → Reply
  bkv_to_json_yajl_uint64 p name value =
      on_gen ok p (both inv_arg (string_of name) (λ g. yajl_gen_integer g (to_long_long value)))

  unfoldable pub bkv_to_json_yajl_str : GenCtx G → Text → Text → Reply
  bkv_to_json_yajl_str p name value = on_gen ok p (both inv_arg (string_of name) (string_of value))

  unfoldable pub bkv_to_json_yajl_float : GenCtx G → Text → ℕ → Reply
  bkv_to_json_yajl_float p name f =
      on_gen ok p (both inv_arg (string_of name) (λ g. yajl_gen_double g (double_of f)))

  unfoldable pub bkv_to_json_yajl_boolean : GenCtx G → Text → Bool → Reply
  bkv_to_json_yajl_boolean p name v =
      on_gen ok p (both inv_arg (string_of name) (λ g. yajl_gen_bool g v))

  unfoldable pub bkv_to_json_yajl_array_float : GenCtx G → ℕ → Reply
  bkv_to_json_yajl_array_float p f =
      on_gen ok p (once inv_arg (λ g. yajl_gen_double g (double_of f)))

  unfoldable pub bkv_to_json_yajl_array_boolean : GenCtx G → Bool → Reply
  bkv_to_json_yajl_array_boolean p v = on_gen ok p (once inv_arg (λ g. yajl_gen_bool g v))

  unfoldable pub bkv_to_json_yajl_array_string : GenCtx G → Text → Reply
  bkv_to_json_yajl_array_string p s = on_gen ok p (once inv_arg (string_of s))

  -- The steps behind the allocation of the generator. Where one fails behind it, the code is not
  -- -1 though the context stays NULL.
  unfoldable pub configure : GenCtx G → G → ℤ × GenCtx G
  configure p g =
      let made = gen.yajl_gen_config g in
      if eqb_ℤ (pos 0) made.0
      then (made.0, p)
      else if not gen.yajl_alloc
      then (made.0, p)
      else if eqb_ℤ (pos 0) gen.yajl_config
      then (gen.yajl_config, p)
      else (pos 0, record p { g = some made.1 })

  unfoldable pub bkv_to_json_yajl_init : Libc → GenCtx G → Reply
  unfolding configure
  bkv_to_json_yajl_init libc p = elim (libc.malloc sizeof_ctx) [
    | none ↦ some (minus_one, p)
    | some block ↦ elim gen.yajl_gen_alloc [
      | none ↦ some (minus_one, p)
      | some g ↦ some (configure p g)
    ]
  ]

  -- `*p_str=malloc(l_len); memcpy(*p_str,l_ptr,l_len);` faults if the allocation fails.
  unfoldable pub bkv_to_json_yajl_finalize : Libc → GenCtx G → Reply
  unfolding store_all
  bkv_to_json_yajl_finalize libc p = do
    g ← p.g
    let r = gen.yajl_gen_get_buf g
    if eqb_ℤ (pos 0) r.0
        then (libc.malloc (length r.1) >>= λ block.
            store_all 0 r.1 block >>= λ out. some (ok, record { g = none; str = some out }))
        else some (r.0, p)

  unfoldable pub s_bkv_to_json_yajl_plug : Libc → ToJsonParser (GenCtx G)
  unfolding bkv_to_json_yajl_init bkv_to_json_yajl_map_open bkv_to_json_yajl_map_close
      bkv_to_json_yajl_array_open bkv_to_json_yajl_array_close bkv_to_json_yajl_uint16
      bkv_to_json_yajl_uint32 bkv_to_json_yajl_uint64 bkv_to_json_yajl_float
      bkv_to_json_yajl_boolean bkv_to_json_yajl_array_float bkv_to_json_yajl_array_boolean
      bkv_to_json_yajl_array_string bkv_to_json_yajl_str bkv_to_json_yajl_finalize
  s_bkv_to_json_yajl_plug libc = record {
    to_json_init = bkv_to_json_yajl_init libc;
    to_json_map_open_fn = bkv_to_json_yajl_map_open;
    to_json_map_close_fn = bkv_to_json_yajl_map_close;
    to_json_array_open_fn = bkv_to_json_yajl_array_open;
    to_json_array_close_fn = bkv_to_json_yajl_array_close;
    to_json_uint16_fn = bkv_to_json_yajl_uint16;
    to_json_uint32_fn = bkv_to_json_yajl_uint32;
    to_json_uint64_fn = bkv_to_json_yajl_uint64;
    to_json_float_fn = bkv_to_json_yajl_float;
    to_json_boolean_fn = bkv_to_json_yajl_boolean;
    to_json_array_float_fn = bkv_to_json_yajl_array_float;
    to_json_array_boolean_fn = bkv_to_json_yajl_array_boolean;
    to_json_array_str_fn = bkv_to_json_yajl_array_string;
    to_json_str_fn = bkv_to_json_yajl_str;
    to_json_finalize = bkv_to_json_yajl_finalize libc;
  }
