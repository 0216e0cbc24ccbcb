-- ===== src/Val/Get.antt =====
-- bkv/src/bkv_val.c, the search of a value in a document: the callbacks `bkv_val_get_*` over
-- their context, `bkv_val_get2`, and `bkv_val_init`.
pub mod Search
pub mod Heads
use wtools.Prelude.{
  ℕ, ◌+◌, ◌*◌, ◌/◌, ◌%◌, Bool, true, false, not, ◌&&◌, Option, none, some, List, ◌==◌,
  if◌then◌else◌,
}
use wtools.Prelude.Int.{ℤ, pos, negsuc, minus_one, ltb_ℤ, ◌+ℤ◌}
use wtools.Prelude.Chain.{◌>>=◌}
use wtools.Buffer.{Bytes, load, store}
use wtools.ByteOrder.{le16_to_cpu, le32_to_cpu}
use wtools.Bkv.{ok, inv_arg}
use wtools.Val
use wtools.Val.Found.{
  ValType, is_array, Union, BkvVal, GetCtx, key_at, set_val, enter_key, next_val, at_key, found,
  get_uint, Answer,
}

unfoldable pub bkv_val_get_map_open : GetCtx → ℕ → ℕ → Answer
unfolding enter_key set_val
bkv_val_get_map_open c p key =
    if ltb_ℤ c.key_offset (pos 0)
    then some (Val.action_none, record c { key_offset = c.key_offset +ℤ pos 1 })
    else (enter_key c key >>= λ a.
        if a.1.got_it
        then (set_val 0
              (λ v. record v { val_type = ValType.object; u = Union.object p; priv = some p }) a.1
            >>= λ c'. some (Val.stop_loop, c'))
        else some a)

unfoldable pub bkv_val_get_map_close : GetCtx → ℕ → Answer
bkv_val_get_map_close c key = some (Val.action_none, c)

unfoldable pub bkv_val_get_uint16 : GetCtx → ℕ → ℤ → ℕ → ℕ → Answer
unfolding get_uint
bkv_val_get_uint16 c p deep key value = get_uint ValType.int16 (Union.int16 value) c p deep key

unfoldable pub bkv_val_get_uint32 : GetCtx → ℕ → ℤ → ℕ → ℕ → Answer
unfolding get_uint
bkv_val_get_uint32 c p deep key value = get_uint ValType.int32 (Union.int32 value) c p deep key

unfoldable pub bkv_val_get_uint64 : GetCtx → ℕ → ℤ → ℕ → ℕ → Answer
unfolding get_uint
bkv_val_get_uint64 c p deep key value = get_uint ValType.int64 (Union.int64 value) c p deep key

-- Strings, booleans and doubles do not test the keys for NULL.
unfoldable pub bkv_val_get_str : GetCtx → ℕ → ℕ → ℕ → ℕ → Answer
unfolding at_key found
bkv_val_get_str c p key s len =
    at_key c key (found (λ v. record v { val_type = ValType.string; u = Union.string s len }) c)
      (some (Val.action_none, c))

unfoldable pub bkv_val_get_boolean : GetCtx → ℕ → ℕ → Bool → Answer
unfolding at_key found
bkv_val_get_boolean c p key v =
    at_key c key (found (λ w. record w { val_type = ValType.boolean; u = Union.b v }) c)
      (some (Val.action_none, c))

unfoldable pub bkv_val_get_double : GetCtx → ℕ → ℕ → ℕ → Answer
unfolding at_key found
bkv_val_get_double c p key v =
    at_key c key (found (λ w. record w { val_type = ValType.string; u = Union.d v }) c)
      (some (Val.action_none, c))

unfoldable pub bkv_val_get_float : GetCtx → ℕ → ℕ → ℕ → Answer
unfolding next_val at_key found
bkv_val_get_float c p key value = elim c.keys [
  | none ↦ next_val ValType.float (Union.f value) c
  | some ks ↦
      at_key c key (found (λ v. record v { val_type = ValType.float; u = Union.f value }) c)
        (some (Val.stop_loop, c))
]

unfoldable pub bkv_val_get_array_open : GetCtx → ℕ → ℕ → ℕ → Answer
unfolding at_key found
bkv_val_get_array_open c p n key = elim c.keys [
  | none ↦ some (Val.action_none, c)
  | some ks ↦
      at_key c key
        (found (λ v. record v { val_type = ValType.array; u = Union.array_len n; priv = some p }) c)
        (some (Val.action_none, c))
]

unfoldable pub bkv_val_get_array_close : GetCtx → Answer
bkv_val_get_array_close c = some (Val.action_none, c)

unfoldable pub s_val_get_callbacks : Val.Callbacks GetCtx
unfolding bkv_val_get_map_open bkv_val_get_map_close bkv_val_get_array_open bkv_val_get_array_close
    bkv_val_get_uint16 bkv_val_get_uint32 bkv_val_get_uint64 bkv_val_get_str bkv_val_get_float
    bkv_val_get_double bkv_val_get_boolean
s_val_get_callbacks = record {
  map_open = some bkv_val_get_map_open;
  map_close = some bkv_val_get_map_close;
  array_open = some bkv_val_get_array_open;
  array_close = some bkv_val_get_array_close;
  uint16 = bkv_val_get_uint16;
  uint32 = bkv_val_get_uint32;
  uint64 = bkv_val_get_uint64;
  str = bkv_val_get_str;
  float_fn = bkv_val_get_float;
  double_fn = bkv_val_get_double;
  boolean_fn = bkv_val_get_boolean;
}

abbrev pub is_null {ℓ} : {A : Type ℓ} → Option A → Bool
is_null none = true
is_null (some a) = false

-- `bkv_val_foreach`; the pointer is dereferenced without a test.
unfoldable pub bkv_val_foreach : {D : Type 0} → Bytes → BkvVal → Val.Callbacks D → D → Val.Outcome D
unfolding Val.val_foreach
bkv_val_foreach m v cb user = elim v.priv [
  | none ↦ Val.fault
  | some base ↦ Val.val_foreach cb m base user
]

-- `bkv_val_get2`: the value `v` in the block `m`, the keys and the caller's array.
unfoldable pub bkv_val_get2 :
    Bytes → Option BkvVal → Option (List ℕ) → ℤ → List BkvVal → Val.Outcome (List BkvVal)
unfolding bkv_val_foreach s_val_get_callbacks
bkv_val_get2 m none keys nb_val val = Val.returns inv_arg val
bkv_val_get2 m (some v) keys nb_val val =
    if is_null keys && not (is_array v.val_type)
    then Val.returns inv_arg val
    else elim (bkv_val_foreach m v s_val_get_callbacks (record {
      keys = keys;
      nb_val = nb_val;
      val = val;
      val_offset = 0;
      got_it = false;
      key_offset = minus_one;
      val_is_set = false;
    })) [
      | Val.fault ↦ Val.fault
      | Val.stuck ↦ Val.stuck
      | Val.returns r c ↦ Val.returns (if c.val_is_set then ok else inv_arg) c.val
    ]

-- The switch of `bkv_val_init`.
unfoldable pub init_case : Bytes → ℕ → BkvVal → Val.Header → Option (ℤ × BkvVal)
unfolding le16_to_cpu le32_to_cpu
init_case m p v Val.map_open = some (ok, record v { val_type = ValType.object })
init_case m p v Val.array_open = some (ok, record v { val_type = ValType.array })
init_case m p v Val.int16 = do
  n ← le16_to_cpu m (p + 2) none
  some (ok, record v { val_type = ValType.number; u = Union.int16 n.0 })
init_case m p v Val.int32 = do
  n ← le32_to_cpu m (p + 2) none
  some (ok, record v { val_type = ValType.number; u = Union.int32 n.0 })
init_case m p v _ = some (inv_arg, v)

-- `bkv_val_init` at the place `p` of the block `m`.
unfoldable pub bkv_val_init : Bytes → Option BkvVal → Option ℕ → Option (ℤ × Option BkvVal)
unfolding init_case
bkv_val_init m (some v) (some p) = do
  b0 ← load p m
  b1 ← load (p + 1) m
  a ← init_case m p (record v { key = b0 % 16 * 256 + b1 % 256 }) (Val.header_of (b0 / 16 % 16))
  some (a.0, some (record a.1 { priv = some p }))
bkv_val_init m v p = some (inv_arg, v)

abbrev pub bkv_val_rel : Option BkvVal → ℤ
bkv_val_rel v = ok
