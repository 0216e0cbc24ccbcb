-- ===== src/Val/Found.antt =====
-- bkv/src/bkv_val.c, the search of a value: the value and the context that the callbacks
-- `bkv_val_get_*` write, and the bodies that they share.
use wtools.Prelude.{ℕ, ◌+◌, Bool, true, false, Option, none, some, List, ◌==◌, if◌then◌else◌}
use wtools.Prelude.Int.{ℤ, pos, negsuc, ltb_ℤ, ◌+ℤ◌}
use wtools.Prelude.Chain.{◌>>=◌}
use wtools.Buffer.{load, store}
use wtools.Val

-- `bkv_val_type_t`.
pub data ValType : Type 0 where
  string int16 int32 int64 number boolean float object array end_value : ValType

abbrev pub is_array : ValType → Bool
is_array ValType.array = true
is_array _ = false

-- The union of `bkv_val_t`: the member that was written last, or nothing yet.
pub data Union : Type 0 where
  unset : Union
  string : ℕ → ℕ → Union
  b : Bool → Union
  int16 int32 int64 f d : ℕ → Union
  object : ℕ → Union
  array_len : ℕ → Union

-- `bkv_val_t`. A pointer is a place in the block of the document, `none` is NULL.
pub record BkvVal : Type 0 where
  pub val_type : ValType
  pub key : ℕ
  pub u : Union
  pub priv : Option ℕ
  pub bkv_key_length : ℕ
  pub deep_offset : ℤ

-- BKV_KEY_INVALID, which ends a list of keys.
abbrev pub key_invalid : ℕ
key_invalid = 0xFFF

-- `bkv_val_get_ctx_t`, less `origin`, which is never read. `val` is the caller's array.
pub record GetCtx : Type 0 where
  pub keys : Option (List ℕ)
  pub nb_val : ℤ
  pub val : List BkvVal
  pub val_offset : ℕ
  pub got_it : Bool
  pub key_offset : ℤ
  pub val_is_set : Bool

-- `l_ctx->keys[i]`.
abbrev pub key_at : GetCtx → ℤ → Option ℕ
key_at c (pos i) = c.keys >>= λ ks. load i ks
key_at c (negsuc i) = none

-- A write to `l_ctx->val[i]`, with `val_is_set`.
unfoldable pub set_val : ℕ → (BkvVal → BkvVal) → GetCtx → Option GetCtx
unfolding store
set_val i change c = do
  v ← load i c.val
  val ← store i (change v) c.val
  some (record c { val = val; val_is_set = true })

abbrev pub Answer : Type 0
Answer = Option (ℕ × GetCtx)

-- `got_it` and `key_offset` when a map has the key that is looked for.
unfoldable pub enter_key : GetCtx → ℕ → Answer
enter_key c key = do
  k ← key_at c c.key_offset
  (if key == k
      then (key_at c (c.key_offset +ℤ pos 1) >>= λ after. some (
        Val.action_none,
        record c {
          got_it = if after == key_invalid then true else c.got_it;
          key_offset = c.key_offset +ℤ pos 1;
        },
      ))
      else some (Val.goto_end_map, c))

-- The branch of the numbers without keys: the next element of `val`.
unfoldable pub next_val : ValType → Union → GetCtx → Answer
unfolding set_val
next_val t u c = do
  c' ← set_val c.val_offset (λ v. record v { val_type = t; u = u }) c
  some (
    if ltb_ℤ (pos (c.val_offset + 1)) c.nb_val then Val.action_none else Val.stop_loop,
    record c' { val_offset = c.val_offset + 1 },
  )

-- `key == l_ctx->keys[l_ctx->key_offset]`, then whether it is the last key; `last` and `inner`
-- are the two branches.
unfoldable pub at_key : GetCtx → ℕ → Answer → Answer → Answer
at_key c key last inner = do
  k ← key_at c c.key_offset
  (if key == k
      then (key_at c (c.key_offset +ℤ pos 1) >>= λ after.
          if after == key_invalid then last else inner)
      else some (Val.action_none, c))

-- A change of `l_ctx->val`, then the end of the loop.
unfoldable pub found : (BkvVal → BkvVal) → GetCtx → Answer
unfolding set_val
found change c = do c' ← set_val 0 change c; some (Val.stop_loop, c')

-- The body that `bkv_val_get_uint16`, `bkv_val_get_uint32` and `bkv_val_get_uint64` share.
unfoldable pub get_uint : ValType → Union → GetCtx → ℕ → ℤ → ℕ → Answer
unfolding next_val at_key found
get_uint t u c p deep key = elim c.keys [
  | none ↦ next_val t u c
  | some ks ↦
      at_key c key
        (found
          (λ v. record v {
            val_type = t;
            u = u;
            priv = some p;
            bkv_key_length = 4;
            deep_offset = deep;
          })
          c)
        (some (Val.stop_loop, c))
]
