-- ===== src/Print.antt =====
-- bkv/src/bkv_print.c: a document printed by the callbacks of `val_foreach`. What stands on the
-- output is a list of lines; a line is the call of `printf` with its arguments, as the formats
-- take them: `%d` and `PRIi64` take a signed number.
pub mod Lines
use wtools.Prelude.{
  ℕ, zero, suc, ◌+◌, ◌-◌, ◌^◌, Bool, true, false, Option, none, some, List, [], ◌∷◌, ◌++◌, ltb,
  ◌==◌, if◌then◌else◌,
}
use wtools.Prelude.Int.{ℤ, pos, sub_ℕ}
use wtools.Prelude.Chain.{◌>>=◌}
use wtools.Buffer.{Bytes, load}
use wtools.Bkv.{Handle}
use wtools.Bkv.Create.{bkv_get_head}
use wtools.Val
use wtools.Val.Get.{bkv_val_foreach, bkv_val_init}
use wtools.Json.{bkv_val_unset}

-- A float is its bits.
pub data Line : Type 0 where
  map_open map_close array_open : ℕ → Line
  array_close : Line
  uint16 : ℕ → ℕ → Line
  uint32 uint64 : ℕ → ℤ → Line
  str : ℕ → Bytes → Line
  float : ℕ → ℕ → Line
  boolean : ℕ → Bool → Line

abbrev pub Output : Type 0
Output = List Line

-- The number that a signed format prints for an unsigned one of `w` bits.
abbrev pub signed : ℕ → ℕ → ℤ
signed w v = if ltb v (2 ^ (w - 1)) then pos v else sub_ℕ v (2 ^ w)

-- What `%.*s` prints of the string at `p`: at most `n` bytes, up to a NUL.
unfoldable pub printed : ℕ → ℕ → Bytes → Option Bytes
printed zero p m = some []
printed (suc n) p m = do
  b ← load p m
  let later = printed n (p + 1) m >>= λ bs. some (b ∷ bs)
  if b == 0 then some [] else later

abbrev pub print : Output → Line → Option (ℕ × Output)
print out l = some (Val.action_none, out ++ (l ∷ []))

unfoldable pub bkv_print_map_open : Output → ℕ → ℕ → Option (ℕ × Output)
bkv_print_map_open out p key = print out (map_open key)

unfoldable pub bkv_print_map_close : Output → ℕ → Option (ℕ × Output)
bkv_print_map_close out key = print out (map_close key)

unfoldable pub bkv_print_uint16 : Output → ℕ → ℤ → ℕ → ℕ → Option (ℕ × Output)
bkv_print_uint16 out p deep key value = print out (uint16 key value)

unfoldable pub bkv_print_uint32 : Output → ℕ → ℤ → ℕ → ℕ → Option (ℕ × Output)
bkv_print_uint32 out p deep key value = print out (uint32 key (signed 32 value))

unfoldable pub bkv_print_uint64 : Output → ℕ → ℤ → ℕ → ℕ → Option (ℕ × Output)
bkv_print_uint64 out p deep key value = print out (uint64 key (signed 64 value))

unfoldable pub bkv_print_str : Bytes → Output → ℕ → ℕ → ℕ → ℕ → Option (ℕ × Output)
unfolding printed
bkv_print_str m out p key q len = do s ← printed len q m; print out (str key s)

unfoldable pub bkv_print_array_open : Output → ℕ → ℕ → ℕ → Option (ℕ × Output)
bkv_print_array_open out p array_len key = print out (array_open key)

unfoldable pub bkv_print_array_close : Output → Option (ℕ × Output)
bkv_print_array_close out = print out array_close

unfoldable pub bkv_print_float : Output → ℕ → ℕ → ℕ → Option (ℕ × Output)
bkv_print_float out p key f = print out (float key f)

unfoldable pub bkv_print_bool : Output → ℕ → ℕ → Bool → Option (ℕ × Output)
bkv_print_bool out p key b = print out (boolean key b)

-- The callback of the doubles is NULL, and is called without a test.
unfoldable pub s_bkv_callbacks : Bytes → Val.Callbacks Output
unfolding bkv_print_map_open bkv_print_map_close bkv_print_array_open bkv_print_array_close
    bkv_print_uint16 bkv_print_uint32 bkv_print_uint64 bkv_print_str bkv_print_float bkv_print_bool
s_bkv_callbacks m = record {
  map_open = some bkv_print_map_open;
  map_close = some bkv_print_map_close;
  array_open = some bkv_print_array_open;
  array_close = some bkv_print_array_close;
  uint16 = bkv_print_uint16;
  uint32 = bkv_print_uint32;
  uint64 = bkv_print_uint64;
  str = bkv_print_str m;
  float_fn = bkv_print_float;
  double_fn = λ out p key v. none;
  boolean_fn = bkv_print_bool;
}

abbrev pub or_fault : Option (Val.Outcome Output) → Val.Outcome Output
or_fault none = Val.fault
or_fault (some outcome) = outcome

-- The code, and the output behind `out`. Of a handle that is NULL or has no block `l_ptr` is not
-- set or NULL.
unfoldable pub bkv_print2 : Option Handle → Output → Val.Outcome Output
unfolding bkv_get_head bkv_val_init bkv_val_foreach s_bkv_callbacks
bkv_print2 h out = or_fault (
    (bkv_get_head h false false).1 >>= λ head. head.0 >>= λ m.
    bkv_val_init m (some bkv_val_unset) (some 0) >>= λ made.
    made.1 >>= λ v. some (bkv_val_foreach m v (s_bkv_callbacks m) out))
