-- ===== src/Val.antt =====
-- bkv/src/bkv_val.c, the reader of a document: the loop of `val_foreach` over a block of bytes,
-- with the callbacks of `bkv_val_callbacks_t`. A pointer into the block is its distance from the
-- start of the block; `bkv_ctx_t.state` is left out, since it is written and never read.
pub mod Found
pub mod Get
pub mod Total
pub mod Entries
pub mod Maps
pub mod Holding
pub mod Walks
use wtools.Prelude.{
  ℕ, zero, suc, ◌+◌, ◌*◌, ◌/◌, ◌%◌, Bool, true, false, not, ◌&&◌, Option, none, some, ◌==◌, ltb,
  length, if◌then◌else◌,
}
use wtools.Prelude.Int.{ℤ, pos, negsuc, ◌+ℤ◌, ◌-ℤ◌, eqb_ℤ}
use wtools.Prelude.Chain.{◌>>=◌}
use wtools.Buffer.{Bytes, load}
use wtools.ByteOrder.{le16_to_cpu, le32_to_cpu, le_u64_to_cpu, lef_to_cpu, le_double_to_cpu}
use wtools.Bkv.{ok, inv_arg}
use Prim.Native.Nat.{bit_and}

-- `bkv_parse_retval_t`, as the bits of an `int`; `unknown_type` is the -1 of the default case.
abbrev pub action_none : ℕ
action_none = 0

abbrev pub goto_end_map : ℕ
goto_end_map = 1

abbrev pub stop_loop : ℕ
stop_loop = 2

abbrev pub unknown_type : ℕ
unknown_type = 0xFFFF_FFFF

-- `bkv_val_callbacks_t` over the user's data. The loop tests four of them for NULL. The second
-- argument is `p_ptr`; a callback may fault.
pub record Callbacks (D : Type 0) : Type 0 where
  pub map_open : Option (D → ℕ → ℕ → Option (ℕ × D))
  pub map_close : Option (D → ℕ → Option (ℕ × D))
  pub array_open : Option (D → ℕ → ℕ → ℕ → Option (ℕ × D))
  pub array_close : Option (D → Option (ℕ × D))
  pub uint16 : D → ℕ → ℤ → ℕ → ℕ → Option (ℕ × D)
  pub uint32 : D → ℕ → ℤ → ℕ → ℕ → Option (ℕ × D)
  pub uint64 : D → ℕ → ℤ → ℕ → ℕ → Option (ℕ × D)
  pub str : D → ℕ → ℕ → ℕ → ℕ → Option (ℕ × D)
  pub float_fn : D → ℕ → ℕ → ℕ → Option (ℕ × D)
  pub double_fn : D → ℕ → ℕ → ℕ → Option (ℕ × D)
  pub boolean_fn : D → ℕ → ℕ → Bool → Option (ℕ × D)

-- `p_data`, `l_ptr` and `l_ctx.map_deep`.
pub record Cursor (D : Type 0) : Type 0 where
  pub user : D
  pub ptr : ℕ
  pub map_deep : ℤ

-- The end of one round: `l_ret`, or the early return with BKV_INV_ARG.
pub data Round (D : Type 0) : Type 0 where
  next : ℕ → Cursor D → Round D
  invalid : D → Round D

-- `header_type_t`, of the four high bits of a header.
pub data Header : Type 0 where
  map_open map_close array_open array_close int16 int32 int64 string float double boolean : Header
  unknown : Header

abbrev pub header_of : ℕ → Header
header_of t =
    if t == 1
    then map_open
    else if t == 2
    then map_close
    else if t == 3
    then array_open
    else if t == 4
    then array_close
    else if t == 5
    then int16
    else if t == 6
    then int32
    else if t == 7
    then int64
    else if t == 8
    then string
    else if t == 9
    then float
    else if t == 10
    then double
    else if t == 11
    then boolean
    else unknown

module _ {D : Type 0} where
  -- A callback's answer, with the pointer and the depth that the loop goes on with.
  abbrev pub go_on : ℕ → ℤ → ℕ × D → Round D
  go_on p deep (ret, d) = next ret (record { user = d; ptr = p; map_deep = deep })

  -- A callback that is NULL leaves `l_ret` at BKV_PARSE_ACTION_NONE.
  abbrev pub optional {ℓ} : {F : Type ℓ} → Option F → D → (F → Option (ℕ × D)) → Option (ℕ × D)
  optional none d call = some (action_none, d)
  optional (some f) d call = call f

  -- After `map_open` asked to go to the end of the map, or not.
  unfoldable pub enter_map : Bytes → ℕ → ℤ → ℕ × D → Option (Round D)
  enter_map m p deep (ret, d) =
      if not (bit_and ret goto_end_map == 0)
      then (load (p + 2) m >>= λ b2. load (p + 3) m >>= λ b3.
          let map_length = b2 % 256 * 256 + b3 % 256 in
          some (if map_length == 0 then invalid d else go_on (p + map_length) deep (ret, d)))
      else some (go_on (p + 2 + 2) (deep +ℤ pos 1) (ret, d))

  -- A map that closes at depth 0 ends the loop, whatever the callback answered.
  abbrev leave_map : ℕ → ℤ → ℕ × D → Round D
  leave_map p deep (ret, d) = go_on p deep (if eqb_ℤ (pos 0) deep then stop_loop else ret, d)

  -- One case of the switch for each header.
  unfoldable pub case : Callbacks D → Bytes → Cursor D → ℕ → Header → Option (Round D)
  unfolding enter_map le16_to_cpu le32_to_cpu le_u64_to_cpu lef_to_cpu le_double_to_cpu
  case cb m c key map_open = do
    a ← optional cb.map_open c.user (λ f. f c.user c.ptr key)
    enter_map m c.ptr c.map_deep a
  case cb m c key map_close = do
    a ← optional cb.map_close c.user (λ f. f c.user key)
    some (leave_map (c.ptr + 2) (c.map_deep -ℤ pos 1) a)
  case cb m c key array_open = do
    n ← le16_to_cpu m (c.ptr + 2 + 2) none
    a ← optional cb.array_open c.user (λ f. f c.user c.ptr n.0 key)
    some (go_on (c.ptr + 2 + 2 + 2) (c.map_deep +ℤ pos 1) a)
  case cb m c key array_close = do
    a ← optional cb.array_close c.user (λ f. f c.user)
    some (go_on (c.ptr + 2 + 3) (c.map_deep -ℤ pos 1) a)
  case cb m c key int16 = do
    v ← le16_to_cpu m (c.ptr + 2) none
    a ← cb.uint16 c.user c.ptr c.map_deep key v.0
    some (go_on (c.ptr + 2 + 2) c.map_deep a)
  case cb m c key int32 = do
    v ← le32_to_cpu m (c.ptr + 2) none
    a ← cb.uint32 c.user c.ptr c.map_deep key v.0
    some (go_on (c.ptr + 2 + 4) c.map_deep a)
  case cb m c key int64 = do
    v ← le_u64_to_cpu m (c.ptr + 2) none
    a ← cb.uint64 c.user c.ptr c.map_deep key v.0
    some (go_on (c.ptr + 2 + 8) c.map_deep a)
  case cb m c key string = do
    b0 ← load (c.ptr + 2) m
    b1 ← load (c.ptr + 2 + 1) m
    let len = b0 % 256 * 256 + b1 % 256
    a ← cb.str c.user (c.ptr + 2 + 2) key (c.ptr + 2 + 2) len
    some (go_on (c.ptr + 2 + 2 + len) c.map_deep a)
  case cb m c key float = do
    v ← lef_to_cpu m (c.ptr + 2) none
    a ← cb.float_fn c.user (c.ptr + 2) key v.0
    some (go_on (c.ptr + 2 + 4) c.map_deep a)
  case cb m c key double = do
    v ← le_double_to_cpu m (c.ptr + 2) none
    a ← cb.double_fn c.user (c.ptr + 2) key v.0
    some (go_on (c.ptr + 2 + 8) c.map_deep a)
  case cb m c key boolean = do
    b ← load (c.ptr + 2) m
    a ← cb.boolean_fn c.user (c.ptr + 2) key (not (b == 0))
    some (go_on (c.ptr + 2 + 1) c.map_deep a)
  case cb m c key unknown = some (next unknown_type c)

  -- The body of the loop: the header at `l_ptr`, then the switch.
  unfoldable pub round : Callbacks D → Bytes → Cursor D → Option (Round D)
  unfolding case
  round cb m c = do
    b0 ← load c.ptr m
    b1 ← load (c.ptr + 1) m
    case cb m c (b0 % 16 * 256 + b1 % 256) (header_of (b0 / 16 % 16))

-- `stuck` is a loop that ran out of fuel.
pub data Outcome (D : Type 0) : Type 0 where
  fault : Outcome D
  stuck : Outcome D
  returns : ℤ → D → Outcome D

-- The condition of the `while`.
abbrev pub continues : {D : Type 0} → ℕ → ℕ → Cursor D → Bool
continues base ret c = bit_and ret stop_loop == 0 && ltb base c.ptr

unfoldable pub loop : {D : Type 0} → Callbacks D → Bytes → ℕ → ℕ → Cursor D → Outcome D
unfolding round
loop cb m base zero c = stuck
loop cb m base (suc fuel) c = elim (round cb m c) [
  | none ↦ fault
  | some (invalid d) ↦ returns inv_arg d
  | some (next ret c') ↦ elim (continues base ret c') [
    | true ↦ loop cb m base fuel c'
    | false ↦ returns ok c'.user
  ]
]

-- `val_foreach` from the place `base` of the block `m`. A round moves the pointer on and faults
-- outside the block, so that the length of the block bounds the rounds.
unfoldable pub val_foreach : {D : Type 0} → Callbacks D → Bytes → ℕ → D → Outcome D
unfolding loop
val_foreach cb m base d =
    loop cb m base (length m + 1) (record { user = d; ptr = base; map_deep = pos 0 })
