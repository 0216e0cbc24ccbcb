-- ===== src/Json/Tools.antt =====
-- bkv/json/tools/src/bkv_json_tools.c: two JSON texts compared, over the trees of the yajl library.
pub mod Alike
pub mod Blind
use wtools.Prelude.{
  ℕ, zero, suc, ◌+◌, ◌-◌, Bool, true, false, ◌&&◌, Option, none, some, List, [], ◌∷◌, ◌++◌, ◌==◌,
  if◌then◌else◌,
}
use wtools.Prelude.Int.{ℤ, pos, minus_one, eqb_ℤ}
use wtools.Prelude.Chain.{◌>>=◌}
use wtools.Buffer.{Bytes, load, read_all, store_all}
use wtools.Libc.{Libc}
use wtools.Bkv.{inv_arg}

-- What the code reads of a `yajl_val`: its type, and the member of its union for that type. Of an
-- array the number is what stands in `u.object.len`, the member of another type, and the elements
-- are those of `u.array.values`. A string stands without its NUL.
mutual
  pub data Node (D : Type 0) : Type 0 where
    string : Bytes → Node D
    number : D → Node D
    object : Members D → Node D
    array : ℕ → Elems D → Node D
    yes no null : Node D

  -- `keys` and `values` of an object.
  pub data Members (D : Type 0) : Type 0 where
    end : Members D
    member : Bytes → Node D → Members D → Members D

  pub data Elems (D : Type 0) : Type 0 where
    nil : Elems D
    elem : Node D → Elems D → Elems D

-- `a->type`, as `yajl_type` numbers them.
abbrev pub node_type : {D : Type 0} → Node D → ℕ
node_type (string s) = 1
node_type (number d) = 2
node_type (object ms) = 3
node_type (array n vs) = 4
node_type yes = 5
node_type no = 6
node_type null = 7

-- `b->u.number.d`, `b->u.object` and `b->u.array.values`.
abbrev pub number_of : {D : Type 0} → Node D → Option D
number_of (number d) = some d
number_of _ = none

abbrev pub object_of : {D : Type 0} → Node D → Option (Members D)
object_of (object ms) = some ms
object_of _ = none

abbrev pub values_of : {D : Type 0} → Node D → Option (Elems D)
values_of (array n vs) = some vs
values_of _ = none

-- Whether `strcmp` answers 0.
abbrev pub same_string : Bytes → Bytes → Bool
same_string [] [] = true
same_string (c ∷ s) (d ∷ t) = c == d && same_string s t
same_string _ _ = false

-- `!abs(x)`, which is then compared with 0.001: the `!` stands before the `<`.
abbrev pub not_abs : ℤ → ℕ
not_abs x = if eqb_ℤ (pos 0) x then 1 else 0

abbrev pub below_thousandth : ℕ → Bool
below_thousandth n = n == 0

-- `if (a->type != b->type){ return(-1); }` in front of the `switch`, of which `result` is the case of
-- the type of `a`.
abbrev pub on_type : {D : Type 0} → ℕ → Node D → Option ℤ → Option ℤ
on_type type b result = if type == node_type b then result else some minus_one

-- `minus` is the difference of two doubles as the `int` that `abs` takes.
module _ {D : Type 0} (minus : D → D → ℤ) where
  unfoldable mutual
    -- What `strcmp` answers of two strings is printed, and dropped.
    pub json_tools_node_compare : Node D → Node D → Option ℤ
    json_tools_node_compare (string s) b = on_type 1 b (some (pos 0))
    json_tools_node_compare (number d) b = on_type 2 b (
        number_of b >>= λ e.
        some (if below_thousandth (not_abs (minus d e)) then minus_one else pos 0))
    json_tools_node_compare (object ms) b =
        on_type 3 b (object_of b >>= λ ns. members_compare ms ns)
    json_tools_node_compare (array n vs) b =
        on_type 4 b (values_of b >>= λ ws. elems_compare n vs ws)
    json_tools_node_compare yes b = on_type 5 b (some (pos 0))
    json_tools_node_compare no b = on_type 6 b (some (pos 0))
    json_tools_node_compare null b = on_type 7 b (some (pos 0))

    -- The loop over the members of `a`; behind the end of those of `b` it faults.
    pub members_compare : Members D → Members D → Option ℤ
    members_compare end ns = some (pos 0)
    members_compare (member k v ms) end = none
    members_compare (member k v ms) (member l w ns) =
        let rest = members_compare ms ns in
        let value =
          json_tools_node_compare v w >>= λ r. if eqb_ℤ (pos 0) r then rest else some minus_one in
        if same_string k l then value else some minus_one

    -- The loop over the first elements.
    pub elems_compare : ℕ → Elems D → Elems D → Option ℤ
    elems_compare zero vs ws = some (pos 0)
    elems_compare (suc n) nil ws = none
    elems_compare (suc n) (elem v vs) nil = none
    elems_compare (suc n) (elem v vs) (elem w ws) =
        let rest = elems_compare n vs ws in
        json_tools_node_compare v w >>= λ r. if eqb_ℤ (pos 0) r then rest else some minus_one

-- `l_b`: the bytes, or a copy of them with a NUL behind it if they do not end in one. The code of
-- the last byte of a text of no bytes is read in front of it.
unfoldable pub terminated : Libc → Bytes → ℕ → Option Bytes
unfolding store_all read_all
terminated libc b zero = none
terminated libc b (suc n) = do
  last ← load n b
  let copied = libc.malloc (suc n + 1) >>= λ block.
      read_all (suc n) 0 b >>= λ bs. store_all 0 (bs ++ (0 ∷ [])) block
  if last == 0 then some b else copied

-- The texts are C strings for `yajl_tree_parse`, a parameter, which may fail, and `a_len` is not
-- read. What is allocated is freed on every path.
unfoldable pub bkv_json_tools_compare :
    {D : Type 0} → (D → D → ℤ) → (Bytes → Option (Node D)) → Libc → Bytes → Bytes → ℕ → Option ℤ
unfolding json_tools_node_compare terminated
bkv_json_tools_compare minus yajl_tree_parse libc a b b_len = do
  l_b ← terminated libc b b_len
  elim (yajl_tree_parse a) [
    | none ↦ some inv_arg
    | some node_a ↦ elim (yajl_tree_parse l_b) [
      | none ↦ some inv_arg
      | some node_b ↦ json_tools_node_compare minus node_a node_b
    ]
  ]
