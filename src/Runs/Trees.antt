-- ===== src/Runs/Trees.antt =====
-- Small runs of the comparison of two JSON texts: the theorems at concrete inputs.
use wtools.Prelude.{ℕ, ◌≡◌, refl, Option, none, some, [], ◌∷◌, replicate}
use wtools.Prelude.Int.{pos, sub_ℕ}
use wtools.Buffer.{Bytes}
use wtools.Json.Tools.{
  Node, string, number, object, array, yes, end, member, nil, elem, json_tools_node_compare,
  bkv_json_tools_compare,
}
use wtools.Json.Tools.Alike.{Alike, tools_compare-Alike}
use wtools.Json.Tools.Blind.{with_strings, node_compare-with_strings}
use wtools.Runs.Memory.{plain_libc}
use mathlib.Core.Logic.{◌↔◌}

-- {"a":string,"b":[true],"c":12}
abbrev tree : Bytes → Node ℕ
tree s = object (
    member (b'a' ∷ []) (string s)
      (member (b'b' ∷ []) (array 1 (elem yes nil)) (member (b'c' ∷ []) (number 12) end)))

-- A parser that puts its text into a tree.
abbrev parse : Bytes → Option (Node ℕ)
parse [] = none
parse (c ∷ s) = some (tree (c ∷ s))

tools_compare-Alike_example :
    (bkv_json_tools_compare sub_ℕ parse plain_libc (b'x' ∷ 0 ∷ []) (b'y' ∷ b'z' ∷ []) 2
      ≡ some (pos 0))
    ↔ ((x y : Node ℕ) × (parse (b'x' ∷ 0 ∷ []) ≡ some x)
        × (parse (b'y' ∷ b'z' ∷ 0 ∷ []) ≡ some y)
        × Alike sub_ℕ x y)
tools_compare-Alike_example =
    tools_compare-Alike sub_ℕ parse plain_libc (b'x' ∷ 0 ∷ []) (b'y' ∷ []) (replicate 3 0) b'z' refl
      refl

-- Different strings compare as equal.
blind_run :
    json_tools_node_compare sub_ℕ (tree (b'x' ∷ [])) (tree (b'y' ∷ b'z' ∷ [])) ≡ some (pos 0)
unfolding json_tools_node_compare
blind_run = refl

node_compare-with_strings_example :
    json_tools_node_compare sub_ℕ
      (with_strings (λ s. b'!' ∷ s) (tree []))
      (with_strings (λ s. []) (tree (b'x' ∷ [])))
    ≡ json_tools_node_compare sub_ℕ (tree []) (tree (b'x' ∷ []))
node_compare-with_strings_example =
    node_compare-with_strings sub_ℕ (λ s. b'!' ∷ s) (λ s. []) (tree []) (tree (b'x' ∷ []))
