-- ===== src/Json/Tools/Blind.antt =====
-- What bkv/json/tools/src/bkv_json_tools.c does not see of two trees.
use wtools.Prelude.{ℕ, zero, suc, ◌≡◌, refl, ap, Option, none, some, ◌==◌, if◌then◌else◌}
use wtools.Prelude.Int.{ℤ, minus_one}
use wtools.Prelude.Chain.{◌>>=◌}
use wtools.Buffer.{Bytes}
use wtools.Json.Tools.{
  Node, string, number, object, array, yes, no, null, Members, end, member, Elems, nil, elem,
  node_type, number_of, object_of, values_of, json_tools_node_compare, members_compare,
  elems_compare,
}
use mathlib.Core.Option as Opt

module _ {D : Type 0} (change : Bytes → Bytes) where
  -- A tree with its strings changed, at any depth; the keys stay.
  unfoldable mutual
    pub with_strings : Node D → Node D
    with_strings (string s) = string (change s)
    with_strings (number d) = number d
    with_strings (object ms) = object (members_with ms)
    with_strings (array n vs) = array n (elems_with vs)
    with_strings yes = yes
    with_strings no = no
    with_strings null = null

    pub members_with : Members D → Members D
    members_with end = end
    members_with (member k v ms) = member k (with_strings v) (members_with ms)

    pub elems_with : Elems D → Elems D
    elems_with nil = nil
    elems_with (elem v vs) = elem (with_strings v) (elems_with vs)

  -- What the comparison reads of a tree.
  node_type-with_strings : (b : Node D) → node_type (with_strings b) ≡ node_type b
  unfolding with_strings
  node_type-with_strings (string s) = refl
  node_type-with_strings (number d) = refl
  node_type-with_strings (object ms) = refl
  node_type-with_strings (array n vs) = refl
  node_type-with_strings yes = refl
  node_type-with_strings no = refl
  node_type-with_strings null = refl

  number_of-with_strings : (b : Node D) → number_of (with_strings b) ≡ number_of b
  unfolding with_strings
  number_of-with_strings (string s) = refl
  number_of-with_strings (number d) = refl
  number_of-with_strings (object ms) = refl
  number_of-with_strings (array n vs) = refl
  number_of-with_strings yes = refl
  number_of-with_strings no = refl
  number_of-with_strings null = refl

  object_of-with_strings :
      (b : Node D) → object_of (with_strings b) ≡ Opt.map members_with (object_of b)
  unfolding with_strings
  object_of-with_strings (string s) = refl
  object_of-with_strings (number d) = refl
  object_of-with_strings (object ms) = refl
  object_of-with_strings (array n vs) = refl
  object_of-with_strings yes = refl
  object_of-with_strings no = refl
  object_of-with_strings null = refl

  values_of-with_strings :
      (b : Node D) → values_of (with_strings b) ≡ Opt.map elems_with (values_of b)
  unfolding with_strings
  values_of-with_strings (string s) = refl
  values_of-with_strings (number d) = refl
  values_of-with_strings (object ms) = refl
  values_of-with_strings (array n vs) = refl
  values_of-with_strings yes = refl
  values_of-with_strings no = refl
  values_of-with_strings null = refl

bind-map :
    {A B : Type 0} (g : A → A) (o : Option A) (h k : A → Option B)
    → ((a : A) → h (g a) ≡ k a)
    → (Opt.map g o >>= h) ≡ (o >>= k)
bind-map g none h k same = refl
bind-map g (some a) h k same = same a

module _ {D : Type 0} (minus : D → D → ℤ) (f g : Bytes → Bytes) where
  mutual
    unfolding json_tools_node_compare with_strings

    unseen :
        (a b : Node D)
        → json_tools_node_compare minus (with_strings f a) (with_strings g b)
          ≡ json_tools_node_compare minus a b
    unseen (string s) b = rw (node_type-with_strings g b) refl
    unseen (number d) b = rw (node_type-with_strings g b, number_of-with_strings g b) refl
    unseen (object ms) b =
        rw (node_type-with_strings g b, object_of-with_strings g b)
          (ap (λ r. if 3 == node_type b then r else some minus_one)
            (bind-map (members_with g) (object_of b) (members_compare minus (members_with f ms))
              (members_compare minus ms) (λ ns. members-with_strings ms ns)))
    unseen (array n vs) b =
        rw (node_type-with_strings g b, values_of-with_strings g b)
          (ap (λ r. if 4 == node_type b then r else some minus_one)
            (bind-map (elems_with g) (values_of b) (elems_compare minus n (elems_with f vs))
              (elems_compare minus n vs) (λ ws. elems-with_strings vs ws n)))
    unseen yes b = rw (node_type-with_strings g b) refl
    unseen no b = rw (node_type-with_strings g b) refl
    unseen null b = rw (node_type-with_strings g b) refl

    members-with_strings :
        (ms ns : Members D)
        → members_compare minus (members_with f ms) (members_with g ns)
          ≡ members_compare minus ms ns
    members-with_strings end ns = refl
    members-with_strings (member k v ms) end = refl
    members-with_strings (member k v ms) (member l w ns) =
        rw (unseen v w, members-with_strings ms ns) refl

    elems-with_strings :
        (vs ws : Elems D) (n : ℕ)
        → elems_compare minus n (elems_with f vs) (elems_with g ws) ≡ elems_compare minus n vs ws
    elems-with_strings nil ws zero = refl
    elems-with_strings nil ws (suc n) = refl
    elems-with_strings (elem v vs) ws zero = refl
    elems-with_strings (elem v vs) nil (suc n) = refl
    elems-with_strings (elem v vs) (elem w ws) (suc n) =
        rw (unseen v w, elems-with_strings vs ws n) refl

  -- The verdict on two trees, also that of a fault, is the same whatever strings stand in place of
  -- their strings; the keys of the objects count.
  pub node_compare-with_strings :
      (a b : Node D)
      → json_tools_node_compare minus (with_strings f a) (with_strings g b)
        ≡ json_tools_node_compare minus a b
  node_compare-with_strings a b = unseen a b
