-- ===== src/Keytree/Rounds.antt =====
-- The rounds of `parse_file_create_key` of kt/src/keytree.c, up to the tree with the word in it.
use wtools.Prelude.{
  ℕ, suc, ◌<◌, ◌≡◌, ◌⊎◌, inl, inr, refl, sym, ap, ◌∙◌, arith, Bool, true, false, Bool-cases, Option,
  some, List, [], ◌∷◌, ◌++◌, length,
}
use wtools.Prelude.Chain.{◌>>=◌}
use wtools.Buffer.{Bytes}
use wtools.Libc.{Libc}
use wtools.Keytree.{Key, key, allocated, Keys, Head, Kind, size, pick, put, fresh_key}
use wtools.Keytree.Insert.{added, kt_key_add, slot, place_of, Parsed, rebuild, parse_key}
use wtools.Keytree.Nodes.{
  Slot, same_slot, child, node, relation, expect, IsWellKey, IsWellHead, IsStored, set-IsStored,
}
use wtools.Keytree.Adding.{HasMemory, Found, old_key, new_key, IsReady, kt_key_add-IsReady}
use wtools.Keytree.Parsing.{IsWellList-pick, placed, node-placed, IsWellKey-placed}
use wtools.Keytree.Growing.{
  Spells, seen, outcome, IsParsed, finish-IsParsed, same_slot-eq, seen-node, seen-found, node-nil,
  relation-nil, relation_same, relation-apart, expect_above,
}

-- The step of the loop at a character that has its place.
module _ (e : Bool) (d : ℕ) (h : Head) (kind : Kind) (i nb : ℕ) (ks : Keys) (c : Key)
    (new_elem new : Bool) (path : List Slot) (data_ : ℕ) (run : Option Parsed) (w : IsWellHead h)
    (f : new_elem ≡ true → key e d h ≡ fresh_key)
    (ready : IsReady (size kind) (pick kind h) i nb ks c new)
    (below : IsParsed c new path data_ run) where
  step-IsParsed :
      IsParsed
        (key e d h)
        new_elem
        ((kind, i) ∷ path)
        data_
        (run >>= rebuild (key e d h) kind i nb ks)
  unfolding rebuild
  step-IsParsed =
      let (ks', s) = set-IsStored ks i below.tree (some c) ready.there in
      let was : (q : List Slot) → seen new c q ≡ seen new_elem (key e d h) ((kind, i) ∷ q) = λ q.
        seen-found e d h kind i c new q ready.found
        ∙ sym (seen-node new_elem (key e d h) (kind, i) q f) in
      let tree = placed e d h kind i nb ks ks' c below.tree new ready s in
      record {
        tree = tree;
        code = below.code;
        out = below.out;
        ran = rw (below.ran, s.stored);
        answers = below.answers ∙ ap outcome (was path);
        well = IsWellKey-placed e d h kind i nb ks ks' c below.tree new ready s w below.well;
        grown = grows ks' s was;
      }
    where
      grows :
          (ks' : Keys) (s : IsStored ks ks' i below.tree 0)
          → ((q : List Slot) → seen new c q ≡ seen new_elem (key e d h) ((kind, i) ∷ q))
          → (q : List Slot)
          → node (placed e d h kind i nb ks ks' c below.tree new ready s) q
            ≡ expect (relation q ((kind, i) ∷ path)) (seen new_elem (key e d h) q) data_
      grows ks' s was [] =
          node-nil e d (put kind (allocated nb ks') h)
          ∙ expect_above e d h new_elem data_ f
          ∙ ap (λ r. expect r (seen new_elem (key e d h) []) data_)
              (sym (relation-nil (kind, i) path))
      grows ks' s was (t ∷ q) = elim (Bool-cases (same_slot t (kind, i))) [
        | inl eq ↦
            let here = node-placed e d h kind i nb ks ks' c below.tree new ready s t q in
            let rest = below.grown q ∙ ap (λ o. expect (relation q path) o data_) (was q) in
            let there =
              ap (λ t. seen new_elem (key e d h) (t ∷ q)) (sym (same_slot-eq t (kind, i) eq)) in
            rw eq at here
            ∙ rest
            ∙ ap (λ o. expect (relation q path) o data_) there
            ∙ ap (λ r. expect r (seen new_elem (key e d h) (t ∷ q)) data_)
                (sym (relation_same t (kind, i) q path eq))
        | inr ne ↦
            let here = node-placed e d h kind i nb ks ks' c below.tree new ready s t q in
            rw ne at here
            ∙ sym (seen-node new_elem (key e d h) t q f)
            ∙ ap (λ r. expect r (seen new_elem (key e d h) (t ∷ q)) data_)
                (sym (relation-apart t (kind, i) q path ne))
      ]

-- A new key is empty.
Found-fresh : (c : Key) (o : Option Key) (new : Bool) → Found c o new → new ≡ true → c ≡ fresh_key
Found-fresh c o new (old_key x) e = cc
Found-fresh c o new (new_key x y) e = y

-- The round of a character that has its place.
parse_key_round :
    (libc : Libc) (flags data_ n c : ℕ) (cs : Bytes) (set_ new_elem : Bool) (e : Bool) (d : ℕ)
    (h : Head) (kind : Kind) (i nb : ℕ) (ks : Keys) (x : Key) (new : Bool)
    → place_of flags c ≡ slot kind i
    → kt_key_add libc (pick kind h) i (size kind) ≡ some (added nb ks x new)
    → parse_key libc flags data_ (suc n) (c ∷ cs) set_ new_elem (key e d h)
      ≡ (parse_key libc flags data_ n cs true new x >>= rebuild (key e d h) kind i nb ks)
unfolding parse_key
parse_key_round libc flags data_ n c cs set_ new_elem e d h kind i nb ks x new at_ run =
    rw (at_, run, parse_key)

pub parse_key-IsParsed :
    (libc : Libc) (flags data_ : ℕ) (word rest : Bytes) (path : List Slot) (set_ new_elem : Bool)
    (k : Key)
    → HasMemory libc
    → Spells flags word path
    → IsWellKey k
    → (new_elem ≡ true → k ≡ fresh_key)
    → (set_ ≡ true) ⊎ (0 < length word)
    → IsParsed k new_elem path data_
        (parse_key libc flags data_ (length word) (word ++ rest) set_ new_elem k)
unfolding parse_key
parse_key-IsParsed libc flags data_ [] rest [] true new_elem k m sp w f g =
    finish-IsParsed data_ new_elem k w f
parse_key-IsParsed libc flags data_ [] rest [] false new_elem k m sp w f (inl e) = cc
parse_key-IsParsed libc flags data_ [] rest [] false new_elem k m sp w f (inr lt) =
    absurd (omega arith)
parse_key-IsParsed libc flags data_ [] rest (s ∷ path) set_ new_elem k m sp w f g = absurd sp
parse_key-IsParsed libc flags data_ (c ∷ cs) rest [] set_ new_elem k m sp w f g = absurd sp
parse_key-IsParsed libc flags data_ (c ∷ cs) rest ((kind, i) ∷ path) set_ new_elem (key e d h) m sp
      w f g =
    let wh : IsWellHead h = unfold IsWellKey in w in
    let (nb, ks, x, new, run, ready) =
      kt_key_add-IsReady libc kind (pick kind h) i m (IsWellList-pick kind h wh) sp.1 in
    let below =
      parse_key-IsParsed libc flags data_ cs rest path true new x m sp.2 ready.well_key
        (Found-fresh x (child (pick kind h) i) new ready.found) (inl refl) in
    let step = step-IsParsed e d h kind i nb ks x new_elem new path data_ _ wh f ready below in
    let ran =
      parse_key_round libc flags data_ (length cs) c (cs ++ rest) set_ new_elem e d h kind i nb ks x
        new sp.0 run in
    rw ran step
