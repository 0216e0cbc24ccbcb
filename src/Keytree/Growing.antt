-- ===== src/Keytree/Growing.antt =====
-- `parse_file_create_key` of kt/src/keytree.c as a change of the map from paths to keys.
use wtools.Prelude.{
  ℕ, ◌<◌, ◌≡◌, inl, inr, refl, sym, ap, ◌∙◌, Bool, true, false, Bool-cases, Option, none, some,
  List, [], ◌∷◌, ◌==◌, ==_iff,
}
use wtools.Buffer.{Bytes}
use wtools.Keytree.{
  Error, no_error, exists, Key, key, Head, Kind, lower, upper, number, other, same_kind, size, pick,
  fresh_key,
}
use wtools.Keytree.Insert.{slot, place_of, Parsed, done, finish}
use wtools.Keytree.Nodes.{Slot, same_slot, child, node, above, apart, relation, expect, IsWellKey}
use wtools.Keytree.Adding.{Found, old_key, new_key}
use wtools.Keytree.Parsing.{same_kind-eq, follow, node-follow}

-- Each character of the word leads to the next place of the path.
abbrev pub Spells : ℕ → Bytes → List Slot → Type 0
Spells flags [] [] = Unit
Spells flags [] (s ∷ path) = ⊥
Spells flags (c ∷ cs) [] = ⊥
Spells flags (c ∷ cs) ((kind, i) ∷ path) =
    (place_of flags c ≡ slot kind i) × (i < size kind) × Spells flags cs path

-- What was at a path below a key, nothing if the key is new.
abbrev pub seen : Bool → Key → List Slot → Option (Bool × ℕ)
seen true k q = none
seen false k q = node k q

-- The code and what is stored in `*udata`, from what was there.
abbrev pub outcome : Option (Bool × ℕ) → Error × Option ℕ
outcome none = (no_error, none)
outcome (some (e, d)) = (exists, some d)

-- A new key has nothing below it.
pub node-fresh : (t : Slot) (q : List Slot) → node fresh_key (t ∷ q) ≡ none
unfolding node
node-fresh (lower, i) q = refl
node-fresh (upper, i) q = refl
node-fresh (number, i) q = refl
node-fresh (other, i) q = refl

-- A parse that reached its end: the tree with the word in it.
pub record IsParsed (k : Key) (new : Bool) (path : List Slot) (data_ : ℕ) (run : Option Parsed)
    : Type 0 where
  pub tree : Key
  pub code : Error
  pub out : Option ℕ
  pub ran : run ≡ some (done tree code out)
  pub answers : (code, out) ≡ outcome (seen new k path)
  pub well : IsWellKey tree
  pub grown : (q : List Slot) → node tree q ≡ expect (relation q path) (seen new k q) data_

pub finish-IsParsed :
    (data_ : ℕ) (new : Bool) (k : Key)
    → IsWellKey k
    → (new ≡ true → k ≡ fresh_key)
    → IsParsed k new [] data_ (some (finish data_ new k))
unfolding IsWellKey relation node
finish-IsParsed data_ false (key e d h) w f = record {
  tree = key true d h;
  code = exists;
  out = some d;
  ran = refl;
  answers = refl;
  well = w;
  grown = grows;
}
  where
    grows :
        (q : List Slot) → node (key true d h) q ≡ expect (relation q []) (node (key e d h) q) data_
    grows [] = refl
    grows ((a, j) ∷ q) = refl
finish-IsParsed data_ true (key e d h) w f = record {
  tree = key true data_ h;
  code = no_error;
  out = none;
  ran = refl;
  answers = refl;
  well = w;
  grown = grows;
}
  where
    grows : (q : List Slot) → node (key true data_ h) q ≡ expect (relation q []) none data_
    grows [] = refl
    grows ((a, j) ∷ q) =
        node-follow true data_ h a j q
        ∙ sym (node-follow e d h a j q)
        ∙ ap (λ k. node k ((a, j) ∷ q)) (f refl)
        ∙ node-fresh (a, j) q

pub same_slot-eq : (s t : Slot) → same_slot s t ≡ true → s ≡ t
same_slot-eq (a, i) (b, j) e = elim (Bool-cases (same_kind a b)) [
  | inr ne ↦ let wrong : false ≡ true = rw ne at e in cc
  | inl eq ↦
      let a' = same_kind-eq a b eq in
      let e' : (i == j) ≡ true = rw eq at e in let j' = (==_iff i j).0 e' in λ p. (a' p, j' p)
]

-- Below a key it makes no difference whether the key is new.
pub seen-node :
    (new : Bool) (k : Key) (t : Slot) (q : List Slot)
    → (new ≡ true → k ≡ fresh_key)
    → seen new k (t ∷ q) ≡ node k (t ∷ q)
seen-node false k t q f = refl
seen-node true k t q f = sym (ap (λ k. node k (t ∷ q)) (f refl) ∙ node-fresh t q)

-- What was seen from the child is what was there from the key.
pub seen-found :
    (e : Bool) (d : ℕ) (h : Head) (kind : Kind) (i : ℕ) (c : Key) (new : Bool) (q : List Slot)
    → Found c (child (pick kind h) i) new
    → seen new c q ≡ node (key e d h) ((kind, i) ∷ q)
seen-found e d h kind i c new q found =
    from_child (child (pick kind h) i) new found ∙ sym (node-follow e d h kind i q)
  where
    from_child : (o : Option Key) (new : Bool) → Found c o new → seen new c q ≡ follow o q
    from_child o new (old_key x) = rw x
    from_child o new (new_key x y) = rw x

pub node-nil : (e : Bool) (d : ℕ) (h : Head) → node (key e d h) [] ≡ some (e, d)
unfolding node
node-nil e d h = refl

pub relation-nil : (t : Slot) (word : List Slot) → relation [] (t ∷ word) ≡ above
unfolding relation
relation-nil t word = refl

pub relation_same :
    (s t : Slot) (path word : List Slot)
    → same_slot s t ≡ true
    → relation (s ∷ path) (t ∷ word) ≡ relation path word
unfolding relation
relation_same s t path word e = rw (e, relation)

pub relation-apart :
    (s t : Slot) (path word : List Slot)
    → same_slot s t ≡ false
    → relation (s ∷ path) (t ∷ word) ≡ apart
unfolding relation
relation-apart s t path word e = rw (e, relation)

-- The key itself, above the word.
pub expect_above :
    (e : Bool) (d : ℕ) (h : Head) (new : Bool) (data_ : ℕ)
    → (new ≡ true → key e d h ≡ fresh_key)
    → some (e, d) ≡ expect above (seen new (key e d h) []) data_
unfolding node
expect_above e d h false data_ f = refl
expect_above e d h true data_ f = ap (λ k. node k []) (f refl)
