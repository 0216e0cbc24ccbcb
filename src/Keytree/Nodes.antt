-- ===== src/Keytree/Nodes.antt =====
-- The tree of kt/inc/keytree.h as a map from paths to keys, and what makes a tree well formed.
use wtools.Prelude.{
  ℕ, zero, suc, ◌+◌, ◌<◌, ◌≡◌, refl, sym, ap, arith, Bool, true, false, ◌&&◌, Option, none, some,
  List, [], ◌∷◌, ◌==◌,
}
use wtools.Keytree.{
  Key, key, KeyList, unallocated, allocated, Keys, end, absent, present, Head, head, Kind,
  same_kind, pick, nulls, get, set,
}

-- A place in a head: a list and an index.
abbrev pub Slot : Type 0
Slot = Kind × ℕ

abbrev pub same_slot : Slot → Slot → Bool
same_slot (a, i) (b, j) = same_kind a b && i == j

abbrev pub child_in : Keys → ℕ → Option Key
child_in ks i = elim (get ks i) [ none ↦ none | some found ↦ found ]

abbrev pub child : KeyList → ℕ → Option Key
child unallocated i = none
child (allocated nb ks) i = child_in ks i

-- The key at the end of a path: whether it ends a word, and its data.
unfoldable pub node : Key → List Slot → Option (Bool × ℕ)
node (key e d h) [] = some (e, d)
node (key e d h) ((kind, i) ∷ path) = elim (child (pick kind h) i) [
  | none ↦ none
  | some k ↦ node k path
]

-- How a path stands to the path of a word.
pub data Relation : Type 0 where
  itself above apart : Relation

unfoldable pub relation : List Slot → List Slot → Relation
relation [] [] = itself
relation [] (s ∷ word) = above
relation (s ∷ path) [] = apart
relation (s ∷ path) (t ∷ word) = elim (same_slot s t) [ true ↦ relation path word | false ↦ apart ]

-- What is at a path once a word with this data was added, from what was there before.
abbrev pub expect : Relation → Option (Bool × ℕ) → ℕ → Option (Bool × ℕ)
expect itself none data_ = some (true, data_)
expect itself (some (e, d)) data_ = some (true, d)
expect above none data_ = some (false, 0)
expect above (some x) data_ = some x
expect apart old data_ = old

abbrev pub length_keys : Keys → ℕ
length_keys end = 0
length_keys (absent ks) = suc (length_keys ks)
length_keys (present k ks) = suc (length_keys ks)

abbrev pub count : Keys → ℕ
count end = 0
count (absent ks) = count ks
count (present k ks) = suc (count ks)

-- Each array has the length of its kind, and `nb_keys` counts the keys in it.
unfoldable mutual
  pub IsWellKey : Key → Type 0
  IsWellKey (key e d h) = IsWellHead h

  pub IsWellHead : Head → Type 0
  IsWellHead (head l u n o) = IsWellList 26 l × IsWellList 26 u × IsWellList 10 n × IsWellList 26 o

  pub IsWellList : ℕ → KeyList → Type 0
  IsWellList n unallocated = Unit
  IsWellList n (allocated nb ks) = (length_keys ks ≡ n) × (nb ≡ count ks) × IsWellKeys ks

  pub IsWellKeys : Keys → Type 0
  IsWellKeys end = Unit
  IsWellKeys (absent ks) = IsWellKeys ks
  IsWellKeys (present k ks) = IsWellKey k × IsWellKeys ks

-- An index inside an array is NULL or a key.
pub get_inside :
    (ks : Keys) (i : ℕ) → i < length_keys ks → (found : Option Key) × (get ks i ≡ some found)
get_inside end i lt = absurd (omega arith)
get_inside (absent ks) zero lt = (none, refl)
get_inside (present k ks) zero lt = (some k, refl)
get_inside (absent ks) (suc i) lt = get_inside ks i (omega arith)
get_inside (present k ks) (suc i) lt = get_inside ks i (omega arith)

pub get-nulls : (n i : ℕ) → i < n → get (nulls n) i ≡ some none
get-nulls zero i lt = absurd (omega arith)
get-nulls (suc n) zero lt = refl
get-nulls (suc n) (suc i) lt = get-nulls n i (omega arith)

pub child_in-nulls : (n i : ℕ) → child_in (nulls n) i ≡ none
child_in-nulls zero i = refl
child_in-nulls (suc n) zero = refl
child_in-nulls (suc n) (suc i) = child_in-nulls n i

pub length_keys-nulls : (n : ℕ) → length_keys (nulls n) ≡ n
length_keys-nulls zero = refl
length_keys-nulls (suc n) = omega (arith, length_keys-nulls n)

pub count-nulls : (n : ℕ) → count (nulls n) ≡ 0
count-nulls zero = refl
count-nulls (suc n) = count-nulls n

pub IsWellKeys-nulls : (n : ℕ) → IsWellKeys (nulls n)
unfolding IsWellKeys
IsWellKeys-nulls zero = tt
IsWellKeys-nulls (suc n) = IsWellKeys-nulls n

pub IsWellKey-get :
    (ks : Keys) (i : ℕ) {k : Key} → IsWellKeys ks → get ks i ≡ some (some k) → IsWellKey k
unfolding IsWellKey
IsWellKey-get end i w e = cc
IsWellKey-get (absent ks) zero w e = cc
IsWellKey-get (present x ks) zero {k} w e = let same : x ≡ k = cc in rw same at w.0
IsWellKey-get (absent ks) (suc i) w e = IsWellKey-get ks i w e
IsWellKey-get (present x ks) (suc i) w e = IsWellKey-get ks i w.1 e

-- What an array with a key stored at `i` is: each place, its length, its count.
pub record IsStored (ks ks' : Keys) (i : ℕ) (k : Key) (added : ℕ) : Type 0 where
  pub stored : set ks i k ≡ some ks'
  pub there : get ks' i ≡ some (some k)
  pub elsewhere : (j : ℕ) → (j == i) ≡ false → get ks' j ≡ get ks j
  pub same_length : length_keys ks' ≡ length_keys ks
  pub counted : count ks' ≡ count ks + added
  pub well : IsWellKey k → IsWellKeys ks → IsWellKeys ks'

-- How many keys a store adds, by what the place held.
abbrev pub gain : Option Key → ℕ
gain none = 1
gain (some x) = 0

-- The store behind the first place of an array.
IsStored-absent :
    (ks ks' : Keys) (i : ℕ) (k : Key) (n : ℕ)
    → IsStored ks ks' i k n
    → IsStored (absent ks) (absent ks') (suc i) k n
unfolding IsWellKeys
IsStored-absent ks ks' i k n s = record {
  stored = rw s.stored;
  there = s.there;
  elsewhere = shifted;
  same_length = ap suc s.same_length;
  counted = s.counted;
  well = s.well;
}
  where
    shifted : (j : ℕ) → (j == suc i) ≡ false → get (absent ks') j ≡ get (absent ks) j
    shifted zero ne = refl
    shifted (suc j) ne = s.elsewhere j (ground arith)

IsStored-present :
    (x : Key) (ks ks' : Keys) (i : ℕ) (k : Key) (n : ℕ)
    → IsStored ks ks' i k n
    → IsStored (present x ks) (present x ks') (suc i) k n
unfolding IsWellKeys
IsStored-present x ks ks' i k n s = record {
  stored = rw s.stored;
  there = s.there;
  elsewhere = shifted;
  same_length = ap suc s.same_length;
  counted = omega (arith, s.counted);
  well = λ v w. (w.0, s.well v w.1);
}
  where
    shifted : (j : ℕ) → (j == suc i) ≡ false → get (present x ks') j ≡ get (present x ks) j
    shifted zero ne = refl
    shifted (suc j) ne = s.elsewhere j (ground arith)

IsStored-first :
    (ks rest : Keys) (k : Key) (n : ℕ)
    → set ks zero k ≡ some (present k rest)
    → ((j : ℕ) → get ks (suc j) ≡ get rest j)
    → length_keys ks ≡ suc (length_keys rest)
    → suc (count rest) ≡ count ks + n
    → (IsWellKeys ks → IsWellKeys rest)
    → IsStored ks (present k rest) zero k n
unfolding IsWellKeys
IsStored-first ks rest k n e same l c w = record {
  stored = e;
  there = refl;
  elsewhere = others;
  same_length = sym l;
  counted = c;
  well = λ v ws. (v, w ws);
}
  where
    others : (j : ℕ) → (j == zero) ≡ false → get (present k rest) j ≡ get ks j
    others zero ne = absurd (ground arith)
    others (suc j) ne = sym (same j)

pub set-IsStored :
    (ks : Keys) (i : ℕ) (k : Key) (old : Option Key)
    → get ks i ≡ some old
    → (ks' : Keys) × IsStored ks ks' i k (gain old)
unfolding IsWellKeys
set-IsStored end i k old e = cc
set-IsStored (absent ks) zero k none e =
    (present k ks, IsStored-first (absent ks) ks k 1 refl (λ j. refl) refl (omega arith) (λ w. w))
set-IsStored (absent ks) zero k (some x) e = cc
set-IsStored (present y ks) zero k none e = cc
set-IsStored (present y ks) zero k (some x) e = (
  present k ks,
  IsStored-first (present y ks) ks k 0 refl (λ j. refl) refl (omega arith) (λ w. w.1),
)
set-IsStored (absent ks) (suc i) k old e =
    let (ks', s) = set-IsStored ks i k old e in
    (absent ks', IsStored-absent ks ks' i k (gain old) s)
set-IsStored (present y ks) (suc i) k old e =
    let (ks', s) = set-IsStored ks i k old e in
    (present y ks', IsStored-present y ks ks' i k (gain old) s)
