-- ===== src/Keytree/Visits.antt =====
-- `wg_keytree_foreach` of kt/src/keytree.c: the keys it visits.
use wtools.Prelude.{ℕ, zero, suc, ◌+◌, ◌≡◌, refl, arith, Bool, List, [], ◌∷◌, ◌++◌}
use wtools.Buffer.{Bytes}
use wtools.Keytree.{
  Key, key, KeyList, unallocated, allocated, Keys, end, absent, present, Head, head, Kind, lower,
  upper, number,
}
use wtools.Keytree.Nodes.{count}
use wtools.Keytree.Walk.{walk_char}

-- The arguments of a call of the callback: `end_of_word`, `udata` and the string.
abbrev pub Visited : Type 0
Visited = Bool × ℕ × Bytes

-- Every key below a key or a head in the order of the lists, a key before those below it.
unfoldable mutual
  pub visits_key : Key → Bytes → List Visited
  visits_key (key e data_ h) p_str = (e, data_, p_str) ∷ visits h p_str

  pub visits : Head → Bytes → List Visited
  visits (head l u n o) p_str =
      visits_list l lower p_str ++ (visits_list u upper p_str ++ visits_list n number p_str)

  pub visits_list : KeyList → Kind → Bytes → List Visited
  visits_list unallocated kind p_str = []
  visits_list (allocated nb ks) kind p_str = visits_keys ks kind 0 p_str

  pub visits_keys : Keys → Kind → ℕ → Bytes → List Visited
  visits_keys end kind i p_str = []
  visits_keys (absent ks) kind i p_str = visits_keys ks kind (i + 1) p_str
  visits_keys (present k ks) kind i p_str =
      visits_key k (p_str ++ ((walk_char kind + i) ∷ [])) ++ visits_keys ks kind (i + 1) p_str

abbrev pub keys_of : KeyList → ℕ
keys_of unallocated = 0
keys_of (allocated nb ks) = nb

-- Words of letters and digits of at most this length below the key.
unfoldable mutual
  pub IsShallowKey : ℕ → Key → Type 0
  IsShallowKey room (key e d h) = IsShallow room h

  pub IsShallow : ℕ → Head → Type 0
  IsShallow room (head l u n o) =
      IsShallowList room l × IsShallowList room u × IsShallowList room n × (keys_of o ≡ 0)

  pub IsShallowList : ℕ → KeyList → Type 0
  IsShallowList room unallocated = Unit
  IsShallowList room (allocated nb ks) = IsShallowKeys room ks

  pub IsShallowKeys : ℕ → Keys → Type 0
  IsShallowKeys room end = Unit
  IsShallowKeys room (absent ks) = IsShallowKeys room ks
  IsShallowKeys zero (present k ks) = ⊥
  IsShallowKeys (suc room) (present k ks) = IsShallowKey room k × IsShallowKeys (suc room) ks

pub visits_keys-none :
    (ks : Keys) (kind : Kind) (i : ℕ) (p_str : Bytes)
    → count ks ≡ 0
    → visits_keys ks kind i p_str ≡ []
unfolding visits_key
visits_keys-none end kind i p_str e = refl
visits_keys-none (absent ks) kind i p_str e = visits_keys-none ks kind (i + 1) p_str e
visits_keys-none (present k ks) kind i p_str e = absurd (omega arith)
