-- ===== src/Keytree/Adding.antt =====
-- `kt_key_add` and `parse_file_create_key` of kt/src/keytree.c on a well-formed tree.
use wtools.Prelude.{
  ℕ, ◌+◌, ◌*◌, ◌<◌, ◌≡◌, refl, sym, ◌∙◌, arith, Bool, true, false, Option, none, some, ◌==◌,
}
use wtools.Buffer.{Bytes}
use wtools.Libc.{Libc}
use wtools.Keytree.{Key, KeyList, unallocated, allocated, Keys, Kind, size, fresh_key, nulls, get}
use wtools.Keytree.Insert.{added, open_list, sizeof_key, find_key, kt_key_add}
use wtools.Keytree.Nodes.{
  child_in, child, length_keys, count, IsWellKey, IsWellList, IsWellKeys, get_inside,
  child_in-nulls, length_keys-nulls, count-nulls, IsWellKeys-nulls, IsWellKey-get, set-IsStored,
}

-- The allocations of a tree succeed.
pub record HasMemory (libc : Libc) : Type 0 where
  pub array : (kind : Kind) → (block : Bytes) × (libc.malloc (8 * size kind) ≡ some block)
  pub node_key : (block : Bytes) × (libc.malloc sizeof_key ≡ some block)

-- A list whose array is there: as before, with the same keys.
record IsOpen (n : ℕ) (list : KeyList) (nb : ℕ) (ks : Keys) : Type 0 where
  sized : length_keys ks ≡ n
  counted : nb ≡ count ks
  well : IsWellKeys ks
  same : (j : ℕ) → child_in ks j ≡ child list j

open_list-IsOpen :
    (libc : Libc) (n : ℕ) (list : KeyList) {block : Bytes}
    → libc.malloc (8 * n) ≡ some block
    → IsWellList n list
    → (nb : ℕ) × (ks : Keys) × (open_list libc n list ≡ some (nb, ks)) × IsOpen n list nb ks
unfolding open_list IsWellKey
open_list-IsOpen libc n unallocated e w = (
  0,
  nulls n,
  rw (e, open_list),
  record {
    sized = length_keys-nulls n;
    counted = sym (count-nulls n);
    well = IsWellKeys-nulls n;
    same = child_in-nulls n;
  },
)
open_list-IsOpen libc n (allocated nb ks) e w =
    (nb, ks, refl, record { sized = w.0; counted = w.1; well = w.2; same = λ j. refl })

-- What the place held, and whether it is a new key that is there now.
pub data Found (c : Key) : Option Key → Bool → Type 0 where
  old_key : {o : Option Key} → o ≡ some c → Found c o false
  new_key : {o : Option Key} → o ≡ none → c ≡ fresh_key → Found c o true

pub record IsReady (n : ℕ) (list : KeyList) (i nb : ℕ) (ks : Keys) (c : Key) (new : Bool)
    : Type 0 where
  pub sized : length_keys ks ≡ n
  pub counted : nb ≡ count ks
  pub well : IsWellKeys ks
  pub there : get ks i ≡ some (some c)
  pub elsewhere : (j : ℕ) → (j == i) ≡ false → child_in ks j ≡ child list j
  pub found : Found c (child list i) new
  pub well_key : IsWellKey c

IsWellKey-fresh : IsWellKey fresh_key
unfolding IsWellKey
IsWellKey-fresh = (tt, tt, tt, tt)

find_key-IsReady :
    (libc : Libc) (n : ℕ) (list : KeyList) (i nb : ℕ) (ks : Keys) {block : Bytes} (old : Option Key)
    → libc.malloc sizeof_key ≡ some block
    → IsOpen n list nb ks
    → get ks i ≡ some old
    → (nb' : ℕ) × (ks' : Keys) × (c : Key) × (new : Bool) × (find_key libc (nb, ks) i
        ≡ some (added nb' ks' c new))
      × IsReady n list i nb' ks' c new
unfolding find_key
find_key-IsReady libc n list i nb ks none m o e =
    let (ks', s) = set-IsStored ks i fresh_key none e in
    (
      nb + 1,
      ks',
      fresh_key,
      true,
      rw (e, m, s.stored),
      record {
        sized = s.same_length ∙ o.sized;
        counted = omega (arith, o.counted, s.counted);
        well = s.well IsWellKey-fresh o.well;
        there = s.there;
        elsewhere = λ j ne. rw (s.elsewhere j ne, child_in) (o.same j);
        found = new_key (sym (o.same i) ∙ rw (e, child_in)) refl;
        well_key = IsWellKey-fresh;
      },
    )
find_key-IsReady libc n list i nb ks (some c) m o e = (
  nb,
  ks,
  c,
  false,
  rw e,
  record {
    sized = o.sized;
    counted = o.counted;
    well = o.well;
    there = e;
    elsewhere = λ j ne. o.same j;
    found = old_key (sym (o.same i) ∙ rw (e, child_in));
    well_key = IsWellKey-get ks i o.well e;
  },
)

pub kt_key_add-IsReady :
    (libc : Libc) (kind : Kind) (list : KeyList) (i : ℕ)
    → HasMemory libc
    → IsWellList (size kind) list
    → i < size kind
    → (nb : ℕ) × (ks : Keys) × (c : Key) × (new : Bool) × (kt_key_add libc list i (size kind)
        ≡ some (added nb ks c new))
      × IsReady (size kind) list i nb ks c new
unfolding kt_key_add
kt_key_add-IsReady libc kind list i m w lt =
    let (nb, ks, opened, o) = open_list-IsOpen libc (size kind) list (m.array kind).1 w in
    let (old, e) = get_inside ks i (rw (o.sized) lt) in
    let (nb', ks', c, new, run, ready) =
      find_key-IsReady libc (size kind) list i nb ks old m.node_key.1 o e in
    (nb', ks', c, new, rw (opened, kt_key_add) run, ready)
