-- ===== src/Keytree.antt =====
-- kt/inc/keytree.h: a tree of keys, one level for each character of a word. Of a head that is
-- not the root's, `type` and `cb` are 0 and never read, so that they stand with the root.
-- The root's callback `cb` is left out: what it answers is ignored.
pub mod Chars
pub mod Insert
pub mod Lookup
pub mod Walk
pub mod Release
pub mod Nodes
pub mod Adding
pub mod Parsing
pub mod Growing
pub mod Rounds
pub mod Names
pub mod Searching
pub mod Folding
pub mod Fetching
pub mod Vocabulary
pub mod Learning
pub mod Creation
pub mod Visits
pub mod Walking
pub mod Releasing
pub mod Shallow
pub mod Listing
pub mod Words
pub mod Agreeing
use wtools.Prelude.{ℕ, zero, suc, Bool, true, false, Option, none, some}

-- `w_error_t` of kt/inc/w_errors.h.
pub data Error : Type 0 where
  no_error not_initialized operation_failed again no_memory bad_parameter exists : Error

-- `wg_key_s`, the lists of its head, and their arrays of pointers, where `absent` is NULL. Before
-- its array is allocated a list has no keys.
mutual
  pub data Key : Type 0 where
    key : Bool → ℕ → Head → Key

  pub data Head : Type 0 where
    head : KeyList → KeyList → KeyList → KeyList → Head

  pub data KeyList : Type 0 where
    unallocated : KeyList
    allocated : ℕ → Keys → KeyList

  pub data Keys : Type 0 where
    end : Keys
    absent : Keys → Keys
    present : Key → Keys → Keys

-- The four lists of a head.
pub data Kind : Type 0 where
  lower upper number other : Kind

abbrev pub same_kind : Kind → Kind → Bool
same_kind lower lower = true
same_kind upper upper = true
same_kind number number = true
same_kind other other = true
same_kind _ _ = false

-- The length of the array of a list.
abbrev pub size : Kind → ℕ
size lower = 26
size upper = 26
size number = 10
size other = 26

abbrev pub pick : Kind → Head → KeyList
pick lower (head l u n o) = l
pick upper (head l u n o) = u
pick number (head l u n o) = n
pick other (head l u n o) = o

abbrev pub put : Kind → KeyList → Head → Head
put lower x (head l u n o) = head x u n o
put upper x (head l u n o) = head l x n o
put number x (head l u n o) = head l u x o
put other x (head l u n o) = head l u n x

abbrev pub end_of_word : Key → Bool
end_of_word (key e d h) = e

abbrev pub udata : Key → ℕ
udata (key e d h) = d

abbrev pub head_of : Key → Head
head_of (key e d h) = h

-- A head after `memset`, and the key that `memset` leaves.
abbrev pub empty_head : Head
empty_head = head unallocated unallocated unallocated unallocated

abbrev pub fresh_key : Key
fresh_key = key false 0 empty_head

abbrev pub nulls : ℕ → Keys
nulls zero = end
nulls (suc n) = absent (nulls n)

-- `keys[i]`, which faults outside the array.
abbrev pub get : Keys → ℕ → Option (Option Key)
get end i = none
get (absent ks) zero = some none
get (present k ks) zero = some (some k)
get (absent ks) (suc i) = get ks i
get (present k ks) (suc i) = get ks i

-- `keys[i] = k`
abbrev pub set : Keys → ℕ → Key → Option Keys
set end i k = none
set (absent ks) zero k = some (present k ks)
set (present x ks) zero k = some (present k ks)
set (absent ks) (suc i) k = elim (set ks i k) [ none ↦ none | some ks' ↦ some (absent ks') ]
set (present x ks) (suc i) k = elim (set ks i k) [ none ↦ none | some ks' ↦ some (present x ks') ]

-- `keytree_head_t` of the root: the flags of `kt_weak_type_t` and the lists.
pub record Keytree : Type 0 where
  pub flags : ℕ
  pub lists : Head
