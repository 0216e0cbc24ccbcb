-- ===== src/Dico/Known.antt =====
-- The names that a cached dictionary (bkv/dico/src/bkv_dico_cached.c) knew, in the document that
-- its destruction leaves.
use wtools.Prelude.{
  ◌++◌, ℕ, ◌≤◌, ◌<◌, ◌≡◌, refl, sym, ap, true, false, Option, some, List, [], ◌∷◌, length,
}
use wtools.Buffer.{Bytes}
use wtools.Libc.{Libc}
use wtools.Bkv.{ok, Bkv}
use wtools.Bkv.Spec.{encode_all, AllFit}
use wtools.Val
use wtools.Val.Maps.{recorder}
use wtools.Keytree.{no_error, Keytree}
use wtools.Keytree.Nodes.{IsWellHead}
use wtools.Keytree.Visits.{Visited, IsShallow, visits}
use wtools.Dico.{bkv_dico_destroy}
use wtools.Dico.Cached.{key_of_data}
use wtools.Dico.Spec.{Word, entries_of}
use wtools.Dico.Names.{Plenty}
use wtools.Dico.Filling.{cached_ctx}
use wtools.Keytree.Names.{IsName}
use wtools.Keytree.Words.{visits-lookup, lookup-visits}
use mathlib.Core.List.{Memᴰ}
use mathlib.Core.List.Memᴰ
use mathlib.Core.Logic.{◌↔◌}
use wtools.RoundTrip.{held}
use wtools.Dico.Listing.{names_among, names_of, cached_dico_destroyed}
use wtools.Keytree.Lookup.{wg_keytree_keyget}
use wtools.Keytree.Agreeing.{keyget_iff_lookup}

names_among-visited :
    (vs : List Visited) (key : ℕ) (s : Bytes)
    → Memᴰ (key, s) (names_among vs)
    → (d : ℕ) × Memᴰ (true, d, s) vs × (key ≡ key_of_data d)
names_among-visited [] key s m = absurd (Memᴰ.not-nil m)
names_among-visited ((false, d, s') ∷ vs) key s m =
    let (d', there, k) = names_among-visited vs key s m in (d', Memᴰ.tail there, k)
names_among-visited ((true, d, s') ∷ vs) key s (Memᴰ.head same) =
    (d, Memᴰ.head (λ i. (true, d, (same i).1)), ap (λ p. p.0) same)
names_among-visited ((true, d, s') ∷ vs) key s (Memᴰ.tail m) =
    let (d', there, k) = names_among-visited vs key s m in (d', Memᴰ.tail there, k)

visited-names_among :
    (vs : List Visited) (d : ℕ) (s : Bytes)
    → Memᴰ (true, d, s) vs
    → Memᴰ (key_of_data d, s) (names_among vs)
visited-names_among [] d s m = absurd (Memᴰ.not-nil m)
visited-names_among ((false, d', s') ∷ vs) d s (Memᴰ.head same) =
    let wrong : true ≡ false = ap (λ v. v.0) same in cc
visited-names_among ((false, d', s') ∷ vs) d s (Memᴰ.tail m) = visited-names_among vs d s m
visited-names_among ((true, d', s') ∷ vs) d s (Memᴰ.head same) =
    Memᴰ.head (λ i. (key_of_data (same i).1, (same i).2))
visited-names_among ((true, d', s') ∷ vs) d s (Memᴰ.tail m) =
    Memᴰ.tail (visited-names_among vs d s m)

-- The names that a well-formed tree lists are those that the search finds.
names_iff_keyget :
    (t : Keytree) (key : ℕ) (s : Bytes)
    → IsWellHead t.lists
    → IsName s
    → 0 < length s
    → Memᴰ (key, s) (names_of t)
      ↔ (d : ℕ) × (wg_keytree_keyget (some t) (some (s ++ (0 ∷ []))) ≡ some (no_error, some d))
        × (key_of_data d ≡ key)
names_iff_keyget t key s w n lt = (
  λ m.
      let (d, there, k) = names_among-visited (visits t.lists []) key s m in
      (
        d,
        (keyget_iff_lookup t s 0 [] d w n refl).1 (visits-lookup t (true, d, s) w there).2,
        sym k,
      ),
  λ found.
      let there = (keyget_iff_lookup t s 0 [] found.0 w n refl).0 found.1 in
      let listed =
        visited-names_among (visits t.lists []) found.0 s
          (lookup-visits t s true found.0 n lt there) in
      Memᴰ.cast (λ i. (sym found.2 i, s)) listed,
)

-- Where every allocation succeeds, a cached dictionary with a well-formed tree of names of at most
-- 128 letters and digits, which fit, under keys of 12 bits, and take at most 116 bytes in all with
-- their headers, is destroyed with BKV_OK, and `val_foreach` over the document that it leaves
-- hands its callbacks names under keys: a name, which is not empty, is there under a key just if
-- `wg_keytree_keyget` finds data for it in the tree that are this key.
pub cached_dico_destroyed-keyget :
    (libc : Libc) (t : Keytree) (key : ℕ) (s : Bytes)
    → Plenty libc
    → IsWellHead t.lists
    → IsShallow 128 t.lists
    → AllFit (entries_of (names_of t))
    → length (encode_all (entries_of (names_of t))) ≤ 116
    → IsName s
    → 0 < length s
    → (h : Bkv) × (m : Bytes) × (words : List Word) × ((priv : Option (cached_ctx t).plug.Priv)
        × (bkv_dico_destroy libc (cached_ctx t) false ≡ some (ok, priv, some h)))
      × (h.ptr ≡ some m)
      × (Val.val_foreach (recorder m) m 0 [] ≡ Val.returns ok (entries_of words))
      × (Memᴰ (key, s) words
          ↔ (d : ℕ) × (wg_keytree_keyget (some t) (some (s ++ (0 ∷ []))) ≡ some (no_error, some d))
            × (key_of_data d ≡ key))
cached_dico_destroyed-keyget libc t key s mem w short fit small n lt =
    let (h, m, destroyed, held, read) = cached_dico_destroyed libc t mem w short fit small in
    (h, m, names_of t, destroyed, held, read, names_iff_keyget t key s w n lt)
