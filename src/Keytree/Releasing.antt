-- ===== src/Keytree/Releasing.antt =====
-- `wg_keytree_release` of kt/src/keytree.c on a well-formed tree.
use wtools.Prelude.{ℕ, zero, suc, ◌+◌, ◌≡◌, refl, ap, arith, some}
use wtools.Keytree.{
  no_error, Key, key, KeyList, unallocated, allocated, Keys, end, absent, present, Head, head,
  Keytree,
}
use wtools.Keytree.Nodes.{length_keys, IsWellKey, IsWellHead, IsWellList, IsWellKeys}
use wtools.Keytree.Release.{
  release_key, wg_key_release, release_list, release_keys, wg_keytree_release,
}

-- The blocks of a tree: one for each key and one for each array.
unfoldable mutual
  pub blocks_key : Key → ℕ
  blocks_key (key e d h) = suc (blocks h)

  pub blocks : Head → ℕ
  blocks (head l u n o) = blocks_list l + blocks_list u + blocks_list n + blocks_list o

  pub blocks_list : KeyList → ℕ
  blocks_list unallocated = 0
  blocks_list (allocated nb ks) = suc (blocks_keys ks)

  pub blocks_keys : Keys → ℕ
  blocks_keys end = 0
  blocks_keys (absent ks) = blocks_keys ks
  blocks_keys (present k ks) = blocks_key k + blocks_keys ks

mutual
  unfolding release_key blocks_key IsWellKey

  release_key-blocks : (k : Key) → IsWellKey k → release_key k ≡ some (blocks_key k)
  release_key-blocks (key e d h) w = rw (wg_key_release-blocks h w) (ap some (omega arith))

  wg_key_release-blocks : (h : Head) → IsWellHead h → wg_key_release h ≡ some (blocks h)
  wg_key_release-blocks (head l u n o) w =
      rw
        (
          release_list-blocks 10 n w.2,
          release_list-blocks 26 u w.1,
          release_list-blocks 26 l w.0,
          release_list-blocks 26 o w.3,
        )
        (ap some (omega arith))

  release_list-blocks :
      (n : ℕ) (list : KeyList) → IsWellList n list → release_list n list ≡ some (blocks_list list)
  release_list-blocks n unallocated w = refl
  release_list-blocks n (allocated nb ks) w =
      rw (release_keys-blocks ks n w.0 w.2) (ap some (omega arith))

  release_keys-blocks :
      (ks : Keys) (n : ℕ)
      → length_keys ks ≡ n
      → IsWellKeys ks
      → release_keys ks n ≡ some (blocks_keys ks)
  release_keys-blocks end zero e w = refl
  release_keys-blocks end (suc n) e w = absurd (omega arith)
  release_keys-blocks (absent ks) zero e w = absurd (omega arith)
  release_keys-blocks (absent ks) (suc n) e w = release_keys-blocks ks n (omega arith) w
  release_keys-blocks (present k ks) zero e w = absurd (omega arith)
  release_keys-blocks (present k ks) (suc n) e w =
      rw (release_key-blocks k w.0, release_keys-blocks ks n (omega arith) w.1)

-- A well-formed tree is released without a fault, block by block: the keys, the arrays and the
-- head.
pub wg_keytree_release-blocks :
    (t : Keytree)
    → IsWellHead t.lists
    → wg_keytree_release (some t) ≡ some (no_error, blocks t.lists + 1)
unfolding wg_keytree_release
wg_keytree_release-blocks t w = rw (wg_key_release-blocks t.lists w)
