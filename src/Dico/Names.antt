-- ===== src/Dico/Names.antt =====
-- Names added to a dictionary of the cached plug (bkv/dico/src/bkv_dico_cached.c).
use wtools.Prelude.{
  ℕ, ◌+◌, ◌*◌, ◌%◌, ◌<◌, ◌≡◌, refl, ap, ◌∙◌, arith, false, Option, some, List, [], ◌∷◌, ◌++◌,
  length, length-append, ◌==◌,
}
use wtools.Prelude.Chain.{bind-cong}
use wtools.Buffer.{Bytes, read_all}
use wtools.Buffer.Laws.{store_all_full}
use wtools.Libc.{Libc}
use wtools.Bkv.{ok}
use wtools.Bkv.Append.{read_all_whole}
use wtools.Keytree.{Error, size, Keytree}
use wtools.Keytree.Insert.{sizeof_key, wg_keytree_add}
use wtools.Keytree.Release.{strlen}
use wtools.Keytree.Nodes.{Slot, relation, expect, IsWellHead}
use wtools.Keytree.Adding.{HasMemory}
use wtools.Keytree.Growing.{outcome}
use wtools.Keytree.Names.{path_of, IsName, Spells-path_of}
use wtools.Keytree.Searching.{lookup}
use wtools.Keytree.Vocabulary.{wg_keytree_add-IsAdded}
use wtools.Dico.Cached.{strdup, given_key, dico_cached_key_add}

-- Every allocation succeeds.
abbrev pub Plenty : Libc → Type 0
Plenty libc = (n : ℕ) → (block : Bytes) × (libc.malloc n ≡ some block)

HasMemory-Plenty : (libc : Libc) → Plenty libc → HasMemory libc
HasMemory-Plenty libc m = record { array = λ kind. m (8 * size kind); node_key = m sizeof_key }

strlen-name : (s rest : Bytes) → IsName s → strlen (s ++ (0 ∷ rest)) ≡ some (length s)
strlen-name [] rest n = refl
strlen-name (c ∷ cs) rest n =
    let visible : (c == 0) ≡ false = ground arith in
    rw (visible, strlen-name cs rest n.1) (ap some (omega arith))

-- The copy of a name.
strdup-name :
    (libc : Libc) (s : Bytes)
    → Plenty libc
    → IsName s
    → strdup libc (s ++ (0 ∷ [])) ≡ some (s ++ (0 ∷ []))
strdup-name libc s m n =
    let str = s ++ (0 ∷ []) in
    let (block, got) = m (length s + 1) in
    let len : length str ≡ length s + 1 = length-append s (0 ∷ []) in
    let read : read_all (length s + 1) 0 str ≡ some str =
      rw len at (read_all_whole str [] 0 refl) in
    let full : length block ≡ length str =
      omega (arith, len, libc.malloc-length (length s + 1) got) in
    rw (strlen-name s [] n, got, read) (store_all_full str block full)

-- A call whose copy and whose tree are known.
cached_run :
    (libc : Libc) (t tree : Keytree) (key : ℕ) (final_key : Option ℕ) (str copy : Bytes) (len : ℕ)
    (code : Error) (out : Option ℕ)
    → strdup libc str ≡ some copy
    → wg_keytree_add libc (some t) (some (record { str = copy; len = len; udata = key }))
      ≡ some (code, out, some tree)
    → dico_cached_key_add libc (some (some t)) key final_key str len
      ≡ some (ok, given_key code out final_key, some (some tree))
unfolding dico_cached_key_add
cached_run libc t tree key final_key str copy len code out copied run =
    bind-cong (strdup libc str) copied (λ c. refl)
    ∙ bind-cong
        (wg_keytree_add libc (some t) (some (record { str = copy; len = len; udata = key }))) run
        (λ r. refl)

-- A name added to the tree of the context, which may learn it.
pub record Remembers (libc : Libc) (t : Keytree) (key : ℕ) (final_key : Option ℕ) (s : Bytes)
    : Type 0 where
  pub tree : Keytree
  pub ran :
      dico_cached_key_add libc (some (some t)) key final_key (s ++ (0 ∷ [])) (length s)
      ≡ some (
        ok,
        given_key (outcome (lookup t (path_of s))).0 (outcome (lookup t (path_of s))).1 final_key,
        some (some tree),
      )
  pub well : IsWellHead tree.lists
  pub same_flags : tree.flags ≡ t.flags
  pub grown : (q : List Slot) → lookup tree q ≡ expect (relation q (path_of s)) (lookup t q) key

-- Where every allocation succeeds, the cached plug adds a name, which is not empty, to a
-- well-formed tree which does not fold the case, and answers BKV_OK; the tree stays well formed.
-- `*final_key` is left alone if nothing was at the name's path, and else set to the key that was
-- there, 0 for the beginning of longer names; the name's path then ends a word, paths above it are
-- there, and any other path is as before.
pub dico_cached_key_add-Remembers :
    (libc : Libc) (t : Keytree) (key : ℕ) (final_key : Option ℕ) (s : Bytes)
    → Plenty libc
    → IsWellHead t.lists
    → t.flags % 2 ≡ 0
    → IsName s
    → 0 < length s
    → Remembers libc t key final_key s
unfolding dico_cached_key_add
dico_cached_key_add-Remembers libc t key final_key s m w even n lt =
    let a =
      wg_keytree_add-IsAdded libc t s (0 ∷ []) (path_of s) key (HasMemory-Plenty libc m) w
        (Spells-path_of t.flags s even n) lt in
    record {
      tree = a.tree;
      ran =
          cached_run libc t a.tree key final_key (s ++ (0 ∷ [])) (s ++ (0 ∷ [])) (length s) a.code
            a.out (strdup-name libc s m n) a.ran
          ∙ ap (λ p. some (ok, given_key p.0 p.1 final_key, some (some a.tree))) a.answers;
      well = a.well;
      same_flags = a.same_flags;
      grown = a.grown;
    }
