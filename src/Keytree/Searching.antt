-- ===== src/Keytree/Searching.antt =====
-- The searches of kt/src/keytree.c as questions to the map from paths to keys.
use wtools.Prelude.{
  ℕ, ◌+◌, ◌-◌, ◌<◌, ◌≡◌, refl, sym, ap, ◌∙◌, arith, Bool, true, false, ◌||◌, Option, none, some,
  List, [], ◌∷◌, ◌++◌, length, leb, if◌then◌else◌,
}
use wtools.Prelude.Chain.{◌>>=◌}
use wtools.Buffer.{Bytes, load}
use wtools.Keytree.{
  Error, no_error, operation_failed, Key, key, KeyList, unallocated, allocated, Head, size, pick,
  get, Keytree,
}
use wtools.Keytree.Chars.{is_alnum, is_space, is_cntrl}
use wtools.Keytree.Lookup.{first_char, key_below, next_key, strcmp_loop, wg_keytree_strcmp}
use wtools.Keytree.Nodes.{
  Slot, child_in, child, node, IsWellKey, IsWellHead, IsWellList, get_inside, IsWellKey-get,
}
use wtools.Keytree.Parsing.{IsWellList-pick, follow, node-follow}
use wtools.Keytree.Names.{
  slot_of, path_of, IsName, word_type-alnum, slot_of-inside, slot_of-first, word_type-apart,
  alnum-no_end,
}

pub key_below-child :
    (n : ℕ) (list : KeyList) (first i : ℕ)
    → IsWellList n list
    → i < n
    → key_below list first (first + i) ≡ some (child list i)
unfolding IsWellKey
key_below-child n unallocated first i w lt = refl
key_below-child n (allocated nb ks) first i w lt =
    let (found, e) = get_inside ks i (rw (w.0) lt) in
    let inside : leb first (first + i) ≡ true = ground arith in
    let same : first + i - first ≡ i = omega arith in rw (inside, same, e, child_in)

pub child-IsWellKey :
    (n : ℕ) (list : KeyList) (i : ℕ)
    → IsWellList n list
    → (k : Key) → child list i ≡ some k
    → IsWellKey k
unfolding IsWellKey
child-IsWellKey n unallocated i w k e = cc
child-IsWellKey n (allocated nb ks) i w k e = IsWellKey-get ks i w.2 (held (get ks i) e)
  where
    held :
        (o : Option (Option Key))
        → elim o [ none ↦ none | some found ↦ found ] ≡ some k
        → o ≡ some (some k)
    held none e = cc
    held (some found) e = ap some e

-- A letter or a digit leads to the child at its place.
pub next_key-child :
    (h : Head) (c : ℕ)
    → IsWellHead h
    → is_alnum c ≡ true
    → next_key h c ≡ some (child (pick (slot_of c).0 h) (slot_of c).1)
unfolding next_key
next_key-child h c w a =
    let kind = (slot_of c).0 in
    let found =
      key_below-child (size kind) (pick kind h) (first_char kind) (slot_of c).1
        (IsWellList-pick kind h w) (slot_of-inside c a) in
    let found' = rw (slot_of-first c a) at found in rw (word_type-alnum c a, next_key) found'

pub next_key-apart : (h : Head) (c : ℕ) → is_alnum c ≡ false → next_key h c ≡ some none
unfolding next_key
next_key-apart h c a = rw (word_type-apart c a, next_key)

-- Whether a key ends a word, as the code of a search.
abbrev pub verdict : Option (Bool × ℕ) → Error
verdict (some (true, d)) = no_error
verdict _ = operation_failed

pub strcmp_loop-end :
    (h : Head) (sep : ℕ) (rest : Bytes) (code : Error)
    → is_alnum sep ≡ false
    → strcmp_loop h (sep ∷ rest) code ≡ some code
unfolding strcmp_loop
strcmp_loop-end h sep rest code a = rw (next_key-apart h sep a, strcmp_loop)

-- A round of `strcmp_loop` on what the character leads to.
abbrev pub strcmp_step : Bytes → Error → Option Key → Option Error
strcmp_step cs code none = some code
strcmp_step cs code (some (key false d h)) = strcmp_loop h cs code
strcmp_step cs code (some (key true d h)) = load 0 cs >>= λ after.
    strcmp_loop h cs (if is_space after || is_cntrl after then no_error else code)

pub strcmp_round :
    (h : Head) (c : ℕ) (cs : Bytes) (code : Error) (o : Option Key)
    → next_key h c ≡ some o
    → strcmp_loop h (c ∷ cs) code ≡ strcmp_step cs code o
unfolding strcmp_loop
strcmp_round h c cs code none e = rw (e, strcmp_loop)
strcmp_round h c cs code (some (key false d h')) e = rw (e, strcmp_loop)
strcmp_round h c cs code (some (key true d h')) e = rw (e, strcmp_loop)

-- What the loop answers behind a name of at least one character.
abbrev Searched : Bytes → ℕ → Bytes → Type 0
Searched word sep rest =
    (e : Bool) (d : ℕ) (h : Head)
    → IsWellHead h
    → 0 < length word
    → strcmp_loop h (word ++ (sep ∷ rest)) operation_failed
      ≡ some (verdict (node (key e d h) (path_of word)))

strcmp_step-node :
    (cs : Bytes) (sep : ℕ) (rest : Bytes) (o : Option Key)
    → IsName cs
    → (is_space sep || is_cntrl sep) ≡ true
    → ((k : Key) → o ≡ some k → IsWellKey k)
    → Searched cs sep rest
    → strcmp_step (cs ++ (sep ∷ rest)) operation_failed o ≡ some (verdict (follow o (path_of cs)))
unfolding node IsWellKey
strcmp_step-node cs sep rest none n s w below = refl
strcmp_step-node [] sep rest (some (key false d h)) n s w below =
    strcmp_loop-end h sep rest operation_failed (ground arith)
strcmp_step-node [] sep rest (some (key true d h)) n s w below =
    rw s (strcmp_loop-end h sep rest no_error (ground arith))
strcmp_step-node (c ∷ cs) sep rest (some (key false d h)) n s w below =
    below false d h (w _ refl) (omega arith)
strcmp_step-node (c ∷ cs) sep rest (some (key true d h)) n s w below =
    rw (alnum-no_end c n.0) (below true d h (w _ refl) (omega arith))

strcmp_loop-node :
    (word : Bytes) (sep : ℕ) (rest : Bytes)
    → IsName word
    → (is_space sep || is_cntrl sep) ≡ true
    → Searched word sep rest
strcmp_loop-node [] sep rest n s e d h w lt = absurd (omega arith)
strcmp_loop-node (c ∷ cs) sep rest n s e d h w lt =
    let kind = (slot_of c).0 in
    let o = child (pick kind h) (slot_of c).1 in
    strcmp_round h c (cs ++ (sep ∷ rest)) operation_failed o (next_key-child h c w n.0)
    ∙ strcmp_step-node cs sep rest o n.1 s
        (child-IsWellKey (size kind) (pick kind h) (slot_of c).1 (IsWellList-pick kind h w))
        (strcmp_loop-node cs sep rest n.1 s)
    ∙ ap (λ x. some (verdict x)) (sym (node-follow e d h kind (slot_of c).1 (path_of cs)))

-- What is at a path of the tree; the root ends no word.
abbrev pub lookup : Keytree → List Slot → Option (Bool × ℕ)
lookup t path = node (key false 0 t.lists) path

-- `wg_keytree_strcmp` in a well-formed tree on a name before a space, a control character or the
-- NUL: W_NO_ERROR if the name's path ends a word, and else W_E_OPERATION_FAILED, where
-- kt/inc/keytree.h documents W_E_BAD_PARAMETER.
pub strcmp-lookup :
    (t : Keytree) (word : Bytes) (sep : ℕ) (rest : Bytes)
    → IsWellHead t.lists
    → IsName word
    → (is_space sep || is_cntrl sep) ≡ true
    → wg_keytree_strcmp (some t) (some (word ++ (sep ∷ rest)))
      ≡ some (verdict (lookup t (path_of word)))
unfolding wg_keytree_strcmp node
strcmp-lookup t [] sep rest w n s = strcmp_loop-end t.lists sep rest operation_failed (ground arith)
strcmp-lookup t (c ∷ cs) sep rest w n s =
    strcmp_loop-node (c ∷ cs) sep rest n s false 0 t.lists w (omega arith)
