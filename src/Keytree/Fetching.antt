-- ===== src/Keytree/Fetching.antt =====
-- `wg_keytree_keyget` of kt/src/keytree.c as a question to the map from paths to keys.
use wtools.Prelude.{
  ℕ, ◌<◌, ◌≡◌, refl, ap, ◌∙◌, arith, Bool, true, false, ◌||◌, Option, none, some, [], ◌∷◌, ◌++◌,
  length, if◌then◌else◌,
}
use wtools.Prelude.Chain.{◌>>=◌}
use wtools.Buffer.{Bytes, load}
use wtools.Keytree.{Error, no_error, operation_failed, Key, key, Head, size, pick, Keytree}
use wtools.Keytree.Chars.{is_alnum, is_space, is_cntrl, is_punct}
use wtools.Keytree.Lookup.{next_key, keyget_loop, keytree_keyget, wg_keytree_keyget}
use wtools.Keytree.Nodes.{child, node, IsWellKey, IsWellHead}
use wtools.Keytree.Parsing.{IsWellList-pick, follow, node-follow}
use wtools.Keytree.Names.{slot_of, path_of, IsName, separator-not_alnum, alnum-no_separator}
use wtools.Keytree.Searching.{child-IsWellKey, next_key-child, next_key-apart, lookup}

-- The code of `wg_keytree_keyget`, and what it stores.
abbrev pub answer : Option (Bool × ℕ) → Error × Option ℕ
answer (some (true, d)) = (no_error, some d)
answer _ = (operation_failed, none)

keyget_loop-end :
    (h : Head) (sep : ℕ) (rest : Bytes)
    → is_alnum sep ≡ false
    → keyget_loop h (sep ∷ rest) ≡ some none
unfolding keyget_loop
keyget_loop-end h sep rest a = rw (next_key-apart h sep a, keyget_loop)

-- A round of `keyget_loop` on what the character leads to.
abbrev keyget_step : Bytes → Option Key → Option (Option Key)
keyget_step cs none = some none
keyget_step cs (some (key false d h)) = keyget_loop h cs
keyget_step cs (some (key true d h)) = load 0 cs >>= λ after.
    if is_punct after || is_space after || is_cntrl after
    then some (some (key true d h))
    else keyget_loop h cs

keyget_round :
    (h : Head) (c : ℕ) (cs : Bytes) (o : Option Key)
    → next_key h c ≡ some o
    → keyget_loop h (c ∷ cs) ≡ keyget_step cs o
unfolding keyget_loop
keyget_round h c cs none e = rw (e, keyget_loop)
keyget_round h c cs (some (key false d h')) e = rw (e, keyget_loop)
keyget_round h c cs (some (key true d h')) e = rw (e, keyget_loop)

-- The answer to a key that was found.
abbrev reported : Option Key → Error × Option ℕ
reported none = (operation_failed, none)
reported (some (key e d h)) = (no_error, some d)

-- A search that found what is at a path.
record Fetches (run : Option (Option Key)) (at_ : Option (Bool × ℕ)) : Type 0 where
  found : Option Key
  ran : run ≡ some found
  same : reported found ≡ answer at_

-- What the loop finds behind a name of at least one character.
abbrev Fetched : Bytes → ℕ → Bytes → Type 0
Fetched word sep rest =
    (e : Bool) (d : ℕ) (h : Head)
    → IsWellHead h
    → 0 < length word
    → Fetches (keyget_loop h (word ++ (sep ∷ rest))) (node (key e d h) (path_of word))

keyget_step-node :
    (cs : Bytes) (sep : ℕ) (rest : Bytes) (o : Option Key)
    → IsName cs
    → (is_punct sep || is_space sep || is_cntrl sep) ≡ true
    → ((k : Key) → o ≡ some k → IsWellKey k)
    → Fetched cs sep rest
    → Fetches (keyget_step (cs ++ (sep ∷ rest)) o) (follow o (path_of cs))
unfolding node IsWellKey
keyget_step-node cs sep rest none n s w below = record { found = none; ran = refl; same = refl }
keyget_step-node [] sep rest (some (key false d h)) n s w below = record {
  found = none;
  ran = keyget_loop-end h sep rest (separator-not_alnum sep s);
  same = refl;
}
keyget_step-node [] sep rest (some (key true d h)) n s w below = record {
  found = some (key true d h);
  ran = rw s;
  same = refl;
}
keyget_step-node (c ∷ cs) sep rest (some (key false d h)) n s w below =
    below false d h (w _ refl) (omega arith)
keyget_step-node (c ∷ cs) sep rest (some (key true d h)) n s w below =
    rw (alnum-no_separator c n.0) (below true d h (w _ refl) (omega arith))

keyget_loop-node :
    (word : Bytes) (sep : ℕ) (rest : Bytes)
    → IsName word
    → (is_punct sep || is_space sep || is_cntrl sep) ≡ true
    → Fetched word sep rest
keyget_loop-node [] sep rest n s e d h w lt = absurd (omega arith)
keyget_loop-node (c ∷ cs) sep rest n s e d h w lt =
    let kind = (slot_of c).0 in
    let o = child (pick kind h) (slot_of c).1 in
    let below =
      keyget_step-node cs sep rest o n.1 s
        (child-IsWellKey (size kind) (pick kind h) (slot_of c).1 (IsWellList-pick kind h w))
        (keyget_loop-node cs sep rest n.1 s) in
    rw
      (
        keyget_round h c (cs ++ (sep ∷ rest)) o (next_key-child h c w n.0),
        node-follow e d h kind (slot_of c).1 (path_of cs),
      )
      below

-- `wg_keytree_keyget` in a well-formed tree on a name before a punctuation character, a space, a
-- control character or the NUL: W_NO_ERROR and the data of the word if the name's path ends one,
-- and else W_E_OPERATION_FAILED.
pub keyget-lookup :
    (t : Keytree) (word : Bytes) (sep : ℕ) (rest : Bytes)
    → IsWellHead t.lists
    → IsName word
    → (is_punct sep || is_space sep || is_cntrl sep) ≡ true
    → wg_keytree_keyget (some t) (some (word ++ (sep ∷ rest)))
      ≡ some (answer (lookup t (path_of word)))
unfolding wg_keytree_keyget keytree_keyget node
keyget-lookup t [] sep rest w n s =
    rw (keyget_loop-end t.lists sep rest (separator-not_alnum sep s))
keyget-lookup t (c ∷ cs) sep rest w n s =
    let f = keyget_loop-node (c ∷ cs) sep rest n s false 0 t.lists w (omega arith) in
    told f.found f.ran ∙ ap some f.same
  where
    told :
        (found : Option Key)
        → keyget_loop t.lists (c ∷ cs ++ (sep ∷ rest)) ≡ some found
        → wg_keytree_keyget (some t) (some (c ∷ cs ++ (sep ∷ rest))) ≡ some (reported found)
    told none e = rw (e, wg_keytree_keyget, keytree_keyget)
    told (some (key e' d h)) e = rw (e, wg_keytree_keyget, keytree_keyget)
