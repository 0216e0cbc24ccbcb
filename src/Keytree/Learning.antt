-- ===== src/Keytree/Learning.antt =====
-- The searches of kt/src/keytree.c behind `wg_keytree_add`.
use wtools.Prelude.{
  ℕ, ◌%◌, ◌<◌, ◌≡◌, ◌≢◌, inl, inr, refl, sym, ap, ◌∙◌, Bool, true, false, ◌&&◌, ◌||◌, Bool-cases,
  Option, none, some, [], ◌∷◌, ◌++◌, length, ◌==◌, ==_iff, if◌then◌else◌,
}
use wtools.Buffer.{Bytes}
use wtools.Libc.{Libc}
use wtools.Keytree.{Error, no_error, Keytree}
use wtools.Keytree.Chars.{is_space, is_cntrl, is_punct}
use wtools.Keytree.Insert.{wg_keytree_add}
use wtools.Keytree.Lookup.{wg_keytree_keyget, wg_keytree_strcmp}
use wtools.Keytree.Nodes.{Relation, itself, above, apart, relation, expect, IsWellHead}
use wtools.Keytree.Adding.{HasMemory}
use wtools.Keytree.Growing.{outcome}
use wtools.Keytree.Names.{path_of, IsName, Spells-path_of}
use wtools.Keytree.Searching.{verdict, lookup, strcmp-lookup}
use wtools.Keytree.Fetching.{answer, keyget-lookup}
use wtools.Keytree.Vocabulary.{elem_of, wg_keytree_add-IsAdded, path_of-eq, relation_self}

-- The data of a word that was added, from what was there.
abbrev pub kept : Option (Bool × ℕ) → ℕ → ℕ
kept none data_ = data_
kept (some (e, d)) data_ = d

-- A tree that learnt a word: the searches find it, and find any other name as before.
record Learns (t : Keytree) (word : Bytes) (data_ : ℕ)
    (run : Option (Error × Option ℕ × Option Keytree)) : Type 0 where
  tree : Keytree
  code : Error
  out : Option ℕ
  ran : run ≡ some (code, out, some tree)
  answers : (code, out) ≡ outcome (lookup t (path_of word))
  well : IsWellHead tree.lists
  same_flags : tree.flags ≡ t.flags
  found :
      (sep : ℕ) (rest : Bytes)
      → (is_space sep || is_cntrl sep) ≡ true
      → wg_keytree_strcmp (some tree) (some (word ++ (sep ∷ rest))) ≡ some no_error
  fetched :
      (sep : ℕ) (rest : Bytes)
      → (is_punct sep || is_space sep || is_cntrl sep) ≡ true
      → wg_keytree_keyget (some tree) (some (word ++ (sep ∷ rest)))
        ≡ some (no_error, some (kept (lookup t (path_of word)) data_))
  found_before :
      (v : Bytes) (sep : ℕ) (rest : Bytes)
      → IsName v
      → v ≢ word
      → (is_space sep || is_cntrl sep) ≡ true
      → wg_keytree_strcmp (some tree) (some (v ++ (sep ∷ rest)))
        ≡ wg_keytree_strcmp (some t) (some (v ++ (sep ∷ rest)))
  fetched_before :
      (v : Bytes) (sep : ℕ) (rest : Bytes)
      → IsName v
      → v ≢ word
      → (is_punct sep || is_space sep || is_cntrl sep) ≡ true
      → wg_keytree_keyget (some tree) (some (v ++ (sep ∷ rest)))
        ≡ wg_keytree_keyget (some t) (some (v ++ (sep ∷ rest)))

verdict_word : (o : Option (Bool × ℕ)) (data_ : ℕ) → verdict (expect itself o data_) ≡ no_error
verdict_word none data_ = refl
verdict_word (some (e, d)) data_ = refl

answer_word :
    (o : Option (Bool × ℕ)) (data_ : ℕ)
    → answer (expect itself o data_) ≡ (no_error, some (kept o data_))
answer_word none data_ = refl
answer_word (some (e, d)) data_ = refl

verdict_other :
    (r : Relation) (o : Option (Bool × ℕ)) (data_ : ℕ)
    → r ≢ itself
    → verdict (expect r o data_) ≡ verdict o
verdict_other itself o data_ ne = absurd (ne refl)
verdict_other above none data_ ne = refl
verdict_other above (some x) data_ ne = refl
verdict_other apart o data_ ne = refl

answer_other :
    (r : Relation) (o : Option (Bool × ℕ)) (data_ : ℕ)
    → r ≢ itself
    → answer (expect r o data_) ≡ answer o
answer_other itself o data_ ne = absurd (ne refl)
answer_other above none data_ ne = refl
answer_other above (some x) data_ ne = refl
answer_other apart o data_ ne = refl

-- A name that is added to a well-formed tree which does not fold the case.
wg_keytree_add-Learns :
    (libc : Libc) (t : Keytree) (word rest : Bytes) (data_ : ℕ)
    → HasMemory libc
    → IsWellHead t.lists
    → t.flags % 2 ≡ 0
    → IsName word
    → 0 < length word
    → Learns t word data_ (wg_keytree_add libc (some t) (some (elem_of word rest data_)))
wg_keytree_add-Learns libc t word rest data_ m w even n lt =
    let path = path_of word in
    let a =
      wg_keytree_add-IsAdded libc t word rest path data_ m w (Spells-path_of t.flags word even n)
        lt in
    let here = a.grown path ∙ ap (λ r. expect r (lookup t path) data_) (relation_self path) in
    let other : (v : Bytes) → IsName v → v ≢ word → relation (path_of v) path ≢ itself =
      λ v nv ne e. ne (path_of-eq v word nv n e) in
    record {
      tree = a.tree;
      code = a.code;
      out = a.out;
      ran = a.ran;
      answers = a.answers;
      well = a.well;
      same_flags = a.same_flags;
      found = λ sep rest s.
          strcmp-lookup a.tree word sep rest a.well n s
          ∙ ap (λ o. some (verdict o)) here
          ∙ ap some (verdict_word (lookup t path) data_);
      fetched = λ sep rest s.
          keyget-lookup a.tree word sep rest a.well n s
          ∙ ap (λ o. some (answer o)) here
          ∙ ap some (answer_word (lookup t path) data_);
      found_before = λ v sep rest nv ne s.
          strcmp-lookup a.tree v sep rest a.well nv s
          ∙ ap (λ o. some (verdict o)) (a.grown (path_of v))
          ∙ ap some (
              verdict_other (relation (path_of v) path) (lookup t (path_of v)) data_
                (other v nv ne))
          ∙ sym (strcmp-lookup t v sep rest w nv s);
      fetched_before = λ v sep rest nv ne s.
          keyget-lookup a.tree v sep rest a.well nv s
          ∙ ap (λ o. some (answer o)) (a.grown (path_of v))
          ∙ ap some (
              answer_other (relation (path_of v) path) (lookup t (path_of v)) data_ (other v nv ne))
          ∙ sym (keyget-lookup t v sep rest w nv s);
    }

-- Whether two strings are the same.
abbrev pub same_word : Bytes → Bytes → Bool
same_word [] [] = true
same_word [] (c ∷ cs) = false
same_word (b ∷ bs) [] = false
same_word (b ∷ bs) (c ∷ cs) = b == c && same_word bs cs

same_word-eq : (v w : Bytes) → same_word v w ≡ true → v ≡ w
same_word-eq [] [] e = refl
same_word-eq [] (c ∷ cs) e = cc
same_word-eq (b ∷ bs) [] e = cc
same_word-eq (b ∷ bs) (c ∷ cs) e = elim (Bool-cases (b == c)) [
  | inl eq ↦
      let rest : same_word bs cs ≡ true = rw eq at e in
      let first = (==_iff b c).0 eq in
      let others = same_word-eq bs cs rest in λ p. first p ∷ others p
  | inr ne ↦ let wrong : false ≡ true = rw ne at e in cc
]

same_word_self : (w : Bytes) → same_word w w ≡ true
same_word_self [] = refl
same_word_self (c ∷ cs) = rw ((==_iff c c).1 refl) (same_word_self cs)

same_word-ne : (v w : Bytes) → same_word v w ≡ false → v ≢ w
same_word-ne v w ne same =
    let wrong : true ≡ false = sym (same_word_self w) ∙ ap (λ x. same_word x w) (sym same) ∙ ne in
    cc

module _ (libc : Libc) (t : Keytree) (word rest : Bytes) (data_ : ℕ) (v : Bytes) (sep : ℕ)
    (after : Bytes) (m : HasMemory libc) (w : IsWellHead t.lists) (even : t.flags % 2 ≡ 0)
    (n : IsName word) (lt : 0 < length word) (nv : IsName v) where
  -- Where the allocations succeed, a name, which is not empty, is added to a well-formed tree which
  -- does not fold the case; then `wg_keytree_strcmp` answers W_NO_ERROR to it, before a space, a
  -- control character or the NUL, and what it answered before to any other name.
  pub wg_keytree_add-strcmp :
      (is_space sep || is_cntrl sep) ≡ true
      → (tree : Keytree) × (code : Error) × (out : Option ℕ) × (wg_keytree_add libc
            (some t)
            (some (elem_of word rest data_))
          ≡ some (code, out, some tree))
        × (wg_keytree_strcmp (some tree) (some (v ++ (sep ∷ after))) ≡ (
            if same_word v word
            then some no_error
            else wg_keytree_strcmp (some t) (some (v ++ (sep ∷ after)))))
  wg_keytree_add-strcmp s =
      let l = wg_keytree_add-Learns libc t word rest data_ m w even n lt in
      (
        l.tree,
        l.code,
        l.out,
        l.ran,
        elim (Bool-cases (same_word v word)) [
          | inl eq ↦ rw (eq, same_word-eq v word eq) (l.found sep after s)
          | inr ne ↦ rw ne (l.found_before v sep after nv (same_word-ne v word ne) s)
        ],
      )

  -- Where the allocations succeed, a name, which is not empty, is added to a well-formed tree which
  -- does not fold the case; then `wg_keytree_keyget` finds it, before a punctuation character, a
  -- space, a control character or the NUL, with the data of its key, which a key that was there
  -- before keeps; of any other name it answers what it answered before.
  pub wg_keytree_add-keyget :
      (is_punct sep || is_space sep || is_cntrl sep) ≡ true
      → (tree : Keytree) × (code : Error) × (out : Option ℕ) × (wg_keytree_add libc
            (some t)
            (some (elem_of word rest data_))
          ≡ some (code, out, some tree))
        × (wg_keytree_keyget (some tree) (some (v ++ (sep ∷ after))) ≡ (
            if same_word v word
            then some (no_error, some (kept (lookup t (path_of word)) data_))
            else wg_keytree_keyget (some t) (some (v ++ (sep ∷ after)))))
  wg_keytree_add-keyget s =
      let l = wg_keytree_add-Learns libc t word rest data_ m w even n lt in
      (
        l.tree,
        l.code,
        l.out,
        l.ran,
        elim (Bool-cases (same_word v word)) [
          | inl eq ↦ rw (eq, same_word-eq v word eq) (l.fetched sep after s)
          | inr ne ↦ rw ne (l.fetched_before v sep after nv (same_word-ne v word ne) s)
        ],
      )
