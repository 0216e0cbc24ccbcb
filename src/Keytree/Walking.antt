-- ===== src/Keytree/Walking.antt =====
-- The loops of `keytree_foreach` of kt/src/keytree.c and the keys that they visit.
use wtools.Prelude.{
  ℕ, zero, suc, ◌+◌, ◌≤◌, ◌<◌, ◌≡◌, inl, inr, refl, sym, ap, ◌∙◌, arith, Bool, true, false, ◌&&◌,
  Bool-cases, Option, none, some, List, [], ◌∷◌, ◌++◌, length, length-append, ltb,
}
use wtools.Prelude.Chain.{◌>>=◌, bind-cong, bind_assoc, bind_some}
use wtools.Buffer.{Bytes}
use wtools.Keytree.{
  no_error, Key, key, KeyList, unallocated, allocated, Keys, end, absent, present, Head, head, Kind,
  lower, upper, number, other, size, Keytree,
}
use wtools.Keytree.Nodes.{length_keys, count, IsWellKey, IsWellHead, IsWellList, IsWellKeys}
use wtools.Keytree.Walk.{
  more, walk_char, extend, Visit, walk_key, keytree_foreach, walk_list, walk_keys,
  wg_keytree_foreach,
}
use wtools.Keytree.Visits.{
  visits_key, visits, visits_list, IsShallowKey, IsShallow, IsShallowList, IsShallowKeys,
  visits_keys, Visited, keys_of, visits_keys-none,
}

-- The lists that are walked in full.
abbrev pub is_walked : Kind → Bool
is_walked other = false
is_walked _ = true

more-walked :
    (kind : Kind) (i found nb : ℕ)
    → is_walked kind ≡ true
    → more kind i found nb ≡ (ltb i (size kind) && ltb found nb)
more-walked lower i found nb w = refl
more-walked upper i found nb w = refl
more-walked number i found nb w = refl
more-walked other i found nb w = cc

module _ {D : Type 0} (fn : Visit D) where
  -- The calls of the callback, one after the other.
  abbrev pub play : List Visited → D → Option D
  play [] d = some d
  play ((e, data_, p_str) ∷ vs) d = fn d e data_ p_str >>= λ d1. play vs d1

  play-++ : (vs ws : List Visited) (d : D) → play (vs ++ ws) d ≡ (play vs d >>= λ d1. play ws d1)
  play-++ [] ws d = refl
  play-++ ((e, data_, p_str) ∷ vs) ws d =
      bind-cong (fn d e data_ p_str) refl (λ d1. play-++ vs ws d1)
      ∙ sym (bind_assoc (fn d e data_ p_str) (λ d1. play vs d1) (λ d1. play ws d1))

  extend-roomy :
      (p_str : Bytes) (c : ℕ) → length p_str < 128 → extend p_str c ≡ some (p_str ++ (c ∷ []))
  extend-roomy p_str c lt =
      let roomy : ltb (length p_str) 128 ≡ true = ground arith in rw (roomy, extend)

  walk_other-none :
      (o : KeyList) (p_str : Bytes) (d : D) → keys_of o ≡ 0 → walk_list fn o other p_str d ≡ some d
  unfolding walk_key
  walk_other-none unallocated p_str d e = refl
  walk_other-none (allocated nb end) p_str d e = rw e
  walk_other-none (allocated nb (absent ks)) p_str d e = rw e
  walk_other-none (allocated nb (present k ks)) p_str d e = rw e

  -- A round of a loop.
  abbrev go_on : Bool → Option D → D → Option D
  go_on b rest d = elim b as (λ x. Option D) [ true ↦ rest | false ↦ some d ]

  mutual
    unfolding walk_key visits_key IsWellKey IsShallowKey

    walk_key-play :
        (room : ℕ) (k : Key) (p_str : Bytes) (d : D)
        → IsWellKey k
        → IsShallowKey room k
        → length p_str + room ≤ 128
        → walk_key fn k p_str d ≡ play (visits_key k p_str) d
    walk_key-play room (key e data_ h) p_str d w s le =
        bind-cong (fn d e data_ p_str) refl (λ d1. foreach-play room h p_str d1 w s le)

    foreach-play :
        (room : ℕ) (h : Head) (p_str : Bytes) (d : D)
        → IsWellHead h
        → IsShallow room h
        → length p_str + room ≤ 128
        → keytree_foreach fn h p_str d ≡ play (visits h p_str) d
    foreach-play room (head l u n o) p_str d w s le =
        let first = walk_list-play room l lower p_str d refl w.0 s.0 le in
        let last : (d2 : D)
            → (walk_list fn n number p_str d2 >>= λ d3. walk_list fn o other p_str d3)
              ≡ play (visits_list n number p_str) d2 =
          λ d2.
            bind-cong (walk_list fn n number p_str d2) refl (λ d3. walk_other-none o p_str d3 s.3)
            ∙ bind_some (walk_list fn n number p_str d2)
            ∙ walk_list-play room n number p_str d2 refl w.2 s.2 le in
        let rest : (d1 : D)
            → (walk_list fn u upper p_str d1 >>= λ d2.
                walk_list fn n number p_str d2 >>= λ d3. walk_list fn o other p_str d3)
              ≡ play (visits_list u upper p_str ++ visits_list n number p_str) d1 =
          λ d1.
            bind-cong (walk_list fn u upper p_str d1)
              (walk_list-play room u upper p_str d1 refl w.1 s.1 le) last
            ∙ sym (play-++ (visits_list u upper p_str) (visits_list n number p_str) d1) in
        bind-cong (walk_list fn l lower p_str d) first rest
        ∙ sym (
            play-++ (visits_list l lower p_str)
              (visits_list u upper p_str ++ visits_list n number p_str) d)

    walk_list-play :
        (room : ℕ) (list : KeyList) (kind : Kind) (p_str : Bytes) (d : D)
        → is_walked kind ≡ true
        → IsWellList (size kind) list
        → IsShallowList room list
        → length p_str + room ≤ 128
        → walk_list fn list kind p_str d ≡ play (visits_list list kind p_str) d
    walk_list-play room unallocated kind p_str d wk w s le = refl
    walk_list-play room (allocated nb ks) kind p_str d wk w s le =
        walk_keys-play room ks kind nb 0 0 p_str d wk (omega (arith, w.0)) (omega (arith, w.1)) w.2
          s le

    walk_keys-play :
        (room : ℕ) (ks : Keys) (kind : Kind) (nb i found : ℕ) (p_str : Bytes) (d : D)
        → is_walked kind ≡ true
        → i + length_keys ks ≡ size kind
        → found + count ks ≡ nb
        → IsWellKeys ks
        → IsShallowKeys room ks
        → length p_str + room ≤ 128
        → walk_keys fn ks kind nb i found p_str d ≡ play (visits_keys ks kind i p_str) d
    walk_keys-play room end kind nb i found p_str d wk sz nbs w s le =
        let stops : more kind i found nb ≡ false = more-walked kind i found nb wk ∙ ground arith in
        ap (λ b. go_on b none d) stops
    walk_keys-play room (absent ks) kind nb i found p_str d wk sz nbs w s le =
        let rest =
          walk_keys-play room ks kind nb (i + 1) found p_str d wk (omega arith) nbs w s le in
        elim (Bool-cases (ltb found nb)) [
          | inl go ↦
              let goes : more kind i found nb ≡ true =
                more-walked kind i found nb wk ∙ ground arith in
              ap (λ b. go_on b (walk_keys fn ks kind nb (i + 1) found p_str d) d) goes ∙ rest
          | inr stop ↦
              let stops : more kind i found nb ≡ false =
                more-walked kind i found nb wk ∙ ground arith in
              ap (λ b. go_on b (walk_keys fn ks kind nb (i + 1) found p_str d) d) stops
              ∙ ap (λ vs. play vs d) (sym (visits_keys-none ks kind (i + 1) p_str (ground arith)))
        ]
    walk_keys-play zero (present k ks) kind nb i found p_str d wk sz nbs w s le = absurd s
    walk_keys-play (suc room) (present k ks) kind nb i found p_str d wk sz nbs w s le =
        let goes : more kind i found nb ≡ true = more-walked kind i found nb wk ∙ ground arith in
        let longer = p_str ++ ((walk_char kind + i) ∷ []) in
        let len : length longer ≡ length p_str + 1 =
          length-append p_str ((walk_char kind + i) ∷ []) in
        let below = walk_key-play room k longer d w.0 s.0 (omega arith) in
        let rest : (d1 : D)
            → walk_keys fn ks kind nb (i + 1) (found + 1) p_str d1
              ≡ play (visits_keys ks kind (i + 1) p_str) d1 =
          λ d1.
            walk_keys-play (suc room) ks kind nb (i + 1) (found + 1) p_str d1 wk (omega arith)
              (omega arith) w.1 s.1 le in
        let visit : Bytes → Option D =
          λ l. walk_key fn k l d >>= λ d1. walk_keys fn ks kind nb (i + 1) (found + 1) p_str d1 in
        ap (λ b. go_on b (extend p_str (walk_char kind + i) >>= visit) d) goes
        ∙ ap (λ l. l >>= visit) (extend-roomy p_str (walk_char kind + i) (omega arith))
        ∙ bind-cong (walk_key fn k longer d) below rest
        ∙ sym (play-++ (visits_key k longer) (visits_keys ks kind (i + 1) p_str) d)

  -- On a well-formed tree of words of at most 128 letters and digits, `wg_keytree_foreach` stays in
  -- its array of 128 bytes and its early exits miss no key: it calls the callback for every key of
  -- the tree, in order, a key before those below it.
  pub wg_keytree_foreach-play :
      (t : Keytree) (d : D)
      → IsWellHead t.lists
      → IsShallow 128 t.lists
      → wg_keytree_foreach fn t d ≡ (play (visits t.lists []) d >>= λ d1. some (no_error, d1))
  unfolding wg_keytree_foreach
  wg_keytree_foreach-play t d w s =
      bind-cong (keytree_foreach fn t.lists [] d) (foreach-play 128 t.lists [] d w s (omega arith))
        (λ d1. refl)
