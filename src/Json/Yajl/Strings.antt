-- ===== src/Json/Yajl/Strings.antt =====
-- Objects of strings, their values and names as entries of a document, and a parser of
-- bkv/json/src/json_plugs.h that notes them down.
use wtools.Prelude.{
  ℕ, ◌+◌, ◌≤◌, ◌<◌, ◌≡◌, refl, sym, ap, ◌∙◌, arith, false, Option, none, some, List, [], ◌∷◌, ◌++◌,
  length, length-append, ◌==◌, ==_iff,
}
use wtools.Prelude.Chain.{◌>>=◌}
use wtools.Buffer.{Bytes, read_all}
use wtools.Bkv.{ok}
use wtools.Bkv.Spec.{Value, str, encode, encode_all, AllFit}
use wtools.Val.Entries.{HoldsAt}
use wtools.Val.Maps.{HoldsAt-append, read_all-HoldsAt}
use wtools.Val.Get.Search.Inner.{AllOther}
use wtools.Dico.Direct.{dico_key}
use wtools.Dico.Spec.{Word, entries_of}
use wtools.Json.{Text, ToJsonParser}
use wtools.Json.Naming.{name_at, NoElems, write_texts}
use wtools.Json.Yajl.Numbers.{Floats}
use wtools.Json.Yajl.Members.{Member, text, words_from, entries_from, names_of, AllMean}
use mathlib.Core.List.{append_assoc, append-nil}

-- A member whose value is a string, each with what stands behind it in the text.
pub record StringMember : Type 0 where
  pub name : Bytes
  pub behind : Bytes
  pub value : Bytes
  pub rest : Bytes

abbrev pub member_of : StringMember → Member
member_of s = record { name = s.name; behind = s.behind; value = text s.value s.rest }

abbrev pub members_of : List StringMember → List (Member × Value)
members_of [] = []
members_of (s ∷ ss) = (member_of s, str s.value) ∷ members_of ss

-- The values under their keys, and the names under theirs.
abbrev pub values_from : ℕ → List StringMember → List Word
values_from k [] = []
values_from k (s ∷ ss) = (k + 1, s.value) ∷ values_from (k + 1) ss

abbrev pub named_from : ℕ → List StringMember → List Word
named_from k [] = []
named_from k (s ∷ ss) = (k + 1, s.name) ∷ named_from (k + 1) ss

abbrev pub pairs_of : List StringMember → List (Bytes × Bytes)
pairs_of [] = []
pairs_of (s ∷ ss) = (s.name, s.value) ∷ pairs_of ss

pub members-AllMean : (fl : Floats) (ss : List StringMember) → AllMean fl (members_of ss)
members-AllMean fl [] = tt
members-AllMean fl (s ∷ ss) = (refl, members-AllMean fl ss)

pub entries-members_of :
    (k : ℕ) (ss : List StringMember)
    → entries_from k (members_of ss) ≡ entries_of (values_from k ss)
entries-members_of k [] = refl
entries-members_of k (s ∷ ss) = ap (◌∷◌ (k + 1, str s.value)) (entries-members_of (k + 1) ss)

pub words-members_of :
    (k : ℕ) (ss : List StringMember) → words_from k (names_of (members_of ss)) ≡ named_from k ss
words-members_of k [] = refl
words-members_of k (s ∷ ss) = ap (◌∷◌ (k + 1, s.name)) (words-members_of (k + 1) ss)

-- A parser that notes down the strings of a block.
abbrev pub noting : Bytes → ToJsonParser (List (Bytes × Bytes))
noting m = record {
  to_json_init = λ d. some (ok, d);
  to_json_map_open_fn = λ d t. some (ok, d);
  to_json_map_close_fn = λ d. some (ok, d);
  to_json_array_open_fn = λ d n t. none;
  to_json_array_close_fn = λ d. none;
  to_json_uint16_fn = λ d a t n. none;
  to_json_uint32_fn = λ d t n. none;
  to_json_uint64_fn = λ d t n. none;
  to_json_float_fn = λ d t f. none;
  to_json_boolean_fn = λ d t b. none;
  to_json_array_float_fn = λ d f. none;
  to_json_array_boolean_fn = λ d b. none;
  to_json_array_str_fn = λ d s. none;
  to_json_str_fn = λ d t s. read_all t.1 t.0 m >>= λ name.
      read_all s.1 s.0 m >>= λ value. some (ok, d ++ ((name, value) ∷ []));
  to_json_finalize = λ d. some (ok, d);
}

-- That the names of the keys behind `k` stand from `q` on.
abbrev Named : (ℕ → Option Text) → ℕ → ℕ → List StringMember → Type 0
Named names k q [] = Unit
Named names k q (s ∷ ss) =
    (names (k + 1) ≡ some (q + 2 + 2, length s.name))
    × Named names (k + 1) (q + length (encode (k + 1) (str s.name))) ss

Named-same :
    (f g : ℕ → Option Text) (k q : ℕ) (ss : List StringMember)
    → ((key : ℕ) → k < key → f key ≡ g key)
    → Named f k q ss
    → Named g k q ss
Named-same f g k q [] same n = tt
Named-same f g k q (s ∷ ss) same (n, ns) = (
  sym (same (k + 1) (omega arith)) ∙ n,
  Named-same f g (k + 1) (q + length (encode (k + 1) (str s.name))) ss
      (λ key lt. same key (omega arith)) ns,
)

pub Named-named_from :
    (k q : ℕ) (ss : List StringMember) → Named (λ key. name_at key q (named_from k ss)) k q ss
Named-named_from k q [] = tt
Named-named_from k q (s ∷ ss) =
    let q' = q + length (encode (k + 1) (str s.name)) in
    (
      rw ((==_iff (k + 1) (k + 1)).1 refl),
      Named-same (λ key. name_at key q' (named_from (k + 1) ss))
          (λ key. name_at key q (named_from k (s ∷ ss))) (k + 1) q' ss
          (λ key lt. let other : (k + 1 == key) ≡ false = ground arith in rw other)
          (Named-named_from (k + 1) q' ss),
    )

pub write_texts-noting :
    (m : Bytes) (names : ℕ → Option Text) (k p q : ℕ) (ss : List StringMember)
    (d : List (Bytes × Bytes))
    → Named names k q ss
    → HoldsAt m p (encode_all (entries_of (values_from k ss)))
    → HoldsAt m q (encode_all (entries_of (named_from k ss)))
    → write_texts (noting m) names p (values_from k ss) d ≡ some (d ++ pairs_of ss)
write_texts-noting m names k p q [] d n hp hq = ap some (sym (append-nil d))
write_texts-noting m names k p q (s ∷ ss) d (n, ns) hp hq =
    let vs = encode (k + 1) (str s.value) in
    let bs = encode (k + 1) (str s.name) in
    let (v, vs') =
      HoldsAt-append m p (p + length vs) vs (encode_all (entries_of (values_from (k + 1) ss))) hp
        refl in
    let (b, bs') =
      HoldsAt-append m q (q + length bs) bs (encode_all (entries_of (named_from (k + 1) ss))) hq
        refl in
    let e : p + 1 + 1 + 1 + 1 ≡ p + 2 + 2 = omega arith in
    let e' : q + 1 + 1 + 1 + 1 ≡ q + 2 + 2 = omega arith in
    let value = read_all-HoldsAt m (p + 2 + 2) s.value (rw e at v.1.1.1.1) in
    let name = read_all-HoldsAt m (q + 2 + 2) s.name (rw e' at b.1.1.1.1) in
    let later =
      write_texts-noting m names (k + 1) (p + length vs) (q + length bs) ss
        (d ++ ((s.name, s.value) ∷ [])) ns vs' bs' in
    rw (n, name, value) (later ∙ ap some (append_assoc d ((s.name, s.value) ∷ []) (pairs_of ss)))

-- What small documents leave out of sight: keys and lengths fit, and no key is one of those that
-- bkv/inc/bkv.h reserves.
pub small-values :
    (k : ℕ) (ss : List StringMember)
    → k + length (encode_all (entries_of (values_from k ss))) ≤ 200
    → AllFit (entries_of (values_from k ss))
      × NoElems (values_from k ss)
      × AllOther dico_key (entries_of (values_from k ss))
small-values k [] le = (tt, tt, tt)
small-values k (s ∷ ss) le =
    let n =
      length-append (encode (k + 1) (str s.value))
        (encode_all (entries_of (values_from (k + 1) ss))) in
    let (fit, elems, others) = small-values (k + 1) ss (omega (arith, n)) in
    (
      (omega (arith, n), omega (arith, n), fit),
      (ground (arith, n), elems),
      (ground (arith, n), others),
    )

pub small-named :
    (k : ℕ) (ss : List StringMember)
    → k + length (encode_all (entries_of (named_from k ss))) ≤ 200
    → AllFit (entries_of (named_from k ss))
small-named k [] le = tt
small-named k (s ∷ ss) le =
    let n =
      length-append (encode (k + 1) (str s.name))
        (encode_all (entries_of (named_from (k + 1) ss))) in
    (omega (arith, n), omega (arith, n), small-named (k + 1) ss (omega (arith, n)))
