-- ===== src/Json/Yajl/Members.antt =====
-- The members of a JSON object, read by the callbacks of bkv/json/src/bkv_json_yajl.c into a
-- document and a dictionary of the direct plug.
use wtools.Prelude.{
  ℕ, zero, suc, ◌+◌, ◌*◌, ◌%◌, ◌^◌, ◌≤◌, ◌<◌, ◌≡◌, refl, sym, ap, ◌∙◌, arith, Bool, true, false,
  Option, some, List, [], ◌∷◌, ◌++◌, length, Bool-cases, Option-cases, inl, inr, ==_iff,
}
use mathlib.Core.Option as Opt
use wtools.Prelude.Int.{ℤ, pos, negsuc, eqb_ℤ}
use wtools.Prelude.Chain.{◌>>=◌}
use wtools.Buffer.{Bytes, read_all, store_all}
use wtools.Libc.{Libc}
use wtools.Bkv.{ok, Bkv}
use wtools.Bkv.Prepare.{put_copy, set_key, at_write_offset}
use wtools.ByteOrder.{cpu_to_le16}
use wtools.Buffer.Laws.{get_elem?-append_front}
use wtools.Bkv.Scalars.{hdr_size, string_value_size, hdr_string, kv_add, bkv_kv_str_add}
use wtools.Bkv.Spec.{Value, u16, u32, float, boolean, str, Entry, AllFit, add, add_all}
use wtools.Dico.{bkv_dico_key_add}
use wtools.Dico.Direct.{no_key, dico_direct_key_add, s_dico_direct_plug}
use wtools.Dico.Spec.{Word, entries_of, direct_ctx}
use wtools.Json.Yajl.{
  bkv_json_map_keys, bkv_json_get_string, bkv_json_get_boolean, bkv_json_get_number, key_number,
  FromJsonCtx, Reply, Event, callbacks, status_ok, status_client_canceled,
}
use wtools.Json.Yajl.Numbers.{Floats, Decimal, get_number}

-- A value of a member, as the text has it: what a string holds, a flag, the digits of a number.
-- Behind a string or a number the text goes on.
pub data Json : Type 0 where
  text : Bytes → Bytes → Json
  flag : Bool → Json
  digits : Bytes → Bytes → Json

-- The name with what stands behind it in the text, and the value.
pub record Member : Type 0 where
  pub name : Bytes
  pub behind : Bytes
  pub value : Json

module _ (fl : Floats) where
  abbrev pub event_of : Json → Event fl
  event_of (text s rest) = Event.string (s ++ rest) (length s)
  event_of (flag b) = Event.boolean b
  event_of (digits s rest) = Event.number (s ++ rest) (length s)

  abbrev pub events_of : List Member → List (Event fl)
  events_of [] = []
  events_of (m ∷ ms) =
      Event.map_key (m.name ++ m.behind) (length m.name) ∷ (event_of m.value ∷ events_of ms)

  -- The value that a number is stored as, if it is of a type that is stored.
  abbrev pub StoredAs : Decimal fl → Value → Type 0
  StoredAs (Decimal.u16 n) v = v ≡ u16 n
  StoredAs (Decimal.u32 n) v = v ≡ u32 n
  StoredAs (Decimal.float f) v = v ≡ float f
  StoredAs _ v = ⊥

  abbrev pub Means : Json → Value → Type 0
  Means (text s rest) v = v ≡ str s
  Means (flag b) v = v ≡ boolean b
  Means (digits s rest) v =
      (d : Decimal fl) × (get_number fl (s ++ rest) (length s) ≡ some d) × StoredAs d v

-- What yajl does with the events of a text, as it calls back: it goes on unless a callback answers
-- 0.
abbrev pub feed : {E : Type 0} → (E → FromJsonCtx → Reply) → List E → FromJsonCtx → Reply
feed call [] c = some (status_ok, c)
feed call (e ∷ es) c = call e c >>= λ r. elim (eqb_ℤ (pos 0) r.0) [
  | true ↦ some (status_client_canceled, r.1)
  | false ↦ feed call es r.1
]

-- The indices of the members, from the one behind `k` on.
abbrev pub words_from : ℕ → List Member → List Word
words_from k [] = []
words_from k (m ∷ ms) = (k + 1, m.name) ∷ words_from (k + 1) ms

-- The members with their values as entries.
abbrev pub entries_from : ℕ → List (Member × Value) → List Entry
entries_from k [] = []
entries_from k ((m, v) ∷ ms) = (k + 1, v) ∷ entries_from (k + 1) ms

abbrev pub names_of : List (Member × Value) → List Member
names_of [] = []
names_of ((m, v) ∷ ms) = m ∷ names_of ms

abbrev pub AllMean : Floats → List (Member × Value) → Type 0
AllMean fl [] = Unit
AllMean fl ((m, v) ∷ ms) = Means fl m.value v × AllMean fl ms

read_all-front :
    (n p : ℕ) (s rest : Bytes) → p + n ≤ length s → read_all n p (s ++ rest) ≡ read_all n p s
unfolding read_all
read_all-front zero p s rest le = refl
read_all-front (suc n) p s rest le =
    rw
      (get_elem?-append_front p s rest (omega arith), read_all-front n (p + 1) s rest (omega arith))

put_copy-front :
    (s rest : Bytes) (n step : ℕ) → n ≤ length s → put_copy (s ++ rest) n step ≡ put_copy s n step
unfolding put_copy
put_copy-front s rest n step le = λ i m p o. read_all-front n 0 s rest (omega arith) i >>= λ bytes.
    store_all p bytes m >>= λ m'. some (m', Opt.map (λ q. q + step) o)

-- What stands behind a string is not read.
bkv_kv_str_add-front :
    (libc : Libc) (h : Bkv) (key : ℕ) (s rest : Bytes)
    → bkv_kv_str_add libc h key (s ++ rest) (length s) ≡ bkv_kv_str_add libc h key s (length s)
unfolding bkv_kv_str_add
bkv_kv_str_add-front libc h key s rest =
    ap
      (λ w.
        kv_add libc key ((hdr_size + string_value_size + length s) * 8)
          (λ b. do
            b1 ← at_write_offset (set_key hdr_string key) b
            b2 ← at_write_offset (cpu_to_le16 (length s)) b1
            at_write_offset w b2)
          h)
      (put_copy-front s rest (length s) (length s) (omega arith))

eqb_ok : (ret : ℤ) → eqb_ℤ ok ret ≡ true → ret ≡ ok
eqb_ok (pos n) e = ap pos (sym ((==_iff 1 n).0 e))
eqb_ok (negsuc n) e = cc

module _ (libc : Libc) where
  -- A sequence that was added in full starts with a value that was added.
  add_all-first :
      (key : ℕ) (v : Value) (es : List Entry) (h h' : Bkv)
      → add_all libc h ((key, v) ∷ es) ≡ some (ok, h')
      → (h1 : Bkv) × (add libc h key v ≡ some (ok, h1)) × (add_all libc h1 es ≡ some (ok, h'))
  unfolding add_all
  add_all-first key v es h h' e = elim (Option-cases (add libc h key v)) [
    | inl n ↦ let e' = rw n at e in cc
    | inr ((ret, h1), n) ↦ elim (Bool-cases (eqb_ℤ ok ret)) [
      | inl good ↦ (h1, n ∙ ap (λ r. some (r, h1)) (eqb_ok ret good), rw (n, good) at e)
      | inr bad ↦
          let e' : ◌≡◌ {A = Option (ℤ × Bkv)} (some (ret, h1)) (some (ok, h')) = rw (n, bad) at e in
          let q : ret ≡ ok = cc in let bad' = rw q at bad in cc
    ]
  ]

  add_all-nil : (h h' : Bkv) → add_all libc h [] ≡ some (ok, h') → h ≡ h'
  unfolding add_all
  add_all-nil h h' e = cc

module _ (libc : Libc) (fl : Floats) where
  -- The context inside the outermost map.
  abbrev pub inside : Bkv → Bkv → ℕ → Option ℕ → FromJsonCtx
  inside h d k existing = record {
    data_handle = h;
    dico_handle = some (direct_ctx d);
    deep = pos 1;
    in_array = false;
    key_index = k;
    existing_key_index = existing;
  }

  key_step :
      (name behind : Bytes) (h d d1 : Bkv) (k : ℕ) (existing : Option ℕ)
      → k < 0xFFF
      → bkv_kv_str_add libc d (k + 1) name (length name) ≡ some (ok, d1)
      → callbacks libc fl (Event.map_key (name ++ behind) (length name)) (inside h d k existing)
        ≡ some (pos 1, inside h d1 (k + 1) (some no_key))
  unfolding callbacks bkv_json_map_keys bkv_dico_key_add s_dico_direct_plug dico_direct_key_add
  key_step name behind h d d1 k existing lt e =
      let index : (k + 1) % 2 ^ 16 ≡ k + 1 = omega arith in
      let added = bkv_kv_str_add-front libc d (k + 1) name behind ∙ e in rw (index, added)

  number_step :
      (dec : Decimal fl) (v : Value) (h h1 d : Bkv) (i : ℕ)
      → StoredAs fl dec v
      → add libc h i v ≡ some (ok, h1)
      → key_number libc fl (inside h d i (some no_key)) i dec
        ≡ some (pos 1, inside h1 d i (some no_key))
  unfolding key_number add
  number_step (Decimal.u16 n) v h h1 d i m e = let e' = rw m at e in rw e'
  number_step (Decimal.u32 n) v h h1 d i m e = let e' = rw m at e in rw e'
  number_step (Decimal.float f) v h h1 d i m e = let e' = rw m at e in rw e'
  number_step (Decimal.u64 n) v h h1 d i m e = absurd m
  number_step (Decimal.double f) v h h1 d i m e = absurd m

  value_step :
      (j : Json) (v : Value) (h h1 d : Bkv) (i : ℕ)
      → Means fl j v
      → add libc h i v ≡ some (ok, h1)
      → callbacks libc fl (event_of fl j) (inside h d i (some no_key))
        ≡ some (pos 1, inside h1 d i (some no_key))
  unfolding callbacks add bkv_json_get_string bkv_json_get_boolean bkv_json_get_number
  value_step (text s rest) v h h1 d i m e =
      let e' = rw m at e in rw (bkv_kv_str_add-front libc h i s rest ∙ e')
  value_step (flag b) v h h1 d i m e = let e' = rw m at e in rw e'
  value_step (digits s rest) v h h1 d i (dec, got, m) e = rw got (number_step dec v h h1 d i m e)

  -- Whether a key came.
  abbrev pub index_behind : List (Member × Value) → Option ℕ → Option ℕ
  index_behind [] existing = existing
  index_behind (m ∷ ms) existing = some no_key

  index_behind-no_key : (ms : List (Member × Value)) → index_behind ms (some no_key) ≡ some no_key
  index_behind-no_key [] = refl
  index_behind-no_key (m ∷ ms) = refl

  -- The events of members, and what follows them.
  pub feed-events_of :
      (ms : List (Member × Value)) (es : List (Event fl)) (h h' d d' : Bkv) (k : ℕ)
      (existing : Option ℕ)
      → AllFit (entries_from k ms)
      → AllMean fl ms
      → add_all libc h (entries_from k ms) ≡ some (ok, h')
      → add_all libc d (entries_of (words_from k (names_of ms))) ≡ some (ok, d')
      → feed (callbacks libc fl) (events_of fl (names_of ms) ++ es) (inside h d k existing)
        ≡ feed (callbacks libc fl) es (inside h' d' (k + length ms) (index_behind ms existing))
  unfolding add
  feed-events_of [] es h h' d d' k existing f means a b =
      let here : k + 0 ≡ k = omega arith in
      rw (add_all-nil libc h h' a, add_all-nil libc d d' b, here)
  feed-events_of ((m, v) ∷ ms) es h h' d d' k existing (lk, fv, f) (mean, means) a b =
      let (h1, added, a') = add_all-first libc (k + 1) v (entries_from (k + 1) ms) h h' a in
      let (d1, named, b') =
        add_all-first libc (k + 1) (str m.name) (entries_of (words_from (k + 1) (names_of ms))) d d'
          b in
      let key = key_step m.name m.behind h d d1 k existing (omega arith) named in
      let val = value_step m.value v h h1 d1 (k + 1) mean added in
      let rest = feed-events_of ms es h1 h' d1 d' (k + 1) (some no_key) f means a' b' in
      let next : k + 1 + length ms ≡ k + suc (length ms) = omega arith in
      rw (key, val)
        (rest
          ∙ ap (λ i. feed (callbacks libc fl) es (inside h' d' (k + 1 + length ms) i))
              (index_behind-no_key ms)
          ∙ ap (λ i. feed (callbacks libc fl) es (inside h' d' i (some no_key))) next)
