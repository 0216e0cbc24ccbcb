-- ===== src/Lg/Libraries.antt =====
-- The table of libraries of lg/src/lg.c over the life of a process.
use wtools.Prelude.{
  suc, ◌+◌, ◌≡◌, refl, sym, ap, ◌∙◌, arith, true, Option, none, some, List, [], ◌∷◌, ◌++◌, length,
  length-append,
}
use wtools.Prelude.Int.{pos}
use wtools.Prelude.Chain.{◌>>=◌}
use wtools.Buffer.{Bytes, store, read_all}
use wtools.Bkv.Append.{read_all_whole}
use wtools.Keytree.Release.{strlen}
use wtools.Lg.{
  LgType, end_type, Slot, name, null, table, ProcessCtx, s_current_process_ctx, free_names, regrown,
  lg_lib_add, lg_term,
}
use mathlib.Core.List.{append_assoc, append-nil}
use wtools.Lg.FileNames.{IsString}

-- A C string in memory of its size.
abbrev pub c_name : Bytes → Bytes
c_name s = s ++ (0 ∷ [])

-- A process that adds libraries, with memory at hand, whatever the codes.
abbrev pub add_libs : ProcessCtx → List Bytes → Option ProcessCtx
add_libs c [] = some c
add_libs c (s ∷ ss) = lg_lib_add true true c (c_name s) >>= λ r. add_libs r.1 ss

abbrev pub AllStrings : List Bytes → Type 0
AllStrings [] = Unit
AllStrings (s ∷ ss) = IsString s × AllStrings ss

abbrev slots_of : List Bytes → List Slot
slots_of [] = []
slots_of (s ∷ ss) = name (c_name s) ∷ slots_of ss

-- The context with these libraries; the table is NULL as long as there is none.
abbrev pub holding : LgType → List Bytes → ProcessCtx
holding t [] = record { lg_type = t; libs = null; nb_libs = 0 }
holding t (s ∷ ss) = record {
  lg_type = t;
  libs = table (slots_of (s ∷ ss));
  nb_libs = length (s ∷ ss);
}

strlen-string : (s : Bytes) → IsString s → strlen (c_name s) ≡ some (length s)
strlen-string [] v = refl
strlen-string (c ∷ cs) (n, v) = rw (n, strlen-string cs v) (ap some (omega arith))

store-regrown :
    (ss : List Bytes) (s : Slot)
    → store (length ss) s (regrown (suc (length ss)) (slots_of ss)) ≡ some (slots_of ss ++ (s ∷ []))
unfolding store
store-regrown [] s = refl
store-regrown (x ∷ ss) s = rw (store-regrown ss s)

slots-append : (ss ts : List Bytes) → slots_of (ss ++ ts) ≡ slots_of ss ++ slots_of ts
slots-append [] ts = refl
slots-append (s ∷ ss) ts = ap (◌∷◌ (name (c_name s))) (slots-append ss ts)

lib_added :
    (t : LgType) (ss : List Bytes) (s : Bytes)
    → IsString s
    → lg_lib_add true true (holding t ss) (c_name s) ≡ some (pos 0, holding t (ss ++ (s ∷ [])))
unfolding lg_lib_add store
lib_added t [] s v =
    let whole : read_all (length s + 1) 0 (c_name s) ≡ some (c_name s) =
      rw (length-append s (0 ∷ [])) at (read_all_whole (c_name s) [] 0 refl) in
    rw (strlen-string s v, whole)
lib_added t (x ∷ ss) s v =
    let whole : read_all (length s + 1) 0 (c_name s) ≡ some (c_name s) =
      rw (length-append s (0 ∷ [])) at (read_all_whole (c_name s) [] 0 refl) in
    let n : suc (length ss) + 1 ≡ suc (suc (length ss)) = omega arith in
    let k : length (ss ++ (s ∷ [])) ≡ suc (length ss) = omega (arith, length-append ss (s ∷ [])) in
    rw
      (strlen-string s v, whole, n, store-regrown ss (name (c_name s)), slots-append ss (s ∷ []), k)

add_libs_lem :
    (t : LgType) (ss ts : List Bytes)
    → AllStrings ts
    → add_libs (holding t ss) ts ≡ some (holding t (ss ++ ts))
add_libs_lem t ss [] v = ap (λ x. some (holding t x)) (sym (append-nil ss))
add_libs_lem t ss (s ∷ ts) (v, vs) = rw (lib_added t ss s v) (
    add_libs_lem t (ss ++ (s ∷ [])) ts vs
    ∙ ap (λ x. some (holding t x)) (append_assoc ss (s ∷ []) ts))

free_names-slots : (ss : List Bytes) → free_names (length ss) (slots_of ss) ≡ some tt
free_names-slots [] = refl
free_names-slots (s ∷ ss) = free_names-slots ss

-- A process that adds libraries, at least one, with memory at hand, counts them, and `lg_term`
-- answers 0 and forgets the table, but not the count: called once more, it faults.
pub lg_term-twice :
    (s : Bytes) (ss : List Bytes)
    → AllStrings (s ∷ ss)
    → (c c' : ProcessCtx) × (add_libs s_current_process_ctx (s ∷ ss) ≡ some c)
      × (c.nb_libs ≡ length (s ∷ ss))
      × (lg_term c ≡ some (pos 0, c'))
      × (c'.libs ≡ null)
      × (lg_term c' ≡ none)
unfolding lg_term
lg_term-twice s ss v = (
  holding end_type (s ∷ ss),
  record { lg_type = end_type; libs = null; nb_libs = length (s ∷ ss) },
  add_libs_lem end_type [] (s ∷ ss) v,
  refl,
  rw (free_names-slots ss),
  refl,
  refl,
)
