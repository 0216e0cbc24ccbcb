-- ===== src/Lg/FileNames.antt =====
-- The file names of the lines of lg/src/lg.c.
use wtools.Prelude.{
  ℕ, suc, ◌+◌, ◌-◌, ◌≡◌, refl, ap, ◌∙◌, arith, Bool, false, ◌||◌, Option, some, [], ◌∷◌, ◌++◌, ◌==◌,
  length, drop, if◌then◌else◌, Bool-cases, inl, inr,
}
use wtools.Buffer.{Bytes}
use wtools.Lg.{LgLevel, level_word, offset_loop, filename_offset_compute, c_string, lg_print}

-- Bytes that are no NUL.
abbrev pub IsString : Bytes → Type 0
IsString [] = Unit
IsString (c ∷ cs) = ((c == 0) ≡ false) × IsString cs

abbrev pub has_slash : Bytes → Bool
has_slash [] = false
has_slash (c ∷ cs) = c == b'/' || has_slash cs

-- The last byte, where there is one.
abbrev pub last_one : Bytes → Bytes
last_one [] = []
last_one (c ∷ []) = c ∷ []
last_one (c ∷ c' ∷ cs) = last_one (c' ∷ cs)

offset_loop_lem :
    (i r : ℕ) (s rest : Bytes)
    → IsString s
    → offset_loop i r (s ++ (0 ∷ rest))
      ≡ some (if has_slash s then i + length s - 1 else r + length s)
unfolding offset_loop
offset_loop_lem i r [] rest v = ap some (omega arith)
offset_loop_lem i r (c ∷ cs) rest (n, v) = elim (Bool-cases (c == b'/')) [
  | inl e ↦ rw (n, e) (offset_loop_lem (i + 1) i cs rest v ∙ ap some (ground arith))
  | inr e ↦ rw (n, e) (offset_loop_lem (i + 1) (r + 1) cs rest v ∙ ap some (ground arith))
]

c_string_all : (s rest : Bytes) → IsString s → c_string (s ++ (0 ∷ rest)) ≡ some s
unfolding c_string
c_string_all [] rest v = refl
c_string_all (c ∷ cs) rest (n, v) = rw (n, c_string_all cs rest v)

-- What stands behind all of a string, and behind all but its last byte.
drop_all : (s rest : Bytes) → drop (length s) (s ++ rest) ≡ rest
drop_all [] rest = refl
drop_all (c ∷ cs) rest = drop_all cs rest

c_string_last :
    (s rest : Bytes)
    → IsString s
    → c_string (drop (length s - 1) (s ++ (0 ∷ rest))) ≡ some (last_one s)
c_string_last [] rest v = c_string_all [] rest tt
c_string_last (c ∷ []) rest v = c_string_all (c ∷ []) rest v
c_string_last (c ∷ c' ∷ cs) rest (n, v) =
    let e : suc (suc (length cs)) - 1 ≡ suc (suc (length cs) - 1) = omega arith in
    rw e (c_string_last (c' ∷ cs) rest v)

-- On a file name with a slash in it `lg_print` prints only the last character of the name, and on
-- one without a slash nothing of it; the level, the line and the function are those of the call.
pub lg_print-last_one :
    (level : LgLevel) (s rest : Bytes) (line : ℕ) (function : Option Bytes)
    → IsString s
    → lg_print level (s ++ (0 ∷ rest)) line function
      ≡ some (record {
        level = level_word level;
        file = if has_slash s then last_one s else [];
        line = line;
        function = function;
      })
unfolding lg_print filename_offset_compute
lg_print-last_one level s rest line function v =
    rw (offset_loop_lem 0 0 s rest v) (elim (Bool-cases (has_slash s)) [
      | inl e ↦
          let k : 0 + length s - 1 ≡ length s - 1 = omega arith in rw (e, k, c_string_last s rest v)
      | inr e ↦ let k : 0 + length s ≡ length s = omega arith in rw (e, k, drop_all s (0 ∷ rest))
    ])
