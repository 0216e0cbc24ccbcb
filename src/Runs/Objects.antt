-- ===== src/Runs/Objects.antt =====
-- Small runs of the conversion from JSON with yajl: the theorems at concrete inputs.
use wtools.Prelude.{
  length, ◌≤◌, ◌⊎◌, ℕ, ◌+◌, ◌*◌, ◌/◌, ◌≡◌, refl, arith, true, none, some, List, [], ◌∷◌, ◌++◌,
  replicate,
}
use wtools.Prelude.Int.{pos}
use wtools.Prelude.Chain.{◌>>=◌}
use wtools.Buffer.{Bytes}
use wtools.Buffer.Laws.{splice}
use wtools.Bkv.{ok, State, Bkv, Handle}
use wtools.RoundTrip.{new_handle}
use wtools.Bkv.Spec.{Value, str, u16, boolean}
use wtools.Val.Holding.{HoldsAt-splice_same}
use wtools.Dico.{DicoType}
use wtools.Dico.Spec.{Word, entries_of}
use wtools.Json.Convert.{bkv_from_json, bkv_to_json}
use wtools.Json.Naming.{name_at, write_map}
use wtools.Json.Whole.{object_bytes, bkv_to_json-write_map}
use wtools.Json.Yajl.{Event, Yajl, s_bkv_from_json_yajl_plug}
use wtools.Json.Yajl.Numbers.{Floats, Decimal, get_number}
use wtools.Json.Yajl.Digits.{characters, Fitted, get_number-characters}
use wtools.Json.Yajl.Members.{Member, text, flag, digits, feed, names_of, entries_from, words_from}
use wtools.Json.Yajl.Reading.{object_events, bkv_from_json-Converted}
use wtools.Json.Joined.{Converted}
use wtools.Json.Yajl.Writer.{YajlGen, s_bkv_to_json_yajl_plug}
use wtools.Json.Yajl.Writing.{bkv_to_json-run_calls}
use wtools.Json.Yajl.Objects.{json_round_trip}
use wtools.Json.Yajl.Strings.{StringMember, members_of, noting}
use wtools.Runs.Memory.{plain_libc}

-- Doubles that are whole numbers.
abbrev whole : Floats
whole = record {
  Double = ℕ;
  of_u64 = λ n. n;
  of_char = λ c. c;
  ten = 10;
  plus = λ a b. a + b;
  times = λ a b. a * b;
  over = λ a b. a / b;
  to_float = λ a. a;
}

-- A yajl that finds these events in any text.
abbrev finding : List (Event whole) → Yajl whole
finding es = record {
  yajl_alloc = true;
  yajl_free_null = none;
  yajl_parse = λ call c ptr len. feed call es c;
}

abbrev number_digits : List ℕ
number_digits = 6 ∷ 5 ∷ 5 ∷ 3 ∷ 6 ∷ []

get_number-characters_example :
    ((length number_digits ≤ 9)
      × (d : Decimal whole) × (get_number whole (characters number_digits ++ (b',' ∷ [])) 5
          ≡ some d)
      × Fitted 65536 d)
    ⊎ ((10 ≤ length number_digits)
        × (get_number whole (characters number_digits ++ (b',' ∷ [])) 5 ≡ none))
get_number-characters_example =
    get_number-characters whole number_digits (b',' ∷ [])
      (omega arith, (omega arith, (omega arith, (omega arith, (omega arith, tt)))))

-- {"a":"x","b":true,"c":12}
abbrev mixed : List (Member × Value)
mixed =
    (
      record { name = b'a' ∷ []; behind = b'"' ∷ []; value = text (b'x' ∷ []) (b'"' ∷ []) },
      str (b'x' ∷ []),
    )
    ∷ ((record { name = b'b' ∷ []; behind = b'"' ∷ []; value = flag true }, boolean true)
        ∷ ((
          record {
            name = b'c' ∷ [];
            behind = b'"' ∷ [];
            value = digits (b'1' ∷ b'2' ∷ []) (b'}' ∷ []);
          },
          u16 12,
        )
            ∷ []))

bkv_from_json-Converted_example :
    Converted
      (bkv_from_json plain_libc DicoType.direct
        (s_bkv_from_json_yajl_plug plain_libc whole
          (finding (object_events whole (names_of mixed))))
        (some [])
        (pos 0))
      (entries_from 1 mixed)
      (entries_of (words_from 1 (names_of mixed)))
unfolding get_number
bkv_from_json-Converted_example =
    bkv_from_json-Converted plain_libc whole (finding (object_events whole (names_of mixed)))
      (some []) (pos 0) (replicate 128 0) (replicate 336 0) (replicate 8 0) (replicate 96 0) mixed
      refl refl refl refl refl (λ call c. refl) (refl, (refl, ((Decimal.u16 12, refl, refl), tt)))
      (omega arith) (omega arith) (omega arith)

-- {"a":"x","b":"yz"}
abbrev strings : List StringMember
strings =
    record { name = b'a' ∷ []; behind = b'"' ∷ []; value = b'x' ∷ []; rest = b'"' ∷ [] }
    ∷ record { name = b'b' ∷ []; behind = b'"' ∷ []; value = b'y' ∷ b'z' ∷ []; rest = b'"' ∷ [] }
    ∷ []

json_round_trip_example :
    (h : Bkv) × (m : Bytes) × (bkv_from_json plain_libc DicoType.direct
        (s_bkv_from_json_yajl_plug plain_libc whole
          (finding (object_events whole (names_of (members_of strings)))))
        (some [])
        (pos 0)
      ≡ some (ok, some h))
    × (h.ptr ≡ some m)
    × (bkv_to_json (noting m) [] (some (record { bkv = h; end_hdl = none }))
        ≡ some (ok, (b'a' ∷ [], b'x' ∷ []) ∷ (b'b' ∷ [], b'y' ∷ b'z' ∷ []) ∷ []))
json_round_trip_example =
    json_round_trip plain_libc whole (finding (object_events whole (names_of (members_of strings))))
      (some []) (pos 0) (replicate 128 0) (replicate 336 0) (replicate 8 0) (replicate 96 0) strings
      refl refl refl refl refl (λ call c. refl) (omega arith)

abbrev values : List Word
values = (2, b'x' ∷ []) ∷ (3, b'y' ∷ b'z' ∷ []) ∷ []

abbrev keys : List Word
keys = (2, b'a' ∷ []) ∷ (3, b'b' ∷ []) ∷ []

abbrev document : Bytes
document = splice 0 (object_bytes 33 (entries_of values) 16 (entries_of keys) 0 0) (replicate 64 0)

abbrev handle : Handle
handle = record {
  bkv = record (new_handle document) { state = State.term; write_offset = 33 };
  end_hdl = none;
}

bkv_to_json-write_map_example : bkv_to_json (noting document) [] (some handle) ≡ (
    write_map (noting document) (λ key. name_at key (4 + 11 + 2 + 2) keys) 0 values [] >>= λ d'.
    some (ok, d'))
bkv_to_json-write_map_example =
    bkv_to_json-write_map (noting document) document handle [] 33 16 0 0 values keys
      (omega arith, omega arith, (omega arith, omega arith, tt))
      (omega arith, omega arith, (omega arith, omega arith, tt)) (refl, (refl, tt))
      (refl, (refl, tt)) refl (omega arith)
      (HoldsAt-splice_same (replicate 64 0) 0
        (object_bytes 33 (entries_of values) 16 (entries_of keys) 0 0) (omega arith))
      refl

-- A generator that counts its calls.
abbrev counting : YajlGen ℕ
counting = record {
  Double = ℕ;
  double_of = λ f. f;
  yajl_gen_alloc = some 0;
  yajl_gen_config = λ g. (pos 1, g);
  yajl_alloc = true;
  yajl_config = pos 1;
  yajl_gen_string = λ g s. (pos 0, g + 1);
  yajl_gen_integer = λ g n. (pos 0, g + 1);
  yajl_gen_double = λ g d. (pos 0, g + 1);
  yajl_gen_bool = λ g b. (pos 0, g + 1);
  yajl_gen_map_open = λ g. (pos 0, g + 1);
  yajl_gen_map_close = λ g. (pos 0, g + 1);
  yajl_gen_array_open = λ g. (pos 0, g + 1);
  yajl_gen_array_close = λ g. (pos 0, g + 1);
  yajl_gen_get_buf = λ g. (pos 0, g ∷ []);
}

bkv_to_json-run_calls_example :
    bkv_to_json
      (s_bkv_to_json_yajl_plug counting plain_libc)
      (record { g = none; str = none })
      (some handle)
    ≡ some (ok, record { g = none; str = some (6 ∷ []) })
bkv_to_json-run_calls_example =
    bkv_to_json-run_calls counting plain_libc document handle 33 16 0 0 values keys 0 0 (pos 1)
      (6 ∷ []) (replicate 48 0) (replicate 1 0)
      (omega arith, omega arith, (omega arith, omega arith, tt))
      (omega arith, omega arith, (omega arith, omega arith, tt)) (refl, (refl, tt))
      (refl, (refl, tt)) refl (omega arith)
      (HoldsAt-splice_same (replicate 64 0) 0
        (object_bytes 33 (entries_of values) 16 (entries_of keys) 0 0) (omega arith))
      refl refl refl refl refl refl refl refl refl
