-- ===== src/Json/Convert.antt =====
-- `bkv_to_json` and `bkv_from_json` of bkv/json/src/bkv_json.c, with HAS_DICO.
use wtools.Prelude.{false, Option, none, some, List, [], ◌∷◌, if◌then◌else◌}
use wtools.Prelude.Int.{ℤ, pos, minus_one, eqb_ℤ}
use wtools.Prelude.Chain.{◌>>=◌}
use wtools.Buffer.{Bytes, load}
use wtools.Libc.{Libc}
use wtools.Bkv.{ok, Bkv, Handle}
use wtools.Bkv.Create.{bkv_create, bkv_get_head}
use wtools.Bkv.Nesting.{bkv_kv_map_close}
use wtools.Bkv.Insertion.{bkv_append}
use wtools.Val
use wtools.Val.Found.{BkvVal, key_invalid}
use wtools.Val.Get.{bkv_val_foreach, bkv_val_get2, bkv_val_init}
use wtools.Dico.{DicoType, DicoCtx, bkv_dico_create, bkv_dico_destroy}
use wtools.Dico.Cached.{s_dico_plugs}
use wtools.Dico.Direct.{dico_key, bkv_create_params}
use wtools.Json.{ToJsonParser, ToJsonCtx, bkv_val_unset, s_bkv_callbacks}

module _ {P : Type 0} (parser : ToJsonParser P) where
  -- The end of `bkv_to_json`, from the walk over the document.
  abbrev pub finish : Val.Outcome (ToJsonCtx P) → Option (ℤ × P)
  finish Val.fault = none
  finish Val.stuck = none
  finish (Val.returns r c) =
      if eqb_ℤ ok r then parser.to_json_finalize c.priv_data else some (r, c.priv_data)

  -- The walk, from the search of the dictionary in the block `m` with the head `v`.
  unfoldable pub walk : Bytes → BkvVal → P → Val.Outcome (List BkvVal) → Option (ℤ × P)
  unfolding bkv_val_foreach s_bkv_callbacks
  walk m v priv_data Val.fault = none
  walk m v priv_data Val.stuck = none
  walk m v priv_data (Val.returns r vs) = do
    dico_val ← load 0 vs
    let ctx : ToJsonCtx P = record {
      jump_next_map = false;
      dico_val = dico_val;
      priv_data = priv_data;
    }
    (if eqb_ℤ ok r
        then finish (bkv_val_foreach m v (s_bkv_callbacks parser m) ctx)
        else some (r, priv_data))

  -- The code, and what the parser made of its data, which hold `*p_ptr` and `*p_len` at the end. Of
  -- a handle that is NULL or has no block `l_ptr` is NULL or not set.
  unfoldable pub bkv_to_json : P → Option Handle → Option (ℤ × P)
  unfolding walk bkv_get_head bkv_val_init bkv_val_get2
  bkv_to_json priv_data h = do
    started ← parser.to_json_init priv_data
    (if eqb_ℤ minus_one started.0
        then some (started.0, started.1)
        else ((bkv_get_head h false false).1 >>= λ head. head.0 >>= λ m.
            bkv_val_init m (some bkv_val_unset) (some 0) >>= λ made. made.1 >>= λ v.
            walk m v started.1 (
              bkv_val_get2 m (some v) (some (dico_key ∷ key_invalid ∷ [])) (pos 1)
                (bkv_val_unset ∷ []))))

-- `bkv_from_json_parser_s`: from the document and the dictionary of the context, NULL where its
-- allocation failed, the text and its length, the code and what became of both.
pub record FromJsonParser : Type 1 where
  pub from_json_parse : Bkv → Option DicoCtx → Option Bytes → ℤ → Option (ℤ × Bkv × Option DicoCtx)

-- The calls behind `bkv_dico_destroy`, each if the last one answered BKV_OK: the code and the
-- document.
unfoldable pub append_dico : Libc → Bkv → ℤ × Option Bkv → Option (ℤ × Bkv)
unfolding bkv_append bkv_kv_map_close
append_dico libc data_handle (ret, dico) =
    if eqb_ℤ ok ret
    then (dico >>= λ d. bkv_append libc data_handle d >>= λ r.
        if eqb_ℤ ok r.0 then bkv_kv_map_close libc r.1 else some r)
    else some (ret, data_handle)

-- What follows the parser, from the dictionary that it leaves. Whatever the last calls answer, the
-- document is handed over.
unfoldable pub close_document : Libc → Bkv → Option DicoCtx → Option (ℤ × Option Bkv)
unfolding append_dico bkv_dico_destroy
close_document libc data_handle none = some (ok, some data_handle)
close_document libc data_handle (some dico) = do
  r ← bkv_dico_destroy libc dico false
  a ← append_dico libc data_handle (r.0, r.2)
  some (a.0, some a.1)

-- The parser, on the document and the dictionary.
unfoldable pub parse_into :
    Libc → FromJsonParser → Option Bytes → ℤ → Bkv → Option DicoCtx → Option (ℤ × Option Bkv)
unfolding close_document
parse_into libc parser ptr len data_handle dico =
    parser.from_json_parse data_handle dico ptr len >>= λ r.
    if eqb_ℤ ok r.0 then close_document libc r.1 r.2 else some (r.0, none)

-- The code, and what is stored in `*h`.
unfoldable pub bkv_from_json :
    Libc → DicoType → FromJsonParser → Option Bytes → ℤ → Option (ℤ × Option Bkv)
unfolding bkv_create bkv_dico_create parse_into
bkv_from_json libc dico_type parser ptr len = do
  made ← bkv_create libc bkv_create_params
  (if eqb_ℤ ok made.0
      then (bkv_dico_create libc s_dico_plugs (some dico_type) false >>= λ dico.
          if eqb_ℤ ok dico.0
          then (made.1 >>= λ data_handle. parse_into libc parser ptr len data_handle dico.1)
          else some (dico.0, none))
      else some (made.0, none))
