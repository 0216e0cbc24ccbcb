-- ===== src/Dico/Direct.antt =====
-- bkv/dico/src/bkv_dico_direct.c: the plug that writes each name at once into a bkv document.
use wtools.Prelude.{ℕ, Bool, true, false, Option, none, some, if◌then◌else◌}
use wtools.Prelude.Int.{ℤ, minus_one, eqb_ℤ}
use wtools.Prelude.Chain.{◌>>=◌}
use wtools.Buffer.{Bytes}
use wtools.Libc.{Libc}
use wtools.Bkv.{ok, inv_arg, Bkv}
use wtools.Bkv.Create.{Create, work_in_ram, bkv_create}
use wtools.Bkv.Scalars.{bkv_kv_str_add}
use wtools.Bkv.Nesting.{bkv_kv_map_open, bkv_kv_map_close}
use wtools.Dico.{Plug}
use mathlib.Core.Option as Opt

-- BKV_DICO_KEY and BKV_NO_KEY.
abbrev pub dico_key : ℕ
dico_key = 0xFFE

abbrev pub no_key : ℕ
no_key = 0

-- BKV_CREATE_INIT with the type BKV_CREATE_TYPE_WORK_IN_RAM.
abbrev pub bkv_create_params : Create
bkv_create_params = record {
  create_type = work_in_ram;
  input_ptr = none;
  input_ptr_length = minus_one;
  mem_chunk_size = minus_one;
}

-- The `malloc` of `dico_direct_ctx_t` behind the map that was opened.
abbrev pub hold : Libc → ℤ × Bkv → ℤ × Option Bkv
hold libc (ret, h) =
    if eqb_ℤ ok ret
    then elim (libc.malloc 8) [ none ↦ (inv_arg, none) | some block ↦ (ok, some h) ]
    else (inv_arg, none)

-- A handle of `dico_direct_ctx_t` is the document that it points to.
unfoldable pub dico_direct_create : Libc → Option (ℤ × Option Bkv)
unfolding bkv_create bkv_kv_map_open
dico_direct_create libc = do
  made ← bkv_create libc bkv_create_params
  (if eqb_ℤ ok made.0
      then (made.1 >>= λ h. (bkv_kv_map_open libc h dico_key >>= λ r. some (hold libc r)))
      else some (inv_arg, none))

unfoldable pub dico_direct_key_add :
    Libc → Bkv → ℕ → Option ℕ → Bytes → ℕ → Option (ℤ × Option ℕ × Bkv)
unfolding bkv_kv_str_add
dico_direct_key_add libc h key final_key keystr keystrlen = do
  r ← bkv_kv_str_add libc h key keystr keystrlen
  some (r.0, Opt.map (λ k. no_key) final_key, r.1)

-- The handle, where it is not NULL, and whether `p_dico_handle` is NULL.
unfoldable pub dico_direct_destroy : Libc → Option Bkv → Bool → Option (ℤ × Option Bkv × Option Bkv)
unfolding bkv_kv_map_close
dico_direct_destroy libc none handle_null = some (inv_arg, none, none)
dico_direct_destroy libc (some h) true = some (inv_arg, some h, none)
dico_direct_destroy libc (some h) false = do
  r ← bkv_kv_map_close libc h
  some (if eqb_ℤ ok r.0 then (ok, none, some r.1) else (r.0, some r.1, none))

unfoldable pub s_dico_direct_plug : Plug
unfolding dico_direct_create dico_direct_key_add dico_direct_destroy
s_dico_direct_plug = record {
  Priv = Bkv;
  create = dico_direct_create;
  key_add = dico_direct_key_add;
  destroy = λ libc h handle_null. dico_direct_destroy libc (some h) handle_null;
}
