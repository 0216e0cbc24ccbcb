-- ===== src/Dico.antt =====
-- bkv/dico/src/bkv_dico.c: a dictionary of key names behind the interface of a plug, and the
-- table of plugs of bkv/dico/src/dico_plugs.h. No plug reads the parameters of the creation but
-- their type.
pub mod Direct
pub mod Cached
pub mod Names
pub mod Filling
pub mod Listing
pub mod Known
pub mod Spec
use wtools.Prelude.{ℕ, Bool, true, false, ◌||◌, Option, none, some, List, [], ◌∷◌, if◌then◌else◌}
use wtools.Prelude.Int.{ℤ, eqb_ℤ}
use wtools.Prelude.Chain.{◌>>=◌}
use wtools.Buffer.{Bytes}
use wtools.Libc.{Libc}
use wtools.Bkv.{ok, inv_arg, Bkv}

-- `bkv_dico_type_t`.
pub data DicoType : Type 0 where
  direct cached end_value : DicoType

abbrev pub same_type : DicoType → DicoType → Bool
same_type DicoType.direct DicoType.direct = true
same_type DicoType.cached DicoType.cached = true
same_type DicoType.end_value DicoType.end_value = true
same_type _ _ = false

-- `dico_plug_t` over the plug's own handle. `key_add` takes and returns `*p_final_key`, `none`
-- for NULL; `destroy` takes whether `p_bkv_dico_handle` is NULL, and returns what is left of the
-- handle and what is stored.
pub record Plug : Type 1 where
  pub Priv : Type 0
  pub create : Libc → Option (ℤ × Option Priv)
  pub key_add : Libc → Priv → ℕ → Option ℕ → Bytes → ℕ → Option (ℤ × Option ℕ × Priv)
  pub destroy : Libc → Priv → Bool → Option (ℤ × Option Priv × Option Bkv)

-- `dico_ctx_t`.
pub record DicoCtx : Type 1 where
  pub plug : Plug
  pub priv_handle : plug.Priv

-- `sizeof(dico_ctx_t)` with 64-bit pointers.
abbrev pub sizeof_dico_ctx : ℕ
sizeof_dico_ctx = 96

-- The loop of `dico_get_plug` over what is left of the table, which ends with an entry of type
-- BKV_DICO_TYPE_END_VALUE.
abbrev pub dico_get_plug : List (DicoType × Option Plug) → DicoType → Option (Option Plug)
dico_get_plug [] type = none
dico_get_plug ((t, plug) ∷ rest) type =
    let later = dico_get_plug rest type in
    if same_type t DicoType.end_value
    then some none
    else if same_type t type
    then some plug
    else later

-- The allocation of the context, once the plug made its handle; if it fails the code stays BKV_OK.
unfoldable pub new_ctx : Libc → (p : Plug) → ℤ × Option p.Priv → Option (ℤ × Option DicoCtx)
new_ctx libc p (ret, priv) =
    if eqb_ℤ ok ret
    then elim (libc.malloc sizeof_dico_ctx) [
      | none ↦ some (ret, none)
      | some block ↦ (priv >>= λ d. some (ok, some (record { plug = p; priv_handle = d })))
    ]
    else some (ret, none)

-- The second argument is the table `s_dico_plugs`, the last tells whether `p_dico_handle` is NULL.
unfoldable pub bkv_dico_create :
    Libc → List (DicoType × Option Plug) → Option DicoType → Bool → Option (ℤ × Option DicoCtx)
unfolding new_ctx
bkv_dico_create libc plugs none handle_null = some (inv_arg, none)
bkv_dico_create libc plugs (some type) true = some (inv_arg, none)
bkv_dico_create libc plugs (some type) false = do
  found ← dico_get_plug plugs type
  elim found [
    | none ↦ some (inv_arg, none)
    | some p ↦ (p.create libc >>= λ made. new_ctx libc p made)
  ]

unfoldable pub bkv_dico_key_add :
    Libc → DicoCtx → ℕ → Option ℕ → Bytes → ℕ → Option (ℤ × Option ℕ × DicoCtx)
bkv_dico_key_add libc c key_index final_key keystr keystrlen = do
  r ← c.plug.key_add libc c.priv_handle key_index final_key keystr keystrlen
  some (r.0, r.1, record { plug = c.plug; priv_handle = r.2 })

-- The context itself is not freed.
unfoldable pub bkv_dico_destroy :
    Libc → (c : DicoCtx) → Bool → Option (ℤ × Option c.plug.Priv × Option Bkv)
bkv_dico_destroy libc c handle_null = c.plug.destroy libc c.priv_handle handle_null
