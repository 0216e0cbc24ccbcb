-- ===== src/Dico/Cached.antt =====
-- bkv/dico/src/bkv_dico_cached.c: the plug that keeps the names in a key tree, and writes them
-- into a bkv document when the dictionary is destroyed.
use wtools.Prelude.{
  ℕ, ◌+◌, ◌%◌, ◌^◌, Bool, true, false, Option, none, some, List, [], ◌∷◌, length, if◌then◌else◌,
}
use wtools.Prelude.Int.{ℤ, eqb_ℤ}
use wtools.Prelude.Chain.{◌>>=◌}
use wtools.Buffer.{Bytes, store_all, read_all}
use wtools.Libc.{Libc}
use wtools.Bkv.{ok, inv_arg, Bkv}
use wtools.Bkv.Create.{bkv_create}
use wtools.Bkv.Scalars.{bkv_kv_str_add}
use wtools.Bkv.Nesting.{bkv_kv_map_open, bkv_kv_map_close}
use wtools.Keytree.{Error, exists, Keytree}
use wtools.Keytree.Insert.{is_no_error, Elem, wg_keytree_add, wg_keytree_create}
use wtools.Keytree.Walk.{Visit, wg_keytree_foreach}
use wtools.Keytree.Release.{strlen, wg_keytree_release}
use wtools.Dico.{DicoType, Plug}
use wtools.Dico.Direct.{dico_key, bkv_create_params, s_dico_direct_plug}
use mathlib.Core.Option as Opt

-- The member `head` of `dico_cached_ctx_t`: not set or freed, NULL, or a tree.
abbrev pub HeadPtr : Type 0
HeadPtr = Option (Option Keytree)

-- KT_CREATE_TYPE_INIT
abbrev pub weak_type_end_value : ℕ
weak_type_end_value = 0

-- The handle of a context that was allocated. The second argument is what
-- `wg_keytree_create` answered.
abbrev pub keep_head : Libc → Error × HeadPtr → ℤ × Option HeadPtr
keep_head libc (error, head) =
    if is_no_error error
    then elim (libc.malloc 8) [ none ↦ (inv_arg, none) | some block ↦ (ok, some head) ]
    else (inv_arg, none)

unfoldable pub dico_cached_create : Libc → Option (ℤ × Option HeadPtr)
unfolding wg_keytree_create
dico_cached_create libc = do
  made ← wg_keytree_create libc weak_type_end_value (some []) false
  some (keep_head libc made)

-- `strdup`; of NULL no byte can be read.
abbrev pub strdup : Libc → Bytes → Option Bytes
strdup libc str = do
  len ← strlen str
  elim (libc.malloc (len + 1)) [
    | none ↦ some []
    | some block ↦ (read_all (len + 1) 0 str >>= λ bytes. store_all 0 bytes block)
  ]

-- `bkv_key_t` is a `uint16_t`, which `udata` holds as a pointer.
abbrev pub key_of_data : ℕ → ℕ
key_of_data data_ = data_ % 2 ^ 16

-- What `*final_key` becomes, from the code and `l_priv_data`.
abbrev pub given_key : Error → Option ℕ → Option ℕ → Option ℕ
given_key exists data_ final_key =
    Opt.map (λ k. key_of_data (elim data_ [ none ↦ 0 | some d ↦ d ])) final_key
given_key _ data_ final_key = final_key

-- Once a tree was released, its head is a pointer to what is freed.
abbrev pub head_after : Option Keytree → Option Keytree → HeadPtr
head_after none t = some t
head_after (some t0) none = none
head_after (some t0) (some t) = some (some t)

unfoldable pub dico_cached_key_add :
    Libc → HeadPtr → ℕ → Option ℕ → Bytes → ℕ → Option (ℤ × Option ℕ × HeadPtr)
unfolding wg_keytree_add
dico_cached_key_add libc head key final_key keystr keystrlen = do
  copy ← strdup libc keystr
  let elem : Elem = record { str = copy; len = keystrlen; udata = key }
  t ← head
  r ← wg_keytree_add libc t (some elem)
  some (ok, given_key r.0 r.1 final_key, head_after t r.2)

-- The callback, over the document that `dico_cached_lookup_ctx_t` names. A code that is not
-- BKV_OK is printed.
unfoldable pub dico_cached_elem : Libc → Visit Bkv
unfolding bkv_kv_str_add
dico_cached_elem libc dico false data_ p_str = some dico
dico_cached_elem libc dico true data_ p_str = do
  r ← bkv_kv_str_add libc dico (key_of_data data_) p_str (length p_str)
  some r.1

-- The document with the names in its map, behind `bkv_kv_map_open`.
unfoldable pub write_names : Libc → Keytree → Bkv → Option (ℤ × Bkv)
unfolding dico_cached_elem wg_keytree_foreach bkv_kv_map_close
write_names libc t dico = do
  r ← wg_keytree_foreach (dico_cached_elem libc) t dico
  if is_no_error r.0 then bkv_kv_map_close libc r.1 else some (ok, r.1)

-- The end of `dico_cached_destroy`, from what closing the map answered: the tree is released and
-- the document handed over, to a pointer that must not be NULL.
unfoldable pub hand_over : Keytree → Bool → ℤ × Bkv → Option (ℤ × Option HeadPtr × Option Bkv)
unfolding wg_keytree_release
hand_over t handle_null (ret, dico) =
    if eqb_ℤ ok ret
    then (wg_keytree_release (some t) >>= λ released. elim handle_null [
      | true ↦ none
      | false ↦ some (ok, some none, some dico)
    ])
    else some (ret, some (some (some t)), none)

-- What follows `bkv_kv_map_open`, from what it answered.
unfoldable pub write_out :
    Libc → HeadPtr → Bool → ℤ × Bkv → Option (ℤ × Option HeadPtr × Option Bkv)
unfolding write_names hand_over
write_out libc head handle_null (ret, dico) =
    if eqb_ℤ ok ret
    then (head >>= λ pointed.
        pointed >>= λ t. write_names libc t dico >>= λ closed. hand_over t handle_null closed)
    else some (ret, some head, none)

-- The handle, where it is not NULL, and whether `p_bkv_dico_handle` is NULL. The result holds the
-- handle, whose tree is freed at the end, and what is stored in `*p_bkv_dico_handle`.
unfoldable pub dico_cached_destroy :
    Libc → Option HeadPtr → Bool → Option (ℤ × Option HeadPtr × Option Bkv)
unfolding bkv_create bkv_kv_map_open write_out
dico_cached_destroy libc none handle_null = some (inv_arg, none, none)
dico_cached_destroy libc (some head) handle_null = do
  made ← bkv_create libc bkv_create_params
  (if eqb_ℤ ok made.0
      then (made.1 >>= λ h.
          bkv_kv_map_open libc h dico_key >>= λ r. write_out libc head handle_null r)
      else some (made.0, some head, none))

unfoldable pub s_dico_cached_plug : Plug
unfolding dico_cached_create dico_cached_key_add dico_cached_destroy
s_dico_cached_plug = record {
  Priv = HeadPtr;
  create = dico_cached_create;
  key_add = dico_cached_key_add;
  destroy = λ libc head handle_null. dico_cached_destroy libc (some head) handle_null;
}

-- `s_dico_plugs` of bkv/dico/src/bkv_dico.c.
unfoldable pub s_dico_plugs : List (DicoType × Option Plug)
unfolding s_dico_direct_plug s_dico_cached_plug
s_dico_plugs =
    (DicoType.direct, some s_dico_direct_plug)
    ∷ (DicoType.cached, some s_dico_cached_plug)
    ∷ (DicoType.end_value, none)
    ∷ []
