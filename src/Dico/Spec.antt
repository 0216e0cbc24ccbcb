-- ===== src/Dico/Spec.antt =====
-- A dictionary of the direct plug (bkv/dico/src) from its creation to the document that it leaves.
use wtools.Prelude.{
  ℕ, ◌≤◌, ◌≡◌, refl, ap, ◌∙◌, arith, true, false, Bool-cases, Option-cases, inl, inr, Option, none,
  some, List, [], ◌∷◌, length,
}
use wtools.Prelude.Int.{ℤ, eqb_ℤ}
use wtools.Prelude.Chain.{◌>>=◌}
use wtools.Buffer.{Bytes}
use wtools.Libc.{Libc}
use wtools.Bkv.{ok, Bkv}
use wtools.Bkv.Create.{bkv_create, default_mem_chunk_size, sizeof_bkv}
use wtools.Bkv.Scalars.{bkv_kv_str_add}
use wtools.Bkv.Spec.{str, Entry, encode_all, AllFit, add, add_all, put}
use wtools.Bkv.Nesting.{bkv_kv_map_open}
use wtools.Val
use wtools.Val.Maps.{recorder, reads_all_as, val_foreach-map_bytes}
use wtools.Dico.{
  DicoType, DicoCtx, sizeof_dico_ctx, bkv_dico_create, bkv_dico_key_add, bkv_dico_destroy, new_ctx,
}
use wtools.Dico.Direct.{
  dico_key, hold, bkv_create_params, dico_direct_create, dico_direct_key_add, dico_direct_destroy,
  s_dico_direct_plug,
}
use wtools.Dico.Cached.{s_dico_plugs}
use wtools.RoundTrip.{created, opened, open_first, m4, size, done, add_second, close_last, held}

-- A name under its key.
abbrev pub Word : Type 0
Word = ℕ × Bytes

abbrev pub entries_of : List Word → List Entry
entries_of [] = []
entries_of ((key, s) ∷ ws) = (key, str s) ∷ entries_of ws

-- A caller that adds the names in order, up to the first code that is not BKV_OK.
unfoldable pub add_words : Libc → DicoCtx → List Word → Option (ℤ × DicoCtx)
unfolding bkv_dico_key_add
add_words libc c [] = some (ok, c)
add_words libc c ((key, s) ∷ ws) = do
  r ← bkv_dico_key_add libc c key none s (length s)
  elim (eqb_ℤ ok r.0) [ true ↦ add_words libc r.2 ws | false ↦ some (r.0, r.2) ]

abbrev pub direct_ctx : Bkv → DicoCtx
unfolding s_dico_direct_plug
direct_ctx h = record { plug = s_dico_direct_plug; priv_handle = h }

add_words-direct :
    (libc : Libc) (ws : List Word) (h : Bkv)
    → add_words libc (direct_ctx h) ws
      ≡ (add_all libc h (entries_of ws) >>= λ a. some (a.0, direct_ctx a.1))
unfolding add_words add_all s_dico_direct_plug dico_direct_key_add add direct_ctx bkv_dico_key_add
add_words-direct libc [] h = refl
add_words-direct libc ((key, s) ∷ ws) h =
    elim (Option-cases (bkv_kv_str_add libc h key s (length s))) [
      | inl e ↦ rw e
      | inr ((ret, h'), e) ↦ elim (Bool-cases (eqb_ℤ ok ret)) [
        | inl k ↦ rw (e, k) (add_words-direct libc ws h')
        | inr k ↦ rw (e, k)
      ]
    ]

pub direct_created :
    (libc : Libc) (h h' : Bkv) {plug_ctx dico_ctx : Bytes}
    → bkv_create libc bkv_create_params ≡ some (ok, some h)
    → bkv_kv_map_open libc h dico_key ≡ some (ok, h')
    → libc.malloc 8 ≡ some plug_ctx
    → libc.malloc sizeof_dico_ctx ≡ some dico_ctx
    → bkv_dico_create libc s_dico_plugs (some DicoType.direct) false
      ≡ some (ok, some (direct_ctx h'))
unfolding bkv_dico_create new_ctx s_dico_plugs s_dico_direct_plug dico_direct_create direct_ctx
direct_created libc h h' made first g k =
    let held : hold libc (ok, h') ≡ (ok, some h') = rw g in
    let plugged : s_dico_direct_plug.create libc ≡ some (ok, some h') = rw (made, first, held) in
    rw plugged (rw k)

pub reads_all-entries_of : (ws : List Word) → reads_all_as (entries_of ws) ≡ entries_of ws
reads_all-entries_of [] = refl
reads_all-entries_of ((key, s) ∷ ws) = ap (◌∷◌ (key, str s)) (reads_all-entries_of ws)

-- With memory at hand, names that fit, of at most 116 bytes in all with their headers, under keys
-- of 12 bits, can be added to a new direct dictionary: each call answers BKV_OK, and
-- `val_foreach` over the document that the destruction leaves hands its callbacks the same names
-- under the same keys, in order.
pub dico_round_trip :
    (libc : Libc) (block struct plug_ctx dico_ctx : Bytes) (ws : List Word)
    → libc.malloc default_mem_chunk_size ≡ some block
    → libc.malloc sizeof_bkv ≡ some struct
    → libc.malloc 8 ≡ some plug_ctx
    → libc.malloc sizeof_dico_ctx ≡ some dico_ctx
    → AllFit (entries_of ws)
    → length (encode_all (entries_of ws)) ≤ 116
    → (c c' : DicoCtx) × (h : Bkv) × (m : Bytes) × (bkv_dico_create libc s_dico_plugs
          (some DicoType.direct)
          false
        ≡ some (ok, some c))
      × (add_words libc c ws ≡ some (ok, c'))
      × (((priv : Option c'.plug.Priv) × (bkv_dico_destroy libc c' false
            ≡ some (ok, priv, some h))))
      × (h.ptr ≡ some m)
      × (Val.val_foreach (recorder m) m 0 [] ≡ Val.returns ok (entries_of ws))
unfolding bkv_dico_destroy s_dico_direct_plug dico_direct_destroy done
dico_round_trip libc block struct plug_ctx dico_ctx ws e f g k fit small =
    let (m, made, n) = created libc block struct e f in
    let es = entries_of ws in
    let le : dico_key ≤ 0xFFF = omega arith in
    let (junk, bytes) = held libc m n dico_key es le fit small in
    let end = done libc m n dico_key es le fit small in
    (
      direct_ctx (opened libc m n dico_key es le fit small),
      direct_ctx (put (encode_all es) (opened libc m n dico_key es le fit small)),
      end,
      m4 libc m n dico_key es le fit small,
      direct_created libc _ _ made (open_first libc m n dico_key es le fit small) g k,
      add_words-direct libc ws _ ∙ rw (add_second libc m n dico_key es le fit small),
      (none, rw (close_last libc m n dico_key es le fit small)),
      refl,
      val_foreach-map_bytes _ 0 dico_key (size libc m n dico_key es le fit small) junk es le fit
            bytes
          ∙ ap (Val.returns ok) (reads_all-entries_of ws),
    )
