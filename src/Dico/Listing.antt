-- ===== src/Dico/Listing.antt =====
-- The document that a dictionary of the cached plug (bkv/dico/src/bkv_dico_cached.c) leaves.
use wtools.Prelude.{
  ◌≤◌, ◌≡◌, inl, inr, refl, ap, ◌∙◌, arith, true, false, Bool-cases, Option, none, some, List, [],
  ◌∷◌, length,
}
use wtools.Prelude.Int.{ℤ, eqb_ℤ}
use wtools.Prelude.Chain.{bind-cong, bind-eq-some}
use wtools.Buffer.{Bytes}
use wtools.Libc.{Libc}
use wtools.Bkv.{ok, Bkv}
use wtools.Bkv.Create.{bkv_create}
use wtools.Bkv.Scalars.{bkv_kv_str_add}
use wtools.Bkv.Nesting.{bkv_kv_map_open, bkv_kv_map_close}
use wtools.Bkv.Spec.{encode_all, AllFit, add, add_all}
use wtools.Val
use wtools.Val.Maps.{recorder, val_foreach-map_bytes}
use wtools.Keytree.{no_error, Keytree}
use wtools.Keytree.Nodes.{IsWellHead}
use wtools.Keytree.Walk.{wg_keytree_foreach}
use wtools.Keytree.Visits.{Visited, IsShallow, visits}
use wtools.Keytree.Walking.{play, wg_keytree_foreach-play}
use wtools.Keytree.Releasing.{wg_keytree_release-blocks}
use wtools.Dico.{bkv_dico_destroy}
use wtools.Dico.Direct.{dico_key, bkv_create_params}
use wtools.Dico.Cached.{
  key_of_data, dico_cached_elem, write_names, hand_over, write_out, dico_cached_destroy,
  s_dico_cached_plug,
}
use wtools.Dico.Spec.{Word, entries_of, reads_all-entries_of}
use wtools.Dico.Names.{Plenty}
use wtools.Dico.Filling.{cached_ctx}
use wtools.RoundTrip.{created, opened, open_first, m4, size, done, add_second, close_last, held}

-- The names among what is visited: the keys that end a word.
abbrev pub names_among : List Visited → List Word
names_among [] = []
names_among ((false, d, s) ∷ vs) = names_among vs
names_among ((true, d, s) ∷ vs) = (key_of_data d, s) ∷ names_among vs

only_ok : (r r' : ℤ × Bkv) → some r ≡ some r' → r.0 ≡ r'.0
only_ok r r' e = let same : r ≡ r' = cc in ap (λ p. p.0) same

-- The names that are written are those that a caller would add one by one, if all are added.
play-add_all :
    (libc : Libc) (vs : List Visited) (h h' : Bkv)
    → add_all libc h (entries_of (names_among vs)) ≡ some (ok, h')
    → play (dico_cached_elem libc) vs h ≡ some h'
unfolding add_all dico_cached_elem add
play-add_all libc [] h h' e = let same : h ≡ h' = cc in ap some same
play-add_all libc ((false, d, s) ∷ vs) h h' e = play-add_all libc vs h h' e
play-add_all libc ((true, d, s) ∷ vs) h h' e =
    let ((ret, h1), run, rest) =
      bind-eq-some (bkv_kv_str_add libc h (key_of_data d) s (length s)) _ e in
    elim (Bool-cases (eqb_ℤ ok ret)) [
      | inl good ↦
          let later : add_all libc h1 (entries_of (names_among vs)) ≡ some (ok, h') =
            rw good at rest in
          rw run (play-add_all libc vs h1 h' later)
      | inr bad ↦
          let code : ret ≡ ok = only_ok (ret, h1) (ok, h') (rw bad at rest) in
          let wrong : true ≡ false = rw code at bad in cc
    ]

-- The names of a tree in the order of the visits.
abbrev pub names_of : Keytree → List Word
names_of t = names_among (visits t.lists [])

-- The document of a caller that adds the names of the tree one by one.
write_names-add_all :
    (libc : Libc) (t : Keytree) (h h1 h2 : Bkv)
    → IsWellHead t.lists
    → IsShallow 128 t.lists
    → add_all libc h (entries_of (names_of t)) ≡ some (ok, h1)
    → bkv_kv_map_close libc h1 ≡ some (ok, h2)
    → write_names libc t h ≡ some (ok, h2)
unfolding write_names
write_names-add_all libc t h h1 h2 w short added closed =
    let walked : wg_keytree_foreach (dico_cached_elem libc) t h ≡ some (no_error, h1) =
      wg_keytree_foreach-play (dico_cached_elem libc) t h w short
      ∙ bind-cong (play (dico_cached_elem libc) (visits t.lists []) h)
          (play-add_all libc (visits t.lists []) h h1 added) (λ d. refl) in
    bind-cong (wg_keytree_foreach (dico_cached_elem libc) t h) walked (λ r. refl) ∙ closed

-- The plug's run from the document that it makes to the one that it hands over.
destroy_run :
    (libc : Libc) (t : Keytree) (h0 h h2 : Bkv)
    → bkv_create libc bkv_create_params ≡ some (ok, some h0)
    → bkv_kv_map_open libc h0 dico_key ≡ some (ok, h)
    → write_names libc t h ≡ some (ok, h2)
    → IsWellHead t.lists
    → dico_cached_destroy libc (some (some (some t))) false ≡ some (ok, some none, some h2)
unfolding dico_cached_destroy write_out hand_over
destroy_run libc t h0 h h2 made opened written w =
    rw (made, opened, written, wg_keytree_release-blocks t w)

-- Where every allocation succeeds, a cached dictionary with a well-formed tree of names of at most
-- 128 letters and digits, which fit, under keys of 12 bits, and take at most 116 bytes in all with
-- their headers, is destroyed with BKV_OK: `val_foreach` over the document that it leaves hands
-- its callbacks the names of the tree with their keys, in the order of the visits.
pub cached_dico_destroyed :
    (libc : Libc) (t : Keytree)
    → Plenty libc
    → IsWellHead t.lists
    → IsShallow 128 t.lists
    → AllFit (entries_of (names_of t))
    → length (encode_all (entries_of (names_of t))) ≤ 116
    → (h : Bkv) × (m : Bytes) × ((priv : Option (cached_ctx t).plug.Priv) × (bkv_dico_destroy libc
            (cached_ctx t)
            false
          ≡ some (ok, priv, some h)))
      × (h.ptr ≡ some m)
      × (Val.val_foreach (recorder m) m 0 [] ≡ Val.returns ok (entries_of (names_of t)))
unfolding bkv_dico_destroy s_dico_cached_plug cached_ctx done
cached_dico_destroyed libc t mem w short fit small =
    let (block, e) = mem 128 in
    let (struct, f) = mem 336 in
    let (m, made, n) = created libc block struct e f in
    let es = entries_of (names_of t) in
    let le : dico_key ≤ 0xFFF = omega arith in
    let (junk, bytes) = held libc m n dico_key es le fit small in
    let h = done libc m n dico_key es le fit small in
    (
      h,
      m4 libc m n dico_key es le fit small,
      (
        some none,
        destroy_run libc t _ (opened libc m n dico_key es le fit small) h made
            (open_first libc m n dico_key es le fit small)
            (write_names-add_all libc t _ _ h w short (add_second libc m n dico_key es le fit small)
              (close_last libc m n dico_key es le fit small))
            w,
      ),
      refl,
      val_foreach-map_bytes _ 0 dico_key (size libc m n dico_key es le fit small) junk es le fit
            bytes
          ∙ ap (Val.returns ok) (reads_all-entries_of (names_of t)),
    )
