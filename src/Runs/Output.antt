-- ===== src/Runs/Output.antt =====
-- Small runs of the printer and of the log: the theorems at concrete inputs.
use wtools.Prelude.{◌≡◌, refl, arith, none, some, List, [], ◌∷◌, replicate}
use wtools.Prelude.Int.{pos}
use wtools.Buffer.{Bytes}
use wtools.Buffer.Laws.{splice}
use wtools.Bkv.{ok, State, Handle}
use wtools.Bkv.Spec as Spec
use wtools.Bkv.Spec.{Entry}
use wtools.RoundTrip.{new_handle}
use wtools.Val
use wtools.Val.Maps.{map_bytes}
use wtools.Val.Holding.{HoldsAt-splice_same}
use wtools.Print.{map_open, map_close, uint32, str, bkv_print2}
use wtools.Print.Lines.{bkv_print2-printout}
use wtools.Prelude.Int.{negsuc}
use wtools.Lg.{ProcessCtx, s_current_process_ctx, null, warn, level_word, lg_print, lg_term}
use wtools.Lg.FileNames.{lg_print-last_one}
use wtools.Lg.Libraries.{add_libs, lg_term-twice}

abbrev entries : List Entry
entries = (1, Spec.u32 0xFFFF_FFFF) ∷ (2, Spec.str (b'o' ∷ b'k' ∷ 0 ∷ b'!' ∷ [])) ∷ []

abbrev document : Bytes
document = splice 0 (map_bytes 3 20 entries 7) (replicate 32 0)

abbrev handle : Handle
handle = record {
  bkv = record (new_handle document) { state = State.term; write_offset = 20 };
  end_hdl = none;
}

bkv_print2-printout_example :
    bkv_print2 (some handle) []
    ≡ Val.returns ok
        (map_open 3 ∷ (uint32 1 (negsuc 0) ∷ (str 2 (b'o' ∷ b'k' ∷ []) ∷ (map_close 7 ∷ []))))
bkv_print2-printout_example =
    bkv_print2-printout document handle 3 20 7 entries [] (omega arith)
      (omega arith, omega arith, (omega arith, omega arith, tt)) (tt, (tt, tt))
      (HoldsAt-splice_same (replicate 32 0) 0 (map_bytes 3 20 entries 7) (omega arith)) refl

lg_print-last_one_example :
    lg_print warn (b'a' ∷ b'/' ∷ b'b' ∷ b'.' ∷ b'c' ∷ 0 ∷ []) 12 none
    ≡ some (record { level = level_word warn; file = b'c' ∷ []; line = 12; function = none })
lg_print-last_one_example =
    lg_print-last_one warn (b'a' ∷ b'/' ∷ b'b' ∷ b'.' ∷ b'c' ∷ []) [] 12 none
      (refl, (refl, (refl, (refl, (refl, tt)))))

lg_term-twice_example :
    (c c' : ProcessCtx) × (add_libs s_current_process_ctx
        ((b'k' ∷ b't' ∷ []) ∷ (b'l' ∷ b'g' ∷ []) ∷ [])
      ≡ some c)
    × (c.nb_libs ≡ 2)
    × (lg_term c ≡ some (pos 0, c'))
    × (c'.libs ≡ null)
    × (lg_term c' ≡ none)
lg_term-twice_example =
    lg_term-twice (b'k' ∷ b't' ∷ []) ((b'l' ∷ b'g' ∷ []) ∷ [])
      ((refl, (refl, tt)), ((refl, (refl, tt)), tt))
