-- ===== src/Bkv/Invariant/Steps.antt =====
-- The steps that the operations of bkv/src/bkv.c share, and what they keep of a handle.
use wtools.Prelude.{
  ℕ, ◌+◌, ◌≡◌, ◌∙◌, inl, inr, Bool, true, false, not, Bool-cases, Option, some, none, List, length,
  ltb, if◌then◌else◌,
}
use wtools.Prelude.Int.{ℤ, pos, negsuc, minus_one, eqb_ℤ, ◌+ℤ◌}
use wtools.Prelude.Chain.{◌>>=◌, bind-eq-some}
use wtools.Buffer.{Bytes, store_all}
use wtools.Buffer.Laws.{length-store}
use wtools.ByteOrder.{cpu_to_le16}
use wtools.Libc.{Libc}
use wtools.Bkv.{ok, hdl_inv, inv_state, State, Action, Bkv, at_index, deep_char, check_state}
use wtools.Bkv.Prepare.{bkv_prepare, at_write_offset, set_key}
use wtools.Bkv.Scalars.{prepared, kv_add}
use wtools.Bkv.Nesting.{store_index, store_ptr, put_le16_at, open_level}
use wtools.Bkv.Arrays.{count_elem, array_add}
use wtools.Bkv.Growth.{prepare_not_ko}
use wtools.Bkv.Invariant.{
  IsWell, Keeps, prepare-IsWell, block-IsWell, at_write_offset-Keeps, set_key-KeepsLength,
  cpu_to_le16-KeepsLength, length-store_all,
}

-- An operation that keeps it where it does not fault, whatever code it answers.
abbrev pub KeepsAnswer : (Bkv → Option (ℤ × Bkv)) → Type 0
KeepsAnswer f = (h h' : Bkv) (ret : ℤ) → f h ≡ some (ret, h') → IsWell h → IsWell h'

pub stays-IsWell :
    {ret code : ℤ} (h h' : Bkv)
    → ◌≡◌ {A = Option (ℤ × Bkv)} (some (code, h)) (some (ret, h'))
    → IsWell h
    → IsWell h'
stays-IsWell h h' e w = let same : h ≡ h' = cc in rw same at w

pub prepared-Keeps :
    (libc : Libc) (size : ℕ) (body : Bkv → Option Bkv)
    → Keeps body
    → KeepsAnswer (prepared libc size body)
unfolding prepared
prepared-Keeps libc size body k h h' ret e w =
    let (p, made, later) =
      bind-eq-some (bkv_prepare libc h size)
        (λ p.
          if eqb_ℤ minus_one p.0 then some (inv_state, p.1) else (body p.1 >>= λ b. some (ok, b)))
        e in
    let ne = prepare_not_ko libc h size made in
    let (b, written, last) = bind-eq-some (body p.1) (λ b. some (ok, b)) (rw ne at later) in
    stays-IsWell b h' last (k p.1 b written (prepare-IsWell libc h size made w))

-- Behind a test that leaves the handle as it is.
pub guarded-Keeps :
    (test : Bool) (code : ℤ) (f : Bkv → Option (ℤ × Bkv)) (h h' : Bkv) (ret : ℤ)
    → KeepsAnswer f
    → (if test then some (code, h) else f h) ≡ some (ret, h')
    → IsWell h
    → IsWell h'
guarded-Keeps true code f h h' ret k e w = stays-IsWell h h' e w
guarded-Keeps false code f h h' ret k e w = k h h' ret e w

pub kv_add-Keeps :
    (libc : Libc) (key size : ℕ) (body : Bkv → Option Bkv)
    → Keeps body
    → KeepsAnswer (kv_add libc key size body)
unfolding kv_add
kv_add-Keeps libc key size body k h h' ret e w = elim (Bool-cases (ltb 0xFFF key)) [
  | inl t ↦ stays-IsWell h h' (rw t at e) w
  | inr t ↦
      let (c, read, later) =
        bind-eq-some (deep_char h)
          (λ c.
            if not (check_state h.state c Action.set_key)
            then some (hdl_inv, h)
            else prepared libc size body h)
          (rw t at e) in
      guarded-Keeps _ hdl_inv (prepared libc size body) h h' ret (prepared-Keeps libc size body k)
        later w
]

pub array_add-Keeps :
    (libc : Libc) (char : Bkv → Option ℤ) (size : ℕ) (body : Bkv → Option Bkv)
    → Keeps body
    → KeepsAnswer (λ h. array_add libc (char h) size body h)
unfolding array_add
array_add-Keeps libc char size body k h h' ret e w =
    let (c, read, later) =
      bind-eq-some (char h)
        (λ c.
          if not (check_state h.state c Action.set_array_key)
          then some (hdl_inv, h)
          else prepared libc size body h)
        e in
    guarded-Keeps _ hdl_inv (prepared libc size body) h h' ret (prepared-Keeps libc size body k)
      later w

pub length-store_index :
    (i : ℤ) (v : ℕ) (xs : List ℕ) {ys : List ℕ}
    → store_index i v xs ≡ some ys
    → length ys ≡ length xs
length-store_index (pos i) v xs e = length-store i v xs e
length-store_index (negsuc i) v xs e = cc

-- Other levels in the place of the handle's.
pub levels-IsWell :
    (h : Bkv) (offset : ℕ) (deep : ℤ) (state : State) (values offsets counts : List ℕ)
    → IsWell h
    → length values ≡ 32
    → length offsets ≡ 32
    → length counts ≡ 32
    → IsWell (record h {
      write_offset = offset;
      deep_offset = deep;
      state = state;
      deep_value = values;
      map_offset = offsets;
      array_nb_elems = counts;
    })
levels-IsWell h offset deep state values offsets counts w v o c = record {
  block = w.block;
  is_sized = record {
    held = w.is_sized.held;
    sized = w.is_sized.sized;
    no_limit = w.is_sized.no_limit;
    chunk = w.is_sized.chunk;
  };
  values = v;
  offsets = o;
  counts = c;
}

pub count_elem-Keeps : Keeps count_elem
unfolding count_elem
count_elem-Keeps h h' e w =
    let (n, read, e1) =
      bind-eq-some (at_index h.deep_offset h.array_nb_elems)
        (λ n. store_index h.deep_offset (n + 1) h.array_nb_elems >>= λ cs.
          some (record h { array_nb_elems = cs }))
        e in
    let (cs, stored, e2) =
      bind-eq-some (store_index h.deep_offset (n + 1) h.array_nb_elems)
        (λ cs. some (record h { array_nb_elems = cs })) e1 in
    let same : record h { array_nb_elems = cs } ≡ h' = cc in
    rw same at (
      levels-IsWell h h.write_offset h.deep_offset h.state h.deep_value h.map_offset cs w w.values
        w.offsets (length-store_index h.deep_offset (n + 1) h.array_nb_elems stored ∙ w.counts))

pub store_ptr-Keeps : (f : Bkv → ℕ) (vs : Bytes) → Keeps (λ h. store_ptr (f h) vs h)
store_ptr-Keeps f vs h h' e w =
    let (m, held, e1) =
      bind-eq-some h.ptr (λ m. store_all (f h) vs m >>= λ m'. some (record h { ptr = some m' }))
        e in
    let (m', stored, e2) =
      bind-eq-some (store_all (f h) vs m) (λ m'. some (record h { ptr = some m' })) e1 in
    let same : record h { ptr = some m' } ≡ h' = cc in
    rw same at (block-IsWell h m m' h.write_offset w held (length-store_all (f h) vs m stored))

pub put_le16_at-Keeps : (i v : ℕ) → Keeps (put_le16_at i v)
unfolding put_le16_at
put_le16_at-Keeps i v h h' e w =
    let (m, held, e1) =
      bind-eq-some h.ptr (λ m. cpu_to_le16 v m i none >>= λ r. some (record h { ptr = some r.0 }))
        e in
    let (r, stored, e2) =
      bind-eq-some (cpu_to_le16 v m i none) (λ r. some (record h { ptr = some r.0 })) e1 in
    let same : record h { ptr = some r.0 } ≡ h' = cc in
    rw same at
      (block-IsWell h m r.0 h.write_offset w held (cpu_to_le16-KeepsLength v m i none r stored))

pub open_level-Keeps :
    (hdr_type value_size char : ℕ) (state : State) (key : ℕ)
    → Keeps (open_level hdr_type value_size char state key)
unfolding open_level
open_level-Keeps hdr_type value_size char state key h h' e w =
    let raised : Bkv → List ℕ → Bkv = λ b vs. record b {
      write_offset = b.write_offset + value_size;
      deep_offset = b.deep_offset +ℤ pos 1;
      deep_value = vs;
      state = state;
    } in
    let push : Bkv → Option Bkv =
      λ b. store_index (b.deep_offset +ℤ pos 1) char b.deep_value >>= λ vs. some (raised b vs) in
    let (os, stored, e1) =
      bind-eq-some (store_index (h.deep_offset +ℤ pos 1) h.write_offset h.map_offset)
        (λ os. at_write_offset (set_key hdr_type key) (record h { map_offset = os }) >>= push) e in
    let h0 : Bkv = record h { map_offset = os } in
    let w0 : IsWell h0 =
      levels-IsWell h h.write_offset h.deep_offset h.state h.deep_value os h.array_nb_elems w
        w.values
        (length-store_index (h.deep_offset +ℤ pos 1) h.write_offset h.map_offset stored ∙ w.offsets)
        w.counts in
    let (h1, written, e2) = bind-eq-some (at_write_offset (set_key hdr_type key) h0) push e1 in
    let w1 =
      at_write_offset-Keeps (set_key hdr_type key) (set_key-KeepsLength hdr_type key) h0 h1 written
        w0 in
    let (vs, pushed, e3) =
      bind-eq-some (store_index (h1.deep_offset +ℤ pos 1) char h1.deep_value)
        (λ vs. some (raised h1 vs)) e2 in
    let same : raised h1 vs ≡ h' = cc in
    rw same at (
      levels-IsWell h1 (h1.write_offset + value_size) (h1.deep_offset +ℤ pos 1) state vs
        h1.map_offset h1.array_nb_elems w1
        (length-store_index (h1.deep_offset +ℤ pos 1) char h1.deep_value pushed ∙ w1.values)
        w1.offsets w1.counts)
