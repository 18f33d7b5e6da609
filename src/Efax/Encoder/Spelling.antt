-- ===== src/Efax/Encoder/Spelling.antt =====
-- The codes of a line as a string of bits, written out apart from the encoder and the decoder.
use mathlib.Core.Path.{subst}
use secure_e_fax.Prelude.{
  ℕ, ◌+◌, ◌/◌, ◌%◌, ◌≤◌, ◌≡◌, sym, ap, ◌∙◌, List, [], ◌∷◌, Bool, true, false, not, ltb,
  if◌then◌else◌, length, arith, Bool-cases, inl, inr, Option, none, some, get_elem?,
}
use secure_e_fax.Efax.Tables.{T4}
use secure_e_fax.Efax.Bits.{bits, length-bits, AreBits, bits-AreBits}
use secure_e_fax.Efax.Encoder.{table}

-- The bits of an entry of the table, of the codes of a run, and of those of a line.
abbrev pub entry_bits : Option T4 → List ℕ → List ℕ
entry_bits none s = s
entry_bits (some t) s = bits t.bits t.code s

abbrev pub run_bits : Bool → ℕ → List ℕ → List ℕ
run_bits white run s =
    let last = entry_bits (get_elem? (table white) (run % 64)) s in
    if ltb 63 run then entry_bits (get_elem? (table white) (63 + run / 64)) last else last

abbrev pub line_bits : Bool → List ℕ → List ℕ → List ℕ
line_bits white [] s = s
line_bits white (run ∷ runs) s = run_bits white run (line_bits (not white) runs s)

pub entry_bits-AreBits : (t : Option T4) (s : List ℕ) → AreBits s → AreBits (entry_bits t s)
entry_bits-AreBits none s b = b
entry_bits-AreBits (some t) s b = bits-AreBits t.bits t.code s b

pub entry_bits-long : (t : Option T4) (s : List ℕ) → length s ≤ length (entry_bits t s)
entry_bits-long none s = omega arith
entry_bits-long (some t) s = omega (arith, length-bits t.bits t.code s)

pub make_up_bits :
    (white : Bool) (run : ℕ) (s : List ℕ)
    → ltb 63 run ≡ true
    → run_bits white run s
      ≡ entry_bits
          (get_elem? (table white) (63 + run / 64))
          (entry_bits (get_elem? (table white) (run % 64)) s)
make_up_bits white run s big =
    ap
      (λ t.
        if t
        then entry_bits (get_elem? (table white) (63 + run / 64))
            (entry_bits (get_elem? (table white) (run % 64)) s)
        else entry_bits (get_elem? (table white) (run % 64)) s)
      big

pub last_bits :
    (white : Bool) (run : ℕ) (s : List ℕ)
    → ltb 63 run ≡ false
    → run_bits white run s ≡ entry_bits (get_elem? (table white) run) s
last_bits white run s small =
    let same : run % 64 ≡ run = ground arith in
    ap
      (λ t.
        if t
        then entry_bits (get_elem? (table white) (63 + run / 64))
            (entry_bits (get_elem? (table white) (run % 64)) s)
        else entry_bits (get_elem? (table white) (run % 64)) s)
      small
    ∙ ap (λ j. entry_bits (get_elem? (table white) j) s) same

run_bits-long : (white : Bool) (run : ℕ) (s : List ℕ) → length s ≤ length (run_bits white run s)
run_bits-long white run s = elim (Bool-cases (ltb 63 run)) [
  | inl big ↦
      let last = entry_bits (get_elem? (table white) (run % 64)) s in
      subst (λ t. length s ≤ length t) (sym (make_up_bits white run s big))
        (omega (
          arith,
          entry_bits-long (get_elem? (table white) (63 + run / 64)) last,
          entry_bits-long (get_elem? (table white) (run % 64)) s,
        ))
  | inr small ↦
      subst (λ t. length s ≤ length t) (sym (last_bits white run s small))
        (entry_bits-long (get_elem? (table white) run) s)
]

run_bits-AreBits :
    (white : Bool) (run : ℕ) (s : List ℕ) → AreBits s → AreBits (run_bits white run s)
run_bits-AreBits white run s b = elim (Bool-cases (ltb 63 run)) [
  | inl big ↦
      subst (λ t. AreBits t) (sym (make_up_bits white run s big))
        (entry_bits-AreBits (get_elem? (table white) (63 + run / 64)) _
          (entry_bits-AreBits (get_elem? (table white) (run % 64)) s b))
  | inr small ↦
      subst (λ t. AreBits t) (sym (last_bits white run s small))
        (entry_bits-AreBits (get_elem? (table white) run) s b)
]

pub line_bits-long : (white : Bool) (runs s : List ℕ) → length s ≤ length (line_bits white runs s)
line_bits-long white [] s = omega arith
line_bits-long white (run ∷ runs) s = omega (
  arith,
  line_bits-long (not white) runs s,
  run_bits-long white run (line_bits (not white) runs s),
)

pub line_bits-AreBits :
    (white : Bool) (runs s : List ℕ) → AreBits s → AreBits (line_bits white runs s)
line_bits-AreBits white [] s b = b
line_bits-AreBits white (run ∷ runs) s b =
    run_bits-AreBits white run _ (line_bits-AreBits (not white) runs s b)
