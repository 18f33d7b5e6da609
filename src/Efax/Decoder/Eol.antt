-- ===== src/Efax/Decoder/Eol.antt =====
-- The EOL behind a line: at least eleven zeros and a one.
use mathlib.Core.Path.{subst}
use secure_e_fax.Prelude.{
  ℕ, zero, suc, ◌+◌, ◌-◌, ◌*◌, ◌/◌, ◌^◌, ◌≤◌, ◌<◌, ◌≡◌, ◌⊎◌, refl, sym, ap, ◌∙◌, List, [], ◌∷◌,
  Bool, false, ltb, length, arith, Bool-cases, inl, inr,
}
use secure_e_fax.Text.Decimal.{pos, negsuc}
use secure_e_fax.Outcome.{ok}
use secure_e_fax.Efax.Bits.{bits, bits-split, length-bits, AreBits, bits-AreBits, pow_pos, pow_suc}
use secure_e_fax.Efax.Decoder.{fill, tw1, Reader, step, lookup, read_codes}
use secure_e_fax.Efax.Decoder.Checks.{Hits, entry}
use secure_e_fax.Efax.Decoder.Codes.{first, second, eol_first, eol_second, eol_fill, eol_end}
use secure_e_fax.Efax.Decoder.Lookup.{Goes, one_lookup, first_lookup, read-skip, read-end}

-- m zeros and the one behind them.
abbrev pub eol_bits : ℕ → List ℕ → List ℕ
eol_bits m s = bits m 0 (1 ∷ s)

pub zero_div : (n : ℕ) → 1 ≤ n → 0 / n ≡ 0
zero_div n ge = grind arith

pub zeros_split : (k n : ℕ) (s : List ℕ) → bits (k + n) 0 s ≡ bits n 0 (bits k 0 s)
zeros_split k n s =
    bits-split k n 0 s ∙ ap (λ v. bits n v (bits k 0 s)) (zero_div (2 ^ k) (pow_pos k))

-- What the end of a line comes to.
pub record Ends (f : ℕ) (r : Reader) (s : List ℕ) : Type 0 where
  pub ends_at : Reader
  pub goes : Goes ends_at tw1 s
  pub has_data : ends_at.ended ≡ false
  pub equation : read_codes f r ≡ ok ([], ends_at)

-- A reader in the fill that has read a byte of this line, or must read one now.
record InFill (r : Reader) (s : List ℕ) : Type 0 where
  goes : Goes r fill s
  read : (r.ended ≡ false) ⊎ (r.avail < 9)

still_read :
    (r r1 : Reader) (n : ℕ)
    → (r.ended ≡ false) ⊎ (r.avail < 9)
    → (r1.ended ≡ false) ⊎ ((r1.ended ≡ r.ended) × (r1.avail + n ≡ r.avail) × (9 ≤ r.avail))
    → r1.ended ≡ false
still_read r r1 n a (inl e) = e
still_read r r1 n (inl e) (inr (k, m, ge)) = k ∙ e
still_read r r1 n (inr lt) (inr (k, m, ge)) = absurd (omega arith)

pub eol_bits-AreBits : (m : ℕ) (s : List ℕ) → AreBits s → AreBits (eol_bits m s)
eol_bits-AreBits m s b = bits-AreBits m 0 (1 ∷ s) (omega arith, b)

pub eol_bits-long : (m : ℕ) (s : List ℕ) → length (eol_bits m s) ≡ m + suc (length s)
eol_bits-long m s = length-bits m 0 (1 ∷ s)

pub eol_bits-fewer : (k m : ℕ) (s : List ℕ) → k ≤ m → eol_bits m s ≡ bits k 0 (eol_bits (m - k) s)
eol_bits-fewer k m s le =
    let e : m - k + k ≡ m = omega arith in
    ap (λ j. eol_bits j s) (sym e) ∙ zeros_split (m - k) k (1 ∷ s)

fill-Hits : Hits (lookup fill) 0 9 (entry (pos 0) 9 fill)
fill-Hits j lt = let z : 0 * 2 ^ (9 - 9) + j ≡ 0 = omega arith in ap (lookup fill) z ∙ eol_fill

pub second-Hits : (white : Bool) → Hits (lookup (second white)) 0 7 (entry (pos 0) 7 fill)
second-Hits white j lt =
    let z : 0 * 2 ^ (9 - 7) + j ≡ j = omega arith in
    ap (lookup (second white)) z ∙ eol_second white j lt

one_times : (t : ℕ) → 1 * t ≡ t
one_times t = omega arith

pub end-Hits : (z : ℕ) → z < 9 → Hits (lookup fill) 1 (suc z) (entry (negsuc 0) (suc z) tw1)
end-Hits z lt j small =
    let exp : 9 - suc z ≡ 8 - z = omega arith in
    let same : 1 * 2 ^ (9 - suc z) + j ≡ 2 ^ (8 - z) + j =
      ap (λ n. 1 * 2 ^ n + j) exp ∙ ap (λ t. t + j) (one_times (2 ^ (8 - z))) in
    let count : 9 - (8 - z) ≡ suc z = omega arith in
    ap (lookup fill) same
    ∙ eol_end (8 - z) j (omega arith) (subst (λ n. j < 2 ^ n) exp small)
    ∙ ap (λ n. entry (negsuc 0) n tw1) count

-- The one, behind up to eight zeros.
read_one :
    (f : ℕ) (r : Reader) (z : ℕ) (s : List ℕ)
    → InFill r (eol_bits z s)
    → 9 ≤ length s
    → AreBits s
    → z < 9
    → Ends (suc f) r s
read_one f r z s v long b lt =
    let (found, goes, st) =
      one_lookup r fill (suc z) 1 (entry (negsuc 0) (suc z) tw1) s (end-Hits z lt) refl
        (omega arith) (omega (arith, pow_suc z, pow_pos z)) v.goes long b in
    record {
      ends_at = (step r).1;
      goes = goes;
      has_data = still_read r (step r).1 _ v.read st.read;
      equation = read-end f r (ap (λ t. t.code) found);
    }

-- The fill and the one, with z zeros left.
read_fill :
    (f : ℕ) (r : Reader) (z : ℕ) (s : List ℕ)
    → InFill r (eol_bits z s)
    → 9 ≤ length s
    → AreBits s
    → z < f
    → Ends f r s
read_fill zero r z s v long b lt = absurd (omega arith)
read_fill (suc f) r z s v long b lt = elim (Bool-cases (ltb z 9)) [
  | inl few ↦ read_one f r z s v long b (ground arith)
  | inr many ↦
      let nine : 9 ≤ z = ground arith in
      let rest = eol_bits (z - 9) s in
      let (found, goes, st) =
        one_lookup r fill 9 0 (entry (pos 0) 9 fill) rest fill-Hits refl (omega arith) (omega arith)
          (subst (λ t. Goes r fill t) (eol_bits-fewer 9 z s nine) v.goes)
          (omega (arith, eol_bits-long (z - 9) s)) (eol_bits-AreBits (z - 9) s b) in
      let next =
        read_fill f (step r).1 (z - 9) s
          (record { goes = goes; read = inl (still_read r (step r).1 _ v.read st.read) }) long b
          (omega arith) in
      record {
        ends_at = next.ends_at;
        goes = next.goes;
        has_data = next.has_data;
        equation = read-skip f r (ap (λ t. t.code) found) ∙ next.equation;
      }
]

-- After the first eleven zeros at most five bits wait, unless a byte has been read.
two_read :
    (r r1 r2 : Reader)
    → r.avail ≤ 16
    → (r1.ended ≡ false) ⊎ ((r1.ended ≡ r.ended) × (r1.avail + 4 ≡ r.avail) × (9 ≤ r.avail))
    → (r2.ended ≡ false) ⊎ ((r2.ended ≡ r1.ended) × (r2.avail + 7 ≡ r1.avail) × (9 ≤ r1.avail))
    → (r2.ended ≡ false) ⊎ (r2.avail < 9)
two_read r r1 r2 few a (inl e) = inl e
two_read r r1 r2 few (inl e) (inr (k, n, ge)) = inl (k ∙ e)
two_read r r1 r2 few (inr (k, n, ge)) (inr (k1, n1, ge1)) = inr (omega arith)

taken :
    (r r1 : Reader) (n m : ℕ)
    → n ≡ m
    → (r1.ended ≡ false) ⊎ ((r1.ended ≡ r.ended) × (r1.avail + n ≡ r.avail) × (9 ≤ r.avail))
    → (r1.ended ≡ false) ⊎ ((r1.ended ≡ r.ended) × (r1.avail + m ≡ r.avail) × (9 ≤ r.avail))
taken r r1 n m e (inl f) = inl f
taken r r1 n m e (inr (k, c, ge)) = inr (k, omega arith, ge)

-- The EOL in front of a run of either colour.
pub read_eol :
    (f : ℕ) (r : Reader) (white : Bool) (m : ℕ) (s : List ℕ)
    → Goes r (first white) (eol_bits m s)
    → 11 ≤ m
    → 9 ≤ length s
    → AreBits s
    → length (eol_bits m s) ≤ f
    → Ends f r s
read_eol zero r white m s g eleven long b le = absurd (omega (arith, eol_bits-long m s))
read_eol (suc zero) r white m s g eleven long b le = absurd (omega (arith, eol_bits-long m s))
read_eol (suc (suc f)) r white m s g eleven long b le =
    let none : 0 / 2 ^ (m - 9) ≡ 0 = zero_div (2 ^ (m - 9)) (pow_pos (m - 9)) in
    let (found, goes, st) =
      first_lookup r (first white) m 0 (entry (pos 0) 4 (second white)) (1 ∷ s)
        (ap (lookup (first white)) none ∙ eol_first white) refl (omega arith) (pow_pos (m - 4))
        (omega arith) g in
    let rest = eol_bits (m - 11) s in
    let fewer : m - 4 - 7 ≡ m - 11 = omega arith in
    let split : eol_bits (m - 4) s ≡ bits 7 0 rest =
      eol_bits-fewer 7 (m - 4) s (omega arith) ∙ ap (λ j. bits 7 0 (eol_bits j s)) fewer in
    let (found1, goes1, st1) =
      one_lookup (step r).1 (second white) 7 0 (entry (pos 0) 7 fill) rest (second-Hits white) refl
        (omega arith) (omega arith) (subst (λ t. Goes (step r).1 (second white) t) split goes)
        (omega (arith, eol_bits-long (m - 11) s)) (eol_bits-AreBits (m - 11) s b) in
    let next =
      read_fill f (step (step r).1).1 (m - 11) s
        (record {
          goes = goes1;
          read =
              two_read r (step r).1 (step (step r).1).1 g.ready.few
                (taken r (step r).1 _ 4 (ap (λ t. t.bits) found) st.read)
                (taken (step r).1 (step (step r).1).1 _ 7 (ap (λ t. t.bits) found1) st1.read);
        })
        long b (omega (arith, eol_bits-long m s)) in
    record {
      ends_at = next.ends_at;
      goes = next.goes;
      has_data = next.has_data;
      equation =
          read-skip (suc f) r (ap (λ t. t.code) found)
          ∙ read-skip f (step r).1 (ap (λ t. t.code) found1)
          ∙ next.equation;
    }
