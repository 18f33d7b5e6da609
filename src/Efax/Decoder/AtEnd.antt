-- ===== src/Efax/Decoder/AtEnd.antt =====
-- The last EOL of the data in readfaxruns of efax/efax.c: the bits behind it are those that the end of
-- the data is read as.
use mathlib.Core.Path.{subst}
use secure_e_fax.Prelude.{
  ℕ, zero, suc, ◌+◌, ◌-◌, ◌*◌, ◌/◌, ◌%◌, ◌^◌, ◌≤◌, ◌<◌, ◌≡◌, refl, sym, ap, ◌∙◌, List, [], ◌∷◌,
  ◌++◌, ◌⊎◌, ltb, leb, length, arith, Bool-cases, inl, inr, true, false,
}
use secure_e_fax.Text.{Bytes}
use secure_e_fax.Text.Decimal.{pos, negsuc}
use secure_e_fax.Outcome.{ok}
use secure_e_fax.Efax.Bits.{
  bits, bits-append, bits-shift, bits-mod, value, value-bits, value-lt, length-bits, AreBits,
  bits-AreBits, pow_pos, pow_suc,
}
use secure_e_fax.Efax.Encoder.Stream.{byte_bits}
use secure_e_fax.Efax.Decoder.{
  fill, tw1, Reader, refill, step, lookup, read_codes, combine, rtc_eol, Answer, eof, failed,
  Decoder, finish, readfaxruns,
}
use secure_e_fax.Efax.Decoder.Checks.{entry}
use secure_e_fax.Efax.Decoder.Window.{AreBytes, undecoded, window}
use secure_e_fax.Efax.Decoder.Lookup.{Goes, first_lookup, short_lookup, read-skip, read-end}
use secure_e_fax.Efax.Decoder.Eol.{
  eol_bits, end-Hits, second-Hits, eol_bits-long, eol_bits-AreBits, eol_bits-fewer, zero_div,
}
use secure_e_fax.Efax.Decoder.Codes.{first, second, eol_first}
use secure_e_fax.Efax.Decoder.Runs.{At}

-- What the end of the data is read as: fill and an EOL.
abbrev pub end_bits : List ℕ
end_bits = bits 15 1 []

abbrev padded : Bytes → Reader → List ℕ
padded s r = bits r.avail r.x (byte_bits s end_bits)

byte_bits-end : (s : Bytes) (t : List ℕ) → byte_bits s t ≡ byte_bits s [] ++ t
byte_bits-end [] t = refl
byte_bits-end (c ∷ s) t =
    ap (bits 8 c) (byte_bits-end s t) ∙ sym (bits-append 8 c (byte_bits s []) t)

padded_lem : (s : Bytes) (r : Reader) → padded s r ≡ bits r.avail r.x (byte_bits s []) ++ end_bits
padded_lem s r =
    ap (bits r.avail r.x) (byte_bits-end s end_bits)
    ∙ sym (bits-append r.avail r.x (byte_bits s []) end_bits)

abbrev one_more : ℕ → Reader → Reader
one_more c r = record r { x = (r.x * 2 ^ 8 + c) % 2 ^ 32; avail = r.avail + 8; ended = false }

bits-one_more :
    (c : ℕ) (rest : List ℕ) (r : Reader)
    → r.avail ≤ 16
    → c < 256
    → bits (one_more c r).avail (one_more c r).x rest ≡ bits r.avail r.x (bits 8 c rest)
bits-one_more c rest r le lt =
    let wide : r.avail + 8 + (24 - r.avail) ≡ 32 = omega arith in
    let swap : r.avail + 8 ≡ 8 + r.avail = omega arith in
    ap (λ j. bits (r.avail + 8) ((r.x * 2 ^ 8 + c) % 2 ^ j) rest) (sym wide)
    ∙ bits-mod (r.avail + 8) (24 - r.avail) (r.x * 2 ^ 8 + c) rest
    ∙ ap (λ j. bits j (r.x * 2 ^ 8 + c) rest) swap
    ∙ bits-shift 8 r.avail r.x c rest lt

-- A reader that has got nine bits.
record Refilled (s : Bytes) (r r1 : Reader) : Type 0 where
  enough : 9 ≤ r1.avail
  with_end : bits r1.avail r1.x (byte_bits r1.input []) ≡ padded s r
  tab_kept : r1.tab ≡ r.tab

refill-Refilled :
    (s : Bytes) (r : Reader)
    → AreBytes s
    → length (bits r.avail r.x (byte_bits s [])) < 9
    → Refilled s r (refill s r)
unfolding refill
refill-Refilled [] r b short =
    let le : r.avail ≤ 8 = omega (arith, length-bits r.avail r.x []) in
    let few : ltb r.avail 9 ≡ true = ground arith in
    let wide : r.avail + 15 + (17 - r.avail) ≡ 32 = omega arith in
    let swap : r.avail + 15 ≡ 15 + r.avail = omega arith in
    rw few (record {
      enough = omega arith;
      with_end =
          ap (λ j. bits (r.avail + 15) ((r.x * 2 ^ 15 + 1) % 2 ^ j) []) (sym wide)
          ∙ bits-mod (r.avail + 15) (17 - r.avail) (r.x * 2 ^ 15 + 1) []
          ∙ ap (λ j. bits j (r.x * 2 ^ 15 + 1) []) swap
          ∙ bits-shift 15 r.avail r.x 1 [] (omega arith);
      tab_kept = refl;
    })
refill-Refilled (c ∷ s) r b short =
    let le : r.avail ≤ 8 = omega (arith, length-bits r.avail r.x (bits 8 c (byte_bits s []))) in
    let few : ltb r.avail 9 ≡ true = ground arith in
    let same = bits-one_more c (byte_bits s []) r (omega arith) b.0 in
    let f = refill-Refilled s (one_more c r) b.1 (omega (arith, ap length same)) in
    rw few (record {
      enough = f.enough;
      with_end = f.with_end ∙ bits-one_more c (byte_bits s end_bits) r (omega arith) b.0;
      tab_kept = f.tab_kept;
    })

-- A last EOL of fewer than nine bits, in the fill, is found.
pub read_last :
    (f y : ℕ) (r : Reader)
    → Goes r fill (eol_bits y [])
    → y < 8
    → read_codes (suc f) r ≡ ok ([], (step r).1)
unfolding step
read_last f y r g lt =
    let r1 = refill r.input r in
    let short : length (bits r.avail r.x (byte_bits r.input [])) < 9 =
      omega (arith, ap length g.left, eol_bits-long y []) in
    let v = refill-Refilled r.input r g.ready.bytes short in
    let all : undecoded r1 ≡ eol_bits y end_bits =
      v.with_end
      ∙ padded_lem r.input r
      ∙ ap (λ t. t ++ end_bits) g.left
      ∙ bits-append y 0 (1 ∷ []) end_bits in
    let nine : suc y + (8 - y) ≡ 9 = omega arith in
    let exp : 8 - y ≡ 9 - suc y = omega arith in
    let code : value 9 (undecoded r1) ≡ 1 * 2 ^ (9 - suc y) + value (9 - suc y) end_bits =
      ap (value 9) all
      ∙ ap (λ j. value j (eol_bits y end_bits)) (sym nine)
      ∙ value-bits (suc y) (8 - y) 1 end_bits (omega (arith, pow_suc y, pow_pos y))
      ∙ ap (λ j. 1 * 2 ^ j + value j end_bits) exp in
    let found : (step r).0 ≡ entry (negsuc 0) (suc y) tw1 =
      ap (λ n. lookup r1.tab n) (sym (window r1.avail r1.x (byte_bits r1.input []) v.enough))
      ∙ ap (λ t. lookup t (value 9 (undecoded r1))) (v.tab_kept ∙ g.in_tab)
      ∙ ap (lookup fill) code
      ∙ end-Hits y (omega arith) (value (9 - suc y) end_bits)
          (value-lt (9 - suc y) end_bits (bits-AreBits 15 1 [] tt)) in
    read-end f r (ap (λ t. t.code) found)

-- The last EOL with one byte behind it.
read_last_byte :
    (f : ℕ) (r : Reader)
    → Goes r fill (eol_bits 0 (eol_bits 7 []))
    → read_codes (suc f) r ≡ ok ([], (step r).1)
read_last_byte f r g =
    let (found, goes, st) =
      short_lookup r fill 1 1 (entry (negsuc 0) 1 tw1) (eol_bits 7 []) (end-Hits 0 (omega arith))
        refl (omega arith) (omega arith) g (omega arith) (eol_bits-AreBits 7 [] tt) in
    read-end f r (ap (λ t. t.code) found)

-- The zeros and what is behind the one, in the two ways in which the data can end.
abbrev pub IsLast : ℕ → List ℕ → Type 0
IsLast m s = ((s ≡ []) × (12 ≤ m) × (m < 19)) ⊎ ((s ≡ eol_bits 7 []) × (m ≡ 11))

pub IsLast-bounds :
    (m : ℕ) (s : List ℕ) → IsLast m s → (11 ≤ m) × (9 ≤ 7 + (m - 11 + suc (length s))) × AreBits s
IsLast-bounds m s (inl (e, ge, lt)) =
    (omega arith, omega (arith, ap length e), subst (λ t. AreBits t) (sym e) tt)
IsLast-bounds m s (inr (e, eleven)) = (
  omega arith,
  omega (arith, ap length e),
  subst (λ t. AreBits t) (sym e) (eol_bits-AreBits 7 [] tt),
)

read_last_fill :
    (f m : ℕ) (r : Reader) (s : List ℕ)
    → Goes r fill (eol_bits (m - 11) s)
    → IsLast m s
    → (r1 : Reader) × (read_codes (suc f) r ≡ ok ([], r1))
read_last_fill f m r s g (inl (e, ge, lt)) = (
  (step r).1,
  read_last f (m - 11) r (subst (λ t. Goes r fill (eol_bits (m - 11) t)) e g) (omega arith),
)
read_last_fill f m r s g (inr (e, eleven)) =
    let zeros : m - 11 ≡ 0 = omega arith in
    (
      (step r).1,
      read_last_byte f r (
          subst (λ n. Goes r fill (eol_bits n (eol_bits 7 []))) zeros
            (subst (λ t. Goes r fill (eol_bits (m - 11) t)) e g)),
    )

-- The EOL at the end of the data, as it is read from the start of a line, is found.
pub read_last_eol :
    (f m : ℕ) (r : Reader) (s : List ℕ)
    → Goes r (first true) (eol_bits m s)
    → IsLast m s
    → (r1 : Reader) × (read_codes (suc (suc (suc f))) r ≡ ok ([], r1))
read_last_eol f m r s g last =
    let (ge, long, are_bits) = IsLast-bounds m s last in
    let none : 0 / 2 ^ (m - 9) ≡ 0 = zero_div (2 ^ (m - 9)) (pow_pos (m - 9)) in
    let (found, goes, st) =
      first_lookup r (first true) m 0 (entry (pos 0) 4 (second true)) (1 ∷ s)
        (ap (lookup (first true)) none ∙ eol_first true) refl (omega arith) (pow_pos (m - 4))
        (omega arith) g in
    let rest = eol_bits (m - 11) s in
    let fewer : m - 4 - 7 ≡ m - 11 = omega arith in
    let split : eol_bits (m - 4) s ≡ bits 7 0 rest =
      eol_bits-fewer 7 (m - 4) s (omega arith) ∙ ap (λ j. bits 7 0 (eol_bits j s)) fewer in
    let (found1, goes1, st1) =
      short_lookup (step r).1 (second true) 7 0 (entry (pos 0) 7 fill) rest (second-Hits true) refl
        (omega arith) (omega arith) (subst (λ t. Goes (step r).1 (second true) t) split goes)
        (omega (arith, eol_bits-long (m - 11) s)) (eol_bits-AreBits (m - 11) s are_bits) in
    let (r3, e) = read_last_fill f m (step (step r).1).1 s goes1 last in
    (
      r3,
      read-skip (suc (suc f)) r (ap (λ t. t.code) found)
          ∙ read-skip (suc f) (step r).1 (ap (λ t. t.code) found1)
          ∙ e,
    )

-- The answer of readfaxruns to the last EOL, which is at least the fifth without a gap, ends the page.
pub read_last_line :
    (f m : ℕ) (d : Decoder) (s : List ℕ)
    → At d (eol_bits m s)
    → IsLast m s
    → 4 ≤ d.eolcnt
    → 3 ≤ f
    → (a : Answer) × (d1 : Decoder) × ((a ≡ eof) ⊎ (a ≡ failed)) × (readfaxruns f d ≡ ok (a, d1))
unfolding readfaxruns finish combine
read_last_line (suc (suc (suc f))) m d s a last count le =
    let start : Reader = record d.reader { ended = true } in
    let g : Goes start (first true) (eol_bits m s) = record {
      ready = record { few = a.goes.ready.few; bytes = a.goes.ready.bytes };
      in_tab = a.goes.in_tab;
      left = a.goes.left;
    } in
    let (r1, e) = read_last_eol f m start s g last in
    let after : Decoder = record { reader = r1; eolcnt = d.eolcnt + 1 } in
    let over : leb rtc_eol (d.eolcnt + 1) ≡ true = ground arith in
    elim (Bool-cases (r1.ended)) [
      | inl ended ↦ (failed, after, inr refl, rw e (rw ended refl))
      | inr more ↦ (eof, after, inl refl, rw e (rw more (rw over refl)))
    ]
read_last_line zero m d s a last count le = absurd (omega arith)
read_last_line (suc zero) m d s a last count le = absurd (omega arith)
read_last_line (suc (suc zero)) m d s a last count le = absurd (omega arith)
