-- ===== src/Efax/Decoder/Line.antt =====
-- The loop of readfaxruns of efax/efax.c on the codes of the runs of a line.
use mathlib.Core.Path.{subst}
use secure_e_fax.Prelude.{
  ℕ, zero, suc, ◌+◌, ◌-◌, ◌*◌, ◌/◌, ◌%◌, ◌≤◌, ◌<◌, ◌≡◌, refl, sym, ap, ◌∙◌, List, [], ◌∷◌, ◌++◌,
  Bool, true, false, not, ltb, leb, leb→le, if◌then◌else◌, length, arith, Bool-cases, inl, inr, All,
  get_elem?, append_assoc,
}
use secure_e_fax.Text.Decimal.{pos}
use secure_e_fax.Outcome.{ok}
use secure_e_fax.Efax.Tables.{T4}
use secure_e_fax.Efax.Bits.{bits, length-bits, AreBits}
use secure_e_fax.Efax.Encoder.{table}
use secure_e_fax.Efax.Encoder.Spelling.{
  entry_bits, run_bits, line_bits, entry_bits-AreBits, entry_bits-long, make_up_bits, last_bits,
  line_bits-long, line_bits-AreBits,
}
use secure_e_fax.Efax.Decoder.{Reader, step, read_codes}
use secure_e_fax.Efax.Decoder.Checks.{entry}
use secure_e_fax.Efax.Decoder.Codes.{Place, place, first, second}
use secure_e_fax.Efax.Decoder.Lookup.{Goes, one_lookup, first_lookup, read-skip, read-run}

abbrev pub next_colour : Bool → ℕ → Bool
next_colour white k = if ltb 63 k then white else not white

-- What reading some codes comes to: the rest is read from `then_at`, with fuel for it.
pub record Reads (f : ℕ) (r : Reader) (codes : List ℕ) (white : Bool) (s : List ℕ) : Type 0 where
  pub then_at : Reader
  pub then_fuel : ℕ
  pub goes : Goes then_at (first white) s
  pub enough : length s ≤ then_fuel
  pub equation :
      (cs : List ℕ) (r1 : Reader)
      → read_codes then_fuel then_at ≡ ok (cs, r1)
      → read_codes f r ≡ ok (codes ++ cs, r1)

next_first :
    (white : Bool) (k : ℕ)
    → (if ltb 63 k then first white else first (not white)) ≡ first (next_colour white k)
next_first white k = ground arith

-- A short code, and a long one.
read_short :
    (f : ℕ) (r : Reader) (white : Bool) (k : ℕ) (p : T4) (s : List ℕ)
    → Place white k p
    → p.bits ≤ 9
    → Goes r (first white) (bits p.bits p.code s)
    → 9 ≤ length s
    → AreBits s
    → length s ≤ f
    → Reads (suc f) r (suc p.rlen ∷ []) (next_colour white k) s
read_short f r white k p s pl short g long b le =
    let next = if ltb 63 k then first white else first (not white) in
    let (found, goes, st) =
      one_lookup r (first white) p.bits p.code (entry (pos (suc p.rlen)) p.bits next) s
        (pl.decoded.short short) refl short pl.sound.fits g long b in
    record {
      then_at = (step r).1;
      then_fuel = f;
      goes = record {
        ready = goes.ready;
        in_tab = goes.in_tab ∙ next_first white k;
        left = goes.left;
      };
      enough = le;
      equation = λ cs r1 rest. read-run f p.rlen r r1 cs (ap (λ t. t.code) found) rest;
    }

read_long :
    (f : ℕ) (r : Reader) (white : Bool) (k : ℕ) (p : T4) (s : List ℕ)
    → Place white k p
    → 9 < p.bits
    → Goes r (first white) (bits p.bits p.code s)
    → 9 ≤ length s
    → AreBits s
    → length s ≤ f
    → Reads (suc (suc f)) r (suc p.rlen ∷ []) (next_colour white k) s
read_long f r white k p s pl more g long b le =
    let next = if ltb 63 k then first white else first (not white) in
    let (low, small) = pl.sound.zeros more in
    let (found0, goes0, st0) =
      first_lookup r (first white) p.bits p.code (entry (pos 0) 4 (second white)) s
        (pl.decoded.prefix more) refl more low small g in
    let (found, goes, st) =
      one_lookup (step r).1 (second white) (p.bits - 4) p.code
        (entry (pos (suc p.rlen)) (p.bits - 4) next) s (pl.decoded.long more) refl
        (omega (arith, pl.sound.few_bits)) low goes0 long b in
    record {
      then_at = (step (step r).1).1;
      then_fuel = f;
      goes = record {
        ready = goes.ready;
        in_tab = goes.in_tab ∙ next_first white k;
        left = goes.left;
      };
      enough = le;
      equation = λ cs r1 rest.
          read-skip (suc f) r (ap (λ t. t.code) found0)
          ∙ read-run f p.rlen (step r).1 r1 cs (ap (λ t. t.code) found) rest;
    }

read_place :
    (f : ℕ) (r : Reader) (white : Bool) (k : ℕ) (p : T4) (s : List ℕ)
    → Place white k p
    → Goes r (first white) (bits p.bits p.code s)
    → 9 ≤ length s
    → AreBits s
    → length (bits p.bits p.code s) ≤ f
    → Reads f r (suc p.rlen ∷ []) (next_colour white k) s
read_place zero r white k p s pl g long b le = absurd (omega (arith, length-bits p.bits p.code s))
read_place (suc zero) r white k p s pl g long b le =
    absurd (omega (arith, length-bits p.bits p.code s))
read_place (suc (suc f)) r white k p s pl g long b le = elim (Bool-cases (leb p.bits 9)) [
  | inl short ↦
      read_short (suc f) r white k p s pl (leb→le p.bits 9 short) g long b
        (omega (arith, length-bits p.bits p.code s, pl.sound.some_bits))
  | inr more ↦
      let gt : 9 < p.bits = ground arith in
      read_long f r white k p s pl gt g long b (omega (arith, length-bits p.bits p.code s))
]

-- What the decoder makes of them.
abbrev pub run_codes : ℕ → List ℕ
run_codes run = if ltb 63 run then suc (run / 64 * 64) ∷ suc (run % 64) ∷ [] else suc run ∷ []

abbrev pub line_codes : List ℕ → List ℕ
line_codes [] = []
line_codes (run ∷ runs) = run_codes run ++ line_codes runs

-- The colour of the run behind a line.
abbrev pub colour_after : Bool → List ℕ → Bool
colour_after white [] = white
colour_after white (run ∷ runs) = colour_after (not white) runs

read_entry :
    (f : ℕ) (r : Reader) (white : Bool) (k : ℕ) (s : List ℕ)
    → k < 104
    → Goes r (first white) (entry_bits (get_elem? (table white) k) s)
    → 9 ≤ length s
    → AreBits s
    → length (entry_bits (get_elem? (table white) k) s) ≤ f
    → Reads f r (suc (if ltb 63 k then (k - 63) * 64 else k) ∷ []) (next_colour white k) s
read_entry f r white k s lt g long b le =
    let (p, pl) = place white k lt in
    let e = ap (λ t. entry_bits t s) pl.found in
    subst (λ n. Reads f r (suc n ∷ []) (next_colour white k) s) pl.sound.run
      (read_place f r white k p s pl (subst (λ t. Goes r (first white) t) e g) long b
        (subst (λ t. length t ≤ f) e le))

-- First some codes and then others.
Reads_trans :
    (f : ℕ) (r : Reader) (cs ds : List ℕ) (white white1 : Bool) (s s1 : List ℕ)
    → (a : Reads f r cs white s) → Reads a.then_fuel a.then_at ds white1 s1
    → Reads f r (cs ++ ds) white1 s1
Reads_trans f r cs ds white white1 s s1 a b = record {
  then_at = b.then_at;
  then_fuel = b.then_fuel;
  goes = b.goes;
  enough = b.enough;
  equation = λ es r1 rest.
      a.equation (ds ++ es) r1 (b.equation es r1 rest)
      ∙ ap (λ l. ok (l, r1)) (sym (append_assoc cs ds es));
}

-- A terminating code, and a make-up code.
read_last :
    (f : ℕ) (r : Reader) (white : Bool) (run : ℕ) (s : List ℕ)
    → run < 64
    → Goes r (first white) (entry_bits (get_elem? (table white) run) s)
    → 9 ≤ length s
    → AreBits s
    → length (entry_bits (get_elem? (table white) run) s) ≤ f
    → Reads f r (suc run ∷ []) (not white) s
read_last f r white run s lt g long b le =
    let small : ltb 63 run ≡ false = ground arith in
    subst
      (λ t.
        Reads f r (suc (if t then (run - 63) * 64 else run) ∷ []) (if t then white else not white)
          s)
      small (read_entry f r white run s (omega arith) g long b le)

read_make_up :
    (f : ℕ) (r : Reader) (white : Bool) (n : ℕ) (s : List ℕ)
    → 1 ≤ n
    → n ≤ 40
    → Goes r (first white) (entry_bits (get_elem? (table white) (63 + n)) s)
    → 9 ≤ length s
    → AreBits s
    → length (entry_bits (get_elem? (table white) (63 + n)) s) ≤ f
    → Reads f r (suc (n * 64) ∷ []) white s
read_make_up f r white n s ge lt g long b le =
    let big : ltb 63 (63 + n) ≡ true = ground arith in
    let same : 63 + n - 63 ≡ n = omega arith in
    subst (λ j. Reads f r (suc (j * 64) ∷ []) white s) same
      (subst
        (λ t.
          Reads f r (suc (if t then (63 + n - 63) * 64 else 63 + n) ∷ [])
            (if t then white else not white) s)
        big (read_entry f r white (63 + n) s (omega arith) g long b le))

read_run :
    (f : ℕ) (r : Reader) (white : Bool) (run : ℕ) (s : List ℕ)
    → run < 2624
    → Goes r (first white) (run_bits white run s)
    → 9 ≤ length s
    → AreBits s
    → length (run_bits white run s) ≤ f
    → Reads f r (run_codes run) (not white) s
read_run f r white run s lt g long b le = elim (Bool-cases (ltb 63 run)) [
  | inl big ↦
      let last = entry_bits (get_elem? (table white) (run % 64)) s in
      let longer : 9 ≤ length last =
        omega (arith, entry_bits-long (get_elem? (table white) (run % 64)) s) in
      let e = make_up_bits white run s big in
      let a : Reads f r (suc (run / 64 * 64) ∷ []) white last =
        read_make_up f r white (run / 64) last (ground arith) (omega arith)
          (subst (λ t. Goes r (first white) t) e g) longer
          (entry_bits-AreBits (get_elem? (table white) (run % 64)) s b)
          (subst (λ t. length t ≤ f) e le) in
      let z : Reads a.then_fuel a.then_at (suc (run % 64) ∷ []) (not white) s =
        read_last a.then_fuel a.then_at white (run % 64) s (omega arith) a.goes long b a.enough in
      rw big (
        Reads_trans f r (suc (run / 64 * 64) ∷ []) (suc (run % 64) ∷ []) white (not white) last s a
          z)
  | inr small ↦
      let e = last_bits white run s small in
      rw small (
        read_last f r white run s (ground arith) (subst (λ t. Goes r (first white) t) e g) long b
          (subst (λ t. length t ≤ f) e le))
]

-- The codes of a line.
pub read_line :
    (f : ℕ) (r : Reader) (white : Bool) (runs s : List ℕ)
    → All (λ run. run < 2624) runs
    → Goes r (first white) (line_bits white runs s)
    → 9 ≤ length s
    → AreBits s
    → length (line_bits white runs s) ≤ f
    → Reads f r (line_codes runs) (colour_after white runs) s
read_line f r white [] s lt g long b le = record {
  then_at = r;
  then_fuel = f;
  goes = g;
  enough = le;
  equation = λ cs r1 rest. rest;
}
read_line f r white (run ∷ runs) s lt g long b le =
    let tail = line_bits (not white) runs s in
    let a : Reads f r (run_codes run) (not white) tail =
      read_run f r white run tail lt.0 g (omega (arith, line_bits-long (not white) runs s))
        (line_bits-AreBits (not white) runs s b) le in
    Reads_trans f r (run_codes run) (line_codes runs) (not white) (colour_after white (run ∷ runs))
      tail s a (read_line a.then_fuel a.then_at (not white) runs s lt.1 a.goes long b a.enough)
