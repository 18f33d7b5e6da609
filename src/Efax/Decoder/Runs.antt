-- ===== src/Efax/Decoder/Runs.antt =====
-- readfaxruns of efax/efax.c as a whole: the codes of a line, the EOL, and the combination of the codes.
use secure_e_fax.Prelude.{
  ℕ, suc, ◌+◌, ◌-◌, ◌*◌, ◌/◌, ◌%◌, ◌^◌, ◌≤◌, ◌<◌, ◌≡◌, refl, ap, ◌∙◌, List, [], ◌∷◌, ◌++◌, true,
  false, ltb, if◌then◌else◌, ◌==◌, ◌&&◌, leb, length, arith, Bool-cases, inl, inr, All, take,
  take_all, length-append, append-nil,
}
use secure_e_fax.Outcome.{ok}
use secure_e_fax.Efax.Bits.{AreBits}
use secure_e_fax.Efax.Encoder.{max_runs}
use secure_e_fax.Efax.Encoder.Spelling.{line_bits}
use secure_e_fax.Efax.Decoder.{
  tw1, Reader, read_codes, combine, sum, Answer, eof, line, Decoder, finish, readfaxruns, rtc_eol,
}
use secure_e_fax.Efax.Decoder.Codes.{first}
use secure_e_fax.Efax.Decoder.Lookup.{Goes}
use secure_e_fax.Efax.Decoder.Line.{Reads, read_line, run_codes, line_codes, colour_after}
use secure_e_fax.Efax.Decoder.Eol.{eol_bits, eol_bits-AreBits, eol_bits-long, Ends, read_eol}

combine_single : (p : ℕ) (cs : List ℕ) → ltb 64 p ≡ false → combine (p ∷ cs) ≡ (p - 1) ∷ combine cs
unfolding combine
combine_single p [] h = refl
combine_single p (q ∷ cs) h = rw h refl

combine_double :
    (p q : ℕ) (cs : List ℕ) → ltb 64 p ≡ true → combine (p ∷ q ∷ cs) ≡ (p + q - 2) ∷ combine cs
unfolding combine
combine_double p q cs h = rw h refl

combine-run_codes : (run : ℕ) (cs : List ℕ) → combine (run_codes run ++ cs) ≡ run ∷ combine cs
combine-run_codes run cs = elim (Bool-cases (ltb 63 run)) [
  | inl big ↦
      let p = suc (run / 64 * 64) in
      let q = suc (run % 64) in
      let same : p + q - 2 ≡ run = omega arith in
      rw big (combine_double p q cs (ground arith) ∙ ap (λ n. n ∷ combine cs) same)
  | inr small ↦
      let same : suc run - 1 ≡ run = omega arith in
      rw small (combine_single (suc run) cs (ground arith) ∙ ap (λ n. n ∷ combine cs) same)
]

combine-line_codes : (runs : List ℕ) → combine (line_codes runs) ≡ runs
unfolding combine
combine-line_codes [] = refl
combine-line_codes (run ∷ runs) =
    combine-run_codes run (line_codes runs) ∙ ap (λ rs. run ∷ rs) (combine-line_codes runs)

length-run_codes : (run : ℕ) → length (run_codes run) ≤ 2
length-run_codes run = ground arith

length-line_codes : (runs : List ℕ) → length (line_codes runs) ≤ 2 * length runs
length-line_codes [] = omega arith
length-line_codes (run ∷ runs) = omega (
  arith,
  length-append (run_codes run) (line_codes runs),
  length-run_codes run,
  length-line_codes runs,
)

-- A decoder at the first bit of a line.
pub record At (d : Decoder) (s : List ℕ) : Type 0 where
  pub goes : Goes d.reader tw1 s

-- What readfaxruns answers to the codes of a line.
abbrev pub answer : Decoder → List ℕ → Answer
answer d runs =
    let len = sum runs % 2 ^ 16 in
    let eolcnt = if len == 0 then d.eolcnt + 1 else 0 in
    if len == 0 && leb rtc_eol eolcnt then eof else line runs len

abbrev pub count_after : Decoder → List ℕ → ℕ
count_after d runs = if sum runs % 2 ^ 16 == 0 then d.eolcnt + 1 else 0

combined :
    (runs : List ℕ)
    → 2 * length runs < max_runs
    → combine (take (max_runs - 1) (line_codes runs ++ [])) ≡ runs
combined runs few =
    ap (λ cs. combine (take (max_runs - 1) cs)) (append-nil (line_codes runs))
    ∙ ap combine (take_all (max_runs - 1) (line_codes runs) (omega (arith, length-line_codes runs)))
    ∙ combine-line_codes runs

finish_lem :
    (d : Decoder) (runs : List ℕ) (r : Reader)
    → 2 * length runs < max_runs
    → r.ended ≡ false
    → finish d (line_codes runs ++ [], r)
      ≡ (answer d runs, record { reader = r; eolcnt = count_after d runs })
unfolding finish
finish_lem d runs r few e = rw (combined runs few) (rw e refl)

pub record Answers (f : ℕ) (d : Decoder) (runs s : List ℕ) : Type 0 where
  pub after : Decoder
  pub at_next : At after s
  pub count : after.eolcnt ≡ count_after d runs
  pub equation : readfaxruns f d ≡ ok (answer d runs, after)

-- A decoder at the codes of a line, with an EOL of at least eleven zeros and nine bits behind it, reads
-- the runs back: fuel for as many codes as there are bits is enough, no run may be over 2623 and fewer
-- than 4096 runs fit, and the decoder is then at the bits behind the EOL. The answer is the runs with
-- their sum modulo 2^16, or EOF when that is 0 and it is at least the fifth such line without a gap.
pub read_runs :
    (f : ℕ) (d : Decoder) (runs : List ℕ) (m : ℕ) (s : List ℕ)
    → All (λ run. run < 2624) runs
    → 2 * length runs < max_runs
    → At d (line_bits true runs (eol_bits m s))
    → 11 ≤ m
    → 9 ≤ length s
    → AreBits s
    → length (line_bits true runs (eol_bits m s)) ≤ f
    → Answers f d runs s
unfolding readfaxruns
read_runs f d runs m s lt few v eleven long b le =
    let start : Reader = record d.reader { ended = true } in
    let g : Goes start (first true) (line_bits true runs (eol_bits m s)) = record {
      ready = record { few = v.goes.ready.few; bytes = v.goes.ready.bytes };
      in_tab = v.goes.in_tab;
      left = v.goes.left;
    } in
    let a : Reads f start (line_codes runs) (colour_after true runs) (eol_bits m s) =
      read_line f start true runs (eol_bits m s) lt g (omega (arith, eol_bits-long m s))
        (eol_bits-AreBits m s b) le in
    let z : Ends a.then_fuel a.then_at s =
      read_eol a.then_fuel a.then_at (colour_after true runs) m s a.goes eleven long b a.enough in
    let codes : read_codes f start ≡ ok (line_codes runs ++ [], z.ends_at) =
      a.equation [] z.ends_at z.equation in
    record {
      after = record { reader = z.ends_at; eolcnt = count_after d runs };
      at_next = record { goes = z.goes };
      count = refl;
      equation = rw codes (ap ok (finish_lem d runs z.ends_at few z.has_data));
    }
