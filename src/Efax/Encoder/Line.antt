-- ===== src/Efax/Encoder/Line.antt =====
-- runtocode of efax/efaxlib.c, run by run, in the view of the bits that it stores.
use mathlib.Core.Path.{subst}
use secure_e_fax.Prelude.{
  ℕ, ◌+◌, ◌*◌, ◌/◌, ◌%◌, ◌≤◌, ◌<◌, ◌≡◌, refl, sym, ap, ◌∙◌, List, [], ◌∷◌, Bool, true, false, not,
  ltb, length, arith, Bool-cases, inl, inr, get_elem?, All,
}
use secure_e_fax.Efax.Tables.{T4}
use secure_e_fax.Efax.Encoder.{Sink, put_entry, put_run, put_runs, max_codes, max_run_len, table}
use secure_e_fax.Efax.Encoder.Stream.{stream, put_entry-stream, put_entry-small}
use secure_e_fax.Efax.Encoder.Spelling.{entry_bits, run_bits, line_bits, make_up_bits, last_bits}
use secure_e_fax.Efax.Decoder.Codes.{place}

-- A sink that has become another: some bits have been put, and at most n bytes have been stored.
pub record Puts (s s1 : Sink) (n : ℕ) (put_bits : List ℕ → List ℕ) : Type 0 where
  pub small : s1.encoder.pending < 8
  pub bytes : length s1.codes ≤ length s.codes + n
  pub same : (rest : List ℕ) → stream s1 rest ≡ stream s (put_bits rest)

put_place :
    (white : Bool) (k : ℕ) (s : Sink)
    → k < 104
    → s.encoder.pending < 8
    → length s.codes < max_codes
    → Puts s (put_entry (get_elem? (table white) k) s) 3 (entry_bits (get_elem? (table white) k))
put_place white k s lt small room =
    let (p, pl) = place white k lt in
    let few : p.bits ≤ 24 = omega (arith, pl.sound.few_bits) in
    let (a, b) = put_entry-small p s small few in
    subst (λ t. Puts s (put_entry t s) 3 (entry_bits t)) (sym pl.found)
      (record {
        small = a;
        bytes = b;
        same = λ rest. put_entry-stream p s rest small few pl.sound.fits room;
      })

put_two :
    (tab : List T4) (run : ℕ) (s : Sink)
    → run < 2624
    → ltb 63 run ≡ true
    → put_run tab run s
      ≡ put_entry (get_elem? tab (run % 64)) (put_entry (get_elem? tab (63 + run / 64)) s)
unfolding put_run
put_two tab run s lt big =
    let fits : ltb max_run_len run ≡ false = ground arith in rw fits (rw big refl)

put_one :
    (tab : List T4) (run : ℕ) (s : Sink)
    → ltb 63 run ≡ false
    → put_run tab run s ≡ put_entry (get_elem? tab run) s
unfolding put_run
put_one tab run s small =
    let fits : ltb max_run_len run ≡ false = ground arith in
    let same : run % 64 ≡ run = ground arith in
    rw fits (rw small (ap (λ j. put_entry (get_elem? tab j) s) same))

-- One put after another.
Puts-trans :
    (s s1 s2 : Sink) (m n : ℕ) (f g : List ℕ → List ℕ)
    → Puts s s1 m f
    → Puts s1 s2 n g
    → Puts s s2 (m + n) (λ rest. f (g rest))
Puts-trans s s1 s2 m n f g a b = record {
  small = b.small;
  bytes = omega (arith, a.bytes, b.bytes);
  same = λ rest. b.same rest ∙ a.same (g rest);
}

put_run-Puts :
    (white : Bool) (run : ℕ) (s : Sink)
    → run < 2624
    → s.encoder.pending < 8
    → length s.codes + 3 < max_codes
    → Puts s (put_run (table white) run s) 6 (run_bits white run)
put_run-Puts white run s lt small room = elim (Bool-cases (ltb 63 run)) [
  | inl big ↦
      let s1 = put_entry (get_elem? (table white) (63 + run / 64)) s in
      let a = put_place white (63 + run / 64) s (omega arith) small (omega arith) in
      let b = put_place white (run % 64) s1 (omega arith) a.small (omega (arith, a.bytes)) in
      let c = Puts-trans s s1 _ 3 3 _ _ a b in
      subst (λ t. Puts s t 6 (run_bits white run)) (sym (put_two (table white) run s lt big))
        (record {
          small = c.small;
          bytes = c.bytes;
          same = λ rest. c.same rest ∙ ap (stream s) (sym (make_up_bits white run rest big));
        })
  | inr little ↦
      let a = put_place white run s (ground arith) small (omega arith) in
      subst (λ t. Puts s t 6 (run_bits white run)) (sym (put_one (table white) run s little))
        (record {
          small = a.small;
          bytes = omega (arith, a.bytes);
          same = λ rest. a.same rest ∙ ap (stream s) (sym (last_bits white run rest little));
        })
]

-- All the runs of a line, if there is room for their codes.
pub put_runs-Puts :
    (white : Bool) (runs : List ℕ) (s : Sink)
    → All (λ run. run < 2624) runs
    → s.encoder.pending < 8
    → length s.codes + 6 * length runs < max_codes
    → Puts s (put_runs white runs s) (6 * length runs) (line_bits white runs)
unfolding put_runs
put_runs-Puts white [] s lt small room = record {
  small = small;
  bytes = omega arith;
  same = λ rest. refl;
}
put_runs-Puts white (run ∷ runs) s lt small room =
    let s1 = put_run (table white) run s in
    let a = put_run-Puts white run s lt.0 small (omega arith) in
    let b = put_runs-Puts (not white) runs s1 lt.1 a.small (omega (arith, a.bytes)) in
    let c =
      Puts-trans s s1 (put_runs (not white) runs s1) 6 (6 * length runs) (run_bits white run)
        (line_bits (not white) runs) a b in
    record { small = c.small; bytes = omega (arith, c.bytes); same = c.same }
