-- ===== src/Efax/Page/Received.antt =====
-- Reading the lines of a page back.
use native.Mathlib.Nat.{mod-eq_of_lt}
use mathlib.Core.Path.{subst}
use secure_e_fax.Prelude.{
  ℕ, suc, ◌+◌, ◌*◌, ◌%◌, ◌^◌, ◌≤◌, ◌<◌, ◌≡◌, refl, sym, ap, ◌∙◌, List, [], ◌∷◌, ◌++◌, Option, zero,
  true, false, ltb, ◌==◌, length, arith, All,
}
use secure_e_fax.Outcome.{ok}
use secure_e_fax.Efax.Bits.{AreBits}
use secure_e_fax.Efax.Cipher.{crypt_line}
use secure_e_fax.Efax.Cipher.Laws.{crypt_line-crypt_line}
use secure_e_fax.Efax.Encoder.Spelling.{line_bits, line_bits-long, line_bits-AreBits}
use secure_e_fax.Efax.Decoder.{sum, Answer, line, Decoder, readfaxruns}
use secure_e_fax.Efax.Decoder.Eol.{eol_bits, eol_bits-AreBits, eol_bits-long}
use secure_e_fax.Efax.Decoder.Runs.{At, Answers, answer, read_runs}
use secure_e_fax.Efax.Page.{receive_data, is_kept}
use secure_e_fax.Efax.Page.Sent.{IsSendable, Spelled}

some_runs : (runs : List ℕ) → 0 < sum runs → (length runs == 0) ≡ false
some_runs [] lt = absurd (omega arith)
some_runs (run ∷ runs) lt = ground arith

sendable-answer :
    (key : List ℕ) (runs : List ℕ) (d : Decoder)
    → IsSendable key runs
    → answer d (crypt_line key runs) ≡ line (crypt_line key runs) (sum (crypt_line key runs))
sendable-answer key runs d v =
    let ct = crypt_line key runs in
    let small : sum ct % 2 ^ 16 ≡ sum ct = mod-eq_of_lt (omega (arith, v.not_negative)) in
    let some_pels : (sum ct == 0) ≡ false = ground (arith, v.visible) in
    rw small (rw some_pels refl)

sendable-is_kept :
    (key runs : List ℕ) (n : ℕ)
    → IsSendable key runs
    → is_kept (suc n) (crypt_line key runs) (sum (crypt_line key runs)) ≡ true
unfolding is_kept
sendable-is_kept key runs n v =
    let ct = crypt_line key runs in
    let a : (length ct == 0) ≡ false = some_runs ct v.visible in
    let b : ltb 0 (sum ct) ≡ true = ground (arith, v.visible) in
    let c : ltb (sum ct) (2 ^ 15) ≡ true = ground (arith, v.not_negative) in
    let e : (suc n == 0) ≡ false = ground arith in rw a (rw b (rw c (rw e refl)))

-- The lines in front of what a loop writes.
abbrev pub write_lines :
    List (List ℕ) → List (List ℕ) × Option Answer → List (List ℕ) × Option Answer
write_lines lines (more, last) = (lines ++ more, last)

pub Spelled-AreBits :
    (key : List ℕ) (lines : List (List ℕ)) (s t : List ℕ)
    → Spelled key lines s t
    → AreBits s
    → AreBits t
unfolding Spelled
Spelled-AreBits key [] s t e b = subst (λ u. AreBits u) (sym e) b
Spelled-AreBits key (runs ∷ lines) s t (m, u, ge, sp, e) b =
    subst (λ w. AreBits w) (sym e)
      (line_bits-AreBits true (crypt_line key runs) (eol_bits m u)
        (eol_bits-AreBits m u (Spelled-AreBits key lines s u sp b)))

pub Spelled-long :
    (key : List ℕ) (lines : List (List ℕ)) (s t : List ℕ)
    → Spelled key lines s t
    → length s ≤ length t
unfolding Spelled
Spelled-long key [] s t e = subst (λ u. length s ≤ length u) (sym e) (omega arith)
Spelled-long key (runs ∷ lines) s t (m, u, ge, sp, e) =
    subst (λ w. length s ≤ length w) (sym e)
      (omega (
        arith,
        line_bits-long true (crypt_line key runs) (eol_bits m u),
        eol_bits-long m u,
        Spelled-long key lines s u sp,
      ))

-- One line: the loop writes it, and goes on behind it.
receive_line :
    (key runs : List ℕ) (f n k m : ℕ) (d : Decoder) (s : List ℕ)
    → IsSendable key runs
    → At d (line_bits true (crypt_line key runs) (eol_bits m s))
    → 11 ≤ m
    → 9 ≤ length s
    → AreBits s
    → length (line_bits true (crypt_line key runs) (eol_bits m s)) ≤ f
    → (d1 : Decoder) × At d1 s
      × (receive_data (suc k) f key (suc n) d
          ≡ write_lines (runs ∷ []) (receive_data k f key (suc (suc n)) d1))
unfolding receive_data
receive_line key runs f n k m d s v a ge long b le =
    let ct = crypt_line key runs in
    let z : Answers f d ct s = read_runs f d ct m s v.short (omega (arith, v.few)) a ge long b le in
    let is_read : readfaxruns f d ≡ ok (line ct (sum ct), z.after) =
      z.equation ∙ ap (λ x. ok (x, z.after)) (sendable-answer key runs d v) in
    (
      z.after,
      z.at_next,
      rw (is_read, receive_data)
          (rw (sendable-is_kept key runs n v) (
            ap (λ l. write_lines (l ∷ []) (receive_data k f key (suc (suc n)) z.after))
              (crypt_line-crypt_line key runs))),
    )

-- All the lines, from line n + 1 of the loop.
pub receive_lines :
    (key : List ℕ) (lines : List (List ℕ)) (f n k : ℕ) (d : Decoder) (s t : List ℕ)
    → All (λ runs. IsSendable key runs) lines
    → Spelled key lines s t
    → At d t
    → 9 ≤ length s
    → AreBits s
    → length t ≤ f
    → (d1 : Decoder) × At d1 s
      × (receive_data (length lines + k) f key (suc n) d
          ≡ write_lines lines (receive_data k f key (suc (n + length lines)) d1))
unfolding Spelled
receive_lines key [] f n k d s t v sp a long b le =
    let zero_more : 0 + k ≡ k = omega arith in
    let same : suc n ≡ suc (n + 0) = omega arith in
    (
      d,
      subst (λ u. At d u) sp a,
      ap (λ j. receive_data j f key (suc n) d) zero_more ∙ ap (λ j. receive_data k f key j d) same,
    )
receive_lines key (runs ∷ lines) f n k d s t v (m, u, ge, sp, e) a long b le =
    let longer : 9 ≤ length u = omega (arith, Spelled-long key lines s u sp) in
    let (d1, a1, e1) =
      receive_line key runs f n (length lines + k) m d u v.0 (subst (λ w. At d w) e a) ge longer
        (Spelled-AreBits key lines s u sp b) (subst (λ w. length w ≤ f) e le) in
    let shorter : length u ≤ f = omega (
      arith,
      ap length e,
      line_bits-long true (crypt_line key runs) (eol_bits m u),
      eol_bits-long m u,
    ) in
    let (d2, a2, e2) = receive_lines key lines f (suc n) k d1 s u v.1 sp a1 long b shorter in
    let more : suc (length lines) + k ≡ suc (length lines + k) = omega arith in
    let index : suc (suc n + length lines) ≡ suc (n + suc (length lines)) = omega arith in
    (
      d2,
      a2,
      ap (λ j. receive_data j f key (suc n) d) more
          ∙ e1
          ∙ ap (write_lines (runs ∷ [])) e2
          ∙ ap (λ j. write_lines (runs ∷ lines) (receive_data k f key j d2)) index,
    )

-- So many EOLs without a line between them.
abbrev pub eols : ℕ → List ℕ → List ℕ
eols zero u = u
eols (suc n) u = eol_bits 11 (eols n u)

pub eols-AreBits : (n : ℕ) (u : List ℕ) → AreBits u → AreBits (eols n u)
eols-AreBits zero u b = b
eols-AreBits (suc n) u b = eol_bits-AreBits 11 (eols n u) (eols-AreBits n u b)

pub eols-long : (n : ℕ) (u : List ℕ) → length (eols n u) ≡ 12 * n + length u
eols-long zero u = omega arith
eols-long (suc n) u = omega (arith, eol_bits-long 11 (eols n u), eols-long n u)
