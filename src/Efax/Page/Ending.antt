-- ===== src/Efax/Page/Ending.antt =====
-- The loop of receive_data of efax/efax.c in the RTC.
use secure_e_fax.Prelude.{
  ℕ, zero, suc, ◌+◌, ◌≤◌, ◌≡◌, ◌⊎◌, refl, ap, ◌∙◌, List, [], Option, some, true, if◌then◌else◌,
  ◌&&◌, leb, length, arith, Bool-cases, inl, inr,
}
use secure_e_fax.Outcome.{ok}
use secure_e_fax.Efax.Bits.{AreBits}
use secure_e_fax.Efax.Decoder.{Answer, eof, failed, line, rtc_eol, Decoder, readfaxruns}
use secure_e_fax.Efax.Decoder.Eol.{eol_bits, eol_bits-AreBits, eol_bits-long}
use secure_e_fax.Efax.Decoder.Runs.{At, Answers, read_runs}
use secure_e_fax.Efax.Decoder.AtEnd.{IsLast, IsLast-bounds, read_last_line}
use secure_e_fax.Efax.Page.{receive_data, is_kept}
use secure_e_fax.Efax.Page.Received.{eols, eols-AreBits, eols-long}

-- The loop has ended, and has written nothing.
pub record IsOver (result : List (List ℕ) × Option Answer) : Type 0 where
  pub last : Answer
  pub ends : (last ≡ eof) ⊎ (last ≡ failed)
  pub nothing : result ≡ ([], some last)

-- Nothing is written for an EOL that follows another, whether it ends the loop or not.
receive_empty :
    (key u : List ℕ) (f n k : ℕ) (d : Decoder)
    → At d (eol_bits 11 u)
    → 9 ≤ length u
    → AreBits u
    → length (eol_bits 11 u) ≤ f
    → ((d1 : Decoder)
        → At d1 u
        → d1.eolcnt ≡ d.eolcnt + 1
        → IsOver (receive_data k f key (suc n) d1))
    → IsOver (receive_data (suc k) f key n d)
unfolding receive_data is_kept
receive_empty key u f n k d a long b le next =
    let z : Answers f d [] u = read_runs f d [] 11 u tt (omega arith) a (omega arith) long b le in
    elim (Bool-cases (leb rtc_eol (d.eolcnt + 1))) [
      | inl e ↦
          let is_read : readfaxruns f d ≡ ok (eof, z.after) =
            z.equation ∙ ap (λ c. ok (if true && c then eof else line [] 0, z.after)) e in
          rw (is_read, receive_data) (record { last = eof; ends = inl refl; nothing = refl })
      | inr e ↦
          let is_read : readfaxruns f d ≡ ok (line [] 0, z.after) =
            z.equation ∙ ap (λ c. ok (if true && c then eof else line [] 0, z.after)) e in
          rw (is_read, receive_data) (next z.after z.at_next z.count)
    ]

receive_last :
    (key s : List ℕ) (f n k m : ℕ) (d : Decoder)
    → At d (eol_bits m s)
    → IsLast m s
    → 4 ≤ d.eolcnt
    → 3 ≤ f
    → IsOver (receive_data (suc k) f key n d)
unfolding receive_data
receive_last key s f n k m d a last count le =
    let (answer, d1, ends, e) = read_last_line f m d s a last count le in
    elim ends [
      | inl is_eof ↦
          let is_read = e ∙ ap (λ x. ok (x, d1)) is_eof in
          rw (is_read, receive_data) (record { last = eof; ends = inl refl; nothing = refl })
      | inr is_failed ↦
          let is_read = e ∙ ap (λ x. ok (x, d1)) is_failed in
          rw (is_read, receive_data) (record { last = failed; ends = inr refl; nothing = refl })
    ]

-- Some EOLs and the last one end the loop, if there are five with those that came before.
pub receive_rtc :
    (key s : List ℕ) (f n j k m : ℕ) (d : Decoder)
    → At d (eols j (eol_bits m s))
    → IsLast m s
    → 4 ≤ d.eolcnt + j
    → length (eols j (eol_bits m s)) ≤ f
    → IsOver (receive_data (j + suc k) f key n d)
receive_rtc key s f n zero k m d a last count le =
    let (ge, long, b) = IsLast-bounds m s last in
    let more : 0 + suc k ≡ suc k = omega arith in
    rw more (receive_last key s f n k m d a last (omega arith) (omega (arith, eol_bits-long m s)))
receive_rtc key s f n (suc j) k m d a last count le =
    let (ge, long, b) = IsLast-bounds m s last in
    let u = eols j (eol_bits m s) in
    let more : suc j + suc k ≡ suc (j + suc k) = omega arith in
    rw more (
      receive_empty key u f n (j + suc k) d a
        (omega (arith, eols-long j (eol_bits m s), eol_bits-long m s))
        (eols-AreBits j (eol_bits m s) (eol_bits-AreBits m s b)) le
        (λ d1 a1 counted.
          receive_rtc key s f (suc n) j k m d1 a1 last (omega arith)
            (omega (arith, eol_bits-long 11 u))))
