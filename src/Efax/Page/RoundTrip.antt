-- ===== src/Efax/Page/RoundTrip.antt =====
-- send_data and receive_data of efax/efax.c together, and the lines that fit whatever the key is.
use Prim.Native.Nat.{bit_xor}
use mathlib.Core.Path.{subst}
use secure_e_fax.Prelude.{
  ℕ, suc, ◌+◌, ◌*◌, ◌/◌, ◌%◌, ◌^◌, ◌≤◌, ◌<◌, ◌≡◌, refl, sym, ap, ◌∙◌, List, [], ◌∷◌, ◌⊎◌, some,
  append-nil, length, arith, All, bit_xor_byte,
}
use secure_e_fax.Text.{Bytes}
use secure_e_fax.Outcome.{ok}
use secure_e_fax.Efax.Bits.{AreBits}
use secure_e_fax.Efax.Cipher.{crypt_line, xor_runs, encrypt}
use secure_e_fax.Efax.Cipher.Laws.{length-crypt_line}
use secure_e_fax.Efax.Encoder.Stream.{byte_bits}
use secure_e_fax.Efax.Decoder.{sum, Answer, eof, failed, line, Decoder, readfaxruns}
use secure_e_fax.Efax.Decoder.Window.{AreBytes}
use secure_e_fax.Efax.Decoder.Eol.{eol_bits, eol_bits-long, eol_bits-AreBits}
use secure_e_fax.Efax.Decoder.Runs.{At, Answers, read_runs}
use secure_e_fax.Efax.Page.{send_page, new_decoder, receive_data, is_kept}
use secure_e_fax.Efax.Page.Sent.{IsSendable}
use secure_e_fax.Efax.Page.Octets.{send_page-AreBytes}
use secure_e_fax.Efax.Page.Rtc.{send_page-Spelled, length-byte_bits}
use secure_e_fax.Efax.Page.Received.{
  write_lines, receive_lines, Spelled-AreBits, Spelled-long, eols, eols-AreBits, eols-long,
}
use secure_e_fax.Efax.Page.Ending.{receive_rtc}
use secure_e_fax.Efax.Decoder.AtEnd.{IsLast, IsLast-bounds}

-- The runs in units of 256.
abbrev pub quotients : List ℕ → ℕ
quotients [] = 0
quotients (run ∷ runs) = run / 256 + quotients runs

-- A line that needs no key to be sendable: its runs are no longer than 2559, one of them is 256 or more,
-- and the pixel count stays a positive short if every run grows by 255.
pub record IsPlain (runs : List ℕ) : Type 0 where
  pub short : All (λ run. run < 2560) runs
  pub wide : 0 < quotients runs
  pub narrow : sum runs + 255 * length runs < 2 ^ 15

xor_nothing : (runs : List ℕ) → xor_runs runs [] ≡ runs
unfolding xor_runs
xor_nothing [] = refl
xor_nothing (run ∷ runs) = refl

xor_runs-bounds :
    (runs s : List ℕ)
    → All (λ run. run < 2560) runs
    → All (λ run. run < 2624) (xor_runs runs s)
      × (quotients runs ≤ sum (xor_runs runs s))
      × (sum (xor_runs runs s) ≤ sum runs + 255 * length runs)
unfolding xor_runs
xor_runs-bounds [] s lt = (tt, omega arith, omega arith)
xor_runs-bounds (run ∷ runs) [] lt =
    let (a, b, c) = xor_runs-bounds runs [] lt.1 in
    let same : xor_runs runs [] ≡ runs = xor_nothing runs in
    (
      (omega arith, subst (λ t. All (λ r. r < 2624) t) same a),
      omega (arith, b, ap sum same),
      omega (arith, c, ap sum same),
    )
xor_runs-bounds (run ∷ runs) (w ∷ ws) lt =
    let (a, b, c) = xor_runs-bounds runs ws lt.1 in
    let same : bit_xor run (w % 256) / 256 ≡ run / 256 = bit_xor_byte run (w % 256) (omega arith) in
    ((omega arith, a), omega arith, omega arith)

-- A line of runs no longer than 2559, of which one is 256 or more, and whose runs are few enough, is
-- sendable whatever the key.
pub plain-IsSendable : (key runs : List ℕ) → IsPlain runs → IsSendable key runs
unfolding crypt_line
plain-IsSendable key runs v =
    let (a, b, c) = xor_runs-bounds runs (encrypt key (length runs)) v.short in
    record {
      short = a;
      few = omega (arith, length-crypt_line key runs, v.narrow);
      visible = omega (arith, v.wide);
      not_negative = omega (arith, v.narrow);
    }

-- The fill and the EOL at the start are a line that is not written.
receive_start :
    (key : List ℕ) (f k m : ℕ) (sent : Bytes) (t : List ℕ)
    → AreBytes sent
    → byte_bits sent [] ≡ eol_bits m t
    → 11 ≤ m
    → 9 ≤ length t
    → AreBits t
    → length (eol_bits m t) ≤ f
    → (d1 : Decoder) × At d1 t
      × (receive_data (suc k) f key 0 (new_decoder sent) ≡ receive_data k f key 1 d1)
unfolding receive_data is_kept
receive_start key f k m sent t bytes e ge long b le =
    let d = new_decoder sent in
    let a : At d (eol_bits m t) = record {
      goes = record {
        ready = record { few = omega arith; bytes = bytes };
        in_tab = refl;
        left = e;
      };
    } in
    let z : Answers f d [] t = read_runs f d [] m t tt (omega arith) a ge long b le in
    let is_read : readfaxruns f d ≡ ok (line [] 0, z.after) = z.equation in
    (z.after, z.at_next, rw (is_read, receive_data) refl)

-- The lines of the page, and the state in front of the RTC.
received :
    (key : List ℕ) (minlen : ℕ) (lines : List (List ℕ)) (k : ℕ)
    → All (λ runs. IsSendable key runs) lines
    → (d : Decoder) × (m : ℕ) × (s : List ℕ) × IsLast m s
      × At d (eols 4 (eol_bits m s))
      × (length (eols 4 (eol_bits m s)) ≤ 8 * length (send_page key minlen lines))
      × (receive_data
            (suc (length lines + k))
            (8 * length (send_page key minlen lines))
            key
            0
            (new_decoder (send_page key minlen lines))
          ≡ write_lines lines
              (receive_data k (8 * length (send_page key minlen lines)) key (suc (length lines)) d))
received key minlen lines k v =
    let sent = send_page key minlen lines in
    let f = 8 * length sent in
    let (z, t, m, s, ge, last, sp, e) = send_page-Spelled key minlen lines v in
    let u = eol_bits m s in
    let rest = eols 4 u in
    let long : 9 ≤ length rest = omega (arith, eols-long 4 u) in
    let bits_of = eols-AreBits 4 u (eol_bits-AreBits m s (IsLast-bounds m s last).2) in
    let total : length (eol_bits z t) ≡ f = ap length (sym e) ∙ length-byte_bits sent in
    let left = Spelled-long key lines rest t sp in
    let longer : 9 ≤ length t = omega arith in
    let (d1, a1, e1) =
      receive_start key f (length lines + k) z sent t (send_page-AreBytes key minlen lines) e ge
        longer (Spelled-AreBits key lines rest t sp bits_of) (omega (arith, total)) in
    let (d2, a2, e2) =
      receive_lines key lines f 0 k d1 rest t v sp a1 long bits_of
        (omega (arith, total, eol_bits-long z t)) in
    let index : suc (0 + length lines) ≡ suc (length lines) = omega arith in
    (
      d2,
      m,
      s,
      last,
      a2,
      omega (arith, total, eol_bits-long z t),
      e1 ∙ e2 ∙ ap (λ j. write_lines lines (receive_data k f key j d2)) index,
    )

-- Of the lines that a page is made of, each of them sendable, the receiver with the same key writes every
-- one, as it was before its encryption, in order, and nothing else, and its loop ends in the RTC, by EOF or
-- by -2, within six rounds more than there are lines. A call of readfaxruns reads at most as many codes as
-- there are bits.
pub receive_data-send_page :
    (key : List ℕ) (minlen : ℕ) (lines : List (List ℕ)) (k : ℕ)
    → All (λ runs. IsSendable key runs) lines
    → (last : Answer) × ((last ≡ eof) ⊎ (last ≡ failed))
      × (receive_data
            (6 + length lines + k)
            (8 * length (send_page key minlen lines))
            key
            0
            (new_decoder (send_page key minlen lines))
          ≡ (lines, some last))
receive_data-send_page key minlen lines k v =
    let f = 8 * length (send_page key minlen lines) in
    let (d, m, s, is_last, a, long, e) = received key minlen lines (4 + suc k) v in
    let over = receive_rtc key s f (suc (length lines)) 4 k m d a is_last (omega arith) long in
    let rounds : 6 + length lines + k ≡ suc (length lines + (4 + suc k)) = omega arith in
    (
      over.last,
      over.ends,
      ap (λ j. receive_data j f key 0 (new_decoder (send_page key minlen lines))) rounds
          ∙ e
          ∙ ap (write_lines lines) over.nothing
          ∙ ap (λ ls. (ls, some over.last)) (append-nil lines),
    )
