-- ===== src/Efax/Page/Sent.antt =====
-- The bits of a page that is sent.
use secure_e_fax.Prelude.{
  ℕ, zero, suc, ◌+◌, ◌*◌, ◌/◌, ◌%◌, ◌^◌, ◌≤◌, ◌<◌, ◌≡◌, refl, sym, ap, ◌∙◌, List, [], ◌∷◌, true,
  false, ltb, length, arith, Bool-cases, inl, inr, All, ◌==◌, length-append,
}
use secure_e_fax.Efax.Bits.{bits}
use secure_e_fax.Efax.Cipher.{crypt_line}
use secure_e_fax.Efax.Encoder.{put, putcode, Sink, push, put_runs, runtocode, store, max_codes}
use secure_e_fax.Efax.Encoder.Stream.{byte_bits, byte_bits-append, put-bits, stream, length-store}
use secure_e_fax.Efax.Encoder.Spelling.{line_bits}
use secure_e_fax.Efax.Encoder.Line.{put_runs-Puts}
use secure_e_fax.Efax.Decoder.{sum}
use secure_e_fax.Efax.Decoder.Eol.{eol_bits, zeros_split}
use secure_e_fax.Efax.Page.{put_fill, put_eol, pad, send_line, send_lines}

-- What a code of 1 to 24 bits does to a sink.
put_code-Puts :
    (s : Sink) (code n : ℕ)
    → s.encoder.pending < 8
    → 1 ≤ n
    → n ≤ 24
    → code < 2 ^ n
    → ((push s (putcode s.encoder code n)).encoder.pending < 8)
      × (length (push s (putcode s.encoder code n)).codes
          ≡ length s.codes + (s.encoder.pending + n) / 8)
      × ((rest : List ℕ)
          → stream (push s (putcode s.encoder code n)) rest ≡ stream s (bits n code rest))
unfolding putcode put
put_code-Puts s code n small ge le fits =
    let some_bits : (n == 0) ≡ false = ground arith in
    let e = put s.encoder code n in
    let x = (s.encoder.x * 2 ^ n + code) % 2 ^ 32 in
    let pending = s.encoder.pending + n in
    rw some_bits (
      omega arith,
      omega (
        arith,
        length-append s.codes (store (pending / 8) x pending),
        length-store (pending / 8) x pending,
      ),
      λ rest.
          byte_bits-append s.codes e.0 (bits e.1.pending e.1.x rest)
          ∙ ap (byte_bits s.codes) (put-bits s.encoder code n rest small le fits),
    )

-- A sink that is ready for more, and has become another by sending some bits.
pub record Sends (s s1 : Sink) (sent : List ℕ → List ℕ) : Type 0 where
  pub small : s1.encoder.pending < 8
  pub same : (rest : List ℕ) → stream s1 rest ≡ stream s (sent rest)

pub Sends-trans :
    (s s1 s2 : Sink) (f g : List ℕ → List ℕ)
    → Sends s s1 f
    → Sends s1 s2 g
    → Sends s s2 (λ rest. f (g rest))
Sends-trans s s1 s2 f g a b = record {
  small = b.small;
  same = λ rest. b.same rest ∙ a.same (g rest);
}

pub put_fill-Sends : (s : Sink) → s.encoder.pending < 8 → Sends s (put_fill s) (bits 8 0)
unfolding put_fill
put_fill-Sends s small =
    let (a, n, e) = put_code-Puts s 0 8 small (omega arith) (omega arith) (omega arith) in
    record { small = a; same = e }

length-put_fill :
    (s : Sink) → s.encoder.pending < 8 → length (put_fill s).codes ≡ length s.codes + 1
unfolding put_fill
length-put_fill s small =
    let (a, n, e) = put_code-Puts s 0 8 small (omega arith) (omega arith) (omega arith) in
    omega (arith, n)

pub put_eol-Sends : (s : Sink) → s.encoder.pending < 8 → Sends s (put_eol s) (eol_bits 11)
unfolding put_eol
put_eol-Sends s small =
    let (a, n, e) = put_code-Puts s 1 12 small (omega arith) (omega arith) (omega arith) in
    record { small = a; same = e }

pub length-put_eol :
    (s : Sink) → s.encoder.pending < 8 → length s.codes + 1 ≤ length (put_eol s).codes
unfolding put_eol
length-put_eol s small =
    let (a, n, e) = put_code-Puts s 1 12 small (omega arith) (omega arith) (omega arith) in
    omega (arith, n)

-- Fill is zeros, and the fuel of `pad` is enough.
pad-Sends :
    (n minlen : ℕ) (s : Sink)
    → s.encoder.pending < 8
    → (k : ℕ) × Sends s (pad n minlen s) (bits k 0)
unfolding pad
pad-Sends zero minlen s small = (0, record { small = small; same = λ rest. refl })
pad-Sends (suc n) minlen s small = elim (Bool-cases (ltb (length s.codes) minlen)) [
  | inl b ↦
      let a = put_fill-Sends s small in
      let (k, z) = pad-Sends n minlen (put_fill s) a.small in
      (
        k + 8,
        rw b (record {
          small = z.small;
          same = λ rest.
              z.same rest ∙ a.same (bits k 0 rest) ∙ ap (stream s) (sym (zeros_split k 8 rest));
        }),
      )
  | inr b ↦ (0, rw b (record { small = small; same = λ rest. refl }))
]

-- From an encoder with fewer than eight unsent bits, the loop that pads a line ends with at least the
-- bytes of the minimum scan time, if its fuel is no less than the bytes that are missing.
pub pad-long :
    (n minlen : ℕ) (s : Sink)
    → s.encoder.pending < 8
    → minlen ≤ n + length s.codes
    → minlen ≤ length (pad n minlen s).codes
unfolding pad
pad-long zero minlen s small le = omega arith
pad-long (suc n) minlen s small le = elim (Bool-cases (ltb (length s.codes) minlen)) [
  | inl b ↦
      let a = put_fill-Sends s small in
      rw b (pad-long n minlen (put_fill s) a.small (omega (arith, length-put_fill s small)))
  | inr b ↦ rw b (ground arith)
]

-- From an encoder with fewer than eight unsent bits, runtocode stores exactly the T.4 codes of the runs,
-- white first, behind what was stored, if no run is over 2623 and the codes fit the buffer; fewer than
-- eight bits are left unsent.
pub runtocode-Sends :
    (s : Sink) (runs : List ℕ)
    → All (λ run. run < 2624) runs
    → s.encoder.pending < 8
    → 6 * length runs < max_codes
    → Sends s (push s (runtocode s.encoder runs)) (line_bits true runs)
unfolding runtocode
runtocode-Sends s runs lt small room =
    let empty : Sink = record { encoder = s.encoder; codes = [] } in
    let p = put_runs-Puts true runs empty lt small (omega arith) in
    let s1 = put_runs true runs empty in
    record {
      small = p.small;
      same = λ rest.
          byte_bits-append s.codes s1.codes (bits s1.encoder.pending s1.encoder.x rest)
          ∙ ap (byte_bits s.codes) (p.same rest);
    }

-- One line, with at least eleven zeros in front of the one that ends it.
send_line-Sends :
    (key : List ℕ) (minlen : ℕ) (s : Sink) (runs : List ℕ)
    → All (λ run. run < 2624) (crypt_line key runs)
    → s.encoder.pending < 8
    → 6 * length (crypt_line key runs) < max_codes
    → (m : ℕ) × (11 ≤ m)
      × ((send_line key minlen s runs).1.encoder.pending < 8)
      × ((rest : List ℕ)
          → byte_bits (send_line key minlen s runs).0 (stream (send_line key minlen s runs).1 rest)
            ≡ stream s (line_bits true (crypt_line key runs) (eol_bits m rest)))
unfolding send_line
send_line-Sends key minlen s runs lt small room =
    let s1 = push s (runtocode s.encoder (crypt_line key runs)) in
    let s2 = pad minlen minlen s1 in
    let a = runtocode-Sends s (crypt_line key runs) lt small room in
    let (k, b) = pad-Sends minlen minlen s1 a.small in
    let c = put_eol-Sends s2 b.small in
    (
      11 + k,
      omega arith,
      c.small,
      λ rest.
          c.same rest
          ∙ b.same (eol_bits 11 rest)
          ∙ a.same (bits k 0 (eol_bits 11 rest))
          ∙ ap (λ t. stream s (line_bits true (crypt_line key runs) t))
              (sym (zeros_split 11 k (1 ∷ rest))),
    )

-- The bits t are those of some encrypted lines, each with an EOL behind it, and of s.
unfoldable pub Spelled : List ℕ → List (List ℕ) → List ℕ → List ℕ → Type 0
Spelled key [] s t = t ≡ s
Spelled key (runs ∷ lines) s t =
    (m : ℕ) × (u : List ℕ) × (11 ≤ m)
    × Spelled key lines s u
    × (t ≡ line_bits true (crypt_line key runs) (eol_bits m u))

-- A line whose encrypted runs the encoder and the decoder can take: none is over the longest that has a
-- code, there is room for the codes, and the pixel count, a short, comes out positive.
pub record IsSendable (key runs : List ℕ) : Type 0 where
  pub short : All (λ run. run < 2624) (crypt_line key runs)
  pub few : 6 * length (crypt_line key runs) < max_codes
  pub visible : 0 < sum (crypt_line key runs)
  pub not_negative : sum (crypt_line key runs) < 2 ^ 15

pub send_lines-Spelled :
    (key : List ℕ) (minlen : ℕ) (s : Sink) (lines : List (List ℕ)) (rest : List ℕ)
    → All (λ runs. IsSendable key runs) lines
    → s.encoder.pending < 8
    → ((send_lines key minlen s lines).1.encoder.pending < 8)
      × (t : List ℕ) × Spelled key lines rest t
      × (byte_bits (send_lines key minlen s lines).0 (stream (send_lines key minlen s lines).1 rest)
          ≡ stream s t)
unfolding send_lines Spelled
send_lines-Spelled key minlen s [] rest ok_ small = (small, rest, refl, refl)
send_lines-Spelled key minlen s (runs ∷ lines) rest ok_ small =
    let (m, ge, small1, same) = send_line-Sends key minlen s runs ok_.0.short small ok_.0.few in
    let (b, s1) = send_line key minlen s runs in
    let (small2, u, sp, same2) = send_lines-Spelled key minlen s1 lines rest ok_.1 small1 in
    let (c, s2) = send_lines key minlen s1 lines in
    (
      small2,
      line_bits true (crypt_line key runs) (eol_bits m u),
      (m, u, ge, sp, refl),
      byte_bits-append b c (stream s2 rest) ∙ ap (byte_bits b) same2 ∙ same u,
    )
