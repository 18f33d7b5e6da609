-- ===== src/Efax/Page/Rtc.antt =====
-- The start and the end of a page: all that is sent before the lines and behind them.
use secure_e_fax.Prelude.{
  ℕ, zero, suc, ◌+◌, ◌*◌, ◌≤◌, ◌<◌, ◌≡◌, refl, sym, ap, ◌∙◌, List, [], ◌∷◌, ◌++◌, ◌⊎◌, inl, inr,
  append-nil, length, arith, All, append_assoc, length-append, drop,
}
use secure_e_fax.Text.{Bytes}
use secure_e_fax.Efax.Bits.{bits, length-bits, bits-append}
use secure_e_fax.Efax.Encoder.{new_encoder, putcode, put, store, Sink}
use secure_e_fax.Efax.Encoder.Stream.{byte_bits, byte_bits-append, stream}
use secure_e_fax.Efax.Decoder.Eol.{eol_bits, zeros_split}
use secure_e_fax.Efax.Page.{
  put_fill, put_eol, put_fills, put_eols, send_lines, data_start, send_rtc, send_page,
}
use secure_e_fax.Efax.Page.Sent.{
  Sends, Sends-trans, put_fill-Sends, put_eol-Sends, length-put_eol, IsSendable, Spelled,
  send_lines-Spelled,
}
use secure_e_fax.Efax.Page.Received.{eols}
use secure_e_fax.Efax.Decoder.AtEnd.{IsLast}

-- Bits that are followed by anything.
prefix : (a c r s : List ℕ) → a ++ r ≡ c ++ s → length c ≤ length a → a ≡ c ++ drop (length c) a
prefix a [] r s e le = refl
prefix [] (y ∷ c) r s e le = absurd (omega arith)
prefix (x ∷ a) (y ∷ c) r s e le =
    let h : x ≡ y = cc e in
    let t : a ++ r ≡ c ++ s = cc e in
    let more : a ≡ c ++ drop (length c) a = prefix a c r s t (omega arith) in cc (h, more)

byte_bits-split : (b : Bytes) (rest : List ℕ) → byte_bits b rest ≡ byte_bits b [] ++ rest
byte_bits-split [] rest = refl
byte_bits-split (c ∷ b) rest =
    ap (bits 8 c) (byte_bits-split b rest) ∙ sym (bits-append 8 c (byte_bits b []) rest)

pub length-byte_bits : (b : Bytes) → length (byte_bits b []) ≡ 8 * length b
length-byte_bits [] = refl
length-byte_bits (c ∷ b) = omega (arith, length-bits 8 c (byte_bits b []), length-byte_bits b)

stream-split : (s : Sink) (u : List ℕ) → stream s u ≡ stream s [] ++ u
stream-split s u =
    let left = bits s.encoder.pending s.encoder.x in
    byte_bits-split s.codes (left u)
    ∙ ap (λ t. byte_bits s.codes [] ++ t) (sym (bits-append s.encoder.pending s.encoder.x [] u))
    ∙ sym (append_assoc (byte_bits s.codes []) (left []) u)
    ∙ ap (λ t. t ++ u) (sym (byte_bits-split s.codes (left [])))

length-stream : (s : Sink) → length (stream s []) ≡ 8 * length s.codes + s.encoder.pending
length-stream s =
    let left = bits s.encoder.pending s.encoder.x [] in
    omega (
      arith,
      ap length (byte_bits-split s.codes left),
      length-append (byte_bits s.codes []) left,
      length-byte_bits s.codes,
      length-bits s.encoder.pending s.encoder.x [],
    )

-- Bits that the zeros of an EOL begin with.
zeros_only :
    (m : ℕ) (w r t : List ℕ) → w ++ r ≡ eol_bits m [] → length w ≤ m → w ++ t ≡ bits (length w) 0 t
zeros_only m [] r t e le = refl
zeros_only zero (x ∷ w) r t e le = absurd (omega arith)
zeros_only (suc m) (x ∷ w) r t e le =
    let one : m + 1 ≡ suc m = omega arith in
    let whole : x ∷ (w ++ r) ≡ 0 ∷ eol_bits m [] =
      e ∙ ap (λ n. eol_bits n []) (sym one) ∙ zeros_split m 1 (1 ∷ []) in
    let h : x ≡ 0 = cc whole in
    let rest : w ++ r ≡ eol_bits m [] = cc whole in
    let more = zeros_only m w r t rest (omega arith) in
    let one_more : length w + 1 ≡ suc (length w) = omega arith in
    ap (λ y. y ∷ (w ++ t)) h
    ∙ ap (λ ts. 0 ∷ ts) more
    ∙ sym (zeros_split (length w) 1 t)
    ∙ ap (λ n. bits n 0 t) one_more

-- The byte that the flush stores is the end of the EOL, whose beginning may be sent twice.
flush_byte : (s : Sink) → (putcode (put_eol s).encoder 0 0).0 ≡ 1 ∷ []
unfolding put_eol putcode put store
flush_byte s = ap (λ c. c ∷ []) (omega arith)

-- Of the last EOL only some zeros, or all of it, are in whole bytes, and the byte of the flush follows.
last_bits :
    (w r : List ℕ)
    → w ++ r ≡ eol_bits 11 []
    → 5 ≤ length w
    → (r ≡ []) ⊎ (length w ≤ 11)
    → (m : ℕ) × (t : List ℕ) × IsLast m t × (w ++ bits 8 1 [] ≡ eol_bits m t)
last_bits w r e ge (inl none) =
    let whole : w ≡ eol_bits 11 [] = sym (append-nil w) ∙ ap (λ t. w ++ t) (sym none) ∙ e in
    (11, eol_bits 7 [], inr (refl, refl), ap (λ t. t ++ bits 8 1 []) whole)
last_bits w r e ge (inr le) = (
  7 + length w,
  [],
  inl (refl, omega arith, omega arith),
  zeros_only 11 w r (bits 8 1 []) e le ∙ sym (zeros_split 7 (length w) (1 ∷ [])),
)

same_front : (c a b : List ℕ) → c ++ a ≡ c ++ b → a ≡ b
same_front [] a b e = e
same_front (x ∷ c) a b e = same_front c a b (cc e)

-- The last EOL and the flush.
last_sent :
    (s : Sink)
    → s.encoder.pending < 8
    → (m : ℕ) × (t : List ℕ) × IsLast m t
      × (byte_bits ((put_eol s).codes ++ (putcode (put_eol s).encoder 0 0).0) []
          ≡ stream s (eol_bits m t))
last_sent s small =
    let s1 = put_eol s in
    let p = put_eol-Sends s small in
    let a = byte_bits s1.codes [] in
    let c = stream s [] in
    let left = bits s1.encoder.pending s1.encoder.x [] in
    let e : a ++ left ≡ c ++ eol_bits 11 [] =
      sym (byte_bits-split s1.codes left) ∙ p.same [] ∙ stream-split s (eol_bits 11 []) in
    let longer : length c ≤ length a =
      omega (arith, length-byte_bits s1.codes, length-stream s, length-put_eol s small) in
    let w = drop (length c) a in
    let parts : a ≡ c ++ w = prefix a c left (eol_bits 11 []) e longer in
    let rest : w ++ left ≡ eol_bits 11 [] =
      same_front c (w ++ left) (eol_bits 11 [])
        (sym (append_assoc c w left) ∙ ap (λ t. t ++ left) (sym parts) ∙ e) in
    let size : length w + s1.encoder.pending ≡ 12 = omega (
      arith,
      ap length rest,
      length-append w left,
      length-bits s1.encoder.pending s1.encoder.x [],
    ) in
    let (m, t, last, u) =
      last_bits w left rest (omega (arith, p.small))
        (at_end s1.encoder.pending s1.encoder.x (length w) size) in
    (
      m,
      t,
      last,
      byte_bits-append s1.codes (putcode s1.encoder 0 0).0 []
          ∙ ap (λ f. byte_bits s1.codes (byte_bits f [])) (flush_byte s)
          ∙ byte_bits-split s1.codes (bits 8 1 [])
          ∙ ap (λ b. b ++ bits 8 1 []) parts
          ∙ append_assoc c w (bits 8 1 [])
          ∙ ap (λ b. c ++ b) u
          ∙ sym (stream-split s (eol_bits m t)),
    )
  where
    at_end : (pending x n : ℕ) → n + pending ≡ 12 → (bits pending x [] ≡ []) ⊎ (n ≤ 11)
    at_end zero x n e = inl refl
    at_end (suc pending) x n e = inr (omega arith)

-- What the end of the data begins with.
put_eols-Sends :
    (n : ℕ) (s : Sink) → s.encoder.pending < 8 → (f : List ℕ → List ℕ) × Sends s (put_eols n s) f
unfolding put_eols
put_eols-Sends zero s small = (λ rest. rest, record { small = small; same = λ rest. refl })
put_eols-Sends (suc n) s small =
    let a = put_eol-Sends s small in
    let (f, b) = put_eols-Sends n (put_eol s) a.small in
    (
      λ rest. eol_bits 11 (f rest),
      Sends-trans s (put_eol s) (put_eols n (put_eol s)) (eol_bits 11) f a b,
    )

-- RTC is four EOLs, and a last one.
send_rtc-stream :
    (s : Sink)
    → s.encoder.pending < 8
    → (k : ℕ) × (t : List ℕ) × IsLast k t
      × (byte_bits (send_rtc s) [] ≡ stream s (eols 4 (eol_bits k t)))
unfolding send_rtc put_eols
send_rtc-stream s small =
    let s1 = put_eol s in
    let s2 = put_eol s1 in
    let s3 = put_eol s2 in
    let s4 = put_eol s3 in
    let a = put_eol-Sends s small in
    let b = put_eol-Sends s1 a.small in
    let c = put_eol-Sends s2 b.small in
    let d = put_eol-Sends s3 c.small in
    let (k, t, last, same) = last_sent s4 d.small in
    let u = eol_bits k t in
    (k, t, last, same ∙ d.same u ∙ c.same (eols 1 u) ∙ b.same (eols 2 u) ∙ a.same (eols 3 u))

put_fills-Sends :
    (n : ℕ) (s : Sink)
    → s.encoder.pending < 8
    → (k : ℕ) × (k ≡ 8 * n) × Sends s (put_fills n s) (bits k 0)
unfolding put_fills
put_fills-Sends zero s small = (0, refl, record { small = small; same = λ rest. refl })
put_fills-Sends (suc n) s small =
    let a = put_fill-Sends s small in
    let (k, e, b) = put_fills-Sends n (put_fill s) a.small in
    (
      k + 8,
      omega arith,
      record {
        small = b.small;
        same = λ rest.
            b.same rest ∙ a.same (bits k 0 rest) ∙ ap (stream s) (sym (zeros_split k 8 rest));
      },
    )

data_start-Sends :
    (data_start.encoder.pending < 8)
    × (m : ℕ) × (11 ≤ m)
    × ((rest : List ℕ) → stream data_start rest ≡ eol_bits m rest)
unfolding data_start
data_start-Sends =
    let empty : Sink = record { encoder = new_encoder; codes = [] } in
    let (k, e, a) = put_fills-Sends 32 empty (omega arith) in
    let b = put_eol-Sends (put_fills 32 empty) a.small in
    (
      b.small,
      11 + k,
      omega arith,
      λ rest. b.same rest ∙ a.same (eol_bits 11 rest) ∙ sym (zeros_split 11 k (1 ∷ rest)),
    )

-- All the bits of a page.
pub send_page-Spelled :
    (key : List ℕ) (minlen : ℕ) (lines : List (List ℕ))
    → All (λ runs. IsSendable key runs) lines
    → (m : ℕ) × (t : List ℕ) × (k : ℕ) × (z : List ℕ) × (11 ≤ m)
      × IsLast k z
      × Spelled key lines (eols 4 (eol_bits k z)) t
      × (byte_bits (send_page key minlen lines) [] ≡ eol_bits m t)
unfolding send_page
send_page-Spelled key minlen lines ok_ =
    let (small, m, ge, same) = data_start-Sends in
    let (b, s) = send_lines key minlen data_start lines in
    let small1 = (send_lines-Spelled key minlen data_start lines [] ok_ small).0 in
    let (k, z, last, e) = send_rtc-stream s small1 in
    let rest = eols 4 (eol_bits k z) in
    let (w, t, sp, e1) = send_lines-Spelled key minlen data_start lines rest ok_ small in
    (
      m,
      t,
      k,
      z,
      ge,
      last,
      sp,
      byte_bits-append b (send_rtc s) [] ∙ ap (byte_bits b) e ∙ e1 ∙ same t,
    )
