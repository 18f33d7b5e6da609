-- ===== src/Efax/Encoder/Stream.antt =====
-- What the encoder stores, as a string of bits.
use secure_e_fax.Prelude.{
  ℕ, zero, suc, ◌+◌, ◌-◌, ◌*◌, ◌/◌, ◌%◌, ◌^◌, ◌≤◌, ◌<◌, ◌≡◌, refl, sym, ap, ◌∙◌, List, [], ◌∷◌,
  ◌++◌, true, some, ltb, length, arith, Bool-cases, inl, inr, length-append,
}
use secure_e_fax.Text.{Bytes}
use secure_e_fax.Efax.Tables.{T4}
use secure_e_fax.Efax.Bits.{bits, bits-shift, bits-split, bits-mod}
use secure_e_fax.Efax.Encoder.{Encoder, Sink, store, put, put_entry, max_codes}

-- The bits of the bytes.
abbrev pub byte_bits : Bytes → List ℕ → List ℕ
byte_bits [] rest = rest
byte_bits (c ∷ s) rest = bits 8 c (byte_bits s rest)

pub byte_bits-append :
    (s t : Bytes) (rest : List ℕ) → byte_bits (s ++ t) rest ≡ byte_bits s (byte_bits t rest)
byte_bits-append [] t rest = refl
byte_bits-append (c ∷ s) t rest = ap (bits 8 c) (byte_bits-append s t rest)

-- Storing the whole bytes of `pending` bits leaves the rest of them.
store-bits :
    (n x pending : ℕ) (rest : List ℕ)
    → n * 8 ≤ pending
    → byte_bits (store n x pending) (bits (pending - n * 8) x rest) ≡ bits pending x rest
unfolding store
store-bits zero x pending rest le =
    let e : pending - 0 * 8 ≡ pending = omega arith in ap (λ j. bits j x rest) e
store-bits (suc n) x pending rest le =
    let left = pending - 8 in
    let same : pending - suc n * 8 ≡ left - n * 8 = omega arith in
    let whole : left + 8 ≡ pending = omega arith in
    ap (λ j. bits 8 (x / 2 ^ left % 256) (byte_bits (store n x left) (bits j x rest))) same
    ∙ ap (bits 8 (x / 2 ^ left % 256)) (store-bits n x left rest (omega arith))
    ∙ bits-mod 8 0 (x / 2 ^ left) (bits left x rest)
    ∙ sym (bits-split left 8 x rest)
    ∙ ap (λ j. bits j x rest) whole

-- A code of up to 24 bits joins the unsent bits.
pub put-bits :
    (e : Encoder) (code n : ℕ) (rest : List ℕ)
    → e.pending < 8
    → n ≤ 24
    → code < 2 ^ n
    → byte_bits (put e code n).0 (bits (put e code n).1.pending (put e code n).1.x rest)
      ≡ bits e.pending e.x (bits n code rest)
unfolding put
put-bits e code n rest lt le small =
    let x = (e.x * 2 ^ n + code) % 2 ^ 32 in
    let pending = e.pending + n in
    let same : pending % 8 ≡ pending - pending / 8 * 8 = omega arith in
    let swap : e.pending + n ≡ n + e.pending = omega arith in
    let wide : pending + (32 - pending) ≡ 32 = omega arith in
    ap (λ j. byte_bits (store (pending / 8) x pending) (bits j x rest)) same
    ∙ store-bits (pending / 8) x pending rest (omega arith)
    ∙ ap (λ j. bits pending ((e.x * 2 ^ n + code) % 2 ^ j) rest) (sym wide)
    ∙ bits-mod pending (32 - pending) (e.x * 2 ^ n + code) rest
    ∙ ap (λ j. bits j (e.x * 2 ^ n + code) rest) swap
    ∙ bits-shift n e.pending e.x code rest small

-- A sink that begins with some unsent bits.
abbrev pub stream : Sink → List ℕ → List ℕ
stream s rest = byte_bits s.codes (bits s.encoder.pending s.encoder.x rest)

pub put_entry-stream :
    (t : T4) (s : Sink) (rest : List ℕ)
    → s.encoder.pending < 8
    → t.bits ≤ 24
    → t.code < 2 ^ t.bits
    → length s.codes < max_codes
    → stream (put_entry (some t) s) rest ≡ stream s (bits t.bits t.code rest)
unfolding put_entry
put_entry-stream t s rest lt le small room =
    let e = put s.encoder t.code t.bits in
    let yes_room : ltb (length s.codes) max_codes ≡ true = ground arith in
    rw yes_room (
      byte_bits-append s.codes e.0 (bits e.1.pending e.1.x rest)
      ∙ ap (byte_bits s.codes) (put-bits s.encoder t.code t.bits rest lt le small))

pub length-store : (n x pending : ℕ) → length (store n x pending) ≡ n
unfolding store
length-store zero x pending = refl
length-store (suc n) x pending = omega (arith, length-store n x (pending - 8))

-- Fewer than eight bits are left, and a code of up to 24 bits stores at most three bytes.
pub put_entry-small :
    (t : T4) (s : Sink)
    → s.encoder.pending < 8
    → t.bits ≤ 24
    → ((put_entry (some t) s).encoder.pending < 8)
      × (length (put_entry (some t) s).codes ≤ length s.codes + 3)
unfolding put_entry put
put_entry-small t s lt le = elim (Bool-cases (ltb (length s.codes) max_codes)) [
  | inl b ↦
      let pending = s.encoder.pending + t.bits in
      let x = (s.encoder.x * 2 ^ t.bits + t.code) % 2 ^ 32 in
      rw b (
        omega arith,
        omega (
          arith,
          length-append s.codes (store (pending / 8) x pending),
          length-store (pending / 8) x pending,
        ),
      )
  | inr b ↦ rw b (lt, omega arith)
]
