-- ===== src/Efax/Decoder/Window.antt =====
-- One lookup of the decoder, in the view of the bits that have not been decoded.
use secure_e_fax.Prelude.{
  ℕ, ◌+◌, ◌-◌, ◌*◌, ◌/◌, ◌%◌, ◌^◌, ◌≤◌, ◌<◌, ◌≡◌, ◌⊎◌, refl, sym, ap, ◌∙◌, List, [], ◌∷◌, Bool,
  false, ltb, length, arith, Bool-cases, inl, inr, drop, All,
}
use secure_e_fax.Text.{Bytes}
use secure_e_fax.Efax.Bits.{
  bits, bits-shift, bits-split, bits-mod, value, value_window, length-bits, drop-bits,
}
use secure_e_fax.Efax.Encoder.Stream.{byte_bits}
use secure_e_fax.Efax.Decoder.{Dtab, Reader, refill, step, lookup}

abbrev pub AreBytes : Bytes → Type 0
AreBytes s = All (λ c. c < 256) s

-- The bits that have not been decoded.
abbrev pub undecoded : Reader → List ℕ
undecoded r = bits r.avail r.x (byte_bits r.input [])

-- At most 16 bits wait, and what is still to be read are bytes.
pub record IsReader (r : Reader) : Type 0 where
  pub few : r.avail ≤ 16
  pub bytes : AreBytes r.input

-- The bits at hand before those of `s`.
abbrev pub before : Bytes → Reader → List ℕ
before s r = bits r.avail r.x (byte_bits s [])

-- A reader that has nine bits at hand, with the same bits to be decoded; it has read a byte, or it is
-- where it was.
record Filled (s : Bytes) (r r1 : Reader) : Type 0 where
  enough : 9 ≤ r1.avail
  few : r1.avail ≤ 16
  bytes : AreBytes r1.input
  same : undecoded r1 ≡ before s r
  tab_kept : r1.tab ≡ r.tab
  read : (r1.ended ≡ false) ⊎ ((r1.ended ≡ r.ended) × (r1.avail ≡ r.avail))

Filled-at_once :
    (s : Bytes) (r : Reader)
    → 9 ≤ r.avail
    → r.avail ≤ 16
    → AreBytes s
    → Filled s r (record r { input = s })
Filled-at_once s r ge le b = record {
  enough = ge;
  few = le;
  bytes = b;
  same = refl;
  tab_kept = refl;
  read = inr (refl, refl);
}

abbrev one_more : ℕ → Reader → Reader
one_more c r = record r { x = (r.x * 2 ^ 8 + c) % 2 ^ 32; avail = r.avail + 8; ended = false }

before-one_more :
    (c : ℕ) (s : Bytes) (r : Reader)
    → r.avail ≤ 16
    → c < 256
    → before s (one_more c r) ≡ before (c ∷ s) r
before-one_more c s r le lt =
    let rest = byte_bits s [] in
    let wide : r.avail + 8 + (24 - r.avail) ≡ 32 = omega arith in
    let swap : r.avail + 8 ≡ 8 + r.avail = omega arith in
    ap (λ j. bits (r.avail + 8) ((r.x * 2 ^ 8 + c) % 2 ^ j) rest) (sym wide)
    ∙ bits-mod (r.avail + 8) (24 - r.avail) (r.x * 2 ^ 8 + c) rest
    ∙ ap (λ j. bits j (r.x * 2 ^ 8 + c) rest) swap
    ∙ bits-shift 8 r.avail r.x c rest lt

refill-Filled :
    (s : Bytes) (r : Reader)
    → r.avail ≤ 16
    → AreBytes s
    → 9 ≤ length (before s r)
    → Filled s r (refill s r)
unfolding refill
refill-Filled [] r le b long =
    let enough : 9 ≤ r.avail = omega (arith, length-bits r.avail r.x []) in
    let no_read : ltb r.avail 9 ≡ false = ground arith in
    rw no_read (Filled-at_once [] r enough le b)
refill-Filled (c ∷ s) r le b long = elim (Bool-cases (ltb r.avail 9)) [
  | inl few ↦
      let small : r.avail ≤ 8 = ground arith in
      let e = before-one_more c s r le b.0 in
      let f = refill-Filled s (one_more c r) (omega arith) b.1 (rw e long) in
      rw few (record {
        enough = f.enough;
        few = f.few;
        bytes = f.bytes;
        same = f.same ∙ e;
        tab_kept = f.tab_kept;
        read = has_read f.read;
      })
  | inr many ↦ rw many (Filled-at_once (c ∷ s) r (ground arith) le b)
]
  where
    has_read :
        {e : Bool} {a : ℕ}
        → (e ≡ false) ⊎ ((e ≡ false) × (a ≡ r.avail + 8))
        → (e ≡ false) ⊎ ((e ≡ r.ended) × (a ≡ r.avail))
    has_read (inl f) = inl f
    has_read (inr f) = inl f.0

pub window :
    (avail x : ℕ) (rest : List ℕ)
    → 9 ≤ avail
    → value 9 (bits avail x rest) ≡ x / 2 ^ (avail - 9) % 512
window avail x rest ge =
    let e : avail ≡ avail - 9 + 9 = omega arith in
    ap (λ j. value 9 (bits j x rest)) e
    ∙ ap (value 9) (bits-split (avail - 9) 9 x rest)
    ∙ value_window (x / 2 ^ (avail - 9)) (bits (avail - 9) x rest)

drop_first :
    (avail n x : ℕ) (rest : List ℕ)
    → n ≤ avail
    → bits (avail - n) x rest ≡ drop n (bits avail x rest)
drop_first avail n x rest le =
    let e : avail - n + n ≡ avail = omega arith in
    let z : n + 0 ≡ n = omega arith in
    let low = bits (avail - n) x rest in
    sym (drop-bits n 0 (x / 2 ^ (avail - n)) low)
    ∙ ap (λ j. drop j (bits n (x / 2 ^ (avail - n)) low)) z
    ∙ ap (drop n) (sym (bits-split (avail - n) n x rest))
    ∙ ap (λ j. drop n (bits j x rest)) e

-- What a lookup does: the entry is that of the next nine bits, and its bits are taken off.
pub record Stepped (r : Reader) (t : Dtab) (r1 : Reader) : Type 0 where
  pub ready : IsReader r1
  pub left : undecoded r1 ≡ drop t.bits (undecoded r)
  pub next_tab : r1.tab ≡ t.next
  pub read :
      (r1.ended ≡ false) ⊎ ((r1.ended ≡ r.ended) × (r1.avail + t.bits ≡ r.avail) × (9 ≤ r.avail))

pub step-entry :
    (r : Reader)
    → IsReader r
    → 9 ≤ length (undecoded r)
    → (step r).0 ≡ lookup r.tab (value 9 (undecoded r))
unfolding step
step-entry r v long =
    let r1 = refill r.input r in
    let f = refill-Filled r.input r v.few v.bytes long in
    ap (λ n. lookup r1.tab n) (sym (window r1.avail r1.x (byte_bits r1.input []) f.enough))
    ∙ ap (λ t. lookup t (value 9 (undecoded r1))) f.tab_kept
    ∙ ap (λ s. lookup r.tab (value 9 s)) f.same

pub step-Stepped :
    (r : Reader)
    → IsReader r
    → 9 ≤ length (undecoded r)
    → (step r).0.bits ≤ 9
    → Stepped r (step r).0 (step r).1
unfolding step
step-Stepped r v long le =
    let r1 = refill r.input r in
    let t = (step r).0 in
    let f = refill-Filled r.input r v.few v.bytes long in
    record {
      ready = record { few = omega (arith, f.few); bytes = f.bytes };
      left =
          drop_first r1.avail t.bits r1.x (byte_bits r1.input []) (omega (arith, f.enough))
          ∙ ap (drop t.bits) f.same;
      next_tab = refl;
      read = has_read t.bits f.enough (omega (arith, f.enough)) f.read;
    }
  where
    has_read :
        (n : ℕ)
        → 9 ≤ (refill r.input r).avail
        → n ≤ (refill r.input r).avail
        → ((refill r.input r).ended ≡ false)
          ⊎ (((refill r.input r).ended ≡ r.ended) × ((refill r.input r).avail ≡ r.avail))
        → ((refill r.input r).ended ≡ false)
          ⊎ (((refill r.input r).ended ≡ r.ended)
              × ((refill r.input r).avail - n + n ≡ r.avail)
              × (9 ≤ r.avail))
    has_read n ge le (inl e) = inl e
    has_read n ge le (inr (e, a)) = inr (e, omega arith, omega arith)
