-- ===== src/Efax/Bits.antt =====
-- Numbers as strings of bits, the highest first: the view in which the encoder and the decoder of the
-- T.4 codes are compared.
use native.Mathlib.Nat.{
  div-div-eq-div-mul, div-add-mod, add-mul-mod_self_left, mod-eq_of_lt, mod-lt,
}
use secure_e_fax.Prelude.{
  ℕ, zero, suc, ◌+◌, ◌*◌, ◌/◌, ◌%◌, ◌^◌, ◌≤◌, ◌<◌, ◌≡◌, refl, sym, ap, ◌∙◌, List, [], ◌∷◌, ◌++◌,
  arith, length, drop, All,
}

-- The lowest n bits of v, before `rest`.
abbrev pub bits : ℕ → ℕ → List ℕ → List ℕ
bits zero v rest = rest
bits (suc n) v rest = bits n (v / 2) (v % 2 ∷ rest)

-- The number that the first n bits spell; missing bits are 0.
abbrev pub value : ℕ → List ℕ → ℕ
value zero s = 0
value (suc n) [] = 0
value (suc n) (b ∷ s) = b * 2 ^ n + value n s

abbrev pub AreBits : List ℕ → Type 0
AreBits s = All (λ b. b < 2) s

pub pow_suc : (k : ℕ) → 2 ^ suc k ≡ 2 * 2 ^ k
pow_suc k = omega arith

pub pow_pos : (k : ℕ) → 1 ≤ 2 ^ k
pow_pos zero = omega arith
pow_pos (suc k) = omega (arith, pow_suc k, pow_pos k)

pub length-bits : (n v : ℕ) (rest : List ℕ) → length (bits n v rest) ≡ n + length rest
length-bits zero v rest = omega arith
length-bits (suc n) v rest = omega (arith, length-bits n (v / 2) (v % 2 ∷ rest))

pub bits-append : (n v : ℕ) (s rest : List ℕ) → bits n v s ++ rest ≡ bits n v (s ++ rest)
bits-append zero v s rest = refl
bits-append (suc n) v s rest = bits-append n (v / 2) (v % 2 ∷ s) rest

pub bits-AreBits : (n v : ℕ) (rest : List ℕ) → AreBits rest → AreBits (bits n v rest)
bits-AreBits zero v rest h = h
bits-AreBits (suc n) v rest h = bits-AreBits n (v / 2) (v % 2 ∷ rest) (omega arith, h)

pub drop-bits : (n k v : ℕ) (rest : List ℕ) → drop (n + k) (bits n v rest) ≡ drop k rest
drop-bits zero k v rest = ap (λ j. drop j rest) (omega arith)
drop-bits (suc n) k v rest =
    ap (λ j. drop j (bits n (v / 2) (v % 2 ∷ rest))) (omega arith)
    ∙ drop-bits n (suc k) (v / 2) (v % 2 ∷ rest)

bits_same : (m n v w : ℕ) (rest : List ℕ) → m ≡ n → v ≡ w → bits m v rest ≡ bits n w rest
bits_same m n v w rest e f = cc

double_times : (x t : ℕ) → x * (2 * t) ≡ 2 * (x * t)
double_times x t = grind arith

split_times : (q r t : ℕ) → q * (2 * t) + r * t ≡ (2 * q + r) * t
split_times q r t = grind arith

times_pow_suc : (x n : ℕ) → x * 2 ^ suc n ≡ 2 * (x * 2 ^ n)
times_pow_suc x n = ap (λ t. x * t) (pow_suc n) ∙ double_times x (2 ^ n)

-- A code behind a number.
pub bits-shift :
    (n p x code : ℕ) (rest : List ℕ)
    → code < 2 ^ n
    → bits (n + p) (x * 2 ^ n + code) rest ≡ bits p x (bits n code rest)
bits-shift zero p x code rest lt =
    bits_same (0 + p) p (x * 2 ^ 0 + code) x rest (omega arith) (omega arith)
bits-shift (suc n) p x code rest lt =
    let v = x * 2 ^ suc n + code in
    let low : v % 2 ≡ code % 2 = omega (arith, times_pow_suc x n) in
    bits_same (suc n + p) (suc (n + p)) v v rest (omega arith) refl
    ∙ ap (λ b. bits (n + p) (v / 2) (b ∷ rest)) low
    ∙ bits_same (n + p) (n + p) (v / 2) (x * 2 ^ n + code / 2) (code % 2 ∷ rest) refl
        (omega (arith, times_pow_suc x n))
    ∙ bits-shift n p x (code / 2) (code % 2 ∷ rest) (omega (arith, pow_suc n))

-- The upper and the lower bits of a number.
pub bits-split :
    (k n v : ℕ) (rest : List ℕ) → bits (k + n) v rest ≡ bits n (v / 2 ^ k) (bits k v rest)
bits-split zero n v rest = bits_same (0 + n) n v (v / 2 ^ 0) rest (omega arith) (omega arith)
bits-split (suc k) n v rest =
    bits_same (suc k + n) (suc (k + n)) v v rest (omega arith) refl
    ∙ bits-split k n (v / 2) (v % 2 ∷ rest)
    ∙ bits_same n n (v / 2 / 2 ^ k) (v / 2 ^ suc k) (bits k (v / 2) (v % 2 ∷ rest)) refl
        (div-div-eq-div-mul v 2 (2 ^ k) ∙ ap (λ t. v / t) (sym (pow_suc k)))

mod-half : (m v : ℕ) → 1 ≤ m → (v % (2 * m) / 2 ≡ v / 2 % m) × (v % (2 * m) % 2 ≡ v % 2)
mod-half m v pos =
    let q = v / (2 * m) in
    let r = v % (2 * m) in
    let whole : 2 * (m * q) + r ≡ v = ap (λ t. t + r) (grind arith) ∙ div-add-mod v (2 * m) in
    let low : r < 2 * m = mod-lt v (omega arith) in
    let half : v / 2 ≡ r / 2 + m * q = omega arith in
    (
      sym (ap (λ t. t % m) half ∙ add-mul-mod_self_left (r / 2) m q ∙ mod-eq_of_lt (omega arith)),
      omega arith,
    )

pub bits-mod : (n m v : ℕ) (rest : List ℕ) → bits n (v % 2 ^ (n + m)) rest ≡ bits n v rest
bits-mod zero m v rest = refl
bits-mod (suc n) m v rest =
    let e : 2 ^ (suc n + m) ≡ 2 * 2 ^ (n + m) = ap (λ j. 2 ^ j) (omega arith) ∙ pow_suc (n + m) in
    let (half, low) = mod-half (2 ^ (n + m)) v (pow_pos (n + m)) in
    ap (λ t. bits n (v % t / 2) (v % t % 2 ∷ rest)) e
    ∙ ap (λ b. bits n (v % (2 * 2 ^ (n + m)) / 2) (b ∷ rest)) low
    ∙ bits_same n n (v % (2 * 2 ^ (n + m)) / 2) (v / 2 % 2 ^ (n + m)) (v % 2 ∷ rest) refl half
    ∙ bits-mod n m (v / 2) (v % 2 ∷ rest)

-- The value of a code of n bits and of what follows it.
pub value-bits :
    (n m v : ℕ) (rest : List ℕ)
    → v < 2 ^ n
    → value (n + m) (bits n v rest) ≡ v * 2 ^ m + value m rest
value-bits zero m v rest lt =
    let z : v ≡ 0 = omega arith in
    let e : 0 + m ≡ m = omega arith in
    ap (λ j. value j rest) e ∙ omega (arith, ap (λ t. t * 2 ^ m) z)
value-bits (suc n) m v rest lt =
    let q = v / 2 in
    let r = v % 2 in
    let whole : 2 * q + r ≡ v = omega arith in
    let e : suc n + m ≡ n + suc m = omega arith in
    ap (λ j. value j (bits n q (r ∷ rest))) e
    ∙ value-bits n (suc m) q (r ∷ rest) (omega (arith, pow_suc n))
    ∙ omega (arith, ap (λ t. q * t) (pow_suc m), split_times q r (2 ^ m), ap (λ t. t * 2 ^ m) whole)

pub value-lt : (n : ℕ) (s : List ℕ) → AreBits s → value n s < 2 ^ n
value-lt zero s h = omega arith
value-lt (suc n) [] h = pow_pos (suc n)
value-lt (suc zero) (b ∷ s) h = omega arith
value-lt (suc n) (zero ∷ s) h = omega (arith, pow_suc n, value-lt n s h.1)
value-lt (suc n) (suc zero ∷ s) h = omega (arith, pow_suc n, value-lt n s h.1)
value-lt (suc n) (suc (suc b) ∷ s) h = absurd (omega arith)

-- A window of nine bits.
pub value_window : (v : ℕ) (rest : List ℕ) → value 9 (bits 9 v rest) ≡ v % 512
value_window v rest = omega arith
