-- ===== src/Text/Decimal/RoundTrip.antt =====
-- Numbers are read back from their decimal text, and different pages have different suffixes.
use secure_e_fax.Prelude.{
  ℕ, zero, suc, ◌+◌, ◌-◌, ◌*◌, ◌/◌, ◌%◌, ◌<◌, ◌≤◌, ◌≡◌, refl, sym, ap, ◌∙◌, ◌&&◌, false, List, [],
  ◌∷◌, ◌++◌, arith, ltb, leb, ltb→lt, length, replicate, All, Bool-cases, inl, inr, append-nil,
}
use secure_e_fax.Text.Decimal.{pos, digits_onto, decimal, padded3, digits_value, atoi}

-- The text is at its end or goes on with a byte that is no digit.
abbrev pub Stops : List ℕ → Type 0
Stops [] = Unit
Stops (c ∷ s) = (leb 48 c && leb c 57) ≡ false

digits_value-Stops : (n : ℕ) (rest : List ℕ) → Stops rest → digits_value n rest ≡ n
unfolding digits_value
digits_value-Stops n [] h = refl
digits_value-Stops n (c ∷ s) h = rw h

digits_value_digit :
    (n d : ℕ) (out : List ℕ)
    → d < 10
    → digits_value n ((48 + d) ∷ out) ≡ digits_value (n * 10 + d) out
unfolding digits_value
digits_value_digit n d out h =
    let e : (n * 10 + (48 + d - 48)) ≡ n * 10 + d = omega arith in ground arith

digits_onto-value :
    (f n : ℕ) (out : List ℕ) → n < f → digits_value 0 (digits_onto f n out) ≡ digits_value n out
unfolding digits_onto
digits_onto-value zero n out h = absurd (omega arith)
digits_onto-value (suc f) n out h = elim (Bool-cases (ltb n 10)) [
  | inl b ↦
      rw (b, digits_onto)
        (digits_value_digit 0 n out (ltb→lt n 10 b) ∙ ap (λ k. digits_value k out) (omega arith))
  | inr b ↦
      rw (b, digits_onto)
        (digits_onto-value f (n / 10) ((48 + n % 10) ∷ out) (ground arith)
          ∙ digits_value_digit (n / 10) (n % 10) out (omega arith)
          ∙ ap (λ k. digits_value k out) (omega arith))
]

digits_onto-append :
    (f n : ℕ) (out rest : List ℕ) → digits_onto f n out ++ rest ≡ digits_onto f n (out ++ rest)
unfolding digits_onto
digits_onto-append zero n out rest = refl
digits_onto-append (suc f) n out rest = elim (Bool-cases (ltb n 10)) [
  | inl b ↦ rw (b, digits_onto)
  | inr b ↦ rw (b, digits_onto) (digits_onto-append f (n / 10) ((48 + n % 10) ∷ out) rest)
]

-- A printed number is read back, whatever follows that is no digit.
pub digits_value-decimal :
    (n : ℕ) (rest : List ℕ) → Stops rest → digits_value 0 (decimal n ++ rest) ≡ n
unfolding decimal
digits_value-decimal n rest h =
    ap (digits_value 0) (digits_onto-append (suc n) n [] rest)
    ∙ digits_onto-value (suc n) n rest (omega arith)
    ∙ digits_value-Stops n rest h

zeros-value : (k : ℕ) (s : List ℕ) → digits_value 0 (replicate k 48 ++ s) ≡ digits_value 0 s
unfolding digits_value
zeros-value zero s = refl
zeros-value (suc k) s = zeros-value k s

padded3-value : (n : ℕ) → digits_value 0 (padded3 n) ≡ n
unfolding padded3
padded3-value n =
    zeros-value (3 - length (decimal n)) (decimal n)
    ∙ ap (digits_value 0) (sym (append-nil (decimal n)))
    ∙ digits_value-decimal n [] tt

-- The suffixes of two pages are equal only if the pages are.
pub padded3-injective : (m n : ℕ) → padded3 m ≡ padded3 n → m ≡ n
padded3-injective m n e = sym (padded3-value m) ∙ ap (digits_value 0) e ∙ padded3-value n

-- The first byte of a printed number is a digit.
abbrev StartsDigit : List ℕ → Type 0
StartsDigit [] = ⊥
StartsDigit (c ∷ s) = (48 ≤ c) × (c ≤ 57)

digits_onto-StartsDigit : (f n : ℕ) (out : List ℕ) → n < f → StartsDigit (digits_onto f n out)
unfolding digits_onto
digits_onto-StartsDigit zero n out h = absurd (omega arith)
digits_onto-StartsDigit (suc f) n out h = elim (Bool-cases (ltb n 10)) [
  | inl b ↦ rw (b, StartsDigit) (omega arith, omega (arith, ltb→lt n 10 b))
  | inr b ↦
      rw (b, StartsDigit) (digits_onto-StartsDigit f (n / 10) ((48 + n % 10) ∷ out) (ground arith))
]

atoi-StartsDigit : (s : List ℕ) → StartsDigit s → atoi s ≡ pos (digits_value 0 s)
unfolding atoi
atoi-StartsDigit [] h = absurd h
atoi-StartsDigit (c ∷ s) h = ground arith

-- atoi reads a printed number back.
pub atoi-decimal : (n : ℕ) → atoi (decimal n) ≡ pos n
unfolding decimal
atoi-decimal n =
    atoi-StartsDigit (decimal n) (digits_onto-StartsDigit (suc n) n [] (omega arith))
    ∙ ap (λ s. pos (digits_value 0 s)) (sym (append-nil (decimal n)))
    ∙ ap pos (digits_value-decimal n [] tt)

abbrev pub IsDigit : ℕ → Type 0
IsDigit c = (48 ≤ c) × (c ≤ 57)

digits_onto-Digits : (f n : ℕ) (out : List ℕ) → All IsDigit out → All IsDigit (digits_onto f n out)
unfolding digits_onto
digits_onto-Digits zero n out h = h
digits_onto-Digits (suc f) n out h = elim (Bool-cases (ltb n 10)) [
  | inl b ↦ rw (b, digits_onto) ((omega arith, omega (arith, ltb→lt n 10 b)), h)
  | inr b ↦
      rw (b, digits_onto)
        (digits_onto-Digits f (n / 10) ((48 + n % 10) ∷ out) ((omega arith, omega arith), h))
]

-- A printed number is made of digits.
pub decimal-Digits : (n : ℕ) → All IsDigit (decimal n)
unfolding decimal
decimal-Digits n = digits_onto-Digits (suc n) n [] tt

pub decimal-ne-nil : (n : ℕ) → 0 < length (decimal n)
unfolding decimal
decimal-ne-nil n =
    starts (digits_onto (suc n) n []) (digits_onto-StartsDigit (suc n) n [] (omega arith))
  where
    starts : (s : List ℕ) → StartsDigit s → 0 < length s
    starts [] h = absurd h
    starts (c ∷ s) h = omega arith
