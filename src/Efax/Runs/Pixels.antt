-- ===== src/Efax/Runs/Pixels.antt =====
-- A scan line as its pixels.
use secure_e_fax.Prelude.{
  ℕ, zero, suc, ◌+◌, ◌-◌, ◌≤◌, ◌≡◌, refl, ap, ◌∙◌, List, [], ◌∷◌, ◌++◌, Bool, true, false, not,
  ◌||◌, arith, append_assoc,
}

abbrev pub repeat : ℕ → Bool → List Bool
repeat zero c = []
repeat (suc n) c = c ∷ repeat n c

-- The runs have changing colours, beginning with c; black is true.
abbrev pub pixels : Bool → List ℕ → List Bool
pixels c [] = []
pixels c (r ∷ rs) = repeat r c ++ pixels (not c) rs

pub repeat_add : (m n : ℕ) (c : Bool) → repeat (m + n) c ≡ repeat m c ++ repeat n c
repeat_add zero n c = ap (λ j. repeat j c) (omega arith)
repeat_add (suc m) n c =
    let e : suc m + n ≡ suc (m + n) = omega arith in
    ap (λ j. repeat j c) e ∙ ap (λ s. c ∷ s) (repeat_add m n c)

-- Where both lines go, the pixels are or-ed; the longer one goes on.
abbrev pub or_pixels : List Bool → List Bool → List Bool
or_pixels [] ys = ys
or_pixels (x ∷ xs) [] = x ∷ xs
or_pixels (x ∷ xs) (y ∷ ys) = (x || y) ∷ or_pixels xs ys

pub or_repeat :
    (n : ℕ) (c d : Bool) (xs ys : List Bool)
    → or_pixels (repeat n c ++ xs) (repeat n d ++ ys) ≡ repeat n (c || d) ++ or_pixels xs ys
or_repeat zero c d xs ys = refl
or_repeat (suc n) c d xs ys = ap (λ s. (c || d) ∷ s) (or_repeat n c d xs ys)

pub or_none : (xs : List Bool) → or_pixels xs [] ≡ xs
or_none [] = refl
or_none (x ∷ xs) = refl

pub not-not : (c : Bool) → not (not c) ≡ c
not-not true = refl
not-not false = refl

-- The part of a run behind its first n pixels.
pub pixels_later :
    (n l : ℕ) (c : Bool) (rs : List ℕ)
    → n ≤ l
    → pixels c (l ∷ rs) ≡ repeat n c ++ pixels c ((l - n) ∷ rs)
pixels_later n l c rs le =
    let e : l ≡ n + (l - n) = omega arith in
    let rest = pixels (not c) rs in
    ap (λ j. repeat j c ++ rest) e
    ∙ ap (λ s. s ++ rest) (repeat_add n (l - n) c)
    ∙ append_assoc (repeat n c) (repeat (l - n) c) rest
