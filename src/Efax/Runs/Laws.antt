-- ===== src/Efax/Runs/Laws.antt =====
-- The width of a scan line that is scaled, and the pixels of one that is inverted.
use secure_e_fax.Prelude.{
  ℕ, zero, suc, ◌+◌, ◌-◌, ◌*◌, ◌/◌, ◌^◌, ◌≤◌, ◌≡◌, refl, sym, ap, ◌∙◌, List, [], ◌∷◌, ◌++◌, map,
  Bool, true, false, not, arith,
}
use secure_e_fax.Efax.Decoder.{sum}
use secure_e_fax.Efax.Runs.{xinvert, xscale}
use secure_e_fax.Efax.Runs.Pixels.{repeat, pixels}

map-append : (xs ys : List Bool) → map not (xs ++ ys) ≡ map not xs ++ map not ys
map-append [] ys = refl
map-append (x ∷ xs) ys = ap (λ s. not x ∷ s) (map-append xs ys)

map-repeat : (n : ℕ) (c : Bool) → map not (repeat n c) ≡ repeat n (not c)
map-repeat zero c = refl
map-repeat (suc n) c = ap (λ s. not c ∷ s) (map-repeat n c)

map-pixels : (c : Bool) (runs : List ℕ) → map not (pixels c runs) ≡ pixels (not c) runs
map-pixels c [] = refl
map-pixels c (r ∷ rs) =
    map-append (repeat r c) (pixels (not c) rs)
    ∙ ap (λ s. s ++ map not (pixels (not c) rs)) (map-repeat r c)
    ∙ ap (λ s. repeat r (not c) ++ s) (map-pixels (not c) rs)

-- xinvert turns every pixel of a line to the other colour.
pub xinvert-pixels : (runs : List ℕ) → pixels false (xinvert runs) ≡ map not (pixels false runs)
unfolding xinvert
xinvert-pixels [] = refl
xinvert-pixels (zero ∷ rs) = sym (map-pixels true rs)
xinvert-pixels (suc r ∷ rs) = sym (map-pixels false (suc r ∷ rs))

times_more : (a b xs : ℕ) → (a + b) * xs ≡ a * xs + b * xs
times_more a b xs = grind arith

scaled :
    (xs : ℕ) (runs : List ℕ) (inlen outlen : ℕ)
    → outlen ≡ (inlen * xs + 128) / 2 ^ 8
    → outlen + sum (xscale xs runs inlen outlen) ≡ ((inlen + sum runs) * xs + 128) / 2 ^ 8
unfolding xscale
scaled xs [] inlen outlen e =
    let z : (inlen + 0) * xs ≡ inlen * xs = ap (λ j. j * xs) (omega arith) in omega (arith, z)
scaled xs (r ∷ rs) inlen outlen e =
    let out = ((inlen + r) * xs + 128) / 2 ^ 8 in
    let r' = out - outlen in
    let more : outlen ≤ out = omega (arith, times_more inlen r xs) in
    let sums : outlen + r' ≡ out = omega arith in
    let assoc : inlen + r + sum rs ≡ inlen + (r + sum rs) = omega arith in
    omega
      (arith, scaled xs rs (inlen + r) (outlen + r') sums, ap (λ j. (j * xs + 128) / 2 ^ 8) assoc)

-- The width of a line that is scaled by xs / 256 is its width scaled so, rounded to the nearest: the
-- roundings of the runs do not add up.
pub xscale-sum : (xs : ℕ) (runs : List ℕ) → sum (xscale xs runs 0 0) ≡ (sum runs * xs + 128) / 2 ^ 8
xscale-sum xs runs =
    let e : 0 * xs ≡ 0 = omega arith in
    let first : 0 ≡ (0 * xs + 128) / 2 ^ 8 = omega (arith, e) in
    let same : 0 + sum runs ≡ sum runs = omega arith in
    omega (arith, scaled xs runs 0 0 first, ap (λ j. (j * xs + 128) / 2 ^ 8) same)
