-- ===== src/Efax/Runs/Padded.antt =====
-- The pixels of a scan line that is padded or truncated.
use secure_e_fax.Prelude.{
  ℕ, zero, suc, ◌+◌, ◌-◌, ◌%◌, ◌≤◌, ◌<◌, ◌≡◌, refl, sym, ap, ◌∙◌, List, [], ◌∷◌, ◌++◌, Bool, true,
  false, not, ltb, ◌==◌, length, take, take_all, length-append, arith, append_assoc, append-nil,
  Bool-cases, inl, inr,
}
use secure_e_fax.Efax.Decoder.{sum}
use secure_e_fax.Efax.Runs.{reverse_onto, add_last, xpad_wider, take_off, xpad}
use secure_e_fax.Efax.Runs.Pixels.{repeat, repeat_add, pixels, not-not}
use secure_e_fax.Efax.Runs.Or.{drawn_back, base, pixels-reverse_onto}

-- The colour of a run behind a line.
abbrev after : Bool → List ℕ → Bool
after c [] = c
after c (r ∷ rs) = after (not c) rs

after_not : (c : Bool) (rs : List ℕ) → after (not c) rs ≡ not (after c rs)
after_not c [] = refl
after_not c (r ∷ rs) = after_not (not c) rs

after-length : (rs : List ℕ) → (length rs % 2 == 1) ≡ after false rs
after-length [] = refl
after-length (r ∷ []) = refl
after-length (r ∷ q ∷ rs) =
    let e : length (r ∷ q ∷ rs) % 2 ≡ length rs % 2 = omega arith in
    ap (λ j. j == 1) e ∙ after-length rs

pixels-add_last :
    (c : Bool) (r : ℕ) (rs : List ℕ) (n : ℕ)
    → pixels c (add_last (r ∷ rs) n) ≡ pixels c (r ∷ rs) ++ repeat n (after c rs)
unfolding add_last
pixels-add_last c r [] n =
    append-nil (repeat (r + n) c)
    ∙ repeat_add r n c
    ∙ ap (λ s. s ++ repeat n c) (sym (append-nil (repeat r c)))
pixels-add_last c r (q ∷ rs) n =
    ap (λ s. repeat r c ++ s) (pixels-add_last (not c) q rs n)
    ∙ sym (append_assoc (repeat r c) (pixels (not c) (q ∷ rs)) (repeat n (after (not c) rs)))

pixels-append :
    (c : Bool) (rs : List ℕ) (n : ℕ)
    → pixels c (rs ++ n ∷ []) ≡ pixels c rs ++ repeat n (after c rs)
pixels-append c [] n = append-nil (repeat n c)
pixels-append c (r ∷ rs) n =
    ap (λ s. repeat r c ++ s) (pixels-append (not c) rs n)
    ∙ sym (append_assoc (repeat r c) (pixels (not c) rs) (repeat n (after (not c) rs)))

xpad_wider-pixels :
    (runs : List ℕ) (n : ℕ) → pixels false (xpad_wider runs n) ≡ pixels false runs ++ repeat n false
unfolding xpad_wider
xpad_wider-pixels [] n = append-nil (repeat n false)
xpad_wider-pixels (r ∷ rs) n = elim (Bool-cases (length (r ∷ rs) % 2 == 1)) [
  | inl odd ↦
      let black : not (after false rs) ≡ true =
        sym (after_not false rs) ∙ sym (after-length (r ∷ rs)) ∙ odd in
      let white : after false rs ≡ false = sym (not-not (after false rs)) ∙ ap not black in
      rw odd (pixels-add_last false r rs n ∙ ap (λ c. pixels false (r ∷ rs) ++ repeat n c) white)
  | inr even ↦
      let white : after false (r ∷ rs) ≡ false = sym (after-length (r ∷ rs)) ∙ even in
      rw even (pixels-append false (r ∷ rs) n ∙ ap (λ c. pixels false (r ∷ rs) ++ repeat n c) white)
]

length-repeat : (n : ℕ) (c : Bool) → length (repeat n c) ≡ n
length-repeat zero c = refl
length-repeat (suc n) c = omega (arith, length-repeat n c)

length-pixels : (c : Bool) (runs : List ℕ) → length (pixels c runs) ≡ sum runs
length-pixels c [] = refl
length-pixels c (r ∷ rs) = omega (
  arith,
  length-append (repeat r c) (pixels (not c) rs),
  length-repeat r c,
  length-pixels (not c) rs,
)

take_low : (k : ℕ) (a b : List Bool) → k ≤ length a → take k (a ++ b) ≡ take k a
take_low zero a b le = refl
take_low (suc k) [] b le = absurd (omega arith)
take_low (suc k) (x ∷ a) b le = ap (λ s. x ∷ s) (take_low k a b (omega arith))

take_high : (k : ℕ) (a b : List Bool) → take (length a + k) (a ++ b) ≡ a ++ take k b
take_high k [] b = let e : 0 + k ≡ k = omega arith in ap (λ j. take j b) e
take_high k (x ∷ a) b =
    let e : suc (length a) + k ≡ suc (length a + k) = omega arith in
    ap (λ j. take j (x ∷ (a ++ b))) e ∙ ap (λ s. x ∷ s) (take_high k a b)

take-repeat : (k n : ℕ) (c : Bool) → k ≤ n → take k (repeat n c) ≡ repeat k c
take-repeat zero n c le = refl
take-repeat (suc k) zero c le = absurd (omega arith)
take-repeat (suc k) (suc n) c le = ap (λ s. c ∷ s) (take-repeat k n c (omega arith))

-- What take_off leaves, as far as the last run's colour d tells it.
record Left (back rest : List ℕ) (c : Bool) (count : ℕ) : Type 0 where
  d : Bool
  same : drawn_back rest d ≡ take count (drawn_back back c)
  kept : base rest d ≡ base back c

take_off-Left :
    (back : List ℕ) (c : Bool) (n : ℕ)
    → Left back (take_off back n) c (length (drawn_back back c) - n)
unfolding take_off
take_off-Left [] c n = record { d = not c; same = take_none (0 - n); kept = not-not (not c) }
  where
    take_none : (k : ℕ) → drawn_back (0 ∷ []) (not c) ≡ take k (drawn_back [] c)
    take_none zero = refl
    take_none (suc k) = refl
take_off-Left (r ∷ back) c n = elim (Bool-cases (ltb r n)) [
  | inl less ↦ rw less (gone (ground arith) (take_off-Left back (not c) (n - r)))
  | inr more ↦ rw more (cut (ground arith))
]
  where
    front : List Bool
    front = drawn_back back (not c)

    total : length (front ++ repeat r c) ≡ length front + r
    total = omega (arith, length-append front (repeat r c), length-repeat r c)

    gone :
        r < n
        → Left back (take_off back (n - r)) (not c) (length front - (n - r))
        → Left (r ∷ back) (take_off back (n - r)) c (length (front ++ repeat r c) - n)
    gone lt l =
        let count : length (front ++ repeat r c) - n ≡ length front - (n - r) =
          omega (arith, total) in
        record {
          d = l.d;
          same =
              l.same
              ∙ sym (take_low (length front - (n - r)) front (repeat r c) (omega arith))
              ∙ ap (λ k. take k (front ++ repeat r c)) (sym count);
          kept = l.kept;
        }

    cut : n ≤ r → Left (r ∷ back) ((r - n) ∷ back) c (length (front ++ repeat r c) - n)
    cut le =
        let count : length (front ++ repeat r c) - n ≡ length front + (r - n) =
          omega (arith, total) in
        record {
          d = c;
          same =
              ap (λ s. front ++ s) (sym (take-repeat (r - n) r c (omega arith)))
              ∙ sym (take_high (r - n) front (repeat r c))
              ∙ ap (λ k. take k (front ++ repeat r c)) (sym count);
          kept = refl;
        }

base-not : (back : List ℕ) (c : Bool) → base back (not c) ≡ not (base back c)
base-not [] c = refl
base-not (r ∷ back) c = base-not back (not c)

-- Some colour of the last run makes the first one white.
some_colour : (back : List ℕ) → (c : Bool) × (base back c ≡ false)
some_colour back = elim (Bool-cases (base back false)) [
  | inl black ↦ (true, base-not back false ∙ ap not black)
  | inr white ↦ (false, white)
]

reverse_twice :
    (runs out back : List ℕ)
    → reverse_onto (reverse_onto runs back) out ≡ reverse_onto back (runs ++ out)
unfolding reverse_onto
reverse_twice [] out back = refl
reverse_twice (r ∷ rs) out back = reverse_twice rs out (r ∷ back)

reverse_back : (runs : List ℕ) → reverse_onto (reverse_onto runs []) [] ≡ runs
unfolding reverse_onto
reverse_back runs = reverse_twice runs [] [] ∙ append-nil runs

truncated :
    (runs : List ℕ) (n : ℕ)
    → pixels false (reverse_onto (take_off (reverse_onto runs []) n) [])
      ≡ take (sum runs - n) (pixels false runs)
truncated runs n =
    let back = reverse_onto runs [] in
    let (c, white) = some_colour back in
    let l = take_off-Left back c n in
    let again : reverse_onto back [] ≡ runs = reverse_back runs in
    let whole : drawn_back back c ≡ pixels false runs =
      sym (append-nil (drawn_back back c))
      ∙ sym (pixels-reverse_onto back [] c)
      ∙ ap (λ d. pixels d (reverse_onto back [])) white
      ∙ ap (pixels false) again in
    let count : length (drawn_back back c) - n ≡ sum runs - n =
      ap (λ s. length s - n) whole ∙ ap (λ j. j - n) (length-pixels false runs) in
    ap (λ d. pixels d (reverse_onto (take_off back n) [])) (sym white ∙ sym l.kept)
    ∙ pixels-reverse_onto (take_off back n) [] l.d
    ∙ append-nil (drawn_back (take_off back n) l.d)
    ∙ l.same
    ∙ ap (λ k. take k (drawn_back back c)) count
    ∙ ap (take (sum runs - n)) whole

-- xpad keeps the pixels of a line as far as the page goes, and what the line leaves of the page is white.
pub xpad-pixels :
    (runs : List ℕ) (width : ℕ)
    → pixels false (xpad runs (sum runs) width)
      ≡ take width (pixels false runs) ++ repeat (width - sum runs) false
unfolding xpad
xpad-pixels runs width = elim (Bool-cases (ltb width (sum runs))) [
  | inl less ↦
      let lt : width < sum runs = ground arith in
      let none : width - sum runs ≡ 0 = omega arith in
      let count : sum runs - (sum runs - width) ≡ width = omega arith in
      rw less (
        truncated runs (sum runs - width)
        ∙ ap (λ k. take k (pixels false runs)) count
        ∙ sym (append-nil (take width (pixels false runs)))
        ∙ ap (λ k. take width (pixels false runs) ++ repeat k false) (sym none))
  | inr more ↦
      let le : sum runs ≤ width = ground arith in
      rw more (
        xpad_wider-pixels runs (width - sum runs)
        ∙ ap (λ s. s ++ repeat (width - sum runs) false)
            (sym (take_all width (pixels false runs) (omega (arith, length-pixels false runs)))))
]
