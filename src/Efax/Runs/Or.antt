-- ===== src/Efax/Runs/Or.antt =====
-- runor of efax/efaxlib.c, in the view of the pixels.
use mathlib.Core.Path.{subst}
use secure_e_fax.Prelude.{
  ℕ, zero, suc, ◌+◌, ◌-◌, ◌≤◌, ◌<◌, ◌≡◌, refl, sym, ap, ◌∙◌, List, [], ◌∷◌, ◌++◌, Bool, true, false,
  not, ◌||◌, leb, leb→le, length, arith, append_assoc, append-nil, Bool-cases, inl, inr,
}
use secure_e_fax.Outcome.{ok}
use secure_e_fax.Efax.Decoder.{sum}
use secure_e_fax.Efax.Runs.{reverse_onto, Ored, emit, or_rest, or_loop, runor}
use secure_e_fax.Efax.Runs.Pixels.{
  repeat, pixels, repeat_add, or_pixels, or_repeat, or_none, not-not, pixels_later,
}

-- The pixels of the runs that are done, the last first; c is the colour of the first of them.
abbrev pub drawn_back : List ℕ → Bool → List Bool
drawn_back [] c = []
drawn_back (r ∷ back) c = drawn_back back (not c) ++ repeat r c

abbrev drawn : Ored → List Bool
drawn o = drawn_back o.back (not o.black) ++ repeat o.last o.black

-- The colour of c[0].
abbrev pub base : List ℕ → Bool → Bool
base [] c = not c
base (r ∷ back) c = base back (not c)

abbrev base_of : Ored → Bool
base_of o = base o.back (not o.black)

emit-drawn_of :
    (black : Bool) (n l : ℕ) (back : List ℕ) (b : Bool)
    → (drawn (emit black n (record { last = l; back = back; black = b }))
        ≡ (drawn_back back (not b) ++ repeat l b) ++ repeat n black)
      × (base_of (emit black n (record { last = l; back = back; black = b })) ≡ base back (not b))
unfolding emit
emit-drawn_of true n l back true = (
  ap (λ s. drawn_back back false ++ s) (repeat_add l n true)
      ∙ sym (append_assoc (drawn_back back false) (repeat l true) (repeat n true)),
  refl,
)
emit-drawn_of true n l back false = (refl, refl)
emit-drawn_of false n l back true = (refl, refl)
emit-drawn_of false n l back false = (
  ap (λ s. drawn_back back true ++ s) (repeat_add l n false)
      ∙ sym (append_assoc (drawn_back back true) (repeat l false) (repeat n false)),
  refl,
)

-- What has been drawn behind what was there.
record Draws (o o1 : Ored) (new : List Bool) : Type 0 where
  drawn_new : drawn o1 ≡ drawn o ++ new
  base_kept : base_of o1 ≡ base_of o

Draws-trans :
    (o o1 o2 : Ored) (s t : List Bool) → Draws o o1 s → Draws o1 o2 t → Draws o o2 (s ++ t)
Draws-trans o o1 o2 s t a b = record {
  drawn_new = b.drawn_new ∙ ap (λ u. u ++ t) a.drawn_new ∙ append_assoc (drawn o) s t;
  base_kept = b.base_kept ∙ a.base_kept;
}

emit-Draws : (black : Bool) (n : ℕ) (o : Ored) → Draws o (emit black n o) (repeat n black)
emit-Draws black n o =
    let (a, b) = emit-drawn_of black n o.last o.back o.black in
    record { drawn_new = a; base_kept = b }

or_rest-Draws :
    (l : ℕ) (rs : List ℕ) (black : Bool) (o : Ored)
    → Draws o (or_rest l rs black o) (pixels black (l ∷ rs))
unfolding or_rest
or_rest-Draws l [] black o =
    subst (λ s. Draws o (emit black l o) s) (sym (append-nil (repeat l black)))
      (emit-Draws black l o)
or_rest-Draws l (r ∷ rs) black o =
    Draws-trans o (emit black l o) (or_rest r rs (not black) (emit black l o)) (repeat l black)
      (pixels (not black) (r ∷ rs)) (emit-Draws black l o)
      (or_rest-Draws r rs (not black) (emit black l o))

-- A run of one line is done, with as many pixels of the other.
take_a :
    (la : ℕ) (ra : List ℕ) (ca : Bool) (lb : ℕ) (rb : List ℕ) (cb : Bool) (o o1 : Ored)
    → la ≤ lb
    → Draws (emit (ca || cb) la o) o1 (or_pixels (pixels (not ca) ra) (pixels cb ((lb - la) ∷ rb)))
    → Draws o o1 (or_pixels (pixels ca (la ∷ ra)) (pixels cb (lb ∷ rb)))
take_a la ra ca lb rb cb o o1 le d =
    let later = pixels cb ((lb - la) ∷ rb) in
    subst (λ s. Draws o o1 s)
      (sym (
        ap (or_pixels (pixels ca (la ∷ ra))) (pixels_later la lb cb rb le)
        ∙ or_repeat la ca cb (pixels (not ca) ra) later))
      (Draws-trans o (emit (ca || cb) la o) o1 (repeat la (ca || cb))
        (or_pixels (pixels (not ca) ra) later) (emit-Draws (ca || cb) la o) d)

take_b :
    (la : ℕ) (ra : List ℕ) (ca : Bool) (lb : ℕ) (rb : List ℕ) (cb : Bool) (o o1 : Ored)
    → lb ≤ la
    → Draws (emit (ca || cb) lb o) o1 (or_pixels (pixels ca ((la - lb) ∷ ra)) (pixels (not cb) rb))
    → Draws o o1 (or_pixels (pixels ca (la ∷ ra)) (pixels cb (lb ∷ rb)))
take_b la ra ca lb rb cb o o1 le d =
    let later = pixels ca ((la - lb) ∷ ra) in
    subst (λ s. Draws o o1 s)
      (sym (
        ap (λ s. or_pixels s (pixels cb (lb ∷ rb))) (pixels_later lb la ca ra le)
        ∙ or_repeat lb ca cb later (pixels (not cb) rb)))
      (Draws-trans o (emit (ca || cb) lb o) o1 (repeat lb (ca || cb))
        (or_pixels later (pixels (not cb) rb)) (emit-Draws (ca || cb) lb o) d)

-- The rest of one line, when the other is done.
rest_a :
    (l : ℕ) (rs : List ℕ) (c d : Bool) (o : Ored)
    → Draws o (or_rest l rs c o) (or_pixels (pixels c (l ∷ rs)) (pixels d []))
rest_a l rs c d o =
    subst (λ s. Draws o (or_rest l rs c o) s) (sym (or_none (pixels c (l ∷ rs))))
      (or_rest-Draws l rs c o)

or_loop-Draws :
    (f la : ℕ) (ra : List ℕ) (ca : Bool) (lb : ℕ) (rb : List ℕ) (cb : Bool) (o : Ored)
    → length ra + length rb < f
    → Draws o
        (or_loop f la ra ca lb rb cb o)
        (or_pixels (pixels ca (la ∷ ra)) (pixels cb (lb ∷ rb)))
unfolding or_loop
or_loop-Draws zero la ra ca lb rb cb o lt = absurd (omega arith)
or_loop-Draws (suc f) la [] ca lb [] cb o lt = elim (Bool-cases (leb la lb)) [
  | inl le ↦ rw le (
      take_a la [] ca lb [] cb o _ (leb→le la lb le)
        (or_rest-Draws (lb - la) [] cb (emit (ca || cb) la o)))
  | inr gt ↦ rw gt (
      take_b la [] ca lb [] cb o _ (ground arith)
        (rest_a (la - lb) [] ca (not cb) (emit (ca || cb) lb o)))
]
or_loop-Draws (suc f) la [] ca lb (r ∷ rb) cb o lt = elim (Bool-cases (leb la lb)) [
  | inl le ↦ rw le (
      take_a la [] ca lb (r ∷ rb) cb o _ (leb→le la lb le)
        (or_rest-Draws (lb - la) (r ∷ rb) cb (emit (ca || cb) la o)))
  | inr gt ↦ rw gt (
      take_b la [] ca lb (r ∷ rb) cb o _ (ground arith)
        (or_loop-Draws f (la - lb) [] ca r rb (not cb) (emit (ca || cb) lb o) (omega arith)))
]
or_loop-Draws (suc f) la (q ∷ ra) ca lb [] cb o lt = elim (Bool-cases (leb la lb)) [
  | inl le ↦ rw le (
      take_a la (q ∷ ra) ca lb [] cb o _ (leb→le la lb le)
        (or_loop-Draws f q ra (not ca) (lb - la) [] cb (emit (ca || cb) la o) (omega arith)))
  | inr gt ↦ rw gt (
      take_b la (q ∷ ra) ca lb [] cb o _ (ground arith)
        (rest_a (la - lb) (q ∷ ra) ca (not cb) (emit (ca || cb) lb o)))
]
or_loop-Draws (suc f) la (q ∷ ra) ca lb (r ∷ rb) cb o lt = elim (Bool-cases (leb la lb)) [
  | inl le ↦ rw le (
      take_a la (q ∷ ra) ca lb (r ∷ rb) cb o _ (leb→le la lb le)
        (or_loop-Draws f q ra (not ca) (lb - la) (r ∷ rb) cb (emit (ca || cb) la o) (omega arith)))
  | inr gt ↦ rw gt (
      take_b la (q ∷ ra) ca lb (r ∷ rb) cb o _ (ground arith)
        (or_loop-Draws f (la - lb) (q ∷ ra) ca r rb (not cb) (emit (ca || cb) lb o) (omega arith)))
]

-- The runs in their order.
pub pixels-reverse_onto :
    (back out : List ℕ) (c : Bool)
    → pixels (base back c) (reverse_onto back out) ≡ drawn_back back c ++ pixels (not c) out
unfolding reverse_onto
pixels-reverse_onto [] out c = refl
pixels-reverse_onto (r ∷ back) out c =
    pixels-reverse_onto back (r ∷ out) (not c)
    ∙ ap (λ d. drawn_back back (not c) ++ (repeat r d ++ pixels (not d) out)) (not-not c)
    ∙ sym (append_assoc (drawn_back back (not c)) (repeat r c) (pixels (not c) out))

-- For two lines that have runs, runor ends, and its runs are those of the line whose pixels are the or of
-- the two lines' pixels; what stands only in the longer line is kept, and the count it stores is the sum
-- of its runs.
pub runor_lem :
    (a b : ℕ) (ra rb : List ℕ)
    → (runs : List ℕ) × (runor (a ∷ ra) (b ∷ rb) ≡ ok (runs, sum runs))
      × (pixels false runs ≡ or_pixels (pixels false (a ∷ ra)) (pixels false (b ∷ rb)))
unfolding runor
runor_lem a b ra rb =
    let o0 : Ored = record { last = 0; back = []; black = false } in
    let o = or_loop (length ra + length rb + 1) a ra false b rb false o0 in
    let d = or_loop-Draws (length ra + length rb + 1) a ra false b rb false o0 (omega arith) in
    let runs = reverse_onto (o.last ∷ o.back) [] in
    let start : false ≡ base (o.last ∷ o.back) o.black = sym d.base_kept in
    (
      runs,
      refl,
      ap (λ c. pixels c runs) start
          ∙ pixels-reverse_onto (o.last ∷ o.back) [] o.black
          ∙ append-nil (drawn o)
          ∙ d.drawn_new,
    )
