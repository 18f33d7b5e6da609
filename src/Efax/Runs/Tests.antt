-- ===== src/Efax/Runs/Tests.antt =====
-- Small scan lines.
use secure_e_fax.Prelude.{ℕ, ◌+◌, ◌*◌, ◌/◌, ◌^◌, ◌≡◌, refl, List, [], ◌∷◌, ◌++◌, ◌-◌, take, false}
use secure_e_fax.Outcome.{ok}
use secure_e_fax.Efax.Decoder.{sum}
use secure_e_fax.Efax.Runs.{reverse_onto, xpad, xscale, runor}
use secure_e_fax.Efax.Runs.Pixels.{repeat, pixels, or_pixels}
use secure_e_fax.Efax.Runs.Laws.{xscale-sum}
use secure_e_fax.Efax.Runs.Padded.{xpad-pixels}
use secure_e_fax.Efax.Runs.Or.{runor_lem}

abbrev three : List ℕ
three = 2 ∷ 3 ∷ 1 ∷ []

abbrev two : List ℕ
two = 1 ∷ 2 ∷ []

or_two : runor three two ≡ ok (1 ∷ 4 ∷ 1 ∷ [], 6)
unfolding runor reverse_onto
or_two = refl

pads : xpad three 6 8 ≡ 2 ∷ 3 ∷ 3 ∷ []
unfolding xpad reverse_onto
pads = refl

truncates : xpad three 6 4 ≡ 2 ∷ 2 ∷ []
unfolding xpad reverse_onto
truncates = refl

halves : xscale 128 three 0 0 ≡ 1 ∷ 2 ∷ 0 ∷ []
unfolding xscale
halves = refl

runor_lem_example :
    (runs : List ℕ) × (runor three two ≡ ok (runs, sum runs))
    × (pixels false runs ≡ or_pixels (pixels false three) (pixels false two))
runor_lem_example = runor_lem 2 1 (3 ∷ 1 ∷ []) (2 ∷ [])

xscale-sum_example : sum (xscale 128 three 0 0) ≡ (sum three * 128 + 128) / 2 ^ 8
xscale-sum_example = xscale-sum 128 three

xpad-pixels_example :
    pixels false (xpad three (sum three) 4)
    ≡ take 4 (pixels false three) ++ repeat (4 - sum three) false
xpad-pixels_example = xpad-pixels three 4
