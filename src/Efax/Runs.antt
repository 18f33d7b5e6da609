-- ===== src/Efax/Runs.antt =====
-- Operations on run-length coded scan lines of efax/efaxlib.c, on lines whose runs and widths fit in a
-- short. `*runs` with `nr` of them is a list.
pub mod Pixels
pub mod Laws
pub mod Or
pub mod Padded
pub mod Tests
use secure_e_fax.Prelude.{
  ℕ, zero, suc, ◌+◌, ◌-◌, ◌*◌, ◌/◌, ◌%◌, ◌^◌, List, [], ◌∷◌, ◌++◌, Bool, true, false, not, ◌||◌,
  if◌then◌else◌, ltb, leb, ◌==◌, length,
}
use secure_e_fax.Outcome.{Outcome, ok, faults}
use secure_e_fax.Efax.Decoder.{sum}

infixl 60 ◌^^◌
abbrev pub ◌^^◌ : Bool → Bool → Bool
true ^^ b = not b
false ^^ b = b

unfoldable pub reverse_onto : List ℕ → List ℕ → List ℕ
reverse_onto [] out = out
reverse_onto (x ∷ xs) out = reverse_onto xs (x ∷ out)

-- The last run, made longer.
unfoldable pub add_last : List ℕ → ℕ → List ℕ
add_last [] n = []
add_last (r ∷ []) n = (r + n) ∷ []
add_last (r ∷ q ∷ rs) n = r ∷ add_last (q ∷ rs) n

-- xpad with pad not negative: pad with white
unfoldable pub xpad_wider : List ℕ → ℕ → List ℕ
unfolding add_last
xpad_wider runs n = if length runs % 2 == 1 then add_last runs n else runs ++ n ∷ []

-- xpad with pad negative: runs are taken off at the end, those of `back` from the last on, until n pixels
-- are gone, and what is too much comes back as a run.
unfoldable pub take_off : List ℕ → ℕ → List ℕ
take_off [] n = 0 ∷ []
take_off (r ∷ back) n = let more = take_off back (n - r) in if ltb r n then more else (r - n) ∷ back

-- xpad
unfoldable pub xpad : List ℕ → ℕ → ℕ → List ℕ
unfolding xpad_wider take_off
xpad runs pixels width =
    if ltb width pixels
    then reverse_onto (take_off (reverse_onto runs []) (pixels - width)) []
    else xpad_wider runs (width - pixels)

-- xinvert, of a line with a run
unfoldable pub xinvert : List ℕ → List ℕ
xinvert [] = []
xinvert (zero ∷ rs) = rs
xinvert (suc r ∷ rs) = 0 ∷ suc r ∷ rs

-- xscale: `inlen` and `outlen` count up
unfoldable pub xscale : ℕ → List ℕ → ℕ → ℕ → List ℕ
xscale xs [] inlen outlen = []
xscale xs (r ∷ rs) inlen outlen =
    let r' = ((inlen + r) * xs + 128) / 2 ^ 8 - outlen in
    r' ∷ xscale xs rs (inlen + r) (outlen + r')

-- The output of runor: c[ic], the runs before it, the last first, and whether ic is odd.
pub record Ored : Type 0 where
  pub last : ℕ
  pub back : List ℕ
  pub black : Bool

-- c [ ++ic ] = n if the colours differ, else c [ ic ] += n
unfoldable pub emit : Bool → ℕ → Ored → Ored
emit black n o =
    if black ^^ o.black
    then record { last = n; back = o.last ∷ o.back; black = black }
    else record o { last = o.last + n }

-- One of the two loops that follow, for the line that is left.
unfoldable pub or_rest : ℕ → List ℕ → Bool → Ored → Ored
unfolding emit
or_rest l [] black o = emit black l o
or_rest l (r ∷ rs) black o = or_rest r rs (not black) (emit black l o)

-- The loop that ends when one line does; the first argument is the fuel.
unfoldable pub or_loop : ℕ → ℕ → List ℕ → Bool → ℕ → List ℕ → Bool → Ored → Ored
unfolding or_rest emit
or_loop zero la ra ca lb rb cb o = o
or_loop (suc f) la ra ca lb rb cb o =
    let o1 = emit (ca || cb) (if leb la lb then la else lb) o in
    let a_next : Ored = elim ra [
      | [] ↦ or_rest (lb - la) rb cb o1
      | r ∷ rs ↦ or_loop f r rs (not ca) (lb - la) rb cb o1
    ] in
    let b_next : Ored = elim rb [
      | [] ↦ or_rest (la - lb) ra ca o1
      | r ∷ rs ↦ or_loop f (la - lb) ra ca r rs (not cb) o1
    ] in
    if leb la lb then a_next else b_next

-- runor with c null: the result, and the pixels that are stored in pels. An element of an array without
-- runs is read from nowhere.
unfoldable pub runor : List ℕ → List ℕ → Outcome (List ℕ × ℕ)
unfolding or_loop
runor [] rb = faults
runor (a ∷ ra) [] = faults
runor (a ∷ ra) (b ∷ rb) =
    let o =
      or_loop (length ra + length rb + 1) a ra false b rb false
        (record { last = 0; back = []; black = false }) in
    let runs = reverse_onto (o.last ∷ o.back) [] in ok (runs, sum runs)
