-- ===== src/Settings/Configure/Words.antt =====
-- The loop of configure_prog (src/main.cpp) that splits a setting at its blanks.
use secure_e_fax.Prelude.{
  ℕ, zero, suc, ◌<◌, ◌≡◌, refl, sym, ap, ◌∙◌, List, [], ◌∷◌, ◌++◌, map, true, false, All, length,
  length-append, append-nil, arith,
}
use secure_e_fax.Text.{Bytes}
use secure_e_fax.Settings.{is_blank, skip_blanks}
use secure_e_fax.Settings.Configure.{up_to_blank, from_blank, split_loop, split_words}

-- A word has no blanks, and is not empty.
pub record IsWord (w : Bytes) : Type 0 where
  pub first : ℕ
  pub others : Bytes
  pub some_text : w ≡ first ∷ others
  pub no_blanks : All (λ c. is_blank c ≡ false) w

-- A gap has only blanks, and is not empty.
pub record IsGap (g : Bytes) : Type 0 where
  pub blank : ℕ
  pub more : Bytes
  pub some_gap : g ≡ blank ∷ more
  pub blanks : All (λ c. is_blank c ≡ true) g

-- A word, and gaps with further words.
unfoldable pub joined : Bytes → List (Bytes × Bytes) → Bytes
joined w [] = w
joined w ((gap, v) ∷ rest) = w ++ (gap ++ joined v rest)

abbrev pub AllWords : List (Bytes × Bytes) → Type 0
AllWords rest = All (λ p. IsGap p.0 × IsWord p.1) rest

-- Text that is empty or begins with a blank.
abbrev StartsBlank : Bytes → Type 0
StartsBlank [] = Unit
StartsBlank (c ∷ s) = is_blank c ≡ true

up_to_blank-append :
    (w s : Bytes)
    → All (λ c. is_blank c ≡ false) w
    → StartsBlank s
    → (up_to_blank (w ++ s) ≡ w) × (from_blank (w ++ s) ≡ s)
unfolding up_to_blank from_blank
up_to_blank-append [] [] a b = (refl, refl)
up_to_blank-append [] (c ∷ s) a b = (rw b refl, rw b refl)
up_to_blank-append (c ∷ w) s (a, rest) b =
    let (before, behind) = up_to_blank-append w s rest b in
    (rw (a, before) refl, rw (a, behind) refl)

skip_blanks-append :
    (g s : Bytes) → All (λ c. is_blank c ≡ true) g → skip_blanks (g ++ s) ≡ skip_blanks s
unfolding skip_blanks
skip_blanks-append [] s a = refl
skip_blanks-append (c ∷ g) s (a, rest) = rw (a, skip_blanks-append g s rest) refl

-- A text of words begins with the first of a word.
joined_start :
    (w : Bytes) (rest : List (Bytes × Bytes))
    → IsWord w
    → (d : ℕ) × (t : Bytes) × (joined w rest ≡ d ∷ t) × (is_blank d ≡ false)
unfolding joined
joined_start [] rest word = let e = word.some_text in ground arith
joined_start (d ∷ w) [] word = (d, w, refl, word.no_blanks.0)
joined_start (d ∷ w) ((gap, v) ∷ rest) word =
    (d, w ++ (gap ++ joined v rest), refl, word.no_blanks.0)

gap_start : (g s : Bytes) → IsGap g → StartsBlank (g ++ s)
gap_start [] s gap = let e = gap.some_gap in ground arith
gap_start (c ∷ g) s gap = gap.blanks.0

split_loop_last :
    (n : ℕ) (s : Bytes)
    → skip_blanks (from_blank s) ≡ []
    → split_loop (suc n) s ≡ up_to_blank s ∷ []
unfolding split_loop
split_loop_last n s e = rw (split_loop, e) refl

split_loop_more :
    (n : ℕ) (s t : Bytes) (d : ℕ)
    → skip_blanks (from_blank s) ≡ d ∷ t
    → split_loop (suc n) s ≡ up_to_blank s ∷ split_loop n (d ∷ t)
unfolding split_loop
split_loop_more n s t d e = rw (split_loop, e) refl

skip_blanks_none : (d : ℕ) (t : Bytes) → is_blank d ≡ false → skip_blanks (d ∷ t) ≡ d ∷ t
unfolding skip_blanks
skip_blanks_none d t e = rw e refl

split_loop-joined :
    (n : ℕ) (w : Bytes) (rest : List (Bytes × Bytes))
    → IsWord w
    → AllWords rest
    → length rest < n
    → split_loop n (joined w rest) ≡ w ∷ map (λ p. p.1) rest
unfolding joined skip_blanks
split_loop-joined zero w rest word all few = ground arith
split_loop-joined (suc n) w [] word all few =
    let (before, behind) = up_to_blank-append w [] word.no_blanks tt in
    let whole = append-nil w in
    let skipped : skip_blanks (from_blank w) ≡ [] =
      ap (λ t. skip_blanks (from_blank t)) (sym whole) ∙ ap skip_blanks behind in
    split_loop_last n w skipped ∙ ap (λ t. t ∷ []) (ap up_to_blank (sym whole) ∙ before)
split_loop-joined (suc n) w ((gap, v) ∷ rest) word ((is_gap, next), all) few =
    let (d, t, start, solid) = joined_start v rest next in
    let (before, behind) =
      up_to_blank-append w (gap ++ joined v rest) word.no_blanks
        (gap_start gap (joined v rest) is_gap) in
    let skipped : skip_blanks (from_blank (w ++ (gap ++ joined v rest))) ≡ d ∷ t =
      ap skip_blanks behind
      ∙ skip_blanks-append gap (joined v rest) is_gap.blanks
      ∙ ap skip_blanks start
      ∙ skip_blanks_none d t solid in
    split_loop_more n (w ++ (gap ++ joined v rest)) t d skipped
    ∙ rw (before, sym start)
        (ap (λ ws. w ∷ ws) (split_loop-joined n v rest next all (ground arith)))

-- There are fewer gaps than bytes.
joined_long :
    (w : Bytes) (rest : List (Bytes × Bytes))
    → IsWord w
    → AllWords rest
    → length rest < length (joined w rest)
unfolding joined
joined_long w [] word all = let e = word.some_text in rw e (omega arith)
joined_long w ((gap, v) ∷ rest) word ((is_gap, next), all) =
    let e = word.some_text in
    let ih = joined_long v rest next all in
    rw e (
      rw (length-append word.others (gap ++ joined v rest), length-append gap (joined v rest))
        (omega arith))

words_cons : (s t : Bytes) (d : ℕ) → s ≡ d ∷ t → split_words s ≡ split_loop (length s) s
unfolding split_words
words_cons [] t d e = ground arith
words_cons (c ∷ s) t d e = refl

-- When a setting consists of words, each not empty and without blanks, with one or more blanks (spaces or
-- tabs) between one and the next, the loop gives these words, in their order.
pub split_words-joined :
    (w : Bytes) (rest : List (Bytes × Bytes))
    → IsWord w
    → AllWords rest
    → split_words (joined w rest) ≡ w ∷ map (λ p. p.1) rest
split_words-joined w rest word all =
    let (d, t, start, solid) = joined_start w rest word in
    words_cons (joined w rest) t d start
    ∙ split_loop-joined (length (joined w rest)) w rest word all (joined_long w rest word all)
