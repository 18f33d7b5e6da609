-- ===== src/Messages/Lines.antt =====
-- cleanify of src/mainwindow.cpp, line by line.
use secure_e_fax.Prelude.{
  ℕ, zero, suc, ◌<◌, ◌≡◌, refl, sym, ap, ◌∙◌, List, [], ◌∷◌, ◌++◌, append_assoc, append-nil, Option,
  none, some, if◌then◌else◌, ◌==◌, length, Bool-cases, IfSome, inl, inr, arith,
}
use mathlib.Core.Path.{subst}
use secure_e_fax.Text.{Bytes}
use secure_e_fax.Messages.{
  newline, is_erased, contains, starts_with, next_chunk, clean_loop, cleanify,
}

-- A byte joins the first line.
abbrev onto_first : ℕ → List Bytes → List Bytes
onto_first c [] = (c ∷ []) ∷ []
onto_first c (line ∷ lines) = (c ∷ line) ∷ lines

-- The lines of a text, each with its newline.
unfoldable pub lines_of : Bytes → List Bytes
lines_of [] = []
lines_of (c ∷ s) =
    let rest = lines_of s in if c == newline then (c ∷ []) ∷ rest else onto_first c rest

-- The lines that are not erased, joined.
unfoldable pub kept_lines : List Bytes → Bytes
kept_lines [] = []
kept_lines (line ∷ lines) =
    let rest = kept_lines lines in if is_erased line then rest else line ++ rest

-- The lines from a chunk on.
abbrev chunk_lines : Bytes × Option Bytes → List Bytes
chunk_lines (chunk, none) = chunk ∷ []
chunk_lines (chunk, some rest) = chunk ∷ lines_of rest

onto_first-chunk_lines :
    (c : ℕ) (p : Bytes × Option Bytes) → chunk_lines (c ∷ p.0, p.1) ≡ onto_first c (chunk_lines p)
onto_first-chunk_lines c (chunk, none) = refl
onto_first-chunk_lines c (chunk, some rest) = refl

next_chunk-lines_of : (c : ℕ) (s : Bytes) → chunk_lines (next_chunk (c ∷ s)) ≡ lines_of (c ∷ s)
unfolding next_chunk lines_of
next_chunk-lines_of c [] = elim (Bool-cases (c == newline)) [
  | inl e ↦ rw e refl
  | inr e ↦ rw e refl
]
next_chunk-lines_of c (d ∷ s) = elim (Bool-cases (c == newline)) [
  | inl e ↦ rw e refl
  | inr e ↦
      rw e (
        onto_first-chunk_lines c (next_chunk (d ∷ s)) ∙ ap (onto_first c) (next_chunk-lines_of d s))
]

map-IfSome :
    {A : Type 0} {P Q : A → Type 0} (o : Option A) → ((a : A) → P a → Q a) → IfSome P o → IfSome Q o
map-IfSome none f p = tt
map-IfSome (some a) f p = f a p

-- What follows a chunk is shorter.
next_chunk_less :
    (c : ℕ) (s : Bytes) → IfSome (λ more. length more < length (c ∷ s)) (next_chunk (c ∷ s)).1
unfolding next_chunk
next_chunk_less c [] = tt
next_chunk_less c (d ∷ s) = elim (Bool-cases (c == newline)) [
  | inl e ↦ rw e (omega arith)
  | inr e ↦
      rw e (map-IfSome (next_chunk (d ∷ s)).1 (λ more less. omega arith) (next_chunk_less d s))
]

-- A round of the loop, once the rounds behind it are known.
round_lem :
    (n : ℕ) (kept chunk : Bytes) (rest : Option Bytes)
    → ((now more : Bytes)
        → rest ≡ some more
        → clean_loop n now more ≡ now ++ kept_lines (lines_of more))
    → (elim rest as (λ r. Bytes) [
      | none ↦ if is_erased chunk then kept else kept ++ chunk
      | some more ↦ clean_loop n (if is_erased chunk then kept else kept ++ chunk) more
    ])
      ≡ kept ++ kept_lines (chunk_lines (chunk, rest))
unfolding kept_lines
round_lem n kept chunk none ih = elim (Bool-cases (is_erased chunk)) [
  | inl e ↦ rw e (sym (append-nil kept))
  | inr e ↦ rw (e, append-nil chunk) refl
]
round_lem n kept chunk (some more) ih = elim (Bool-cases (is_erased chunk)) [
  | inl e ↦ rw (e, ih kept more refl) refl
  | inr e ↦
      rw (e, ih (kept ++ chunk) more refl) (append_assoc kept chunk (kept_lines (lines_of more)))
]

clean_loop_empty :
    (n : ℕ) (kept : Bytes) → clean_loop (suc n) kept [] ≡ kept ++ kept_lines (lines_of [])
unfolding clean_loop next_chunk kept_lines lines_of is_erased contains starts_with
clean_loop_empty n kept = refl

clean_loop_lem :
    (n : ℕ) (kept s : Bytes) → length s < n → clean_loop n kept s ≡ kept ++ kept_lines (lines_of s)
unfolding clean_loop
clean_loop_lem zero kept s less = absurd (omega arith)
clean_loop_lem (suc n) kept [] less = clean_loop_empty n kept
clean_loop_lem (suc n) kept (c ∷ t) less =
    let p = next_chunk (c ∷ t) in
    let shorter = next_chunk_less c t in
    round_lem n kept p.0 p.1 (λ now more e.
      clean_loop_lem n now more
        (let l = subst (IfSome (λ m. length m < length (c ∷ t))) e shorter in omega arith))
    ∙ ap (λ ls. kept ++ kept_lines ls) (next_chunk-lines_of c t)

-- What cleanify leaves of a message is its lines, each with its newline, in their order, without those that
-- have one of the three phrases in them.
pub cleanify-lines_of : (message : Bytes) → cleanify message ≡ kept_lines (lines_of message)
unfolding cleanify
cleanify-lines_of message = clean_loop_lem (suc (length message)) [] message (omega arith)
