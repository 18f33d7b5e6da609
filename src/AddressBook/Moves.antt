-- ===== src/AddressBook/Moves.antt =====
-- The moves of src/addressbook.cpp: move_up_impl and move_down_impl.
use secure_e_fax.Prelude.{
  ℕ, zero, suc, ◌≡◌, refl, List, [], ◌∷◌, Option-cases, some, All, IfSome, length, ◌<◌, inl, inr,
  arith,
}
use mathlib.Core.Path.{subst}
use secure_e_fax.AddressBook.{Row, swap_at, remove_at}

pub swap_at-All :
    (P : Row → Type 0) (i : ℕ) (rows : List Row) → All P rows → IfSome (All P) (swap_at i rows)
unfolding swap_at
swap_at-All P i [] all = tt
swap_at-All P zero (x ∷ []) all = tt
swap_at-All P zero (x ∷ y ∷ rows) (p, (q, all)) = (q, (p, all))
swap_at-All P (suc i) (x ∷ rows) (p, all) =
    let ih = swap_at-All P i rows all in
    elim (Option-cases (swap_at i rows)) [
      | inl e ↦ rw e tt
      | inr (swapped, e) ↦ rw e (p, subst (IfSome (All P)) e ih)
    ]

-- A second exchange undoes the first.
pub swap_at-swap_at :
    (i : ℕ) (rows : List Row) → IfSome (λ swapped. swap_at i swapped ≡ some rows) (swap_at i rows)
unfolding swap_at
swap_at-swap_at i [] = tt
swap_at-swap_at zero (x ∷ []) = tt
swap_at-swap_at zero (x ∷ y ∷ rows) = refl
swap_at-swap_at (suc i) (x ∷ rows) =
    let ih = swap_at-swap_at i rows in
    elim (Option-cases (swap_at i rows)) [
      | inl e ↦ rw e tt
      | inr (swapped, e) ↦
          rw e (let back = subst (IfSome (λ s. swap_at i s ≡ some rows)) e ih in rw back refl)
    ]

-- Every row but the last can be exchanged with the next.
pub swap_at-some :
    (i : ℕ) (rows : List Row)
    → suc i < length rows
    → (swapped : List Row) × (swap_at i rows ≡ some swapped)
unfolding swap_at
swap_at-some i [] few = absurd (omega arith)
swap_at-some zero (x ∷ []) few = absurd (omega arith)
swap_at-some zero (x ∷ y ∷ rows) few = (y ∷ x ∷ rows, refl)
swap_at-some (suc i) (x ∷ rows) few =
    let (swapped, e) = swap_at-some i rows (omega arith) in (x ∷ swapped, rw e refl)

pub remove_at-All :
    (P : Row → Type 0) (i : ℕ) (rows : List Row) → All P rows → All P (remove_at i rows)
unfolding remove_at
remove_at-All P i [] all = tt
remove_at-All P zero (row ∷ rows) (p, all) = all
remove_at-All P (suc i) (row ∷ rows) (p, all) = (p, remove_at-All P i rows all)
