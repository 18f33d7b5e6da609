-- ===== src/Folders/Climb.antt =====
-- The bound of the loop of get_folders (src/fax_list_manager.cpp).
use mathlib.Core.Path.{subst}
use secure_e_fax.Prelude.{
  ℕ, zero, suc, ◌≤◌, ◌<◌, ◌≡◌, refl, List, [], ◌∷◌, ◌||◌, IfSome, ◌==◌, length, Bool-cases,
  Option-cases, inl, inr, arith,
}
use secure_e_fax.Text.{Bytes}
use secure_e_fax.Folders.{divider, rsplit, has_path, is_root, climb}

-- What stands before the last divider is shorter.
rsplit_less : (s : Bytes) → IfSome (λ p. length p.0 < length s) (rsplit s)
unfolding rsplit
rsplit_less [] = tt
rsplit_less (c ∷ s) =
    let ih = rsplit_less s in
    elim (Option-cases (rsplit s)) [
      | inl e ↦ elim (Bool-cases (c == divider)) [
        | inl d ↦ rw (e, d) (omega arith)
        | inr d ↦ rw (e, d) tt
      ]
      | inr (p, e) ↦
          let less = subst (IfSome (λ r. length r.0 < length s)) e ih in rw e (omega arith)
    ]

-- The loop has ended when it has made as many rounds as the path has bytes: a further one changes nothing.
climb_enough :
    (n : ℕ) (known : List Bytes) (path : Bytes) (rows : List Bytes)
    → length path ≤ n
    → climb n known path rows ≡ climb (suc n) known path rows
unfolding climb
climb_enough zero known [] rows le = refl
climb_enough zero known (c ∷ path) rows le = absurd (omega arith)
climb_enough (suc n) known path rows le =
    let less = rsplit_less path in
    elim (Bool-cases (is_root path || has_path known path)) [
      | inl there ↦ rw there refl
      | inr away ↦ elim (Option-cases (rsplit path)) [
        | inl e ↦ rw (away, e) refl
        | inr (p, e) ↦
            let shorter = subst (IfSome (λ r. length r.0 < length path)) e less in
            rw (away, e) (climb_enough n known p.0 (p.1 ∷ rows) (omega arith))
      ]
    ]
