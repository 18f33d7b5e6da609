-- ===== src/Controller/Files/Pages.antt =====
-- The pages of a fax that could not be sent are removed.
use secure_e_fax.Prelude.{
  ℕ, zero, suc, ◌+◌, ◌<◌, ◌≤◌, ◌≡◌, ◌≢◌, refl, sym, ap, ◌∙◌, true, false, arith, drop, length,
  drop_past,
}
use secure_e_fax.Text.{Bytes}
use secure_e_fax.Text.Decimal.{padded3}
use secure_e_fax.Text.Decimal.RoundTrip.{padded3-injective}
use secure_e_fax.Outcome.{Returns, Returns-map}
use secure_e_fax.Controller.Types.{Host}
use secure_e_fax.Controller.Files.{page_name, remove_pages}

-- Different pages of a fax have different files.
pub page_name-injective : (name : Bytes) (m n : ℕ) → page_name name m ≡ page_name name n → m ≡ n
unfolding page_name
page_name-injective name m n e = padded3-injective m n (
    sym (drop_past name b'.' (padded3 m))
    ∙ ap (drop (suc (length name))) e
    ∙ drop_past name b'.' (padded3 n))

-- What unlink() does to a file that can be read, and to every other file.
pub record UnlinkLaws (h : Host) : Type 0 where
  pub gone : (p : Bytes) (w : h.World) → h.readable w p ≡ true → h.readable (h.unlink p w) p ≡ false
  pub kept : (p q : Bytes) (w : h.World) → p ≢ q → h.readable (h.unlink p w) q ≡ h.readable w q

module _ (h : Host) (laws : UnlinkLaws h) (name : Bytes) where
  abbrev page : ℕ → Bytes
  page = page_name name

  -- The pages `n`, …, `n + k - 1` are there, and page `n + k` is not.
  abbrev pub HasPages : ℕ → ℕ → h.World → Type 0
  HasPages n k w =
      ((i : ℕ) → i < k → h.readable w (page (n + i)) ≡ true) × (h.readable w (page (n + k)) ≡ false)

  -- The pages are gone, and every other file is as it was.
  abbrev pub Removes : ℕ → ℕ → h.World → h.World → Type 0
  Removes n k w w' =
      ((i : ℕ) → i ≤ k → h.readable w' (page (n + i)) ≡ false)
      × ((q : Bytes) → ((i : ℕ) → i < k → page (n + i) ≢ q) → h.readable w' q ≡ h.readable w q)

  differ : {n : ℕ} (i : ℕ) → n ≡ suc n + i → ⊥
  differ i e = omega arith

  at_start : (n k : ℕ) (w : h.World) → HasPages n (suc k) w → h.readable w (page n) ≡ true
  at_start n k w p = ap (λ i. h.readable w (page i)) (omega arith) ∙ p.0 0 (omega arith)

  after_unlink :
      (n k : ℕ) (w : h.World) → HasPages n (suc k) w → HasPages (suc n) k (h.unlink (page n) w)
  after_unlink n k w p = (
    λ i lt.
        laws.kept (page n) (page (suc n + i)) w
          (λ e. differ i (page_name-injective name n (suc n + i) e))
        ∙ ap (λ j. h.readable w (page j)) (omega arith)
        ∙ p.0 (suc i) (omega arith),
    laws.kept (page n) (page (suc n + k)) w
          (λ e. differ k (page_name-injective name n (suc n + k) e))
        ∙ ap (λ j. h.readable w (page j)) (omega arith)
        ∙ p.1,
  )

  -- Where unlink() does what `UnlinkLaws` says, the pages of a file run from `n` without a gap, and
  -- there is fuel for them, the loop ends,
  -- none of the pages can be read any more, nor the one behind them, and no other file has changed.
  pub remove_pages_lem :
      (f n k : ℕ) (w : h.World)
      → k < f
      → HasPages n k w
      → Returns (Removes n k w) (remove_pages h f name n w)
  unfolding remove_pages
  remove_pages_lem zero n k w lt p = absurd (omega arith)
  remove_pages_lem (suc f) n zero w lt p =
      let e : h.readable w (page n) ≡ false = ap (λ i. h.readable w (page i)) (omega arith) ∙ p.1 in
      rw (e, Returns)
        ((λ i le. ap (λ j. h.readable w (page j)) (omega arith) ∙ e), (λ q other. refl))
  remove_pages_lem (suc f) n (suc k) w lt p =
      let w1 = h.unlink (page n) w in
      let e = at_start n k w p in
      rw (e, Returns)
        (Returns-map (Removes (suc n) k w1) (Removes n (suc k) w) (remove_pages h f name (suc n) w1)
          (λ w' r. widen w' r e)
          (remove_pages_lem f (suc n) k w1 (omega arith) (after_unlink n k w p)))
    where
      w1' : h.World
      w1' = h.unlink (page n) w

      shifted :
          (q : Bytes)
          → ((i : ℕ) → i < suc k → page (n + i) ≢ q)
          → (i : ℕ) → i < k
          → page (suc n + i) ≢ q
      shifted q other i lt e = other (suc i) (omega arith) (ap page (omega arith) ∙ e)

      widen :
          (w' : h.World)
          → Removes (suc n) k w1' w'
          → h.readable w (page n) ≡ true
          → Removes n (suc k) w w'
      widen w' r e = (
        all_gone,
        λ q other.
            r.1 q (shifted q other)
            ∙ laws.kept (page n) q w (λ d. other 0 (omega arith) (ap page (omega arith) ∙ d)),
      )
        where
          first_gone : h.readable w' (page n) ≡ false
          first_gone =
              r.1 (page n) (λ i lt d. differ i (sym (page_name-injective name (suc n + i) n d)))
              ∙ laws.gone (page n) w e

          all_gone : (i : ℕ) → i ≤ suc k → h.readable w' (page (n + i)) ≡ false
          all_gone zero le = ap (λ j. h.readable w' (page j)) (omega arith) ∙ first_gone
          all_gone (suc i) le = ap (λ j. h.readable w' (page j)) (omega arith) ∙ r.0 i (omega arith)
