-- ===== src/Efax/Decoder/Checks.antt =====
-- Finite checks of lookup tables: every window that begins with a code gives one entry.
use secure_e_fax.Prelude.{
  Bool-cases, inl, inr, ltb, sym, ap, ◌∙◌, ℕ, zero, suc, ◌+◌, ◌-◌, ◌*◌, ◌^◌, ◌<◌, ◌≡◌, refl, Bool,
  true, false, ◌==◌, ◌&&◌, arith,
}
use secure_e_fax.Text.Decimal.{ℤ, pos, negsuc}
use secure_e_fax.Efax.Decoder.{Tab, tw1, tw2, tb1, tb2, fill, Dtab, Table}

-- The test holds for every window from 0 on.
unfoldable pub each_window : (ℕ → Bool) → ℕ → Bool
each_window test zero = true
each_window test (suc last) = each_window test last && test last

pub each_window_at :
    (test : ℕ → Bool) (count i : ℕ) → i < count → each_window test count ≡ true → test i ≡ true
unfolding each_window
each_window_at test zero i below all = absurd (omega arith)
each_window_at test (suc last) i below all = elim (Bool-cases (ltb i last)) [
  | inl earlier ↦ each_window_at test last i (ground arith) (ground arith)
  | inr here ↦ let same : last ≡ i = ground arith in ap test (sym same) ∙ ground arith
]

unfoldable pub tab_eq : Tab → Tab → Bool
tab_eq tw1 tw1 = true
tab_eq tw2 tw2 = true
tab_eq tb1 tb1 = true
tab_eq tb2 tb2 = true
tab_eq fill fill = true
tab_eq _ _ = false

unfoldable pub is_code : ℤ → ℤ → Bool
is_code (pos a) (pos b) = a == b
is_code (negsuc a) (negsuc b) = a == b
is_code _ _ = false

unfoldable pub is_entry : Dtab → Dtab → Bool
is_entry a b = is_code a.code b.code && a.bits == b.bits && tab_eq a.next b.next

abbrev pub entry : ℤ → ℕ → Tab → Dtab
entry code bits next = record { code = code; bits = bits; next = next }

-- Every window that begins with the code, of n bits, gives the entry.
unfoldable pub hits : Table → ℕ → ℕ → Dtab → Bool
unfolding each_window is_entry is_code tab_eq
hits t code n e = each_window (λ j. is_entry (t (code * 2 ^ (9 - n) + j)) e) (2 ^ (9 - n))

-- The windows that begin with a code give one entry.
abbrev pub Hits : Table → ℕ → ℕ → Dtab → Type 0
Hits t code n e = (j : ℕ) → j < 2 ^ (9 - n) → t (code * 2 ^ (9 - n) + j) ≡ e

tab_eq→eq : (a b : Tab) → tab_eq a b ≡ true → a ≡ b
unfolding tab_eq
tab_eq→eq tw1 tw1 h = refl
tab_eq→eq tw2 tw2 h = refl
tab_eq→eq tb1 tb1 h = refl
tab_eq→eq tb2 tb2 h = refl
tab_eq→eq fill fill h = refl
tab_eq→eq tw1 tw2 h = cc
tab_eq→eq tw1 tb1 h = cc
tab_eq→eq tw1 tb2 h = cc
tab_eq→eq tw1 fill h = cc
tab_eq→eq tw2 tw1 h = cc
tab_eq→eq tw2 tb1 h = cc
tab_eq→eq tw2 tb2 h = cc
tab_eq→eq tw2 fill h = cc
tab_eq→eq tb1 tw1 h = cc
tab_eq→eq tb1 tw2 h = cc
tab_eq→eq tb1 tb2 h = cc
tab_eq→eq tb1 fill h = cc
tab_eq→eq tb2 tw1 h = cc
tab_eq→eq tb2 tw2 h = cc
tab_eq→eq tb2 tb1 h = cc
tab_eq→eq tb2 fill h = cc
tab_eq→eq fill tw1 h = cc
tab_eq→eq fill tw2 h = cc
tab_eq→eq fill tb1 h = cc
tab_eq→eq fill tb2 h = cc

pub is_entry→eq : (a b : Dtab) → is_entry a b ≡ true → a ≡ b
unfolding is_entry is_code
is_entry→eq a b h = ground (arith, tab_eq→eq a.next b.next)

pub hits→Hits : (t : Table) (code n : ℕ) (e : Dtab) → hits t code n e ≡ true → Hits t code n e
unfolding hits
hits→Hits t code n e h j lt = is_entry→eq _ e (each_window_at _ (2 ^ (9 - n)) j lt h)
