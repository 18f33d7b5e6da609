-- ===== src/Efax/Capabilities/RoundTrip.antt =====
-- mkdis and mkcap of efax/efax.c together, for the DCS frame of a session.
use mathlib.Core.Path.{subst}
use secure_e_fax.Prelude.{
  ℕ, ◌<◌, ◌≡◌, refl, sym, List, [], ◌∷◌, Bool, true, false, not, ◌&&◌, ◌||◌, ◌==◌, if◌then◌else◌,
  arith, get_or,
}
use secure_e_fax.Text.{bytes_eq, bytes_eq→eq}
use secure_e_fax.Efax.Capabilities.{Cap, values, invalid, mkdis, mkcap}
use secure_e_fax.Efax.Decoder.Checks.{each_window, each_window_at}

abbrev pub cap : ℕ → ℕ → ℕ → ℕ → ℕ → ℕ → Cap
cap vr br wd ln df st = record {
  vr = vr;
  br = br;
  wd = wd;
  ln = ln;
  df = df;
  ec = 0;
  bf = 0;
  st = st;
}

-- The scan times that a DCS frame has a code for.
abbrev pub has_code : ℕ → Bool
has_code st = not (get_or 0 (7 ∷ 4 ∷ invalid ∷ 2 ∷ invalid ∷ 0 ∷ invalid ∷ 1 ∷ []) st == invalid)

-- What comes back: the code of 5 ms is taken for a bad one, and 40 ms for it.
abbrev pub received : Cap → List ℕ × Bool
received c = (values (record c { st = if c.st == 1 then 7 else c.st }), c.st == 1)

same : Bool → Bool → Bool
same a b = if a then b else not b

same→eq : (a b : Bool) → same a b ≡ true → a ≡ b
unfolding same
same→eq true b h = sym h
same→eq false true h = h
same→eq false false h = refl

comes_back : Bool → Cap → Bool
comes_back t4tx c =
    bytes_eq (mkcap (mkdis c false t4tx) false).0 (received c).0
    && same (mkcap (mkdis c false t4tx) false).1 (received c).1

-- Every capability is tried, one field after the other.
try_st : Bool → ℕ → ℕ → ℕ → ℕ → ℕ → ℕ → Bool
unfolding comes_back
try_st t vr br wd ln df st = not (has_code st) || comes_back t (cap vr br wd ln df st)

try_df : Bool → ℕ → ℕ → ℕ → ℕ → ℕ → Bool
unfolding each_window try_st
try_df t vr br wd ln df = each_window (try_st t vr br wd ln df) 8

try_ln : Bool → ℕ → ℕ → ℕ → ℕ → Bool
unfolding each_window try_df
try_ln t vr br wd ln = each_window (try_df t vr br wd ln) 2

try_wd : Bool → ℕ → ℕ → ℕ → Bool
unfolding each_window try_ln
try_wd t vr br wd = each_window (try_ln t vr br wd) 3

try_br : Bool → ℕ → ℕ → Bool
unfolding each_window try_wd
try_br t vr br = each_window (try_wd t vr br) 3

try_vr : Bool → ℕ → Bool
unfolding each_window try_br
try_vr t vr = each_window (try_br t vr) 6

all_tried : (t : Bool) → each_window (try_vr t) 2 ≡ true
unfolding each_window try_vr mkcap mkdis bytes_eq same
all_tried true = refl
all_tried false = refl

pair_eq : (p q : List ℕ × Bool) → p.0 ≡ q.0 → p.1 ≡ q.1 → p ≡ q
pair_eq p q e f = λ i. (e i, f i)

comes_back_lem :
    (t : Bool) (c : Cap) → comes_back t c ≡ true → mkcap (mkdis c false t) false ≡ received c
unfolding comes_back
comes_back_lem t c h =
    pair_eq (mkcap (mkdis c false t) false) (received c)
      (bytes_eq→eq (mkcap (mkdis c false t) false).0 (received c).0 (ground arith))
      (same→eq (mkcap (mkdis c false t) false).1 (received c).1 (ground arith))

-- The capabilities of a session that a DCS frame has codes for, without error correction and binary
-- files, of a bit rate up to 14400 bps and not of V.17 at 7200 or 9600: the receiver reads the same
-- values, except that a scan time of 5 ms is a bad field, which is read as 40 ms.
pub mkcap-mkdis :
    (vr br wd ln df st : ℕ) (t4tx : Bool)
    → vr < 2
    → br < 6
    → wd < 3
    → ln < 3
    → df < 2
    → st < 8
    → has_code st ≡ true
    → mkcap (mkdis (cap vr br wd ln df st) false t4tx) false ≡ received (cap vr br wd ln df st)
unfolding try_vr try_br try_wd try_ln try_df try_st
mkcap-mkdis vr br wd ln df st t4tx vr_lt br_lt wd_lt ln_lt df_lt st_lt code =
    let a = each_window_at (try_vr t4tx) 2 vr vr_lt (all_tried t4tx) in
    let b = each_window_at (try_br t4tx vr) 6 br br_lt a in
    let c = each_window_at (try_wd t4tx vr br) 3 wd wd_lt b in
    let d = each_window_at (try_ln t4tx vr br wd) 3 ln ln_lt c in
    let e = each_window_at (try_df t4tx vr br wd ln) 2 df df_lt d in
    let f : try_st t4tx vr br wd ln df st ≡ true =
      each_window_at (try_st t4tx vr br wd ln df) 8 st st_lt e in
    comes_back_lem t4tx (cap vr br wd ln df st)
      (subst (λ h. (not h || comes_back t4tx (cap vr br wd ln df st)) ≡ true) code f)
