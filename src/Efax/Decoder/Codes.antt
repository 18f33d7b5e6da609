-- ===== src/Efax/Decoder/Codes.antt =====
-- The lookup tables of newDECODER beside the T.4 tables, checked entry by entry, with every way in which
-- the window of nine bits can go on behind a code.
use mathlib.Core.Path.{subst}
use secure_e_fax.Prelude.{
  ℕ, zero, suc, ◌+◌, ◌-◌, ◌*◌, ◌/◌, ◌^◌, ◌≤◌, ◌<◌, ◌≡◌, refl, List, [], ◌∷◌, Bool, true, false, not,
  ltb, leb, ◌==◌, ◌&&◌, ◌||◌, if◌then◌else◌, length, arith, get_elem?, some,
}
use secure_e_fax.Text.Decimal.{pos, negsuc}
use secure_e_fax.Efax.Tables.{T4, wtab, btab}
use secure_e_fax.Efax.Encoder.{table}
use secure_e_fax.Efax.Decoder.{
  Tab, tw1, tw2, tb1, tb2, fill, Table, lookup, white_tables, black_tables, fill_table,
}
use secure_e_fax.Efax.Decoder.Checks.{
  each_window, each_window_at, tab_eq, is_code, is_entry, entry, hits, Hits, is_entry→eq, hits→Hits,
}

-- The entry k of a T.4 table.
decodes : Table → Table → Tab → Tab → Tab → ℕ → T4 → Bool
unfolding hits
decodes t1 t2 n1 n2 ot k p =
    let next = if ltb 63 k then n1 else ot in
    if leb p.bits 9
    then hits t1 p.code p.bits (entry (pos (suc p.rlen)) p.bits next)
    else (is_entry (t1 (p.code / 2 ^ (p.bits - 9))) (entry (pos 0) 4 n2)
        && hits t2 p.code (p.bits - 4) (entry (pos (suc p.rlen)) (p.bits - 4) next))

all_decode : Table → Table → Tab → Tab → Tab → ℕ → List T4 → Bool
unfolding decodes
all_decode t1 t2 n1 n2 ot k [] = true
all_decode t1 t2 n1 n2 ot k (p ∷ ps) =
    decodes t1 t2 n1 n2 ot k p && all_decode t1 t2 n1 n2 ot (suc k) ps

white_decode : all_decode (lookup tw1) (lookup tw2) tw1 tw2 tb1 0 wtab ≡ true
unfolding all_decode lookup white_tables wtab
white_decode = refl

black_decode : all_decode (lookup tb1) (lookup tb2) tb1 tb2 tw1 0 btab ≡ true
unfolding all_decode lookup black_tables btab
black_decode = refl

-- The table ranges of the codes, and the run lengths at their places.
is_sound : ℕ → T4 → Bool
is_sound k p =
    leb 1 p.bits
    && leb p.bits 13
    && ltb p.code (2 ^ p.bits)
    && (leb p.bits 9 || (ltb p.code (2 ^ (p.bits - 4)) && ltb (p.code / 2 ^ (p.bits - 9)) 512))
    && p.rlen == (if ltb 63 k then (k - 63) * 64 else k)

all_sound : ℕ → List T4 → Bool
unfolding is_sound
all_sound k [] = true
all_sound k (p ∷ ps) = is_sound k p && all_sound (suc k) ps

white_sound : all_sound 0 wtab ≡ true
unfolding all_sound wtab
white_sound = refl

black_sound : all_sound 0 btab ≡ true
unfolding all_sound btab
black_sound = refl

pub white_length : length wtab ≡ 104
unfolding wtab
white_length = refl

pub black_length : length btab ≡ 104
unfolding btab
black_length = refl

-- What the decoder's tables do with one code.
pub record Decodes (t1 t2 : Table) (n1 n2 ot : Tab) (k : ℕ) (p : T4) : Type 0 where
  pub short :
      p.bits ≤ 9
      → Hits t1 p.code p.bits (entry (pos (suc p.rlen)) p.bits (if ltb 63 k then n1 else ot))
  pub prefix : 9 < p.bits → t1 (p.code / 2 ^ (p.bits - 9)) ≡ entry (pos 0) 4 n2
  pub long :
      9 < p.bits
      → Hits t2 p.code
          (p.bits - 4)
          (entry (pos (suc p.rlen)) (p.bits - 4) (if ltb 63 k then n1 else ot))

pub record IsSound (k : ℕ) (p : T4) : Type 0 where
  pub some_bits : 1 ≤ p.bits
  pub few_bits : p.bits ≤ 13
  pub fits : p.code < 2 ^ p.bits
  pub zeros : 9 < p.bits → (p.code < 2 ^ (p.bits - 4)) × (p.code / 2 ^ (p.bits - 9) < 512)
  pub run : p.rlen ≡ (if ltb 63 k then (k - 63) * 64 else k)

decodes→Decodes :
    (t1 t2 : Table) (n1 n2 ot : Tab) (k : ℕ) (p : T4)
    → decodes t1 t2 n1 n2 ot k p ≡ true
    → Decodes t1 t2 n1 n2 ot k p
unfolding decodes
decodes→Decodes t1 t2 n1 n2 ot k p h = record {
  short = λ le. hits→Hits t1 p.code p.bits _ (ground arith);
  prefix = λ gt. is_entry→eq _ _ (ground arith);
  long = λ gt. hits→Hits t2 p.code (p.bits - 4) _ (ground arith);
}

is_sound→IsSound : (k : ℕ) (p : T4) → is_sound k p ≡ true → IsSound k p
unfolding is_sound
is_sound→IsSound k p h = record {
  some_bits = ground arith;
  few_bits = ground arith;
  fits = ground arith;
  zeros = λ gt. (ground arith, ground arith);
  run = ground arith;
}

-- Every code of a table, by its place.
all_decode→Decodes :
    (t1 t2 : Table) (n1 n2 ot : Tab) (k i : ℕ) (ps : List T4)
    → all_decode t1 t2 n1 n2 ot k ps ≡ true
    → i < length ps
    → (p : T4) × (get_elem? ps i ≡ some p) × Decodes t1 t2 n1 n2 ot (k + i) p
unfolding all_decode
all_decode→Decodes t1 t2 n1 n2 ot k i [] h lt = absurd (omega arith)
all_decode→Decodes t1 t2 n1 n2 ot k zero (p ∷ ps) h lt = (
  p,
  refl,
  subst (λ j. Decodes t1 t2 n1 n2 ot j p) (omega arith)
      (decodes→Decodes t1 t2 n1 n2 ot k p (ground arith)),
)
all_decode→Decodes t1 t2 n1 n2 ot k (suc i) (p ∷ ps) h lt =
    let (q, e, d) = all_decode→Decodes t1 t2 n1 n2 ot (suc k) i ps (ground arith) (omega arith) in
    (q, e, subst (λ j. Decodes t1 t2 n1 n2 ot j q) (omega arith) d)

all_sound→IsSound :
    (k i : ℕ) (ps : List T4)
    → all_sound k ps ≡ true
    → (p : T4) → get_elem? ps i ≡ some p
    → IsSound (k + i) p
unfolding all_sound
all_sound→IsSound k i [] h q e = absurd (ground arith)
all_sound→IsSound k zero (p ∷ ps) h q e =
    let same : p ≡ q = cc e in
    let v : IsSound k p = is_sound→IsSound k p (ground arith) in
    subst (λ x. IsSound (k + 0) x) same (subst (λ j. IsSound j p) (omega arith) v)
all_sound→IsSound k (suc i) (p ∷ ps) h q e =
    let v : IsSound (suc k + i) q = all_sound→IsSound (suc k) i ps (ground arith) q e in
    subst (λ j. IsSound j q) (omega arith) v

-- The tables of a colour.
abbrev pub first : Bool → Tab
first white = if white then tw1 else tb1

abbrev pub second : Bool → Tab
second white = if white then tw2 else tb2

-- Place i of the T.4 table of a colour.
pub record Place (white : Bool) (i : ℕ) (p : T4) : Type 0 where
  pub found : get_elem? (table white) i ≡ some p
  pub decoded :
      Decodes
        (lookup (first white))
        (lookup (second white))
        (first white)
        (second white)
        (first (not white))
        i
        p
  pub sound : IsSound i p

pub place : (white : Bool) (i : ℕ) → i < 104 → (p : T4) × Place white i p
place true i lt =
    let (p, e, d) =
      all_decode→Decodes (lookup tw1) (lookup tw2) tw1 tw2 tb1 0 i wtab white_decode
        (omega (arith, white_length)) in
    (
      p,
      record {
        found = e;
        decoded = subst (λ j. Decodes (lookup tw1) (lookup tw2) tw1 tw2 tb1 j p) (omega arith) d;
        sound = subst (λ j. IsSound j p) (omega arith) (all_sound→IsSound 0 i wtab white_sound p e);
      },
    )
place false i lt =
    let (p, e, d) =
      all_decode→Decodes (lookup tb1) (lookup tb2) tb1 tb2 tw1 0 i btab black_decode
        (omega (arith, black_length)) in
    (
      p,
      record {
        found = e;
        decoded = subst (λ j. Decodes (lookup tb1) (lookup tb2) tb1 tb2 tw1 j p) (omega arith) d;
        sound = subst (λ j. IsSound j p) (omega arith) (all_sound→IsSound 0 i btab black_sound p e);
      },
    )

-- The windows of the EOL.
pub eol_first : (white : Bool) → lookup (first white) 0 ≡ entry (pos 0) 4 (second white)
unfolding lookup white_tables black_tables
eol_first true = refl
eol_first false = refl

is_fill_start : Table → Bool
unfolding each_window is_entry is_code tab_eq
is_fill_start t = each_window (λ j. is_entry (t j) (entry (pos 0) 7 fill)) 4

white_fill_start : is_fill_start (lookup tw2) ≡ true
unfolding is_fill_start lookup white_tables
white_fill_start = refl

black_fill_start : is_fill_start (lookup tb2) ≡ true
unfolding is_fill_start lookup black_tables
black_fill_start = refl

pub eol_second : (white : Bool) (j : ℕ) → j < 4 → lookup (second white) j ≡ entry (pos 0) 7 fill
unfolding is_fill_start
eol_second true j lt =
    is_entry→eq _ _
      (each_window_at (λ x. is_entry (lookup tw2 x) (entry (pos 0) 7 fill)) 4 j lt white_fill_start)
eol_second false j lt =
    is_entry→eq _ _
      (each_window_at (λ x. is_entry (lookup tb2 x) (entry (pos 0) 7 fill)) 4 j lt black_fill_start)

pub eol_fill : lookup fill 0 ≡ entry (pos 0) 9 fill
unfolding lookup fill_table
eol_fill = refl

-- After z zeros, and the one that ends the EOL, there are 8 - z bits left in the window.
is_end : ℕ → Bool
unfolding each_window is_entry is_code tab_eq
is_end i =
    each_window (λ j. is_entry (lookup fill (2 ^ i + j)) (entry (negsuc 0) (9 - i) tw1)) (2 ^ i)

ends : each_window is_end 9 ≡ true
unfolding each_window is_end lookup fill_table
ends = refl

pub eol_end : (i j : ℕ) → i < 9 → j < 2 ^ i → lookup fill (2 ^ i + j) ≡ entry (negsuc 0) (9 - i) tw1
unfolding is_end
eol_end i j lt small =
    is_entry→eq _ _ (each_window_at _ (2 ^ i) j small (each_window_at is_end 9 i lt ends))
