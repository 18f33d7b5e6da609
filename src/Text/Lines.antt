-- ===== src/Text/Lines.antt =====
-- Files of lines: what std::getline reads, and what is written with a newline behind each line.
use secure_e_fax.Prelude.{
  ℕ, ◌≡◌, refl, sym, ap, ◌∙◌, List, [], ◌∷◌, ◌++◌, false, ◌==◌, if◌then◌else◌, All, append_assoc,
  Bool-cases, inl, inr,
}
use secure_e_fax.Text.{Bytes}

abbrev pub newline : ℕ
newline = 10

-- The lines that getline gives, until it fails: the text behind the last newline is a line unless it
-- is empty.
unfoldable pub get_lines : Bytes → List Bytes
get_lines [] = []
get_lines (c ∷ s) =
    let rest = get_lines s in
    if c == newline then [] ∷ rest else elim rest [ [] ↦ (c ∷ []) ∷ [] | l ∷ ls ↦ (c ∷ l) ∷ ls ]

-- Each line with a newline behind it.
unfoldable pub print_lines : List Bytes → Bytes
print_lines [] = []
print_lines (line ∷ lines) = line ++ newline ∷ print_lines lines

-- Text without a sign.
abbrev pub Without : ℕ → Bytes → Type 0
Without d s = All (λ c. c == d ≡ false) s

abbrev pub AreLines : List Bytes → Type 0
AreLines lines = All (Without newline) lines

pub get_lines-append :
    (s rest : Bytes) → Without newline s → get_lines (s ++ newline ∷ rest) ≡ s ∷ get_lines rest
unfolding get_lines
get_lines-append [] rest w = refl
get_lines-append (c ∷ s) rest (e, w) = rw (e, get_lines-append s rest w) refl

pub get_lines-print_lines :
    (lines : List Bytes) → AreLines lines → get_lines (print_lines lines) ≡ lines
unfolding get_lines print_lines
get_lines-print_lines [] w = refl
get_lines-print_lines (line ∷ lines) (w, ws) =
    get_lines-append line (print_lines lines) w
    ∙ ap (λ ls. line ∷ ls) (get_lines-print_lines lines ws)

pub print_lines-append :
    (xs ys : List Bytes) → print_lines (xs ++ ys) ≡ print_lines xs ++ print_lines ys
unfolding print_lines
print_lines-append [] ys = refl
print_lines-append (x ∷ xs) ys =
    ap (λ t. x ++ newline ∷ t) (print_lines-append xs ys)
    ∙ sym (append_assoc x (newline ∷ print_lines xs) (print_lines ys))

longer-AreLines :
    (c : ℕ) (lines : List Bytes)
    → c == newline ≡ false
    → AreLines lines
    → AreLines (elim lines [ [] ↦ (c ∷ []) ∷ [] | l ∷ ls ↦ (c ∷ l) ∷ ls ])
longer-AreLines c [] e w = ((e, tt), tt)
longer-AreLines c (l ∷ ls) e (w, ws) = ((e, w), ws)

pub get_lines-AreLines : (s : Bytes) → AreLines (get_lines s)
unfolding get_lines
get_lines-AreLines [] = tt
get_lines-AreLines (c ∷ s) = elim (Bool-cases (c == newline)) [
  | inl e ↦ rw (e, get_lines) (tt, get_lines-AreLines s)
  | inr e ↦ rw (e, get_lines) (longer-AreLines c (get_lines s) e (get_lines-AreLines s))
]
