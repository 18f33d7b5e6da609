-- ===== src/Text/Decimal.antt =====
-- Decimal text: ostream << of an unsigned number, setw(3) with setfill('0'), and atoi on digits.
pub mod RoundTrip
use secure_e_fax.Prelude.{
  ℕ, zero, suc, ◌+◌, ◌-◌, ◌*◌, ◌/◌, ◌%◌, ◌^◌, ◌&&◌, ◌||◌, Bool, true, false, List, [], ◌∷◌, ◌++◌,
  ltb, leb, ◌==◌, if◌then◌else◌, length, replicate,
}

-- The digits of `n` on `out`, the lowest last; `n < f` rounds are enough.
unfoldable pub digits_onto : ℕ → ℕ → List ℕ → List ℕ
digits_onto zero n out = out
digits_onto (suc f) n out = elim (ltb n 10) [
  | true ↦ (48 + n) ∷ out
  | false ↦ digits_onto f (n / 10) ((48 + n % 10) ∷ out)
]

unfoldable pub decimal : ℕ → List ℕ
unfolding digits_onto
decimal n = digits_onto (suc n) n []

-- setfill('0') << setw(3) << n
unfoldable pub padded3 : ℕ → List ℕ
unfolding decimal
padded3 n = replicate (3 - length (decimal n)) 48 ++ decimal n

-- An int; `negsuc n` is -(n + 1).
pub data ℤ : Type 0 where
  pos : ℕ → ℤ
  negsuc : ℕ → ℤ

-- The number that the leading digits spell behind `n`.
unfoldable pub digits_value : ℕ → List ℕ → ℕ
digits_value n [] = n
digits_value n (c ∷ s) =
    let rest = digits_value (n * 10 + (c - 48)) s in if leb 48 c && leb c 57 then rest else n

negate : ℕ → ℤ
negate zero = pos 0
negate (suc n) = negsuc n

signed : List ℕ → ℤ
unfolding digits_value negate
signed [] = pos 0
signed (c ∷ s) =
    if c == b'-'
    then negate (digits_value 0 s)
    else if c == b'+'
    then pos (digits_value 0 s)
    else pos (digits_value 0 (c ∷ s))

is_space : ℕ → Bool
is_space c = c == 32 || (leb 9 c && leb c 13)

-- std::atoi: white space, a sign, and digits up to the first other byte. Its result beyond the range of
-- int is undefined; here it is the number itself.
unfoldable pub atoi : List ℕ → ℤ
unfolding signed is_space
atoi [] = pos 0
atoi (c ∷ s) = elim (is_space c) [ true ↦ atoi s | false ↦ signed (c ∷ s) ]

-- ostream << of an int
unfoldable pub print_int : ℤ → List ℕ
unfolding decimal
print_int (pos n) = decimal n
print_int (negsuc n) = b'-' ∷ decimal (suc n)

-- The conversion of an int to a 32-bit unsigned int
unfoldable pub to_unsigned : ℤ → ℕ
to_unsigned (pos n) = n % 2 ^ 32
to_unsigned (negsuc n) = 2 ^ 32 - 1 - n % 2 ^ 32
