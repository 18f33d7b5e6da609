-- ===== src/Efax/Cipher/Tests.antt =====
-- A password, and the scan lines that are encrypted with it.
use secure_e_fax.Prelude.{
  ℕ, ◌+◌, ◌-◌, ◌^◌, ◌≤◌, ◌≡◌, ◌↔◌, refl, List, [], ◌∷◌, length, take, replicate, ◌<◌, ◌%◌,
}
use secure_e_fax.Text.{Bytes}
use secure_e_fax.Outcome.{ok, faults}
use secure_e_fax.Efax.Cipher.{sl3, sr3, widen, crypt_line, derive_key, at}
use secure_e_fax.Efax.Cipher.Laws.{crypt_line-crypt_line, xor_lines, crypt_line_cancel}
use secure_e_fax.Efax.Cipher.Key.{derive_key_iff}

abbrev password : Bytes
password =
    115 ∷ 101 ∷ 99 ∷ 114 ∷ 101 ∷ 116 ∷ 45 ∷ 49 ∷ 50 ∷ 51 ∷ 52 ∷ 53 ∷ 54 ∷ 55 ∷ 56 ∷ 57 ∷ 33 ∷ []

abbrev key : List ℕ
key = take 16 password

abbrev runs : List ℕ
runs = 500 ∷ 3 ∷ 1225 ∷ []

rotates_left : sl3 (2 ^ 31 + 1) 1 ≡ 3
unfolding sl3
rotates_left = refl

rotates_right : sr3 3 1 ≡ 2 ^ 31 + 1
unfolding sr3
rotates_right = refl

signed : widen 200 ≡ 2 ^ 32 - 56
unfolding widen
signed = refl

-- pass_str before the first char is written.
abbrev fresh : List ℕ
fresh = replicate 50 170

short_password :
    derive_key fresh (1 ∷ 2 ∷ 3 ∷ [])
    ≡ ok (1 ∷ 2 ∷ 3 ∷ 1 ∷ 2 ∷ 3 ∷ 1 ∷ 2 ∷ 3 ∷ 1 ∷ 2 ∷ 3 ∷ 1 ∷ 2 ∷ 3 ∷ 1 ∷ [])
unfolding derive_key
short_password = refl

-- The fiftieth char is written, and the EOF behind it past the end of the array.
long_password : derive_key fresh (replicate 50 97) ≡ faults
unfolding derive_key
long_password = refl

empty_password : derive_key fresh [] ≡ faults
unfolding derive_key
empty_password = refl

crypt_line-crypt_line_example : crypt_line key (crypt_line key runs) ≡ runs
crypt_line-crypt_line_example = crypt_line-crypt_line key runs

crypt_line_cancel_example :
    xor_lines (crypt_line key runs) (crypt_line key (1728 ∷ [])) ≡ xor_lines runs (1728 ∷ [])
crypt_line_cancel_example = crypt_line_cancel key runs (1728 ∷ [])

derive_key_iff_example : (derive_key fresh password ≡ ok key) ↔ (
    (1 ≤ length password)
    × (length password ≤ 49)
    × (length key ≡ 16)
    × ((i : ℕ) → i < 16 → at key i ≡ at password (i % length password)))
derive_key_iff_example = derive_key_iff fresh password key refl
