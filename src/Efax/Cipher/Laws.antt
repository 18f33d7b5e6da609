-- ===== src/Efax/Cipher/Laws.antt =====
-- Encryption and decryption of a scan line.
use Prim.Native.Nat.{bit_xor}
use secure_e_fax.Prelude.{
  ℕ, zero, suc, ◌%◌, ◌≤◌, ◌≡◌, refl, sym, ap, ◌∙◌, List, [], ◌∷◌, arith, length, take, take_all,
  leb, leb→le, Bool-cases, inl, inr, bit_xor-bit_xor, bit_xor_cancel,
}
use secure_e_fax.Efax.Cipher.{Tables, round, words, encrypt, xor_runs, crypt_line}

length-words : (n i : ℕ) (t : Tables) → length (words n i t) ≡ n
unfolding words
length-words zero i t = refl
length-words (suc n) i t = omega (arith, length-words n (suc i) (round i t).1)

-- A shorter key stream is the beginning of a longer one.
take-words : (m n i : ℕ) (t : Tables) → m ≤ n → take m (words n i t) ≡ words m i t
unfolding words
take-words zero n i t le = refl
take-words (suc m) zero i t le = absurd (omega arith)
take-words (suc m) (suc n) i t le =
    ap (λ ws. (round i t).0 ∷ ws) (take-words m n (suc i) (round i t).1 (omega arith))

length-encrypt : (key : List ℕ) (n : ℕ) → length (encrypt key n) ≡ n
unfolding encrypt
length-encrypt key n = length-words n 0 _

take-encrypt : (key : List ℕ) (m n : ℕ) → m ≤ n → take m (encrypt key n) ≡ encrypt key m
unfolding encrypt
take-encrypt key m n le = take-words m n 0 _ le

length-xor_runs : (runs s : List ℕ) → length (xor_runs runs s) ≡ length runs
unfolding xor_runs
length-xor_runs [] s = refl
length-xor_runs (r ∷ rs) [] = refl
length-xor_runs (r ∷ rs) (w ∷ ws) = omega (arith, length-xor_runs rs ws)

xor_runs-xor_runs : (runs s : List ℕ) → xor_runs (xor_runs runs s) s ≡ runs
unfolding xor_runs
xor_runs-xor_runs [] s = refl
xor_runs-xor_runs (r ∷ rs) [] = refl
xor_runs-xor_runs (r ∷ rs) (w ∷ ws) =
    ground (arith, bit_xor-bit_xor r (w % 256), xor_runs-xor_runs rs ws)

pub length-crypt_line : (key runs : List ℕ) → length (crypt_line key runs) ≡ length runs
unfolding crypt_line
length-crypt_line key runs = length-xor_runs runs (encrypt key (length runs))

-- A line that is encrypted and then decrypted with the same key is the line again, whatever the key.
pub crypt_line-crypt_line : (key runs : List ℕ) → crypt_line key (crypt_line key runs) ≡ runs
unfolding crypt_line
crypt_line-crypt_line key runs =
    ap (λ n. xor_runs (xor_runs runs (encrypt key (length runs))) (encrypt key n))
      (length-xor_runs runs (encrypt key (length runs)))
    ∙ xor_runs-xor_runs runs (encrypt key (length runs))

-- The exclusive or of two lines, as far as both go.
abbrev pub xor_lines : List ℕ → List ℕ → List ℕ
xor_lines [] bs = []
xor_lines (x ∷ a) [] = []
xor_lines (x ∷ a) (y ∷ b) = bit_xor x y ∷ xor_lines a b

-- Two lines under key streams that agree as far as both lines go.
xor_runs_cancel :
    (a b s t : List ℕ)
    → length s ≡ length a
    → length t ≡ length b
    → take (length b) s ≡ take (length a) t
    → xor_lines (xor_runs a s) (xor_runs b t) ≡ xor_lines a b
unfolding xor_runs
xor_runs_cancel [] b s t p q e = refl
xor_runs_cancel (x ∷ a) [] [] t p q e = refl
xor_runs_cancel (x ∷ a) [] (v ∷ s) t p q e = refl
xor_runs_cancel (x ∷ a) (y ∷ b) [] t p q e = absurd (omega arith)
xor_runs_cancel (x ∷ a) (y ∷ b) (v ∷ s) [] p q e = absurd (omega arith)
xor_runs_cancel (x ∷ a) (y ∷ b) (v ∷ s) (w ∷ t) p q e =
    ground (arith, bit_xor_cancel x y (v % 256), xor_runs_cancel a b s t)

encrypt_agree : (key : List ℕ) (m n : ℕ) → take n (encrypt key m) ≡ take m (encrypt key n)
encrypt_agree key m n = elim (Bool-cases (leb m n)) [
  | inl b ↦
      take_all n (encrypt key m) (omega (arith, leb→le m n b, length-encrypt key m))
      ∙ sym (take-encrypt key m n (leb→le m n b))
  | inr b ↦
      let le : n ≤ m = ground arith in
      take-encrypt key n m le
      ∙ sym (take_all m (encrypt key n) (omega (arith, length-encrypt key n)))
]

-- Every line of every page is encrypted with the same key stream: whatever the key, the exclusive or of
-- two encrypted lines is that of the lines themselves, as far as both go, so that the key is not needed
-- to learn it.
pub crypt_line_cancel :
    (key a b : List ℕ) → xor_lines (crypt_line key a) (crypt_line key b) ≡ xor_lines a b
unfolding crypt_line
crypt_line_cancel key a b =
    xor_runs_cancel a b (encrypt key (length a)) (encrypt key (length b))
      (length-encrypt key (length a)) (length-encrypt key (length b))
      (encrypt_agree key (length a) (length b))
