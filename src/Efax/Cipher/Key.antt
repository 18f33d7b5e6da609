-- ===== src/Efax/Cipher/Key.antt =====
-- The key that is derived from the file of the password, in send_data and receive_data of efax/efax.c.
use native.Mathlib.Nat.{mod-lt}
use secure_e_fax.Prelude.{
  ℕ, zero, suc, ◌+◌, ◌-◌, ◌%◌, ◌≤◌, ◌<◌, ◌≡◌, ◌↔◌, refl, sym, ap, ◌∙◌, List, [], ◌∷◌, arith, length,
  ltb, leb, true, set, inl, inr, Bool-cases,
}
use secure_e_fax.Text.{Bytes}
use secure_e_fax.Outcome.{ok, faults}
use secure_e_fax.Efax.Cipher.{at, write_at, read_at, read_password, modulo, repeat_key, derive_key}

length-set : (xs : List ℕ) (i v : ℕ) → length (set xs i v) ≡ length xs
length-set [] i v = refl
length-set (x ∷ xs) zero v = refl
length-set (x ∷ xs) (suc i) v = omega (arith, length-set xs i v)

at-set_same : (xs : List ℕ) (i v : ℕ) → i < length xs → at (set xs i v) i ≡ v
at-set_same [] i v lt = absurd (omega arith)
at-set_same (x ∷ xs) zero v lt = refl
at-set_same (x ∷ xs) (suc i) v lt = at-set_same xs i v (omega arith)

at-set_before : (xs : List ℕ) (i j v : ℕ) → j < i → at (set xs i v) j ≡ at xs j
at-set_before [] i j v lt = refl
at-set_before (x ∷ xs) zero j v lt = absurd (omega arith)
at-set_before (x ∷ xs) (suc i) zero v lt = refl
at-set_before (x ∷ xs) (suc i) (suc j) v lt = at-set_before xs i j v (omega arith)

-- The array and len after the loop: the chars of the file stand from `len` on, and what was before them
-- is kept.
record Filled (file : Bytes) (before : List ℕ) (len : ℕ) : Type 0 where
  after : List ℕ
  equation : read_password file before len ≡ ok (after, suc (len + length file))
  same_length : length after ≡ length before
  kept : (j : ℕ) → j < len → at after j ≡ at before j
  stored : (j : ℕ) → j < length file → at after (len + j) ≡ at file j

stored_char :
    (c : ℕ) (file : Bytes) (p : List ℕ) (len : ℕ) (r : Filled file (set p len c) (suc len))
    → len < length p
    → (j : ℕ) → j < suc (length file)
    → at r.after (len + j) ≡ at (c ∷ file) j
stored_char c file p len r lt zero l =
    ap (at r.after) (omega arith) ∙ r.kept len (omega arith) ∙ at-set_same p len c lt
stored_char c file p len r lt (suc j) l = ap (at r.after) (omega arith) ∙ r.stored j (omega arith)

read_password_ok :
    (file : Bytes) (p : List ℕ) (len : ℕ) → len + length file < length p → Filled file p len
unfolding read_password write_at
read_password_ok [] p len lt =
    let fits : ltb len (length p) ≡ true = ground arith in
    let index : suc len ≡ suc (len + 0) = omega arith in
    record {
      after = set p len 255;
      equation = rw (fits, write_at) (ap (λ n. ok (set p len 255, n)) index);
      same_length = length-set p len 255;
      kept = λ j l. at-set_before p len j 255 l;
      stored = λ j l. absurd (omega arith);
    }
read_password_ok (c ∷ file) p len lt =
    let fits : ltb len (length p) ≡ true = ground arith in
    let same = length-set p len c in
    let rest = read_password_ok file (set p len c) (suc len) (omega arith) in
    let index : suc (suc len + length file) ≡ suc (len + length (c ∷ file)) = omega arith in
    record {
      after = rest.after;
      equation = rw (fits, write_at) (rest.equation ∙ ap (λ n. ok (rest.after, n)) index);
      same_length = rest.same_length ∙ same;
      kept = λ j l. rest.kept j (omega arith) ∙ at-set_before p len j c l;
      stored = stored_char c file p len rest (omega arith);
    }

read_password_over :
    (file : Bytes) (p : List ℕ) (len : ℕ)
    → length p ≤ len + length file
    → read_password file p len ≡ faults
unfolding read_password write_at
read_password_over [] p len le = ground arith
read_password_over (c ∷ file) p len le = elim (Bool-cases (ltb len (length p))) [
  | inl b ↦
      rw (b, write_at)
        (read_password_over file (set p len c) (suc len) (omega (arith, length-set p len c)))
  | inr b ↦ rw (b, write_at) refl
]

keys : ℕ → ℕ → List ℕ → ℕ → List ℕ
keys zero i p m = []
keys (suc n) i p m = at p (i % m) ∷ keys n (suc i) p m

modulo_ok : (i m : ℕ) → 0 < m → modulo i m ≡ ok (i % m)
unfolding modulo
modulo_ok i m pos = ground arith

read_at_ok : (p : List ℕ) (i : ℕ) → i < length p → read_at p i ≡ ok (at p i)
unfolding read_at
read_at_ok p i lt = ground arith

repeat_key_ok :
    (n i len : ℕ) (p : List ℕ)
    → 0 < len - 1
    → len - 1 ≤ length p
    → repeat_key n i p len ≡ ok (keys n i p (len - 1))
unfolding repeat_key keys
repeat_key_ok zero i len p pos le = refl
repeat_key_ok (suc n) i len p pos le =
    let less : i % (len - 1) < length p = omega (arith, mod-lt i pos) in
    rw (modulo_ok i (len - 1) pos)
      (rw (read_at_ok p (i % (len - 1)) less) (rw (repeat_key_ok n (suc i) len p pos le) refl))

length-keys : (n i m : ℕ) (p : List ℕ) → length (keys n i p m) ≡ n
unfolding keys
length-keys zero i m p = refl
length-keys (suc n) i m p = omega (arith, length-keys n (suc i) m p)

at-keys : (n i m j : ℕ) (p : List ℕ) → j < n → at (keys n i p m) j ≡ at p ((i + j) % m)
unfolding keys
at-keys zero i m j p lt = absurd (omega arith)
at-keys (suc n) i m zero p lt = ap (λ k. at p (k % m)) (omega arith)
at-keys (suc n) i m (suc j) p lt =
    at-keys n (suc i) m j p (omega arith) ∙ ap (λ k. at p (k % m)) (omega arith)

same_elements :
    (xs ys : List ℕ)
    → length xs ≡ length ys
    → ((i : ℕ) → i < length xs → at xs i ≡ at ys i)
    → xs ≡ ys
same_elements [] [] l h = refl
same_elements [] (y ∷ ys) l h = absurd (omega arith)
same_elements (x ∷ xs) [] l h = absurd (omega arith)
same_elements (x ∷ xs) (y ∷ ys) l h =
    let first : x ≡ y = h 0 (omega arith) in
    let rest = same_elements xs ys (omega arith) (λ i lt. h (suc i) (omega arith)) in
    ap (λ z. z ∷ xs) first ∙ ap (λ zs. y ∷ zs) rest

-- The key of a password that fits.
record IsDerived (p : List ℕ) (file : Bytes) : Type 0 where
  key : List ℕ
  equation : derive_key p file ≡ ok key
  sixteen : length key ≡ 16
  chars : (i : ℕ) → i < 16 → at key i ≡ at file (i % length file)

derive_key_ok :
    (p : List ℕ) (file : Bytes)
    → length p ≡ 50
    → 1 ≤ length file
    → length file ≤ 49
    → IsDerived p file
unfolding derive_key
derive_key_ok p file l ge le =
    let n = length file in
    let r = read_password_ok file p 0 (omega arith) in
    let less : suc (0 + n) - 1 ≡ n = omega arith in
    let made =
      repeat_key_ok 16 0 (suc (0 + n)) r.after (omega arith) (omega (arith, r.same_length)) in
    record {
      key = keys 16 0 r.after n;
      equation = rw (r.equation) (made ∙ ap (λ m. ok (keys 16 0 r.after m)) less);
      sixteen = length-keys 16 0 n r.after;
      chars = λ i lt.
          let start : 0 + i ≡ i = omega arith in
          let index : i % n ≡ 0 + i % n = omega arith in
          at-keys 16 0 n i r.after lt
          ∙ ap (λ k. at r.after (k % n)) start
          ∙ ap (at r.after) index
          ∙ r.stored (i % n) (mod-lt i ge);
    }

derive_key_over : (p : List ℕ) (file : Bytes) → length p ≤ length file → derive_key p file ≡ faults
unfolding derive_key
derive_key_over p file le = rw (read_password_over file p 0 (omega arith)) refl

derive_key_empty : (p : List ℕ) → derive_key p [] ≡ faults
unfolding derive_key read_password repeat_key modulo write_at
derive_key_empty p = ground arith

fits :
    (p : List ℕ) (file : Bytes) (key : List ℕ)
    → length p ≡ 50
    → derive_key p file ≡ ok key
    → (1 ≤ length file) × (length file ≤ 49)
fits p [] key l e = absurd (cc (derive_key_empty p))
fits p (c ∷ file) key l e = elim (Bool-cases (leb (length (c ∷ file)) 49)) [
  | inl b ↦ (omega arith, ground arith)
  | inr b ↦ let over = derive_key_over p (c ∷ file) (ground arith) in absurd (cc (over, e))
]

-- With the 50 chars of pass_str, whatever stands in them, the program derives this key and no other from
-- the file of the password, without undefined behaviour, exactly if the file has 1 to 49 chars, the key
-- has 16, and each char of the key is that of the password at its index modulo the password's length.
pub derive_key_iff :
    (pass_str : List ℕ) (file : Bytes) (key : List ℕ)
    → length pass_str ≡ 50
    → (derive_key pass_str file ≡ ok key) ↔ (
        (1 ≤ length file)
        × (length file ≤ 49)
        × (length key ≡ 16)
        × ((i : ℕ) → i < 16 → at key i ≡ at file (i % length file)))
derive_key_iff p file key l = (
  λ h.
      let (ge, le) = fits p file key l h in
      let d = derive_key_ok p file l ge le in
      let same : d.key ≡ key = cc (d.equation, h) in
      (
        ge,
        le,
        ap length (sym same) ∙ d.sixteen,
        λ i lt. ap (λ k. at k i) (sym same) ∙ d.chars i lt,
      ),
  λ (ge, le, sixteen, chars).
      let d = derive_key_ok p file l ge le in
      d.equation
      ∙ ap ok (
          same_elements d.key key (d.sixteen ∙ sym sixteen) (λ i lt.
            d.chars i (omega (arith, d.sixteen)) ∙ sym (chars i (omega (arith, d.sixteen))))),
)
