-- ===== src/Efax/Cipher.antt =====
-- efax/hc128.h: the key stream, and its use in send_data and receive_data of efax/efax.c. An unsigned
-- int is a number below 2 ^ 32, an array is a list, and the int indices are never negative.
pub mod Laws
pub mod Key
pub mod Tests
use Prim.Native.Nat.{bit_xor}
use secure_e_fax.Prelude.{
  ℕ, zero, suc, ◌+◌, ◌-◌, ◌*◌, ◌/◌, ◌%◌, ◌^◌, List, [], ◌∷◌, ◌++◌, if◌then◌else◌, ltb, leb, ◌==◌,
  get_or, set, take, drop, length,
}
use secure_e_fax.Text.{Bytes}
use secure_e_fax.Outcome.{Outcome, ok, faults, ◌>>=◌}

abbrev pub word : ℕ
word = 2 ^ 32

infixl 65 ◌+w◌
abbrev pub ◌+w◌ : ℕ → ℕ → ℕ
a +w b = (a + b) % word

-- sl3 and sr3: the rotations, for 0 < n < 32
unfoldable pub sl3 : ℕ → ℕ → ℕ
sl3 x n = bit_xor (x * 2 ^ n % word) (x / 2 ^ (32 - n))

unfoldable pub sr3 : ℕ → ℕ → ℕ
sr3 x n = bit_xor (x / 2 ^ n) (x * 2 ^ (32 - n) % word)

f1 : ℕ → ℕ
f1 x = bit_xor (bit_xor (sr3 x 7) (sr3 x 18)) (x / 2 ^ 3)

f2 : ℕ → ℕ
f2 x = bit_xor (bit_xor (sr3 x 17) (sr3 x 19)) (x / 2 ^ 10)

g1 : ℕ → ℕ → ℕ → ℕ
g1 x y z = bit_xor (sr3 x 10) (sr3 z 23) +w sr3 y 8

g2 : ℕ → ℕ → ℕ → ℕ
g2 x y z = bit_xor (sl3 x 10) (sl3 z 23) +w sl3 y 8

-- The tables; P and Q have 512 words.
pub record Tables : Type 0 where
  pub p : List ℕ
  pub q : List ℕ

-- An element of an array.
abbrev pub at : List ℕ → ℕ → ℕ
at xs i = get_or 0 xs i

-- h1 reads Q and h2 reads P.
unfoldable pub h_of : List ℕ → ℕ → ℕ
h_of t x = at t (x % 256) +w at t (256 + x / 2 ^ 16 % 256)

-- mm: i - j modulo 512
unfoldable pub mm : ℕ → ℕ → ℕ
mm i j =
    let i' = if leb 512 i then i % 512 else i in
    let j' = if leb 512 j then j % 512 else j in if leb j' i' then i' - j' else 512 + i' - j'

-- The loop that makes W[i], W[i + 1], …: `back` holds what is there, the last first.
expand : ℕ → ℕ → List ℕ → List ℕ
unfolding f1 f2
expand zero i back = back
expand (suc n) i back =
    let w = f2 (at back 1) +w at back 6 +w f1 (at back 14) +w at back 15 +w i in
    expand n (suc i) (w ∷ back)

reverse_onto : List ℕ → List ℕ → List ℕ
reverse_onto [] out = out
reverse_onto (x ∷ xs) out = reverse_onto xs (x ∷ out)

-- P[i] + g1(P[i - 3], P[i - 10], P[i - 511]), and the same for Q
next_p : List ℕ → ℕ → ℕ
unfolding g1 mm
next_p t i = at t i +w g1 (at t (mm i 3)) (at t (mm i 10)) (at t (mm i 511))

next_q : List ℕ → ℕ → ℕ
unfolding g2 mm
next_q t i = at t i +w g2 (at t (mm i 3)) (at t (mm i 10)) (at t (mm i 511))

-- The two mixing loops of ksa; the index is i, and n rounds are left.
mix_p : ℕ → ℕ → Tables → Tables
unfolding next_p h_of
mix_p zero i t = t
mix_p (suc n) i t =
    let v = bit_xor (next_p t.p i) (h_of t.q (at t.p (mm i 12))) in
    mix_p n (suc i) (record t { p = set t.p i v })

mix_q : ℕ → ℕ → Tables → Tables
unfolding next_q h_of
mix_q zero i t = t
mix_q (suc n) i t =
    let v = bit_xor (next_q t.q i) (h_of t.p (at t.q (mm i 12))) in
    mix_q n (suc i) (record t { q = set t.q i v })

-- ksa, from K and IV
pub ksa : List ℕ → List ℕ → Tables
unfolding expand reverse_onto mix_p mix_q
ksa k iv =
    let w = reverse_onto (expand 1264 16 (reverse_onto (k ++ iv) [])) [] in
    mix_q 512 0 (mix_p 512 0 (record { p = take 512 (drop 256 w); q = take 512 (drop 768 w) }))

-- One round of the loop in encrypt: the word s[i], and the tables.
pub round : ℕ → Tables → ℕ × Tables
unfolding next_p next_q h_of mm
round i t =
    let j = i % 512 in
    let p = set t.p j (next_p t.p j) in
    let q = set t.q j (next_q t.q j) in
    if ltb (i % 1024) 512
    then (bit_xor (h_of t.q (at p (mm j 12))) (at p j), record t { p = p })
    else (bit_xor (h_of t.p (at q (mm j 12))) (at q j), record t { q = q })

-- s[i], s[i + 1], …, n words
unfoldable pub words : ℕ → ℕ → Tables → List ℕ
words zero i t = []
words (suc n) i t = (round i t).0 ∷ words n (suc i) (round i t).1

-- A char of the key, which is signed, as an unsigned int.
unfoldable pub widen : ℕ → ℕ
widen c = if ltb c 128 then c else word - 256 + c

abbrev pub widen_all : List ℕ → List ℕ
widen_all [] = []
widen_all (c ∷ cs) = widen c ∷ widen_all cs

-- encrypt: the first nr words of the key stream
unfoldable pub encrypt : List ℕ → ℕ → List ℕ
encrypt key nr = words nr 0 (ksa (widen_all (take 8 key)) (widen_all (take 8 (drop 8 key))))

-- runs[i] = runs[i] ^ (unsigned char) s[i]
unfoldable pub xor_runs : List ℕ → List ℕ → List ℕ
xor_runs [] s = []
xor_runs (r ∷ rs) [] = r ∷ rs
xor_runs (r ∷ rs) (w ∷ ws) = bit_xor r (w % 256) ∷ xor_runs rs ws

-- The encryption of a line in send_data, and its decryption in receive_data.
unfoldable pub crypt_line : List ℕ → List ℕ → List ℕ
crypt_line key runs = xor_runs runs (encrypt key (length runs))

-- A write to an array and a read of one; both are undefined behaviour out of range.
unfoldable pub write_at : List ℕ → ℕ → ℕ → Outcome (List ℕ)
write_at xs i v = if ltb i (length xs) then ok (set xs i v) else faults

unfoldable pub read_at : List ℕ → ℕ → Outcome ℕ
read_at xs i = if ltb i (length xs) then ok (at xs i) else faults

-- The loop that reads the file of the password, of which the first argument is left, into pass_str,
-- with len. It ends at the first fgetc that finds the end, whose EOF has been written as a char too.
unfoldable pub read_password : Bytes → List ℕ → ℕ → Outcome (List ℕ × ℕ)
unfolding write_at
read_password [] pass_str len = write_at pass_str len 255 >>= λ p. ok (p, suc len)
read_password (c ∷ file) pass_str len =
    write_at pass_str len c >>= λ p. read_password file p (suc len)

-- i % m, which is undefined for m = 0.
unfoldable pub modulo : ℕ → ℕ → Outcome ℕ
modulo i m = if m == 0 then faults else ok (i % m)

-- key[i] = pass_str[i % (len - 1)]: `i` counts up, and n rounds are left.
unfoldable pub repeat_key : ℕ → ℕ → List ℕ → ℕ → Outcome (List ℕ)
unfolding modulo read_at
repeat_key zero i pass_str len = ok []
repeat_key (suc n) i pass_str len = modulo i (len - 1) >>= λ j.
    read_at pass_str j >>= λ c. repeat_key n (suc i) pass_str len >>= λ key. ok (c ∷ key)

-- The key, from what stands in pass_str before and the file of the password.
unfoldable pub derive_key : List ℕ → Bytes → Outcome (List ℕ)
unfolding read_password repeat_key
derive_key pass_str file = read_password file pass_str 0 >>= λ (p, len). repeat_key 16 0 p len
