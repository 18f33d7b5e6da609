-- ===== src/Efax/Decoder/Lookup.antt =====
-- Single lookups: a code at the front of the bits, and what the loop does with the entry.
use secure_e_fax.Prelude.{
  ℕ, suc, ◌+◌, ◌-◌, ◌*◌, ◌/◌, ◌^◌, ◌≤◌, ◌<◌, ◌≡◌, refl, sym, ap, ◌∙◌, List, [], ◌∷◌, length, arith,
  drop,
}
use secure_e_fax.Text.Decimal.{pos, negsuc}
use secure_e_fax.Outcome.{ok}
use secure_e_fax.Efax.Bits.{
  bits, bits-split, value, value-bits, value_window, value-lt, length-bits, drop-bits, AreBits,
}
use secure_e_fax.Efax.Decoder.{Tab, Dtab, Reader, step, lookup, read_codes}
use secure_e_fax.Efax.Decoder.Window.{IsReader, undecoded, Stepped, step-entry, step-Stepped}
use secure_e_fax.Efax.Decoder.Checks.{Hits}

-- A reader that goes on in a table with the bits S.
pub record Goes (r : Reader) (tab : Tab) (s : List ℕ) : Type 0 where
  pub ready : IsReader r
  pub in_tab : r.tab ≡ tab
  pub left : undecoded r ≡ s

-- A code of up to nine bits at the front is one lookup, if there are nine bits.
pub short_lookup :
    (r : Reader) (tab : Tab) (n code : ℕ) (e : Dtab) (s : List ℕ)
    → Hits (lookup tab) code n e
    → e.bits ≡ n
    → n ≤ 9
    → code < 2 ^ n
    → Goes r tab (bits n code s)
    → 9 ≤ n + length s
    → AreBits s
    → ((step r).0 ≡ e) × Goes (step r).1 e.next s × Stepped r (step r).0 (step r).1
short_lookup r tab n code e s hits same le fits g long b =
    let nine : n + (9 - n) ≡ 9 = omega arith in
    let long' : 9 ≤ length (undecoded r) = rw g.left (omega (arith, length-bits n code s)) in
    let window : value 9 (undecoded r) ≡ code * 2 ^ (9 - n) + value (9 - n) s =
      ap (value 9) g.left
      ∙ ap (λ j. value j (bits n code s)) (sym nine)
      ∙ value-bits n (9 - n) code s fits in
    let found : (step r).0 ≡ e =
      step-entry r g.ready long'
      ∙ ap (λ t. lookup t (value 9 (undecoded r))) g.in_tab
      ∙ ap (lookup tab) window
      ∙ hits (value (9 - n) s) (value-lt (9 - n) s b) in
    let count : (step r).0.bits ≡ n = ap (λ t. t.bits) found ∙ same in
    let st = step-Stepped r g.ready long' (omega arith) in
    let zero_more : n + 0 ≡ n = omega arith in
    (
      found,
      record {
        ready = st.ready;
        in_tab = st.next_tab ∙ ap (λ t. t.next) found;
        left =
            st.left
            ∙ ap (λ j. drop j (undecoded r)) count
            ∙ ap (drop n) g.left
            ∙ ap (λ j. drop j (bits n code s)) (sym zero_more)
            ∙ drop-bits n 0 code s;
      },
      st,
    )

pub one_lookup :
    (r : Reader) (tab : Tab) (n code : ℕ) (e : Dtab) (s : List ℕ)
    → Hits (lookup tab) code n e
    → e.bits ≡ n
    → n ≤ 9
    → code < 2 ^ n
    → Goes r tab (bits n code s)
    → 9 ≤ length s
    → AreBits s
    → ((step r).0 ≡ e) × Goes (step r).1 e.next s × Stepped r (step r).0 (step r).1
one_lookup r tab n code e s hits same le fits g long b =
    short_lookup r tab n code e s hits same le fits g (omega arith) b

-- The loop at an entry with no code, and at one with a run.
pub read-skip :
    (f : ℕ) (r : Reader) → (step r).0.code ≡ pos 0 → read_codes (suc f) r ≡ read_codes f (step r).1
unfolding read_codes
read-skip f r e = rw (e, read_codes) refl

pub read-run :
    (f n : ℕ) (r r1 : Reader) (cs : List ℕ)
    → (step r).0.code ≡ pos (suc n)
    → read_codes f (step r).1 ≡ ok (cs, r1)
    → read_codes (suc f) r ≡ ok (suc n ∷ cs, r1)
unfolding read_codes
read-run f n r r1 cs e rest = rw (e, read_codes) (rw rest refl)

pub read-end :
    (f : ℕ) (r : Reader) → (step r).0.code ≡ negsuc 0 → read_codes (suc f) r ≡ ok ([], (step r).1)
unfolding read_codes
read-end f r e = rw (e, read_codes) refl

-- A long code is two lookups; the first takes off four zeros.
pub first_lookup :
    (r : Reader) (tab : Tab) (n code : ℕ) (e : Dtab) (s : List ℕ)
    → lookup tab (code / 2 ^ (n - 9)) ≡ e
    → e.bits ≡ 4
    → 9 < n
    → code < 2 ^ (n - 4)
    → code / 2 ^ (n - 9) < 512
    → Goes r tab (bits n code s)
    → ((step r).0 ≡ e)
      × Goes (step r).1 e.next (bits (n - 4) code s)
      × Stepped r (step r).0 (step r).1
first_lookup r tab n code e s hit same gt small low g =
    let nine : n - 9 + 9 ≡ n = omega arith in
    let four : n - 4 + 4 ≡ n = omega arith in
    let long' : 9 ≤ length (undecoded r) = rw g.left (omega (arith, length-bits n code s)) in
    let window : value 9 (undecoded r) ≡ code / 2 ^ (n - 9) =
      ap (value 9) g.left
      ∙ ap (λ j. value 9 (bits j code s)) (sym nine)
      ∙ ap (value 9) (bits-split (n - 9) 9 code s)
      ∙ value_window (code / 2 ^ (n - 9)) (bits (n - 9) code s)
      ∙ omega arith in
    let found : (step r).0 ≡ e =
      step-entry r g.ready long'
      ∙ ap (λ t. lookup t (value 9 (undecoded r))) g.in_tab
      ∙ ap (lookup tab) window
      ∙ hit in
    let count : (step r).0.bits ≡ 4 = ap (λ t. t.bits) found ∙ same in
    let st = step-Stepped r g.ready long' (omega arith) in
    (
      found,
      record {
        ready = st.ready;
        in_tab = st.next_tab ∙ ap (λ t. t.next) found;
        left =
            st.left
            ∙ ap (λ j. drop j (undecoded r)) count
            ∙ ap (drop 4) g.left
            ∙ ap (λ j. drop 4 (bits j code s)) (sym four)
            ∙ ap (drop 4) (bits-split (n - 4) 4 code s)
            ∙ drop-bits 4 0 (code / 2 ^ (n - 4)) (bits (n - 4) code s);
      },
      st,
    )
