-- ===== src/Efax/Page/Octets.antt =====
-- The range of the bytes that send_data of efax/efax.c stores.
use secure_e_fax.Prelude.{
  ℕ, zero, suc, ◌+◌, ◌-◌, ◌*◌, ◌/◌, ◌%◌, ◌^◌, ◌<◌, List, [], ◌∷◌, ◌++◌, Bool, true, not, ltb, ◌==◌,
  if◌then◌else◌, length, arith, Bool-cases, inl, inr, Option, none, some, get_elem?, All-append,
}
use secure_e_fax.Text.{Bytes}
use secure_e_fax.Efax.Tables.{T4}
use secure_e_fax.Efax.Cipher.{crypt_line}
use secure_e_fax.Efax.Encoder.{
  Encoder, new_encoder, store, put, putcode, max_codes, max_run_len, Sink, push, put_entry, table,
  put_run, put_runs, runtocode,
}
use secure_e_fax.Efax.Decoder.Window.{AreBytes}
use secure_e_fax.Efax.Page.{
  put_fill, put_eol, put_fills, put_eols, pad, send_line, send_lines, data_start, send_rtc,
  send_page,
}

append-AreBytes : (s t : Bytes) → AreBytes s → AreBytes t → AreBytes (s ++ t)
append-AreBytes s t h k = All-append (λ c. c < 256) s t h k

store-AreBytes : (n x pending : ℕ) → AreBytes (store n x pending)
unfolding store
store-AreBytes zero x pending = tt
store-AreBytes (suc n) x pending = (omega arith, store-AreBytes n x (pending - 8))

putcode-AreBytes : (e : Encoder) (code bits : ℕ) → AreBytes (putcode e code bits).0
unfolding putcode put
putcode-AreBytes e code bits = elim (Bool-cases (bits == 0)) [
  | inl b ↦ rw b (store-AreBytes 1 ((e.x + code) % 2 ^ 32) 8)
  | inr b ↦ rw b (
      store-AreBytes ((e.pending + bits) / 8) ((e.x * 2 ^ bits + code) % 2 ^ 32) (e.pending + bits))
]

push-AreBytes :
    (s : Sink) (code bits : ℕ)
    → AreBytes s.codes
    → AreBytes (push s (putcode s.encoder code bits)).codes
push-AreBytes s code bits h = append-AreBytes s.codes _ h (putcode-AreBytes s.encoder code bits)

put_entry-AreBytes : (t : Option T4) (s : Sink) → AreBytes s.codes → AreBytes (put_entry t s).codes
unfolding put_entry put
put_entry-AreBytes none s h = h
put_entry-AreBytes (some t) s h = elim (Bool-cases (ltb (length s.codes) max_codes)) [
  | inl b ↦ rw b (append-AreBytes s.codes _ h (store-AreBytes _ _ _))
  | inr b ↦ rw b h
]

put_run-AreBytes :
    (tab : List T4) (run : ℕ) (s : Sink) → AreBytes s.codes → AreBytes (put_run tab run s).codes
unfolding put_run
put_run-AreBytes tab run s h =
    let rlen = if ltb max_run_len run then max_run_len else run in
    elim (Bool-cases (ltb 63 run)) [
      | inl b ↦ rw b (
          put_entry-AreBytes (get_elem? tab (rlen % 64)) _
            (put_entry-AreBytes (get_elem? tab (63 + rlen / 64)) s h))
      | inr b ↦ rw b (put_entry-AreBytes (get_elem? tab (rlen % 64)) s h)
    ]

put_runs-AreBytes :
    (white : Bool) (runs : List ℕ) (s : Sink)
    → AreBytes s.codes
    → AreBytes (put_runs white runs s).codes
unfolding put_runs
put_runs-AreBytes white [] s h = h
put_runs-AreBytes white (run ∷ runs) s h =
    put_runs-AreBytes (not white) runs (put_run (table white) run s)
      (put_run-AreBytes (table white) run s h)

put_fill-AreBytes : (s : Sink) → AreBytes s.codes → AreBytes (put_fill s).codes
unfolding put_fill
put_fill-AreBytes s h = push-AreBytes s 0 8 h

put_eol-AreBytes : (s : Sink) → AreBytes s.codes → AreBytes (put_eol s).codes
unfolding put_eol
put_eol-AreBytes s h = push-AreBytes s 1 12 h

put_fills-AreBytes : (n : ℕ) (s : Sink) → AreBytes s.codes → AreBytes (put_fills n s).codes
unfolding put_fills
put_fills-AreBytes zero s h = h
put_fills-AreBytes (suc n) s h = put_fills-AreBytes n (put_fill s) (put_fill-AreBytes s h)

put_eols-AreBytes : (n : ℕ) (s : Sink) → AreBytes s.codes → AreBytes (put_eols n s).codes
unfolding put_eols
put_eols-AreBytes zero s h = h
put_eols-AreBytes (suc n) s h = put_eols-AreBytes n (put_eol s) (put_eol-AreBytes s h)

pad-AreBytes : (n minlen : ℕ) (s : Sink) → AreBytes s.codes → AreBytes (pad n minlen s).codes
unfolding pad
pad-AreBytes zero minlen s h = h
pad-AreBytes (suc n) minlen s h = elim (Bool-cases (ltb (length s.codes) minlen)) [
  | inl b ↦ rw b (pad-AreBytes n minlen (put_fill s) (put_fill-AreBytes s h))
  | inr b ↦ rw b h
]

send_line-AreBytes :
    (key : List ℕ) (minlen : ℕ) (s : Sink) (runs : List ℕ)
    → AreBytes s.codes
    → AreBytes (send_line key minlen s runs).0
unfolding send_line runtocode
send_line-AreBytes key minlen s runs h =
    let empty : Sink = record { encoder = s.encoder; codes = [] } in
    let s1 = push s (runtocode s.encoder (crypt_line key runs)) in
    put_eol-AreBytes (pad minlen minlen s1) (
      pad-AreBytes minlen minlen s1
        (append-AreBytes s.codes _ h (put_runs-AreBytes true (crypt_line key runs) empty tt)))

send_lines-AreBytes :
    (key : List ℕ) (minlen : ℕ) (s : Sink) (lines : List (List ℕ))
    → AreBytes s.codes
    → AreBytes (send_lines key minlen s lines).0 × AreBytes (send_lines key minlen s lines).1.codes
unfolding send_lines send_line
send_lines-AreBytes key minlen s [] h = (tt, h)
send_lines-AreBytes key minlen s (runs ∷ lines) h =
    let (b, s1) = send_line key minlen s runs in
    let (c, s2) = send_lines key minlen s1 lines in
    let (k, l) = send_lines-AreBytes key minlen s1 lines tt in
    (append-AreBytes b c (send_line-AreBytes key minlen s runs h) k, l)

pub send_page-AreBytes :
    (key : List ℕ) (minlen : ℕ) (lines : List (List ℕ)) → AreBytes (send_page key minlen lines)
unfolding send_page data_start send_rtc
send_page-AreBytes key minlen lines =
    let h =
      put_eol-AreBytes _
        (put_fills-AreBytes 32 (record { encoder = new_encoder; codes = [] }) tt) in
    let (k, l) = send_lines-AreBytes key minlen data_start lines h in
    let (b, s) = send_lines key minlen data_start lines in
    append-AreBytes b (send_rtc s) k (push-AreBytes (put_eols 5 s) 0 0 (put_eols-AreBytes 5 s l))
