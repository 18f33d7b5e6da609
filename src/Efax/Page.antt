-- ===== src/Efax/Page.antt =====
-- A page of scan lines through send_data and receive_data of efax/efax.c: encryption, encoding, fill, EOLs
-- and RTC, and the way back. The lines are those that reach `encrypt` in send_data; what sendbuf sends is
-- what tgetd() gives to the receiver. Both know the key.
pub mod Sent
pub mod Rtc
pub mod Octets
pub mod Received
pub mod Ending
pub mod RoundTrip
pub mod Tests
use secure_e_fax.Prelude.{
  ℕ, zero, suc, ◌+◌, ◌-◌, ◌*◌, ◌^◌, List, [], ◌∷◌, ◌++◌, Option, none, some, Bool, true, false, not,
  ◌&&◌, if◌then◌else◌, ltb, ◌==◌, length,
}
use secure_e_fax.Text.{Bytes}
use secure_e_fax.Outcome.{Outcome, ok, exits, throws, blocks, faults, out_of_fuel}
use secure_e_fax.Efax.Cipher.{crypt_line}
use secure_e_fax.Efax.Encoder.{Encoder, new_encoder, putcode, Sink, push, runtocode}
use secure_e_fax.Efax.Decoder.{Tab, tw1, Answer, eof, failed, line, Decoder, readfaxruns}

-- EOLCODE, EOLBITS
abbrev pub eol_code : ℕ
eol_code = 1

abbrev pub eol_length : ℕ
eol_length = 12

-- The two uses of putcode that send fill and an EOL.
unfoldable pub put_fill : Sink → Sink
unfolding putcode
put_fill s = push s (putcode s.encoder 0 8)

unfoldable pub put_eol : Sink → Sink
unfolding putcode
put_eol s = push s (putcode s.encoder eol_code eol_length)

unfoldable pub put_fills : ℕ → Sink → Sink
put_fills zero s = s
put_fills (suc n) s = put_fills n (put_fill s)

unfoldable pub put_eols : ℕ → Sink → Sink
put_eols zero s = s
put_eols (suc n) s = put_eols n (put_eol s)

-- `while ( p - buf < minlen )`; the first argument is the fuel.
unfoldable pub pad : ℕ → ℕ → Sink → Sink
pad zero minlen s = s
pad (suc n) minlen s =
    let more = pad n minlen (put_fill s) in if ltb (length s.codes) minlen then more else s

-- One line, behind what is in the buffer: the bytes that are sent, and the empty buffer.
unfoldable pub send_line : List ℕ → ℕ → Sink → List ℕ → Bytes × Sink
unfolding pad
send_line key minlen s runs =
    let s1 = push s (runtocode s.encoder (crypt_line key runs)) in
    let s2 = put_eol (pad minlen minlen s1) in
    (s2.codes, record { encoder = s2.encoder; codes = [] })

unfoldable pub send_lines : List ℕ → ℕ → Sink → List (List ℕ) → Bytes × Sink
unfolding send_line
send_lines key minlen s [] = ([], s)
send_lines key minlen s (runs ∷ lines) =
    let (b, s1) = send_line key minlen s runs in
    let (c, s2) = send_lines key minlen s1 lines in (b ++ c, s2)

-- The fill and the EOL at the start of the data.
unfoldable pub data_start : Sink
unfolding put_fills put_eol
data_start = put_eol (put_fills 32 (record { encoder = new_encoder; codes = [] }))

-- RTC, and the flush of the encoder.
unfoldable pub send_rtc : Sink → Bytes
unfolding put_eols
send_rtc s = let s1 = put_eols 5 s in (push s1 (putcode s1.encoder 0 0)).codes

unfoldable pub send_page : List ℕ → ℕ → List (List ℕ) → Bytes
unfolding send_lines data_start
send_page key minlen lines = let (b, s) = send_lines key minlen data_start lines in b ++ send_rtc s

-- newDECODER, with the data that is to come.
abbrev pub new_decoder : Bytes → Decoder
new_decoder data_ = record {
  reader = record { x = 0; avail = 0; tab = tw1; input = data_; ended = false };
  eolcnt = 0;
}

-- `nr > 0 && len > 0 && line`; len is a short.
unfoldable pub is_kept : ℕ → List ℕ → ℕ → Bool
is_kept n runs len = not (length runs == 0) && (ltb 0 len && ltb len (2 ^ 15)) && not (n == 0)

-- The loop of receive_data from line n: the lines that are written, and the answer that ends it, which is
-- `none` while it has not ended. The first argument bounds the calls of readfaxruns, the second the codes
-- that each of them reads.
unfoldable pub receive_data : ℕ → ℕ → List ℕ → ℕ → Decoder → List (List ℕ) × Option Answer
unfolding is_kept
receive_data zero f key n d = ([], none)
receive_data (suc m) f key n d = elim (readfaxruns f d) [
  | ok read ↦ elim (read.0) [
    | eof ↦ ([], some eof)
    | failed ↦ ([], some failed)
    | line runs len ↦
        let rest = receive_data m f key (suc n) read.1 in
        if is_kept n runs len then (crypt_line key runs ∷ rest.0, rest.1) else rest
  ]
  | exits c ↦ ([], none)
  | throws ↦ ([], none)
  | blocks ↦ ([], none)
  | faults ↦ ([], none)
  | out_of_fuel ↦ ([], none)
]
