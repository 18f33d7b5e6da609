-- ===== src/Efax/Page/Tests.antt =====
-- Two lines of a page, with a key of sixteen chars.
use secure_e_fax.Prelude.{ℕ, ◌*◌, ◌≤◌, ◌≡◌, refl, List, [], ◌∷◌, ◌⊎◌, some, true, length, arith}
use secure_e_fax.Text.{Bytes}
use secure_e_fax.Efax.Tables.{wtab}
use secure_e_fax.Efax.Bits.{AreBits, bits, bits-AreBits}
use secure_e_fax.Efax.Encoder.{Sink, new_encoder, push, runtocode}
use secure_e_fax.Efax.Encoder.Spelling.{line_bits}
use secure_e_fax.Efax.Decoder.{Answer, eof, failed}
use secure_e_fax.Efax.Decoder.Eol.{eol_bits}
use secure_e_fax.Efax.Decoder.Runs.{At, Answers, read_runs}
use secure_e_fax.Efax.Page.{send_page, new_decoder, receive_data}
use secure_e_fax.Efax.Page.Sent.{IsSendable, Sends, runtocode-Sends}
use secure_e_fax.Efax.Page.RoundTrip.{IsPlain, plain-IsSendable, receive_data-send_page}

abbrev key : List ℕ
key = 49 ∷ 50 ∷ 51 ∷ 52 ∷ 53 ∷ 54 ∷ 55 ∷ 56 ∷ 49 ∷ 50 ∷ 51 ∷ 52 ∷ 53 ∷ 54 ∷ 55 ∷ 56 ∷ []

abbrev blank : List ℕ
blank = 1728 ∷ []

abbrev marked : List ℕ
marked = 500 ∷ 3 ∷ 1225 ∷ []

blank-IsPlain : IsPlain blank
blank-IsPlain = record { short = (omega arith, tt); wide = omega arith; narrow = omega arith }

marked-IsPlain : IsPlain marked
marked-IsPlain = record {
  short = (omega arith, (omega arith, (omega arith, tt)));
  wide = omega arith;
  narrow = omega arith;
}

plain-IsSendable_example : IsSendable key marked
plain-IsSendable_example = plain-IsSendable key marked marked-IsPlain

receive_data-send_page_example :
    (last : Answer) × ((last ≡ eof) ⊎ (last ≡ failed))
    × (receive_data 8
          (8 * length (send_page key 10 (blank ∷ marked ∷ [])))
          key
          0
          (new_decoder (send_page key 10 (blank ∷ marked ∷ [])))
        ≡ (blank ∷ marked ∷ [], some last))
receive_data-send_page_example =
    receive_data-send_page key 10 (blank ∷ marked ∷ []) 0
      (plain-IsSendable key blank blank-IsPlain, (plain-IsSendable key marked marked-IsPlain, tt))

abbrev empty : Sink
empty = record { encoder = new_encoder; codes = [] }

runtocode-Sends_example :
    Sends empty (push empty (runtocode new_encoder marked)) (line_bits true marked)
runtocode-Sends_example =
    runtocode-Sends empty marked (omega arith, (omega arith, (omega arith, tt))) (omega arith)
      (omega arith)

-- The codes of a white line of 1728 pixels, and an EOL.
abbrev white_line : Bytes
white_line = 77 ∷ 154 ∷ 128 ∷ 8 ∷ 0 ∷ 0 ∷ []

abbrev nineteen : List ℕ
nineteen = 0 ∷ 0 ∷ 0 ∷ 0 ∷ 0 ∷ 0 ∷ 0 ∷ 0 ∷ 0 ∷ 0 ∷ 0 ∷ 0 ∷ 0 ∷ 0 ∷ 0 ∷ 0 ∷ 0 ∷ 0 ∷ 0 ∷ []

white_line-At : At (new_decoder white_line) (line_bits true blank (eol_bits 11 nineteen))
unfolding wtab
white_line-At = record {
  goes = record {
    ready = record {
      few = omega arith;
      bytes = (
        omega arith,
        (omega arith, (omega arith, (omega arith, (omega arith, (omega arith, tt))))),
      );
    };
    in_tab = refl;
    left = refl;
  };
}

nineteen-AreBits : AreBits nineteen
nineteen-AreBits = all_zero 19
  where
    all_zero : (n : ℕ) → AreBits (bits n 0 [])
    all_zero n = bits-AreBits n 0 [] tt

line_length : length (line_bits true blank (eol_bits 11 nineteen)) ≤ 48
unfolding wtab
line_length = omega arith

read_runs_example : Answers 48 (new_decoder white_line) blank nineteen
read_runs_example =
    read_runs 48 (new_decoder white_line) blank 11 nineteen (omega arith, tt) (omega arith)
      white_line-At (omega arith) (omega arith) nineteen-AreBits line_length
