-- ===== src/Reassembler.antt =====
-- Utf8::Reassembler of utils/utf8_utils.h and utf8_utils.cpp, which cuts what is read from a pipe at
-- the end of a UTF-8 character. g_utf8_validate is not code of the repository: `valid_prefix` is the
-- length of the text up to the pointer that it sets, and the text is valid if that is all of it.
pub mod Stream
pub mod Tests
use secure_e_fax.Prelude.{
  ℕ, Bool, true, false, List, [], ◌∷◌, ◌++◌, Option, none, some, leb, ◌==◌, if◌then◌else◌, length,
  take, drop,
}
use secure_e_fax.Text.{Bytes}

-- buff_size
abbrev pub buff_size : ℕ
buff_size = 6

module _ (valid_prefix : Bytes → ℕ) where
  -- g_utf8_validate
  abbrev pub is_valid : Bytes → Bool
  is_valid s = valid_prefix s == length s

  -- The stored bytes and the input, joined, where neither stands as a text by itself.
  cut_partial : Bytes → Option Bytes × Bytes
  cut_partial assembled =
      let size = valid_prefix assembled in
      let rest = drop size assembled in
      if is_valid assembled
      then (some assembled, [])
      else if leb (length rest) buff_size
      then (some (take size assembled), rest)
      else (none, [])

  -- Reassembler::operator(): the text to show, and the bytes that are stored for the next call.
  unfoldable pub reassemble : Bytes → Bytes → Option Bytes × Bytes
  unfolding cut_partial
  reassemble stored input =
      if is_valid input then (some input, stored) else cut_partial (stored ++ input)

  -- EfaxController::read_pipe_slot: the texts shown for what the pipe gives read by read, `none` for
  -- the message that invalid UTF-8 was received.
  unfoldable pub read_pipe_slot : Bytes → List Bytes → List (Option Bytes) × Bytes
  unfolding reassemble
  read_pipe_slot stored [] = ([], stored)
  read_pipe_slot stored (input ∷ inputs) =
      let (text, stored1) = reassemble stored input in
      let (texts, stored2) = read_pipe_slot stored1 inputs in (text ∷ texts, stored2)
