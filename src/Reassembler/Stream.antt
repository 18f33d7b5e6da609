-- ===== src/Reassembler/Stream.antt =====
-- What the reassembler shows of a stream of bytes.
use secure_e_fax.Prelude.{
  ℕ, ◌≤◌, ◌≡◌, sym, ap, ◌∙◌, false, List, [], ◌∷◌, ◌++◌, Option, none, some, ◌⊎◌, arith, length,
  take-append-drop, append_assoc, append-nil,
}
use secure_e_fax.Text.{Bytes}
use secure_e_fax.Reassembler.{buff_size, is_valid, cut_partial, reassemble, read_pipe_slot}

-- A text that is shown, nothing for the error message.
abbrev pub shown : Option Bytes → Bytes
shown none = []
shown (some text) = text

abbrev pub IsShown : Option Bytes → Type 0
IsShown none = ⊥
IsShown (some text) = Unit

abbrev pub all_shown : List (Option Bytes) → Bytes
all_shown [] = []
all_shown (t ∷ ts) = shown t ++ all_shown ts

abbrev pub concat : List Bytes → Bytes
concat [] = []
concat (s ∷ ss) = s ++ concat ss

module _ (valid_prefix : Bytes → ℕ) where
  cut_partial-stored : (s : Bytes) → length (cut_partial valid_prefix s).1 ≤ buff_size
  unfolding cut_partial
  cut_partial-stored s = ground arith

  -- Stored bytes that fit in the buffer of six bytes fit in it after any further read.
  pub reassemble-stored :
      (stored input : Bytes)
      → length stored ≤ buff_size
      → length (reassemble valid_prefix stored input).1 ≤ buff_size
  unfolding reassemble
  reassemble-stored stored input h = ground (arith, cut_partial-stored (stored ++ input))

  cut_partial-split :
      (s : Bytes)
      → IsShown (cut_partial valid_prefix s).0
      → shown (cut_partial valid_prefix s).0 ++ (cut_partial valid_prefix s).1 ≡ s
  unfolding cut_partial
  cut_partial-split s = ground (arith, take-append-drop (valid_prefix s) s, append-nil s)

  -- A read that is a text by itself comes while nothing is stored: there is one writer.
  abbrev pub IsInOrder : Bytes → List Bytes → Type 0
  IsInOrder stored [] = Unit
  IsInOrder stored (input ∷ inputs) =
      ((stored ≡ []) ⊎ (is_valid valid_prefix input ≡ false))
      × IsInOrder (reassemble valid_prefix stored input).1 inputs

  abbrev pub AllShown : Bytes → List Bytes → Type 0
  AllShown stored [] = Unit
  AllShown stored (input ∷ inputs) =
      IsShown (reassemble valid_prefix stored input).0
      × AllShown (reassemble valid_prefix stored input).1 inputs

  reassemble-split :
      (stored input : Bytes)
      → (stored ≡ []) ⊎ (is_valid valid_prefix input ≡ false)
      → IsShown (reassemble valid_prefix stored input).0
      → shown (reassemble valid_prefix stored input).0 ++ (reassemble valid_prefix stored input).1
        ≡ stored ++ input
  unfolding reassemble
  reassemble-split stored input o h =
      ground (arith, cut_partial-split (stored ++ input), append-nil input)

  -- As long as no read is refused, and none that is a text by itself comes while bytes are stored, what
  -- is shown, followed by what is still stored, is what was stored at first and has been read, byte for
  -- byte, however the stream was cut into reads.
  pub read_pipe_slot_lossless :
      (stored : Bytes) (inputs : List Bytes)
      → IsInOrder stored inputs
      → AllShown stored inputs
      → all_shown (read_pipe_slot valid_prefix stored inputs).0
          ++ (read_pipe_slot valid_prefix stored inputs).1
        ≡ stored ++ concat inputs
  unfolding read_pipe_slot
  read_pipe_slot_lossless stored [] o a = sym (append-nil stored)
  read_pipe_slot_lossless stored (input ∷ inputs) o a =
      append_assoc (shown (reassemble valid_prefix stored input).0)
        (all_shown (read_pipe_slot valid_prefix (reassemble valid_prefix stored input).1 inputs).0)
        (read_pipe_slot valid_prefix (reassemble valid_prefix stored input).1 inputs).1
      ∙ ap (λ s. shown (reassemble valid_prefix stored input).0 ++ s)
          (read_pipe_slot_lossless (reassemble valid_prefix stored input).1 inputs o.1 a.1)
      ∙ sym (
          append_assoc (shown (reassemble valid_prefix stored input).0)
            (reassemble valid_prefix stored input).1 (concat inputs))
      ∙ ap (λ s. s ++ concat inputs) (reassemble-split stored input o.0 a.0)
      ∙ append_assoc stored input (concat inputs)
