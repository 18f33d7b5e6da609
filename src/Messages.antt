-- ===== src/Messages.antt =====
-- The messages of efax that the main window shows: MessageText::cleanify of src/mainwindow.cpp, which takes the
-- lines out that only say that efax starts or was told to end.
pub mod Lines
mod Tests
use secure_e_fax.Prelude.{
  ℕ, zero, suc, List, [], ◌∷◌, ◌++◌, Bool, true, false, not, ◌&&◌, ◌||◌, Option, none, some,
  if◌then◌else◌, ◌==◌, length,
}
use secure_e_fax.Text.{Bytes, codes}

abbrev pub newline : ℕ
newline = 10

-- find(...) != npos
unfoldable pub starts_with : Bytes → Bytes → Bool
starts_with [] s = true
starts_with (c ∷ word) [] = false
starts_with (c ∷ word) (d ∷ s) = c == d && starts_with word s

unfoldable pub contains : Bytes → Bytes → Bool
contains word [] = starts_with word []
contains word (c ∷ s) = starts_with word (c ∷ s) || contains word s

-- Whether a chunk is erased.
unfoldable pub is_erased : Bytes → Bool
unfolding contains starts_with
is_erased chunk =
    contains (codes " Copyright ") chunk
    || contains (codes " compiled ") chunk
    || contains (codes "terminating on signal 15") chunk

-- The text from chunk_start up to chunk_end, and the text from there, none where chunk_end is npos: when no
-- newline comes, or only at the end of the message.
unfoldable pub next_chunk : Bytes → Bytes × Option Bytes
next_chunk [] = ([], none)
next_chunk (c ∷ []) = (c ∷ [], none)
next_chunk (c ∷ d ∷ s) =
    let rest = next_chunk (d ∷ s) in
    if c == newline then (c ∷ [], some (d ∷ s)) else (c ∷ rest.0, rest.1)

-- The loop; `kept` is the message before chunk_start, and each round takes a byte at least.
unfoldable pub clean_loop : ℕ → Bytes → Bytes → Bytes
unfolding is_erased next_chunk
clean_loop zero kept s = kept ++ s
clean_loop (suc n) kept s =
    let (chunk, rest) = next_chunk s in
    let now = if is_erased chunk then kept else kept ++ chunk in
    elim rest [ none ↦ now | some more ↦ clean_loop n now more ]

unfoldable pub cleanify : Bytes → Bytes
unfolding clean_loop
cleanify message = clean_loop (suc (length message)) [] message
