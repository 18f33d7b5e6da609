-- ===== src/Socket/Queue.antt =====
-- The queue of print jobs of socket_server.cpp, and the file that keeps it between two runs.
pub mod Saved
use secure_e_fax.Prelude.{
  ℕ, zero, suc, ◌+◌, Bool, true, false, ◌&&◌, ◌||◌, not, List, [], ◌∷◌, ◌++◌, Option, none, some,
  ltb, ◌==◌, if◌then◌else◌, length, take, drop,
}
use secure_e_fax.Text.{Bytes, codes, bytes_eq, rfind}
use secure_e_fax.Text.Decimal.{atoi, decimal, to_unsigned}

-- The members of SocketServer that the queue uses; a job is a file with its number, an
-- unsigned int like the count. `saved` is what
-- the file of queued faxes was last written with, and `can_save` tells whether it can be opened.
pub record SocketServer : Type 0 where
  pub count : ℕ
  pub filenames : List (Bytes × ℕ)
  pub saved : Bytes
  pub can_save : Bool
  -- the temporary files that have been deleted, the last first
  pub unlinked : List Bytes

unfoldable pub print_jobs : List (Bytes × ℕ) → Bytes
print_jobs [] = []
print_jobs ((file, number) ∷ jobs) = file ++ b'?' ∷ (decimal number ++ b'\n' ∷ print_jobs jobs)

-- The text that save_queued_faxes writes.
unfoldable pub print_queue : ℕ → List (Bytes × ℕ) → Bytes
unfolding print_jobs
print_queue count jobs = print_jobs jobs ++ b'!' ∷ (decimal count ++ b'\n' ∷ [])

unfoldable pub save_queued_faxes : SocketServer → SocketServer
unfolding print_queue
save_queued_faxes s = if s.can_save then record s { saved = print_queue s.count s.filenames } else s

unfoldable pub add_file : Bytes → SocketServer → SocketServer
unfolding save_queued_faxes
add_file filename s =
    save_queued_faxes (record s { filenames = s.filenames ++ (filename, s.count) ∷ [] })

-- The list without the first job of this file, `none` if there is no such job.
unfoldable pub erase_first : Bytes → List (Bytes × ℕ) → Option (List (Bytes × ℕ))
erase_first filename [] = none
erase_first filename ((file, number) ∷ jobs) = elim (bytes_eq file filename) [
  | true ↦ some jobs
  | false ↦ elim (erase_first filename jobs) [
    | none ↦ none
    | some rest ↦ some ((file, number) ∷ rest)
  ]
]

-- The result is false for the source's -1: there is no such file.
unfoldable pub remove_file : Bytes → SocketServer → Bool × SocketServer
unfolding erase_first save_queued_faxes
remove_file filename s = elim (erase_first filename s.filenames) [
  | none ↦ (false, s)
  | some jobs ↦
      (true, save_queued_faxes (record s { filenames = jobs; unlinked = filename ∷ s.unlinked }))
]

-- std::getline until it fails: the text behind the last newline is a line unless it is empty.
unfoldable pub lines_from : Bytes → Bytes → List Bytes
lines_from line [] = if ltb 0 (length line) then line ∷ [] else []
lines_from line (c ∷ s) = elim (c == b'\n') [
  | true ↦ line ∷ lines_from [] s
  | false ↦ lines_from (line ++ c ∷ []) s
]

module _ (readable : Bytes → Bool) where
  -- A line "name?number" whose file can be read.
  add_job : Bytes → Option ℕ → SocketServer → SocketServer
  add_job line none s = s
  add_job line (some p) s =
      let file = take p line in
      let number = to_unsigned (atoi (drop (suc p) line)) in
      if ltb (p + 1) (length line) && readable file
      then record s { filenames = s.filenames ++ (file, number) ∷ [] }
      else s

  read_line : Bytes → SocketServer → SocketServer
  unfolding add_job
  read_line [] s = s
  read_line (c ∷ rest) s =
      if not (c == b'#') && not (c == b'!')
      then add_job (c ∷ rest) (rfind b'?' (c ∷ rest)) s
      else if c == b'!' && ltb 0 (length rest)
      then record s { count = to_unsigned (atoi rest) }
      else s

  read_lines : List Bytes → SocketServer → SocketServer
  unfolding read_line
  read_lines [] s = s
  read_lines (line ∷ lines) s = read_lines lines (read_line line s)

  -- The contents of the file are `none` if it cannot be opened.
  unfoldable pub read_queued_faxes : Option Bytes → SocketServer → SocketServer
  unfolding lines_from read_lines rfind atoi to_unsigned
  read_queued_faxes none s = s
  read_queued_faxes (some text) s = read_lines (lines_from [] text) (record s { filenames = [] })

-- The next print job number of read_socket.
unfoldable pub next_count : ℕ → ℕ
next_count n = if ltb n 9999 then n + 1 else 1
