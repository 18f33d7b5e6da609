-- ===== src/Socket/Queue/Saved.antt =====
-- The queue that was saved is the queue that is read.
use mathlib.Core.Path.{◌≡⟨◌⟩◌, ◌∎}
use secure_e_fax.Prelude.{
  ℕ, ◌+◌, ◌^◌, ◌%◌, ◌<◌, ◌≡◌, ◌≢◌, sym, ap, ◌∙◌, Bool, true, List, [], ◌∷◌, ◌++◌, some, ◌⊎◌, inl,
  inr, ltb, length, arith, All, append_assoc, append-nil, All-map, drop_past, All-append,
  take-append, length-append,
}
use secure_e_fax.Text.{Bytes, Lacks, rfind-append}
use secure_e_fax.Text.Decimal.{pos, decimal, to_unsigned}
use secure_e_fax.Text.Decimal.RoundTrip.{atoi-decimal, decimal-ne-nil, decimal-Digits, IsDigit}
use secure_e_fax.Socket.Queue.{
  SocketServer, print_jobs, print_queue, lines_from, add_job, read_line, read_lines,
  read_queued_faxes,
}

-- A file name as mkstemp() makes it: it has no newline, and does not begin like a comment or a count.
abbrev pub IsName : Bytes → Type 0
IsName [] = ⊥
IsName (c ∷ s) = (c ≢ b'#') × (c ≢ b'!') × Lacks b'\n' (c ∷ s)

abbrev pub IsSavable : (Bytes → Bool) → Bytes × ℕ → Type 0
IsSavable readable (file, number) = IsName file × (readable file ≡ true) × (number < 2 ^ 32)

-- A line without newlines is read up to its end.
lines_from-line :
    (line s rest : Bytes)
    → Lacks b'\n' s
    → lines_from line (s ++ b'\n' ∷ rest) ≡ (line ++ s) ∷ lines_from [] rest
unfolding lines_from
lines_from-line line [] rest h = ap (λ l. l ∷ lines_from [] rest) (sym (append-nil line))
lines_from-line line (c ∷ s) rest h =
    ground (arith, lines_from-line (line ++ c ∷ []) s rest h.1, append_assoc line (c ∷ []) s)

decimal-Lacks : (c n : ℕ) → c < 48 ⊎ 57 < c → Lacks c (decimal n)
decimal-Lacks c n h =
    All-map IsDigit (λ x. x ≢ c) (decimal n) (λ x d e. differ x d e h) (decimal-Digits n)
  where
    differ : (x : ℕ) → IsDigit x → x ≡ c → c < 48 ⊎ 57 < c → ⊥
    differ x d e (inl k) = omega arith
    differ x d e (inr k) = omega arith

line-Lacks : (file : Bytes) (n : ℕ) → IsName file → Lacks b'\n' (file ++ b'?' ∷ decimal n)
line-Lacks [] n h = absurd h
line-Lacks (c ∷ file) n h =
    All-append (λ x. x ≢ b'\n') (c ∷ file) (b'?' ∷ decimal n) h.2
      (omega arith, decimal-Lacks b'\n' n (inl (omega arith)))

module _ (readable : Bytes → Bool) where
  module _ (file : Bytes) (number : ℕ) (s : SocketServer) where
    abbrev job_line : Bytes
    job_line = file ++ b'?' ∷ decimal number

    add_job_line :
        readable file ≡ true
        → number < 2 ^ 32
        → add_job readable job_line (some (length file)) s
          ≡ record s { filenames = s.filenames ++ (file, number) ∷ [] }
    unfolding add_job to_unsigned
    add_job_line r n =
        let fits : ltb (length file + 1) (length job_line) ≡ true =
          ground (arith, length-append file (b'?' ∷ decimal number), decimal-ne-nil number) in
        let same : number % 2 ^ 32 ≡ number = omega arith in
        rw (
          take-append file (b'?' ∷ decimal number),
          drop_past file b'?' (decimal number),
          atoi-decimal number,
          fits,
          r,
          same,
        )

  read_job :
      (file : Bytes) (number : ℕ) (s : SocketServer)
      → IsSavable readable (file, number)
      → read_line readable (file ++ b'?' ∷ decimal number) s
        ≡ record s { filenames = s.filenames ++ (file, number) ∷ [] }
  unfolding read_line
  read_job [] number s h = absurd h.0
  read_job (c ∷ file) number s h = ground (
    arith,
    rfind-append b'?' (c ∷ file) (decimal number) (decimal-Lacks b'?' number (inr (omega arith))),
    add_job_line (c ∷ file) number s h.1 h.2,
  )

  -- The lines of the saved jobs, read in turn, add the jobs.
  read_jobs :
      (jobs : List (Bytes × ℕ)) (rest : Bytes) (s : SocketServer)
      → All (IsSavable readable) jobs
      → read_lines readable (lines_from [] (print_jobs jobs ++ rest)) s
        ≡ read_lines readable (lines_from [] rest) (record s { filenames = s.filenames ++ jobs })
  unfolding print_jobs read_lines
  read_jobs [] rest s h = rw (append-nil s.filenames)
  read_jobs ((file, number) ∷ jobs) rest s h =
      let line = file ++ b'?' ∷ decimal number in
      let text = print_jobs jobs ++ rest in
      let one = record s { filenames = s.filenames ++ (file, number) ∷ [] } in
      read_lines readable (lines_from [] (print_jobs ((file, number) ∷ jobs) ++ rest)) s
      ≡⟨ ap (λ t. read_lines readable (lines_from [] t) s) (simp append_assoc) ⟩
        read_lines readable (lines_from [] (line ++ b'\n' ∷ text)) s
      ≡⟨ ap (λ ls. read_lines readable ls s)
          (lines_from-line [] line text (line-Lacks file number h.0.0)) ⟩
        read_lines readable (lines_from [] text) (read_line readable line s)
      ≡⟨ ap (read_lines readable (lines_from [] text)) (read_job file number s h.0) ⟩
        read_lines readable (lines_from [] text) one
      ≡⟨ read_jobs jobs rest one h.1 ⟩
        read_lines readable (lines_from [] rest)
          (record s { filenames = (s.filenames ++ (file, number) ∷ []) ++ jobs })
      ≡⟨ ap (λ fs. read_lines readable (lines_from [] rest) (record s { filenames = fs }))
          (append_assoc s.filenames ((file, number) ∷ []) jobs) ⟩
        read_lines readable (lines_from [] rest)
          (record s { filenames = s.filenames ++ (file, number) ∷ jobs }) ∎

  to_unsigned-small : (n : ℕ) → n < 2 ^ 32 → to_unsigned (pos n) ≡ n
  unfolding to_unsigned
  to_unsigned-small n lt = omega arith

  read_count :
      (n : ℕ) (s : SocketServer)
      → n < 2 ^ 32
      → read_lines readable (lines_from [] (b'!' ∷ (decimal n ++ b'\n' ∷ []))) s
        ≡ record s { count = n }
  unfolding read_lines read_line lines_from
  read_count n s lt =
      ap (λ ls. read_lines readable ls s)
        (lines_from-line [] (b'!' ∷ decimal n) []
          (omega arith, decimal-Lacks b'\n' n (inl (omega arith))))
      ∙ ground (arith, atoi-decimal n, decimal-ne-nil n, to_unsigned-small n lt)

  -- What save_queued_faxes has written is read back by the next run of the program: the jobs in their
  -- order with their numbers, and the last number given. It is so where each file can still be read,
  -- has a name like those of mkstemp() (not empty, with no newline, and not beginning with '#' or '!'),
  -- where the numbers and the count fit in 32 bits.
  pub read-print_queue :
      (n : ℕ) (jobs : List (Bytes × ℕ)) (s : SocketServer)
      → n < 2 ^ 32
      → All (IsSavable readable) jobs
      → read_queued_faxes readable (some (print_queue n jobs)) s
        ≡ record s { filenames = jobs; count = n }
  unfolding read_queued_faxes print_queue
  read-print_queue n jobs s lt h =
      read_jobs jobs (b'!' ∷ (decimal n ++ b'\n' ∷ [])) (record s { filenames = [] }) h
      ∙ read_count n (record s { filenames = jobs }) lt
