-- ===== src/Os.antt =====
-- The operating system as the program calls it: files, time, processes and threads. None of this is
-- code of the repository, so it is a record of functions on an abstract world, which the models take
-- as a parameter. A call that the sources retry while it is interrupted (EINTR) is one call here.
use secure_e_fax.Prelude.{ℕ, Bool, Option, List}
use secure_e_fax.Text.{Bytes}

-- The answers of rmdir() that the sources tell apart by errno.
pub data Removed : Type 0 where
  removed : Removed
  not_empty : Removed
  refused : Removed

-- The status of a child as waitpid() gives it: WIFEXITED with its code, or ended by a signal.
pub data Status : Type 0 where
  exited : ℕ → Status
  signalled : Status

pub record Os : Type 1 where
  pub World : Type 0
  -- access(path, F_OK) and access(path, R_OK) succeed
  pub exists : World → Bytes → Bool
  pub readable : World → Bytes → Bool
  -- stat(): the size of a file, `none` where stat() fails
  pub size : World → Bytes → Option ℕ
  pub mkdir : Bytes → World → Bool × World
  pub rmdir : Bytes → World → Removed × World
  pub unlink : Bytes → World → World
  pub link : Bytes → Bytes → World → Bool × World
  -- the regular files of a directory, `none` where opendir() fails
  pub list_dir : World → Bytes → Option (List Bytes)
  -- opening a stream for reading, and for writing (which creates or truncates the file)
  pub open_in : World → Bytes → Bool
  pub open_out : Bytes → World → Bool × World
  -- the whole contents of one file written to another; a text written to a file
  pub copy : Bytes → Bytes → World → World
  pub write_text : Bytes → Bytes → World → World
  -- the local time in the formats "%Y%m%d%H%M%S", "%Y-%m-%d %H:%M" and "(%H%M %Z %d %b %Y)"
  pub stamp : World → Bytes
  pub header_date : World → Bytes
  pub description_date : World → Bytes
  -- sleep(1)
  pub sleep : World → World
  -- pipe(): the read and the write descriptor, `none` on failure; close()
  pub pipe : World → Option (ℕ × ℕ) × World
  pub close : ℕ → World → World
  -- fork(): the child's process id, `none` for -1
  pub fork : World → Option ℕ × World
  -- getpgid(0) == getpgid(pid)
  pub same_group : World → ℕ → Bool
  -- SIGTERM, and SIGKILL a second later
  pub kill : ℕ → World → World
  -- Thread::start succeeds
  pub start_thread : World → Bool × World
  -- ghostscript run to its end in a directory with these arguments: fork() and what follows
  pub ghostscript : Bytes → List Bytes → World → Bool × World
  -- g_utf8_validate, with the length of the longest valid prefix
  pub valid_prefix : Bytes → ℕ
  -- filename_to_utf8 and locale_to_utf8, `none` for a ConversionError
  pub to_utf8 : Bytes → Option Bytes
