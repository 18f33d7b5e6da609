-- ===== src/Pipes.antt =====
-- utils/pipes.h and pipes.cpp: a pipe that owns two file descriptors.
pub mod Write
use secure_e_fax.Prelude.{ℕ, Option, none, some}
use secure_e_fax.Os.{Os}
use secure_e_fax.Outcome.{Outcome, ok, throws}

pub data FifoMode : Type 0 where
  block non_block : FifoMode

-- A descriptor of -1 is `none`.
pub record PipeFifo : Type 0 where
  pub read_fd : Option ℕ
  pub write_fd : Option ℕ
  pub read_blocking_mode : FifoMode
  pub write_blocking_mode : FifoMode

-- PipeFifo::PipeFifo(void)
abbrev pub closed_pipe : PipeFifo
closed_pipe = record {
  read_fd = none;
  write_fd = none;
  read_blocking_mode = block;
  write_blocking_mode = block;
}

module _ (os : Os) where
  open os use {World}

  abbrev close_fd : Option ℕ → World → World
  close_fd none w = w
  close_fd (some fd) w = os.close fd w

  unfoldable pub make_writeonly : PipeFifo → World → PipeFifo × World
  make_writeonly p w = (record p { read_fd = none }, close_fd p.read_fd w)

  unfoldable pub make_readonly : PipeFifo → World → PipeFifo × World
  make_readonly p w = (record p { write_fd = none }, close_fd p.write_fd w)

  unfoldable pub close_pipe : PipeFifo → World → PipeFifo × World
  unfolding make_readonly make_writeonly
  close_pipe p w =
      let (p1, w1) = make_writeonly p w in
      let (p2, w2) = make_readonly p1 w1 in
      (record p2 { read_blocking_mode = block; write_blocking_mode = block }, w2)

  abbrev opened : FifoMode → PipeFifo → Option (ℕ × ℕ) × World → Outcome (PipeFifo × World)
  opened mode p (none, w) = throws
  opened non_block p (some (r, s), w) =
      ok (record p { read_fd = some r; write_fd = some s; read_blocking_mode = non_block }, w)
  opened block p (some (r, s), w) = ok (record p { read_fd = some r; write_fd = some s }, w)

  unfoldable pub open_pipe : FifoMode → PipeFifo → World → Outcome (PipeFifo × World)
  unfolding close_pipe
  open_pipe mode p w = let (p1, w1) = close_pipe p w in opened mode p1 (os.pipe w1)

  unfoldable pub make_write_non_block : PipeFifo → PipeFifo
  make_write_non_block p = elim p.write_fd [
    | none ↦ p
    | some fd ↦ record p { write_blocking_mode = non_block }
  ]
