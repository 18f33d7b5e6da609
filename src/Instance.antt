-- ===== src/Instance.antt =====
-- The lock file of a running program: is_program_running of src/main.cpp.
pub mod Ends
mod Tests
use secure_e_fax.Prelude.{
  ℕ, zero, suc, ◌+◌, Bool, true, false, not, ◌&&◌, ◌||◌, Option, none, some, if◌then◌else◌, ltb,
}
use secure_e_fax.Outcome.{Outcome, ok, out_of_fuel, ◌>>=◌}

-- The answers of is_in_process_table: 1, 0, and -1 when it cannot tell.
pub data Listed : Type 0 where
  found missing unknown : Listed

-- The system's functions on the lock file and the fifo. `existing` is the process id that the file holds and
-- whether it could be read, none if the file does not open; `created` is open() with O_EXCL.
pub record System : Type 1 where
  pub World : Type 0
  pub created : World → Bool × World
  pub has_file : World → Bool
  pub existing : World → Option (ℕ × Bool)
  pub unlinked : World → World
  pub listed : World → ℕ → Listed
  pub is_alive : World → ℕ → Bool
  pub has_fifo : World → Bool
  pub alerted : World → ℕ → Bool × World
  pub wrote_pid : World → World

-- The variables of the function: whether new_lock_fd is open, count and return_val.
pub record Attempt (s : System) : Type 0 where
  pub has_lock : Bool
  pub count : ℕ
  pub return_val : Bool
  pub world : s.World

abbrev is_missing : Listed → Bool
is_missing found = false
is_missing missing = true
is_missing unknown = false

-- The condition under which an existing lock is stale.
abbrev is_stale : (s : System) → s.World → ℕ → Bool → Bool
is_stale s w pid good = is_missing (s.listed w pid) || (good && not (s.is_alive w pid))

-- A stale lock is removed, and the file opened again.
unfoldable pub take_over : (s : System) → Attempt s → Attempt s
take_over s a =
    let (has_lock, w) = s.created (s.unlinked a.world) in
    record { has_lock = has_lock; count = suc a.count; return_val = a.return_val; world = w }

-- The running program is alerted through its fifo.
unfoldable pub bring_up : (s : System) → ℕ → Attempt s → Attempt s
bring_up s pid a =
    let (written, w) = s.alerted a.world pid in
    if s.has_fifo a.world
    then record {
      has_lock = a.has_lock;
      count = 2;
      return_val = written || a.return_val;
      world = w;
    }
    else record { has_lock = a.has_lock; count = 2; return_val = a.return_val; world = a.world }

-- The body of the loop.
unfoldable pub attempt : (s : System) → Attempt s → Attempt s
unfolding take_over bring_up
attempt s a = if not (s.has_file a.world) then a else elim (s.existing a.world) [
  | none ↦ record {
    has_lock = a.has_lock;
    count = a.count;
    return_val = a.return_val;
    world = s.unlinked a.world;
  }
  | some (pid, good) ↦ if is_stale s a.world pid good then take_over s a else bring_up s pid a
]

-- The condition of the loop.
abbrev pub goes_on : (s : System) → Attempt s → Bool
goes_on s a = ltb a.count 2 && not a.has_lock

-- The loop, on fuel.
unfoldable pub lock_loop : (s : System) → ℕ → Attempt s → Outcome (Attempt s)
lock_loop s zero a = out_of_fuel
lock_loop s (suc n) a =
    let again = lock_loop s n (attempt s a) in if goes_on s a then again else ok a

-- The open in front of the loop.
unfoldable pub first_attempt : (s : System) → s.World → Attempt s
first_attempt s w =
    let (has_lock, w') = s.created w in
    record { has_lock = has_lock; count = 0; return_val = false; world = w' }

-- What follows the loop: the program writes its process id, if it has made the file.
unfoldable pub write_pid : (s : System) → Attempt s → Attempt s
write_pid s a =
    if ltb a.count 2 && a.has_lock
    then record {
      has_lock = a.has_lock;
      count = a.count;
      return_val = a.return_val;
      world = s.wrote_pid a.world;
    }
    else a

-- is_program_running
unfoldable pub is_program_running : (s : System) → ℕ → s.World → Outcome (Attempt s)
unfolding first_attempt write_pid lock_loop
is_program_running s n w = lock_loop s n (first_attempt s w) >>= λ a. ok (write_pid s a)
