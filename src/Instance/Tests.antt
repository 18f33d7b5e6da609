-- ===== src/Instance/Tests.antt =====
-- The lock file in concrete systems, whose world is whether the file is there.
use secure_e_fax.Prelude.{◌≡◌, refl, Bool, true, false, not, some, inl}
use secure_e_fax.Outcome.{ok, out_of_fuel}
use secure_e_fax.Instance.{System, Attempt, missing, is_program_running}
use secure_e_fax.Instance.Ends.{CanRead, is_program_running_endless, is_program_running_returns}

-- A directory in which no file can be made.
abbrev closed_dir : System
closed_dir = record {
  World = Bool;
  created = λ w. (false, false);
  has_file = λ w. w;
  existing = λ w. some (7, true);
  unlinked = λ w. false;
  listed = λ w pid. missing;
  is_alive = λ w pid. false;
  has_fifo = λ w. false;
  alerted = λ w pid. (false, w);
  wrote_pid = λ w. w;
}

-- A directory in which a file can be made if it is not there.
abbrev open_dir : System
open_dir = record {
  World = Bool;
  created = λ w. (not w, true);
  has_file = λ w. w;
  existing = λ w. some (7, true);
  unlinked = λ w. false;
  listed = λ w pid. missing;
  is_alive = λ w pid. false;
  has_fifo = λ w. false;
  alerted = λ w pid. (false, w);
  wrote_pid = λ w. w;
}

is_program_running_endless_example : is_program_running closed_dir 100 false ≡ out_of_fuel
is_program_running_endless_example = is_program_running_endless closed_dir 100 false refl (inl refl)

open_dir-CanRead : CanRead open_dir
open_dir-CanRead w refused = (refl, (7, true, refl))

is_program_running_returns_example :
    (r : Attempt open_dir) × (is_program_running open_dir 3 true ≡ ok r)
    × (r.return_val ≡ true → r.has_lock ≡ false)
is_program_running_returns_example = is_program_running_returns open_dir true open_dir-CanRead
