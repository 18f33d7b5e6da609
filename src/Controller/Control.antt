-- ===== src/Controller/Control.antt =====
-- The states of an EfaxController between two events of the main loop, and what each handler leaves
-- unchanged.
use secure_e_fax.Prelude.{ℕ, ◌<◌, ◌≡◌, Bool, true, false, List, [], none, ◌⊎◌}
use secure_e_fax.Text.{Bytes}
use secure_e_fax.Pipes.{PipeFifo}
use secure_e_fax.Controller.Types.{
  State, inactive, sending, send_on_standby, FaxItem, Worker, idle, making, made, not_made, Machine,
}

-- The members on which the next handlers depend.
pub record Control : Type 0 where
  pub state : State
  pub close_down : Bool
  pub sem : ℕ
  pub item : FaxItem
  pub stdout_pipe : PipeFifo
  pub joined : Bool
  pub child_pid : ℕ
  pub worker : Worker

abbrev pub control : {W : Type 0} → Machine W → Control
control m = record {
  state = m.state;
  close_down = m.close_down;
  sem = m.fax_made_sem;
  item = m.last_fax_item_sent;
  stdout_pipe = m.stdout_pipe;
  joined = m.joined;
  child_pid = m.child_pid;
  worker = m.worker;
}

-- A print job of the socket server has its file.
abbrev pub HasFile : Bool → List Bytes → Type 0
HasFile true [] = ⊥
HasFile _ _ = Unit

abbrev pub IsJob : FaxItem → Type 0
IsJob item = HasFile item.is_socket_file item.file_list

-- No session: no child, no thread, and the pipe is closed.
pub record IsClosed (c : Control) : Type 0 where
  pub no_child : c.child_pid ≡ 0
  pub not_joined : c.joined ≡ false
  pub idle_worker : c.worker ≡ idle
  pub no_post : c.sem ≡ 0
  pub no_reader : c.stdout_pipe.read_fd ≡ none
  pub no_writer : c.stdout_pipe.write_fd ≡ none

-- efax runs: its output is watched, and the write end of the pipe is the child's alone.
pub record IsRunning (c : Control) : Type 0 where
  pub a_child : 0 < c.child_pid
  pub is_joined : c.joined ≡ true
  pub idle_worker : c.worker ≡ idle
  pub no_post : c.sem ≡ 0
  pub no_writer : c.stdout_pipe.write_fd ≡ none

-- The worker has posted the semaphore exactly when its report is to be dispatched.
abbrev pub Posted : Worker → ℕ → Type 0
Posted idle n = ⊥
Posted making n = n ≡ 0
Posted made n = n ≡ 1
Posted not_made n = n ≡ 1

-- The pages of a fax are being made: there is no child yet.
pub record IsPreparing (c : Control) : Type 0 where
  pub no_child : c.child_pid ≡ 0
  pub not_joined : c.joined ≡ false
  pub posted : Posted c.worker c.sem

abbrev pub StateInv : State → Control → Type 0
StateInv inactive c = IsClosed c
StateInv sending c = IsPreparing c ⊎ IsRunning c
StateInv send_on_standby c = IsPreparing c ⊎ IsRunning c
StateInv _ c = IsRunning c

-- The invariant of the controller.
pub record Inv (c : Control) : Type 0 where
  pub phase : StateInv c.state c
  pub job : IsJob c.item
