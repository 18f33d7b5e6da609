-- ===== src/Controller/Session/Launching.antt =====
-- Stopping a session, opening its pipe and starting efax: what they change.
use secure_e_fax.Prelude.{ℕ, ◌<◌, ◌≡◌, refl, true, false, List, some, inl, inr, arith, Option-cases}
use secure_e_fax.Text.{Bytes}
use secure_e_fax.Outcome.{Safe, Safe-bind}
use secure_e_fax.Pipes.{PipeFifo, FifoMode, open_pipe, make_readonly, block, non_block, closed_pipe}
use secure_e_fax.Controller.Types.{
  State, receive_answer, receive_takeover, receive_standby, Host, Machine, idle,
}
use secure_e_fax.Controller.Control.{Control, control, IsClosed, IsRunning, Inv}
use secure_e_fax.Controller.Session.{
  M, kill_child, stop, efax_closedown, open_stdout, fork_efax, parent_side, launch,
}

-- The modes in which the user can receive.
abbrev pub IsReceiveMode : State → Type 0
IsReceiveMode receive_answer = Unit
IsReceiveMode receive_takeover = Unit
IsReceiveMode receive_standby = Unit
IsReceiveMode _ = ⊥

module _ (h : Host) where
  pub kill_child-control : (m : M h) → control (kill_child h m) ≡ control m
  unfolding kill_child
  kill_child-control m = ground arith

  -- Stopping a session changes no member: the state changes when the child is reaped.
  pub stop-control : (m : M h) → control (stop h m) ≡ control m
  unfolding stop
  stop-control m = ground arith

  pub efax_closedown-Inv : (m : M h) → Inv (control m) → Inv (control (efax_closedown h m))
  unfolding efax_closedown
  efax_closedown-Inv m v = ground (arith, stop-control (record m { close_down = true }))

  open_pipe-Safe :
      (mode : FifoMode) (p : PipeFifo) (w : h.World)
      → Safe (λ _. Unit {0}) (open_pipe h.os mode p w)
  unfolding open_pipe
  open_pipe-Safe block p w = ground arith
  open_pipe-Safe non_block p w = ground arith

  -- What opening the pipe changes.
  pub open_stdout-Safe :
      (m : M h)
      → Safe
          (λ m1. control m1 ≡ record (control m) { stdout_pipe = m1.stdout_pipe })
          (open_stdout h m)
  unfolding open_stdout open_pipe
  open_stdout-Safe m = ground arith

-- fork() gives the parent a positive process id.
abbrev pub ForkPos : Host → Type 0
ForkPos h = (w : h.World) (pid : ℕ) → (h.fork w).0 ≡ some pid → 0 < pid

-- A machine that has just started efax, otherwise as it was.
pub record Started {W : Type 0} (m m1 : Machine W) : Type 0 where
  pub running : IsRunning (control m1)
  pub state_kept : m1.state ≡ m.state
  pub item_kept : m1.last_fax_item_sent ≡ m.last_fax_item_sent
  pub close_down_kept : m1.close_down ≡ m.close_down

module _ (h : Host) (fork_pos : ForkPos h) where
  fork_efax-Safe :
      (parms : List Bytes) (m : M h) (sync : PipeFifo × h.World)
      → m.fax_made_sem ≡ 0
      → m.worker ≡ idle
      → Safe (Started m) (fork_efax h parms m sync)
  unfolding fork_efax parent_side make_readonly
  fork_efax-Safe parms m (sync, w) s i = elim (Option-cases (h.fork w).0) [
    | inl e ↦ rw (e, Safe) tt
    | inr (pid, e) ↦
        rw (e, Safe)
          (record {
            running = record {
              a_child = fork_pos w pid e;
              is_joined = refl;
              idle_worker = i;
              no_post = s;
              no_writer = refl;
            };
            state_kept = refl;
            item_kept = refl;
            close_down_kept = refl;
          })
  ]

  pub launch-Safe :
      (parms : List Bytes) (m : M h)
      → m.fax_made_sem ≡ 0
      → m.worker ≡ idle
      → Safe (Started m) (launch h parms m)
  unfolding launch
  launch-Safe parms m s i =
      Safe-bind (λ _. Unit {0}) (Started m) (open_pipe h.os block closed_pipe m.world)
        (fork_efax h parms m) (open_pipe-Safe h block closed_pipe m.world)
        (λ sync _. fork_efax-Safe parms m sync s i)

-- Nothing runs; the pipe may be open.
pub record IsFree (c : Control) : Type 0 where
  pub no_child : c.child_pid ≡ 0
  pub not_joined : c.joined ≡ false
  pub idle_worker : c.worker ≡ idle
  pub no_post : c.sem ≡ 0

pub closed-IsFree : (c : Control) → IsClosed c → IsFree c
closed-IsFree c f = record {
  no_child = f.no_child;
  not_joined = f.not_joined;
  idle_worker = f.idle_worker;
  no_post = f.no_post;
}
