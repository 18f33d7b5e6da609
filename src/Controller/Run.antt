-- ===== src/Controller/Run.antt =====
-- The main loop around an EfaxController: the calls that the rest of the program makes, one at a time,
-- and the machines that they reach from the constructor's. The worker thread is one call: until its
-- report the main thread uses none of the members that it writes.
pub mod Tests
use mathlib.Core.Path.{subst, sym}
use secure_e_fax.Prelude.{ℕ, ◌≡◌, refl, Bool, false, List, [], Option, none, ◌⊎◌, inl, inr}
use secure_e_fax.Os.{Status}
use secure_e_fax.Outcome.{Outcome, ok, Safe, Safe-ok, faults}
use secure_e_fax.Pipes.{closed_pipe}
use secure_e_fax.Controller.Types.{
  State, inactive, FaxItem, Worker, idle, making, made, not_made, Host, Machine, emit, write_state,
}
use secure_e_fax.Controller.Files.{make_fax_thread}
use secure_e_fax.Controller.Control.{Control, control, IsJob, Inv}
use secure_e_fax.Controller.Session.{
  M, stop, efax_closedown, sendfax_impl, receive, sendfax_slot, no_fax_made_slot,
}
use secure_e_fax.Controller.Session.Launching.{
  ForkPos, IsReceiveMode, stop-control, efax_closedown-Inv,
}
use secure_e_fax.Controller.Session.Sending.{sendfax-Inv}
use secure_e_fax.Controller.Session.Receiving.{receive-Inv}
use secure_e_fax.Controller.Session.Reports.{
  make_fax_thread-Inv, sendfax_slot-Inv, no_fax_made_slot-Inv,
}
use secure_e_fax.Controller.Timer.{timer_event}
use secure_e_fax.Controller.Timer.Invariant.{timer_event-Inv}

pub data Call : Type 0 where
  sends : FaxItem → Call
  receives : State → Call
  stops : Call
  closes : Call
  resets_count : Call
  works : Call
  dispatches_made : Call
  dispatches_not_made : Call
  times : Bool → List (ℕ × Status) → Call

module _ (h : Host) where
  -- EfaxController::EfaxController
  pub init : h.World → M h
  init w = record {
    state = inactive;
    close_down = false;
    received_fax_count = 0;
    fax_made_sem = 0;
    sendfax_parms_vec = [];
    last_fax_item_sent = record { file_list = []; number = []; is_socket_file = false };
    stdout_pipe = closed_pipe;
    joined = false;
    stored = [];
    child_pid = 0;
    worker = idle;
    events = [];
    world = w;
  }

  -- reset_count
  pub reset_count : M h → M h
  reset_count m = emit (write_state m.state) (record m { received_fax_count = 0 })

  pub perform : Call → M h → Outcome (M h)
  unfolding reset_count
  perform (sends item) m = sendfax_impl h item false m
  perform (receives mode) m = receive h mode m
  perform stops m = ok (stop h m)
  perform closes m = ok (efax_closedown h m)
  perform resets_count m = ok (reset_count m)
  perform works m = make_fax_thread h m
  perform dispatches_made m = sendfax_slot h m
  perform dispatches_not_made m = no_fax_made_slot h m
  perform (times listing statuses) m = timer_event h listing statuses m

  -- When a call can come: the user sends and receives at any time, and the thread and its Notifiers
  -- come in their order.
  abbrev pub Enabled : Call → M h → Type 0
  Enabled (sends item) m = IsJob item
  Enabled (receives mode) m = IsReceiveMode mode
  Enabled works m = m.worker ≡ making
  Enabled dispatches_made m = m.worker ≡ made
  Enabled dispatches_not_made m = m.worker ≡ not_made
  Enabled _ m = Unit

  pub data Reach : M h → Type 0 where
    start : (w : h.World) → Reach (init w)
    next : {m m1 : M h} → Reach m → (c : Call) → Enabled c m → perform c m ≡ ok m1 → Reach m1

  init-Inv : (w : h.World) → Inv (control (init w))
  unfolding init
  init-Inv w = record {
    phase = record {
      no_child = refl;
      not_joined = refl;
      idle_worker = refl;
      no_post = refl;
      no_reader = refl;
      no_writer = refl;
    };
    job = tt;
  }

module _ (h : Host) (fork_pos : ForkPos h) where
  perform-Inv :
      (c : Call) (m : M h)
      → Enabled h c m
      → Inv (control m)
      → Safe (λ m1. Inv (control m1)) (perform h c m)
  unfolding perform reset_count
  perform-Inv (sends item) m e v = sendfax-Inv h item m e v
  perform-Inv (receives mode) m e v = receive-Inv h fork_pos mode m e v
  perform-Inv stops m e v = subst Inv (sym (stop-control h m)) v
  perform-Inv closes m e v = efax_closedown-Inv h m v
  perform-Inv resets_count m e v = v
  perform-Inv works m e v = make_fax_thread-Inv h m e v
  perform-Inv dispatches_made m e v = sendfax_slot-Inv h fork_pos m e v
  perform-Inv dispatches_not_made m e v = no_fax_made_slot-Inv h fork_pos m e v
  perform-Inv (times listing statuses) m e v = timer_event-Inv h fork_pos listing statuses m v

  -- Where fork() gives positive process ids, every machine that the calls reach from the constructor's
  -- meets the controller's invariant: its state tells whether a child runs, whether its output is
  -- watched, whether the worker thread is at work, what the semaphore holds, and which ends of the
  -- pipe are open.
  pub Reach-Inv : {m : M h} → Reach h m → Inv (control m)
  Reach-Inv (start w) = init-Inv h w
  Reach-Inv (next {m = m} r c e p) =
      Safe-ok (λ m1. Inv (control m1)) (perform h c m) (perform-Inv c m e (Reach-Inv r)) p

  -- Where fork() gives positive process ids, no call that can come in a reached machine waits for ever
  -- on the semaphore, removes a watch that is not registered or reads past the end of the file list.
  pub Reach-Safe :
      {m : M h} (c : Call)
      → Reach h m
      → Enabled h c m
      → Safe (λ m1. Inv (control m1)) (perform h c m)
  Reach-Safe {m} c r e = perform-Inv c m e (Reach-Inv r)
