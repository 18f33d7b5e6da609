-- ===== src/Controller/Timer/Invariant.antt =====
-- The invariant of the controller when efax has ended.
use mathlib.Core.Path.{subst}
use secure_e_fax.Prelude.{
  ℕ, zero, suc, ◌<◌, ◌≡◌, refl, ◌∙◌, sym, ap, Bool, true, false, not, ◌&&◌, List, [], ◌∷◌, Option,
  none, some, inl, inr, arith, ltb, ◌==◌, ltb→lt, ==_iff, Bool-cases,
}
use secure_e_fax.Text.{Bytes}
use secure_e_fax.Os.{Status}
use secure_e_fax.Outcome.{ok, ◌>>=◌, Safe, Safe-bind, Safe-map}
use secure_e_fax.Pipes.{close_pipe}
use secure_e_fax.Controller.Types.{
  State, inactive, sending, receive_answer, receive_takeover, receive_standby,
  start_send_on_standby, send_on_standby, Host, Machine, idle,
}
use secure_e_fax.Controller.Files.Untouched.{cleanup_fax_send_fail-Safe}
use secure_e_fax.Controller.Save.{save_sent_fax, receive_cleanup}
use secure_e_fax.Controller.Save.Untouched.{save_sent_fax-Safe, receive_cleanup-Same}
use secure_e_fax.Controller.Control.{
  Control, control, IsJob, HasFile, IsClosed, IsRunning, StateInv, Inv,
}
use secure_e_fax.Controller.Session.{is_send_on_standby, unjoin_child}
use secure_e_fax.Controller.Session.Launching.{ForkPos, closed-IsFree}
use secure_e_fax.Controller.Session.Receiving.{receive-Inv}
use secure_e_fax.Controller.Session.Sending.{sendfax_on_standby-Inv}
use secure_e_fax.Controller.Timer.{
  M, announce_sent, release_socket_file, release_job, fax_sent, finish_sending, after_sending,
  send_ended, after_standby, standby_ended, after_receiving, receive_ended, standby_goes_on,
  session_ended, remove_lock_file, quit_if_closed, exit_code, child_ended, reap, timer_event,
}

-- The child has been reaped, and its output is still watched.
record IsLeaving (c : Control) : Type 0 where
  no_child : c.child_pid ≡ 0
  is_joined : c.joined ≡ true
  idle_worker : c.worker ≡ idle
  no_post : c.sem ≡ 0
  job : IsJob c.item

-- The session's end: nothing is left, and the rest is as it was.
record Ended {W : Type 0} (m m1 : Machine W) : Type 0 where
  closed : IsClosed (control m1)
  state_kept : m1.state ≡ m.state
  job : IsJob m1.last_fax_item_sent

module _ (h : Host) where
  unjoin_child-Safe : (m : M h) → IsLeaving (control m) → Safe (Ended m) (unjoin_child h m)
  unfolding unjoin_child close_pipe
  unjoin_child-Safe m l =
      rw (l.is_joined, Safe)
        (record {
          closed = record {
            no_child = l.no_child;
            not_joined = refl;
            idle_worker = l.idle_worker;
            no_post = l.no_post;
            no_reader = refl;
            no_writer = refl;
          };
          state_kept = refl;
          job = l.job;
        })

  release_socket_file-Safe :
      (files : List Bytes) (m : M h)
      → HasFile true files
      → Safe (λ m1. control m1 ≡ control m) (release_socket_file h files m)
  unfolding release_socket_file
  release_socket_file-Safe [] m f = f
  release_socket_file-Safe (file ∷ files) m f = refl

  release_job-Safe :
      (m : M h) → IsJob m.last_fax_item_sent → Safe (λ m1. control m1 ≡ control m) (release_job h m)
  unfolding release_job
  release_job-Safe m j = elim (Bool-cases m.last_fax_item_sent.is_socket_file) [
    | inl b ↦
        let files = m.last_fax_item_sent.file_list in
        simp (b, Safe) (release_socket_file-Safe files m (subst (λ s. HasFile s files) b j))
    | inr b ↦ simp (b, Safe) refl
  ]

  announce_sent-Same :
      (saved : Bytes × Bytes × M h) → control (announce_sent h saved) ≡ control saved.2
  announce_sent-Same ([], description, m) = refl
  announce_sent-Same (c ∷ name, description, m) = refl

  fax_sent-Safe :
      (m : M h) → IsJob m.last_fax_item_sent → Safe (λ m1. control m1 ≡ control m) (fax_sent h m)
  unfolding fax_sent
  fax_sent-Safe m j =
      Safe-bind (λ saved. control saved.2 ≡ control m) (λ m1. control m1 ≡ control m)
        (save_sent_fax h m) (λ saved. release_job h (announce_sent h saved))
        (save_sent_fax-Safe h m)
        (λ saved c.
          let m1 = announce_sent h saved in
          let c1 : control m1 ≡ control m = announce_sent-Same saved ∙ c in
          Safe-map (λ m2. control m2 ≡ control m1) (λ m2. control m2 ≡ control m) (release_job h m1)
            (λ m2 d. d ∙ c1) (release_job-Safe m1 (subst IsJob (sym (ap (λ c. c.item) c1)) j)))

  finish_sending-Safe :
      (code : Option ℕ) (m : M h)
      → IsJob m.last_fax_item_sent
      → Safe (λ m1. control m1 ≡ control m) (finish_sending h code m)
  unfolding finish_sending
  finish_sending-Safe (some zero) m j = fax_sent-Safe m j
  finish_sending-Safe none m j = cleanup_fax_send_fail-Safe h m
  finish_sending-Safe (some (suc n)) m j = cleanup_fax_send_fail-Safe h m

  closed-Inv :
      (m : M h)
      → IsClosed (control m)
      → IsJob m.last_fax_item_sent
      → Inv (control (record m { state = inactive }))
  closed-Inv m f j = record {
    phase = record {
      no_child = f.no_child;
      not_joined = f.not_joined;
      idle_worker = f.idle_worker;
      no_post = f.no_post;
      no_reader = f.no_reader;
      no_writer = f.no_writer;
    };
    job = j;
  }

  closed_down-Inv :
      (m : M h)
      → IsClosed (control m)
      → IsJob m.last_fax_item_sent
      → Inv (control (record m { state = inactive; close_down = true }))
  closed_down-Inv m f j = record {
    phase = record {
      no_child = f.no_child;
      not_joined = f.not_joined;
      idle_worker = f.idle_worker;
      no_post = f.no_post;
      no_reader = f.no_reader;
      no_writer = f.no_writer;
    };
    job = j;
  }

module _ (h : Host) (fork_pos : ForkPos h) where
  after_sending-Inv : (m m1 : M h) → Ended m m1 → Safe (λ m2. Inv (control m2)) (after_sending h m1)
  unfolding after_sending
  after_sending-Inv m m1 e =
      let v = closed-Inv h m1 e.closed e.job in
      elim (Bool-cases (is_send_on_standby m1.state && not m1.close_down)) [
        | inl b ↦ rw (b, Safe) (receive-Inv h fork_pos receive_standby _ tt v)
        | inr b ↦ rw (b, Safe) v
      ]

  send_ended-Inv :
      (code : Option ℕ) (m : M h)
      → IsLeaving (control m)
      → Safe (λ m1. Inv (control m1)) (send_ended h code m)
  unfolding send_ended
  send_ended-Inv code m l =
      Safe-bind (λ m2. (m1 : M h) × Ended m1 m2) (λ m3. Inv (control m3))
        (finish_sending h code m >>= unjoin_child h) (after_sending h)
        (Safe-bind (λ m1. control m1 ≡ control m) (λ m2. (m1 : M h) × Ended m1 m2)
          (finish_sending h code m) (unjoin_child h) (finish_sending-Safe h code m l.job)
          (λ m1 c.
            Safe-map (Ended m1) (λ m2. (m1 : M h) × Ended m1 m2) (unjoin_child h m1)
              (λ m2 e. (m1, e)) (unjoin_child-Safe h m1 (subst IsLeaving (sym c) l))))
        (λ m2 e. after_sending-Inv e.0 m2 e.1)

  after_standby-Inv :
      (m m1 : M h)
      → m.state ≡ start_send_on_standby
      → Ended m m1
      → Safe (λ m2. Inv (control m2)) (after_standby h m1)
  unfolding after_standby
  after_standby-Inv m m1 s e = elim (Bool-cases m1.close_down) [
    | inl b ↦ simp (b, Safe) (closed_down-Inv h m1 e.closed e.job)
    | inr b ↦
        simp (b, Safe)
          (sendfax_on_standby-Inv h m1 (e.state_kept ∙ s) e.job
            (closed-IsFree (control m1) e.closed))
  ]

  cleaned-IsLeaving : (m : M h) → IsLeaving (control m) → IsLeaving (control (receive_cleanup h m))
  cleaned-IsLeaving m l = subst IsLeaving (sym (receive_cleanup-Same h m)) l

  standby_ended-Inv :
      (m : M h)
      → m.state ≡ start_send_on_standby
      → IsLeaving (control m)
      → Safe (λ m1. Inv (control m1)) (standby_ended h m)
  unfolding standby_ended
  standby_ended-Inv m s l =
      let m0 = receive_cleanup h m in
      Safe-bind (Ended m0) (λ m1. Inv (control m1)) (unjoin_child h m0) (after_standby h)
        (unjoin_child-Safe h m0 (cleaned-IsLeaving m l))
        (λ m1 e. after_standby-Inv m0 m1 (ap (λ c. c.state) (receive_cleanup-Same h m) ∙ s) e)

  after_receiving-Inv :
      (restart : Bool) (m m1 : M h)
      → Ended m m1
      → Safe (λ m2. Inv (control m2)) (after_receiving h restart m1)
  unfolding after_receiving
  after_receiving-Inv true m m1 e =
      receive-Inv h fork_pos receive_standby _ tt (closed-Inv h m1 e.closed e.job)
  after_receiving-Inv false m m1 e = closed-Inv h m1 e.closed e.job

  receive_ended-Inv :
      (restart : Bool) (m : M h)
      → IsLeaving (control m)
      → Safe (λ m1. Inv (control m1)) (receive_ended h restart m)
  unfolding receive_ended
  receive_ended-Inv restart m l =
      let m0 = receive_cleanup h m in
      Safe-bind (Ended m0) (λ m1. Inv (control m1)) (unjoin_child h m0) (after_receiving h restart)
        (unjoin_child-Safe h m0 (cleaned-IsLeaving m l))
        (λ m1 e. after_receiving-Inv restart m0 m1 e)

  session_ended-Inv :
      (s : State) (code : Option ℕ) (m : M h)
      → m.state ≡ s
      → IsLeaving (control m)
      → Safe (λ m1. Inv (control m1)) (session_ended h s code m)
  unfolding session_ended
  session_ended-Inv sending code m e l = send_ended-Inv code m l
  session_ended-Inv send_on_standby code m e l = send_ended-Inv code m l
  session_ended-Inv start_send_on_standby code m e l = standby_ended-Inv m e l
  session_ended-Inv receive_standby code m e l =
      receive_ended-Inv (standby_goes_on h code && not m.close_down) m l
  session_ended-Inv inactive code m e l = receive_ended-Inv false m l
  session_ended-Inv receive_answer code m e l = receive_ended-Inv false m l
  session_ended-Inv receive_takeover code m e l = receive_ended-Inv false m l

  quit_if_closed-Same : (m : M h) → control (quit_if_closed h m) ≡ control m
  quit_if_closed-Same m = ground arith

  -- Where there is a child, a session runs.
  child_runs : (s : State) (c : Control) → StateInv s c → 0 < c.child_pid → IsRunning c
  child_runs inactive c f n = absurd (omega (arith, f.no_child))
  child_runs sending c (inl p) n = absurd (omega (arith, p.no_child))
  child_runs sending c (inr r) n = r
  child_runs send_on_standby c (inl p) n = absurd (omega (arith, p.no_child))
  child_runs send_on_standby c (inr r) n = r
  child_runs receive_answer c r n = r
  child_runs receive_takeover c r n = r
  child_runs receive_standby c r n = r
  child_runs start_send_on_standby c r n = r

  -- The end of efax keeps the invariant, and the code neither blocks nor reads out of range.
  pub child_ended-Inv :
      (status : Status) (m : M h)
      → 0 < m.child_pid
      → Inv (control m)
      → Safe (λ m1. Inv (control m1)) (child_ended h status m)
  unfolding child_ended
  child_ended-Inv status m n v =
      let r = child_runs m.state (control m) v.phase n in
      let m0 = record m { child_pid = 0; world = remove_lock_file h h.config.lock_file m.world } in
      Safe-bind (λ m1. Inv (control m1)) (λ m1. Inv (control m1))
        (session_ended h m.state (exit_code h status) m0) (λ m1. ok (quit_if_closed h m1))
        (session_ended-Inv m.state (exit_code h status) m0 refl (record {
          no_child = refl;
          is_joined = r.is_joined;
          idle_worker = r.idle_worker;
          no_post = r.no_post;
          job = v.job;
        }))
        (λ m1 v1. subst Inv (sym (quit_if_closed-Same m1)) v1)

  reap-Inv :
      (statuses : List (ℕ × Status)) (m : M h)
      → Inv (control m)
      → Safe (λ m1. Inv (control m1)) (reap h statuses m)
  unfolding reap
  reap-Inv [] m v = v
  reap-Inv ((pid, status) ∷ rest) m v = elim (Bool-cases (ltb 0 pid)) [
    | inr b ↦ rw (b, Safe) v
    | inl b ↦ elim (Bool-cases (pid == m.child_pid)) [
      | inr c ↦ rw (b, c, Safe) (reap-Inv rest m v)
      | inl c ↦
          let n : 0 < m.child_pid = omega (arith, ltb→lt 0 pid b, (==_iff pid m.child_pid).0 c) in
          rw (b, c, Safe)
            (Safe-bind (λ m1. Inv (control m1)) (λ m1. Inv (control m1)) (child_ended h status m)
              (reap h rest) (child_ended-Inv status m n v) (reap-Inv rest))
    ]
  ]

  -- Whatever children have ended, a timer event keeps the invariant.
  pub timer_event-Inv :
      (listing : Bool) (statuses : List (ℕ × Status)) (m : M h)
      → Inv (control m)
      → Safe (λ m1. Inv (control m1)) (timer_event h listing statuses m)
  unfolding timer_event
  timer_event-Inv true statuses m v = v
  timer_event-Inv false statuses m v = reap-Inv statuses m v
