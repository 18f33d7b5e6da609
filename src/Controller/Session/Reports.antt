-- ===== src/Controller/Session/Reports.antt =====
-- The invariant of the controller when the worker thread runs and reports.
use mathlib.Core.Path.{subst}
use secure_e_fax.Prelude.{suc, ◌≡◌, refl, ◌≢◌, ◌∙◌, sym, ap, ◌⊎◌, inl, inr, arith, Bool-cases}
use secure_e_fax.Outcome.{◌>>=◌, Safe, Safe-bind, Safe-map}
use secure_e_fax.Pipes.{close_pipe}
use secure_e_fax.Controller.Types.{
  State, inactive, sending, receive_answer, receive_takeover, receive_standby,
  start_send_on_standby, send_on_standby, Worker, Host, idle, making, made, not_made,
}
use secure_e_fax.Controller.Files.{cleanup_fax_send_fail, make_fax_thread, report}
use secure_e_fax.Controller.Files.Untouched.{
  Reports, cleanup_fax_send_fail-Safe, make_fax_thread-Safe,
}
use secure_e_fax.Controller.Control.{
  Control, control, IsJob, IsRunning, IsPreparing, Posted, StateInv, Inv,
}
use secure_e_fax.Controller.Session.{
  close_stdout, is_send_on_standby, M, launch, give_up_fax, run_sendfax, await_worker,
  no_fax_made_slot, sendfax_slot,
}
use secure_e_fax.Controller.Session.Launching.{ForkPos, Started, launch-Safe, IsFree}
use secure_e_fax.Controller.Session.Sending.{IsSendMode, preparing-StateInv}
use secure_e_fax.Controller.Session.Receiving.{receive-Inv}

-- Only a session that prepares a fax has a worker.
pub worker_prepares :
    (s : State) (c : Control) → StateInv s c → c.worker ≢ idle → IsSendMode s × IsPreparing c
worker_prepares sending c (inl p) n = (tt, p)
worker_prepares send_on_standby c (inl p) n = (tt, p)
worker_prepares sending c (inr r) n = absurd (n r.idle_worker)
worker_prepares send_on_standby c (inr r) n = absurd (n r.idle_worker)
worker_prepares inactive c f n = absurd (n f.idle_worker)
worker_prepares receive_answer c r n = absurd (n r.idle_worker)
worker_prepares receive_takeover c r n = absurd (n r.idle_worker)
worker_prepares receive_standby c r n = absurd (n r.idle_worker)
worker_prepares start_send_on_standby c r n = absurd (n r.idle_worker)

sending-StateInv : (s : State) (c : Control) → IsSendMode s → IsRunning c → StateInv s c
sending-StateInv sending c s r = inr r
sending-StateInv send_on_standby c s r = inr r
sending-StateInv inactive c s r = absurd s
sending-StateInv _ c s r = absurd s

module _ (h : Host) where
  -- The worker thread ends with its report, and keeps the invariant.
  pub make_fax_thread-Inv :
      (m : M h)
      → m.worker ≡ making
      → Inv (control m)
      → Safe (λ m1. Inv (control m1)) (make_fax_thread h m)
  make_fax_thread-Inv m e v =
      let (s, p) = worker_prepares m.state (control m) v.phase (λ i. cc) in
      let posted : Posted making m.fax_made_sem = subst (λ x. Posted x m.fax_made_sem) e p.posted in
      Safe-map (Reports h m) (λ m1. Inv (control m1)) (make_fax_thread h m)
        (λ m1 r. reported m1 s p posted r) (make_fax_thread-Safe h m)
    where
      after :
          (w : Worker)
          → IsSendMode m.state
          → IsPreparing (control m)
          → Posted w (suc m.fax_made_sem)
          → Inv (control (report h w m))
      after w s p q = record {
        phase =
            preparing-StateInv m.state _ s
              (record { no_child = p.no_child; not_joined = p.not_joined; posted = q });
        job = v.job;
      }

      reported :
          (m1 : M h)
          → IsSendMode m.state
          → IsPreparing (control m)
          → m.fax_made_sem ≡ 0
          → Reports h m m1
          → Inv (control m1)
      reported m1 s p q (inl c) = subst Inv (sym c) (after made s p (ap suc q))
      reported m1 s p q (inr c) = subst Inv (sym c) (after not_made s p (ap suc q))

  -- When the worker has posted the semaphore, waiting for it does not block.
  await_worker-Safe :
      (m : M h)
      → m.fax_made_sem ≡ 1
      → Safe (λ m1. control m1 ≡ record (control m) { sem = 0; worker = idle }) (await_worker h m)
  unfolding await_worker
  await_worker-Safe m e = ground arith

  posted_one :
      (m : M h)
      → (m.worker ≡ made) ⊎ (m.worker ≡ not_made)
      → IsPreparing (control m)
      → m.fax_made_sem ≡ 1
  posted_one m (inl e) p = subst (λ x. Posted x m.fax_made_sem) e p.posted
  posted_one m (inr e) p = subst (λ x. Posted x m.fax_made_sem) e p.posted

module _ (h : Host) (fork_pos : ForkPos h) where
  -- The dispatch of fax_made_notify does not block, and keeps the invariant.
  pub sendfax_slot-Inv :
      (m : M h)
      → m.worker ≡ made
      → Inv (control m)
      → Safe (λ m1. Inv (control m1)) (sendfax_slot h m)
  unfolding sendfax_slot run_sendfax
  sendfax_slot-Inv m e v =
      let (s, p) = worker_prepares m.state (control m) v.phase (λ i. cc) in
      Safe-bind (λ m1. control m1 ≡ record (control m) { sem = 0; worker = idle })
        (λ m1. Inv (control m1)) (await_worker h m) (run_sendfax h)
        (await_worker-Safe h m (posted_one h m (inl e) p))
        (λ m1 c.
          Safe-map (Started m1) (λ m2. Inv (control m2)) (launch h m1.sendfax_parms_vec m1)
            (λ m2 r. record {
              phase =
                  subst (λ x. StateInv x (control m2)) (sym (r.state_kept ∙ ap (λ c. c.state) c))
                    (sending-StateInv m.state (control m2) s r.running);
              job = subst IsJob (sym (r.item_kept ∙ ap (λ c. c.item) c)) v.job;
            })
            (launch-Safe h fork_pos m1.sendfax_parms_vec m1 (ap (λ c. c.sem) c)
              (ap (λ c. c.worker) c)))

  give_up_fax-Inv :
      (m : M h)
      → IsFree (control m)
      → IsJob m.last_fax_item_sent
      → Safe (λ m1. Inv (control m1)) (give_up_fax h m)
  unfolding give_up_fax close_pipe
  give_up_fax-Inv m f j =
      let m1 = record (close_stdout h m) { state = inactive } in
      elim (Bool-cases (is_send_on_standby m.state)) [
        | inl b ↦ rw (b, Safe) (receive-Inv h fork_pos receive_standby m1 tt (ended m1))
        | inr b ↦ rw (b, Safe) (ended m1)
      ]
    where
      ended : (m1 : M h) → Inv (control (record (close_stdout h m) { state = inactive }))
      ended _ = record {
        phase = record {
          no_child = f.no_child;
          not_joined = f.not_joined;
          idle_worker = f.idle_worker;
          no_post = f.no_post;
          no_reader = refl;
          no_writer = refl;
        };
        job = j;
      }

  -- The dispatch of no_fax_made_notify does not block, and keeps the invariant.
  pub no_fax_made_slot-Inv :
      (m : M h)
      → m.worker ≡ not_made
      → Inv (control m)
      → Safe (λ m1. Inv (control m1)) (no_fax_made_slot h m)
  unfolding no_fax_made_slot
  no_fax_made_slot-Inv m e v =
      let (s, p) = worker_prepares m.state (control m) v.phase (λ i. cc) in
      Safe-bind Waited (λ m1. Inv (control m1)) (await_worker h m >>= cleanup_fax_send_fail h)
        (give_up_fax h)
        (Safe-bind Waited Waited (await_worker h m) (cleanup_fax_send_fail h)
          (await_worker-Safe h m (posted_one h m (inr e) p))
          (λ m1 c.
            Safe-map (λ m2. control m2 ≡ control m1) Waited (cleanup_fax_send_fail h m1)
              (λ m2 d. d ∙ c) (cleanup_fax_send_fail-Safe h m1)))
        (λ m2 c.
          give_up_fax-Inv m2
            (record {
              no_child = ap (λ c. c.child_pid) c ∙ p.no_child;
              not_joined = ap (λ c. c.joined) c ∙ p.not_joined;
              idle_worker = ap (λ c. c.worker) c;
              no_post = ap (λ c. c.sem) c;
            })
            (subst IsJob (sym (ap (λ c. c.item) c)) v.job))
    where
      Waited : M h → Type 0
      Waited m1 = control m1 ≡ record (control m) { sem = 0; worker = idle }
