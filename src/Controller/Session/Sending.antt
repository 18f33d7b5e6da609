-- ===== src/Controller/Session/Sending.antt =====
-- The invariant of the controller when a fax is to be sent.
use mathlib.Core.Path.{subst}
use secure_e_fax.Prelude.{◌≡◌, refl, sym, true, false, inl, inr, arith, Bool-cases}
use secure_e_fax.Outcome.{Safe, Safe-bind}
use secure_e_fax.Pipes.{close_pipe}
use secure_e_fax.Controller.Types.{
  State, inactive, sending, receive_standby, start_send_on_standby, send_on_standby, FaxItem, Host,
}
use secure_e_fax.Controller.Control.{Control, control, IsJob, IsRunning, IsPreparing, StateInv, Inv}
use secure_e_fax.Controller.Session.{
  is_receiving_fax, M, open_stdout, start_worker, begin_session, start_session, send_in,
  sendfax_impl,
}
use secure_e_fax.Controller.Session.Launching.{
  kill_child-control, open_stdout-Safe, IsFree, closed-IsFree,
}

abbrev pub IsSendMode : State → Type 0
IsSendMode sending = Unit
IsSendMode send_on_standby = Unit
IsSendMode _ = ⊥

pub preparing-StateInv :
    (next : State) (c : Control) → IsSendMode next → IsPreparing c → StateInv next c
preparing-StateInv sending c s p = inl p
preparing-StateInv send_on_standby c s p = inl p
preparing-StateInv inactive c s p = absurd s
preparing-StateInv _ c s p = absurd s

module _ (h : Host) where
  start_worker-Inv :
      (m : M h)
      → IsSendMode m.state
      → IsJob m.last_fax_item_sent
      → IsFree (control m)
      → Inv (control (start_worker h m))
  unfolding start_worker close_pipe
  start_worker-Inv m s j f = elim (Bool-cases (h.start_thread m.world).0) [
    | inl e ↦
        rw (e, start_worker)
          (record {
            phase =
                preparing-StateInv m.state _ s
                  (record { no_child = f.no_child; not_joined = f.not_joined; posted = f.no_post });
            job = j;
          })
    | inr e ↦
        rw (e, start_worker)
          (record {
            phase = record {
              no_child = f.no_child;
              not_joined = f.not_joined;
              idle_worker = f.idle_worker;
              no_post = f.no_post;
              no_reader = refl;
              no_writer = refl;
            };
            job = j;
          })
  ]

  start_session-Inv :
      (next : State) (item : FaxItem) (m : M h)
      → IsSendMode next
      → IsJob item
      → IsFree (control m)
      → Safe (λ m1. Inv (control m1)) (start_session h next item m)
  unfolding start_session begin_session
  start_session-Inv next item m s j f =
      Safe-bind (λ m1. control m1 ≡ record (control m) { stdout_pipe = m1.stdout_pipe })
        (λ m1. Inv (control m1)) (open_stdout h m) (begin_session h next item)
        (open_stdout-Safe h m) (λ m1 e. start_worker-Inv _ s j (ground arith))

  send_in-Inv :
      (s : State) (item : FaxItem) (m : M h)
      → m.state ≡ s
      → IsJob item
      → Inv (control m)
      → Safe (λ m1. Inv (control m1)) (send_in h s item false m)
  unfolding send_in
  send_in-Inv inactive item m e j v =
      start_session-Inv sending item m tt j (closed-IsFree (control m) (ground arith))
  send_in-Inv receive_standby item m e j v = elim (Bool-cases (is_receiving_fax h m)) [
    | inl b ↦ rw (b, Safe) v
    | inr b ↦
        let r : IsRunning (control m) = subst (λ s. StateInv s (control m)) e v.phase in
        let m1 = record m { last_fax_item_sent = item; state = start_send_on_standby } in
        rw (b, Safe)
          (subst Inv (sym (kill_child-control h m1)) (record {
            phase = record {
              a_child = r.a_child;
              is_joined = r.is_joined;
              idle_worker = r.idle_worker;
              no_post = r.no_post;
              no_writer = r.no_writer;
            };
            job = j;
          }))
  ]
  send_in-Inv sending item m e j v = v
  send_in-Inv _ item m e j v = v

  -- Every attempt to send a fax keeps the invariant.
  pub sendfax-Inv :
      (item : FaxItem) (m : M h)
      → IsJob item
      → Inv (control m)
      → Safe (λ m1. Inv (control m1)) (sendfax_impl h item false m)
  unfolding sendfax_impl
  sendfax-Inv item m j v = send_in-Inv m.state item m refl j v

  -- When the standby session that was stopped for a fax has ended, the fax is sent.
  pub sendfax_on_standby-Inv :
      (m : M h)
      → m.state ≡ start_send_on_standby
      → IsJob m.last_fax_item_sent
      → IsFree (control m)
      → Safe (λ m1. Inv (control m1)) (sendfax_impl h m.last_fax_item_sent true m)
  unfolding sendfax_impl send_in
  sendfax_on_standby-Inv m e j f =
      subst (λ s. Safe (λ m1. Inv (control m1)) (send_in h s m.last_fax_item_sent true m)) (sym e)
        (start_session-Inv send_on_standby m.last_fax_item_sent m tt j f)
