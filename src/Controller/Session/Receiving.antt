-- ===== src/Controller/Session/Receiving.antt =====
-- The invariant of the controller when it begins to receive.
use mathlib.Core.Path.{subst}
use secure_e_fax.Prelude.{◌≡◌, refl, sym, ap, false, [], ◌∷◌, inl, inr, arith, Bool-cases}
use secure_e_fax.Text.{Bytes}
use secure_e_fax.Outcome.{Safe, Safe-bind, Safe-map}
use secure_e_fax.Controller.Types.{
  State, inactive, receive_answer, receive_takeover, receive_standby, Host,
}
use secure_e_fax.Controller.Save.{current_dir}
use secure_e_fax.Controller.Files.{receive_parms}
use secure_e_fax.Controller.Control.{Control, control, IsJob, IsClosed, IsRunning, StateInv, Inv}
use secure_e_fax.Controller.Session.{
  display_state, is_active, M, open_stdout, launch, begin_receiving, receive_in, receive_from,
  receive,
}
use secure_e_fax.Controller.Session.Launching.{
  IsReceiveMode, open_stdout-Safe, ForkPos, Started, launch-Safe, IsFree,
}

running-StateInv : (mode : State) (c : Control) → IsReceiveMode mode → IsRunning c → StateInv mode c
running-StateInv receive_answer c s r = r
running-StateInv receive_takeover c s r = r
running-StateInv receive_standby c s r = r
running-StateInv _ c s r = absurd s

pub inactive_of : (s : State) → is_active s ≡ false → s ≡ inactive
inactive_of inactive e = refl
inactive_of _ e = cc

module _ (h : Host) (fork_pos : ForkPos h) where
  begin_receiving-Inv :
      (mode : State) (m : M h)
      → IsReceiveMode mode
      → IsJob m.last_fax_item_sent
      → IsFree (control m)
      → Safe (λ m1. Inv (control m1)) (begin_receiving h mode m)
  unfolding begin_receiving
  begin_receiving-Inv mode m s j f =
      let parms = receive_parms h.config mode in
      let m0 = display_state h (record m { state = mode }) in
      Safe-map (Started m0) (λ m1. Inv (control m1)) (launch h parms m0)
        (λ m1 r. record {
          phase =
              subst (λ x. StateInv x (control m1)) (sym r.state_kept)
                (running-StateInv mode (control m1) s r.running);
          job = subst IsJob (sym r.item_kept) j;
        })
        (launch-Safe h fork_pos parms m0 f.no_post f.idle_worker)

  receive_in-Inv :
      (mode : State) (m : M h)
      → IsReceiveMode mode
      → m.state ≡ inactive
      → Inv (control m)
      → Safe (λ m1. Inv (control m1)) (receive_in h mode m)
  unfolding receive_in
  receive_in-Inv mode m s e v =
      let f : IsClosed (control m) = subst (λ x. StateInv x (control m)) e v.phase in
      let (made_dir, w) = h.mkdir (current_dir h) m.world in
      let m1 = record m { world = w } in
      elim (Bool-cases made_dir) [
        | inl b ↦
            rw (b, Safe)
              (Safe-bind (λ m2. control m2 ≡ record (control m) { stdout_pipe = m2.stdout_pipe })
                (λ m2. Inv (control m2)) (open_stdout h m1) (begin_receiving h mode)
                (open_stdout-Safe h m1)
                (λ m2 c.
                  begin_receiving-Inv mode m2 s (subst IsJob (sym (ap (λ c. c.item) c)) v.job)
                    (ground (arith, f))))
        | inr b ↦ rw (b, Safe) v
      ]

  receive_from-Inv :
      (dir : Bytes) (mode : State) (m : M h)
      → IsReceiveMode mode
      → m.state ≡ inactive
      → Inv (control m)
      → Safe (λ m1. Inv (control m1)) (receive_from h dir mode m)
  unfolding receive_from
  receive_from-Inv [] mode m s e v = v
  receive_from-Inv (c ∷ dir) mode m s e v = receive_in-Inv mode m s e v

  -- Every attempt to receive keeps the invariant.
  pub receive-Inv :
      (mode : State) (m : M h)
      → IsReceiveMode mode
      → Inv (control m)
      → Safe (λ m1. Inv (control m1)) (receive h mode m)
  unfolding receive
  receive-Inv mode m s v = elim (Bool-cases (is_active m.state)) [
    | inl b ↦ rw (b, Safe) v
    | inr b ↦
        rw (b, Safe) (receive_from-Inv h.config.working_dir mode m s (inactive_of m.state b) v)
  ]
