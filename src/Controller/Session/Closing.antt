-- ===== src/Controller/Session/Closing.antt =====
-- Closing down while the pages of a fax are being made.
use secure_e_fax.Prelude.{◌≡◌, ◌≢◌, refl, true, false, arith}
use secure_e_fax.Controller.Types.{
  State, inactive, sending, send_on_standby, Host, emit, stdout_message, idle,
}
use secure_e_fax.Controller.Control.{control, Inv}
use secure_e_fax.Controller.Session.{M, is_active, kill_child, stop, efax_closedown}
use secure_e_fax.Controller.Session.Sending.{IsSendMode}
use secure_e_fax.Controller.Session.Reports.{worker_prepares}

active : (s : State) → IsSendMode s → is_active s ≡ true
active sending i = refl
active send_on_standby i = refl
active inactive i = absurd i
active _ i = absurd i

module _ (h : Host) where
  -- In a machine that meets the invariant, while the worker thread is at work or its report waits,
  -- closing down for the first time only prints the message and notes the wish: nothing is killed and
  -- no thread is told.
  pub closedown_while_preparing :
      (m : M h)
      → Inv (control m)
      → m.worker ≢ idle
      → m.close_down ≡ false
      → efax_closedown h m
        ≡ emit
            (stdout_message "\n*** Stopping send/receive session ***\n\n")
            (record m { close_down = true })
  unfolding efax_closedown stop kill_child
  closedown_while_preparing m v n c =
      let (s, p) = worker_prepares m.state (control m) v.phase n in
      let e : m.child_pid ≡ 0 = p.no_child in ground (arith, active m.state s)
