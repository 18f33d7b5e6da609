-- ===== src/Controller/Timer/Closing.antt =====
-- Closing the program down: what efax_closedown leads to.
use mathlib.Core.Path.{subst}
use secure_e_fax.Prelude.{
  ℕ, ◌≡◌, refl, ◌∙◌, sym, ap, Bool, true, false, not, ◌&&◌, List, [], ◌∷◌, ◌++◌, Option, arith,
}
use secure_e_fax.Os.{Status}
use secure_e_fax.Outcome.{ok, Returns, Returns-bind}
use secure_e_fax.Controller.Types.{
  State, inactive, receive_answer, receive_takeover, receive_standby, start_send_on_standby, Host,
  Event, emit, ready_to_quit_notify,
}
use secure_e_fax.Controller.Save.{receive_cleanup}
use secure_e_fax.Controller.Save.Untouched.{receive_cleanup-Same}
use secure_e_fax.Controller.Session.{unjoin_child}
use secure_e_fax.Controller.Timer.{
  M, after_standby, standby_ended, after_receiving, receive_ended, standby_goes_on, session_ended,
  remove_lock_file, quit_if_closed, exit_code, child_ended,
}

-- The states in which efax receives, or is stopped so that a fax can be sent.
abbrev pub Receives : State → Type 0
Receives receive_answer = Unit
Receives receive_takeover = Unit
Receives receive_standby = Unit
Receives start_send_on_standby = Unit
Receives _ = ⊥

module _ (h : Host) where
  -- The end of a session that closes down.
  record Closes (m : M h) : Type 0 where
    closing : m.close_down ≡ true
    now_inactive : m.state ≡ inactive

  record Left (m : M h) : Type 0 where
    closing : m.close_down ≡ true

  unjoin-Left : (m : M h) → m.joined ≡ true → m.close_down ≡ true → Returns Left (unjoin_child h m)
  unfolding unjoin_child
  unjoin-Left m j c = rw (j, Returns) (record { closing = c })

  after_receiving-Closes : (m : M h) → Left m → Returns Closes (after_receiving h false m)
  unfolding after_receiving
  after_receiving-Closes m l = record { closing = l.closing; now_inactive = refl }

  after_standby-Closes : (m : M h) → Left m → Returns Closes (after_standby h m)
  unfolding after_standby
  after_standby-Closes m l =
      simp (l.closing, Returns) (record { closing = refl; now_inactive = refl })

  module _ (m : M h) (j : m.joined ≡ true) (c : m.close_down ≡ true) where
    cleaned-Left : Returns Left (unjoin_child h (receive_cleanup h m))
    cleaned-Left =
        unjoin-Left (receive_cleanup h m) (ap (λ c. c.joined) (receive_cleanup-Same h m) ∙ j)
          (ap (λ c. c.close_down) (receive_cleanup-Same h m) ∙ c)

    receive_ended-Closes : Returns Closes (receive_ended h false m)
    unfolding receive_ended
    receive_ended-Closes =
        Returns-bind Left Closes (unjoin_child h (receive_cleanup h m)) (after_receiving h false)
          cleaned-Left after_receiving-Closes

    standby_ended-Closes : Returns Closes (standby_ended h m)
    unfolding standby_ended
    standby_ended-Closes =
        Returns-bind Left Closes (unjoin_child h (receive_cleanup h m)) (after_standby h)
          cleaned-Left after_standby-Closes

    no_restart : (b : Bool) → (b && not m.close_down) ≡ false
    no_restart b = ground arith

    session_ended-Closes :
        (s : State) (code : Option ℕ) → Receives s → Returns Closes (session_ended h s code m)
    unfolding session_ended
    session_ended-Closes receive_answer code r = receive_ended-Closes
    session_ended-Closes receive_takeover code r = receive_ended-Closes
    session_ended-Closes start_send_on_standby code r = standby_ended-Closes
    session_ended-Closes receive_standby code r =
        rw (no_restart (standby_goes_on h code), Returns) receive_ended-Closes
    session_ended-Closes inactive code r = absurd r
    session_ended-Closes _ code r = absurd r

  abbrev pub Quits : M h → Type 0
  Quits m =
      (m.state ≡ inactive) × ((es : List Event) × (m.events ≡ es ++ ready_to_quit_notify ∷ []))

  quit_if_closed-emit : (m : M h) → Closes m → quit_if_closed h m ≡ emit ready_to_quit_notify m
  quit_if_closed-emit m k = ground arith

  -- Once the program closes down, the end of efax in any receiving state in which its output is
  -- watched, whatever its exit status, returns, leaves the controller inactive, and says last that the
  -- program is ready to quit.
  pub closing_ends_receiving :
      (status : Status) (m : M h)
      → Receives m.state
      → m.joined ≡ true
      → m.close_down ≡ true
      → Returns Quits (child_ended h status m)
  unfolding child_ended
  closing_ends_receiving status m r j c =
      let m0 = record m { child_pid = 0; world = remove_lock_file h h.config.lock_file m.world } in
      Returns-bind Closes Quits (session_ended h m.state (exit_code h status) m0)
        (λ m1. ok (quit_if_closed h m1))
        (session_ended-Closes m0 j c m.state (exit_code h status) r) quits
    where
      quits : (m1 : M h) → Closes m1 → Quits (quit_if_closed h m1)
      quits m1 k = subst Quits (sym (quit_if_closed-emit m1 k)) (k.now_inactive, (m1.events, refl))
