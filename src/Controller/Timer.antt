-- ===== src/Controller/Timer.antt =====
-- The exit handling of efax_controller.cpp: what becomes of the state when efax has ended.
pub mod Invariant
pub mod Closing
use secure_e_fax.Prelude.{
  ℕ, zero, suc, Bool, true, false, not, ◌&&◌, List, [], ◌∷◌, Option, none, some, ltb, ◌==◌,
  if◌then◌else◌,
}
use secure_e_fax.Text.{Bytes}
use secure_e_fax.Os.{Status, exited, signalled}
use secure_e_fax.Outcome.{Outcome, ok, faults, ◌>>=◌}
use secure_e_fax.Controller.Types.{
  State, inactive, sending, receive_standby, start_send_on_standby, send_on_standby, Host, Machine,
  emit, fax_sent_notify, remove_from_socket_server_filelist, ready_to_quit_notify,
}
use secure_e_fax.Controller.Files.{cleanup_fax_send_fail}
use secure_e_fax.Controller.Save.{receive_cleanup, save_sent_fax}
use secure_e_fax.Controller.Session.{
  is_active, is_send_on_standby, display_state, unjoin_child, sendfax_impl, receive,
}

module _ (h : Host) where
  open h use {World, config}

  abbrev M : Type 0
  M = Machine World

  -- The exit code of efax, `none` (the -1 of the source) if a signal ended it.
  abbrev exit_code : Status → Option ℕ
  exit_code (exited n) = some n
  exit_code signalled = none

  -- The first file of the fax, which was sent by the socket server.
  release_socket_file : List Bytes → M → Outcome M
  release_socket_file [] m = faults
  release_socket_file (file ∷ files) m = ok (emit (remove_from_socket_server_filelist file) m)

  abbrev announce_sent : Bytes × Bytes × M → M
  announce_sent ([], description, m) = m
  announce_sent (faxname, description, m) = emit (fax_sent_notify faxname description) m

  release_job : M → Outcome M
  unfolding release_socket_file
  release_job m =
      if m.last_fax_item_sent.is_socket_file
      then release_socket_file m.last_fax_item_sent.file_list m
      else ok m

  fax_sent : M → Outcome M
  unfolding release_job
  fax_sent m = save_sent_fax h m >>= λ saved. release_job (announce_sent saved)

  finish_sending : Option ℕ → M → Outcome M
  unfolding fax_sent
  finish_sending (some zero) m = fax_sent m
  finish_sending _ m = cleanup_fax_send_fail h m

  after_sending : M → Outcome M
  after_sending m =
      let m1 = record m { state = inactive } in
      if is_send_on_standby m.state && not m.close_down
      then receive h receive_standby m1
      else ok (display_state h m1)

  send_ended : Option ℕ → M → Outcome M
  unfolding finish_sending after_sending
  send_ended code m = finish_sending code m >>= unjoin_child h >>= after_sending

  after_standby : M → Outcome M
  after_standby m =
      if m.close_down
      then ok (display_state h (record m { state = inactive }))
      else sendfax_impl h m.last_fax_item_sent true m

  standby_ended : M → Outcome M
  unfolding after_standby
  standby_ended m = unjoin_child h (receive_cleanup h m) >>= after_standby

  after_receiving : Bool → M → Outcome M
  after_receiving restart m =
      let m1 = record m { state = inactive } in
      if restart then receive h receive_standby m1 else ok (display_state h m1)

  receive_ended : Bool → M → Outcome M
  unfolding after_receiving
  receive_ended restart m = unjoin_child h (receive_cleanup h m) >>= after_receiving restart

  -- `!exit_code || exit_code == 3`
  abbrev standby_goes_on : Option ℕ → Bool
  standby_goes_on none = false
  standby_goes_on (some zero) = true
  standby_goes_on (some (suc n)) = n == 2

  -- The switch on the state. In its default case the source tests the enumerator `inactive` and not
  -- the state, so that the test always succeeds.
  session_ended : State → Option ℕ → M → Outcome M
  unfolding send_ended standby_ended receive_ended
  session_ended sending code m = send_ended code m
  session_ended send_on_standby code m = send_ended code m
  session_ended start_send_on_standby code m = standby_ended m
  session_ended receive_standby code m = receive_ended (standby_goes_on code && not m.close_down) m
  session_ended _ code m = receive_ended false m

  abbrev remove_lock_file : Bytes → World → World
  remove_lock_file [] w = w
  remove_lock_file path w = h.unlink path w

  abbrev quit_if_closed : M → M
  quit_if_closed m =
      if m.close_down && not (is_active m.state) then emit ready_to_quit_notify m else m

  unfoldable pub child_ended : Status → M → Outcome M
  unfolding session_ended
  child_ended status m =
      let w = remove_lock_file config.lock_file m.world in
      session_ended m.state (exit_code status) (record m { child_pid = 0; world = w }) >>= λ m1.
      ok (quit_if_closed m1)

  -- The loop over waitpid(): its results in turn, until there is no more child to reap (0 or -1).
  unfoldable pub reap : List (ℕ × Status) → M → Outcome M
  reap [] m = ok m
  reap ((pid, status) ∷ rest) m = elim (ltb 0 pid) [
    | false ↦ ok m
    | true ↦ elim (pid == m.child_pid) [
      | true ↦ child_ended status m >>= reap rest
      | false ↦ reap rest m
    ]
  ]

  -- `listing` holds while a fax list is being constructed.
  unfoldable pub timer_event : Bool → List (ℕ × Status) → M → Outcome M
  unfolding reap
  timer_event listing statuses m = if listing then ok m else reap statuses m
