-- ===== src/Controller/Session.antt =====
-- The sessions of efax_controller.cpp: what the user starts and stops, and what the worker thread
-- reports.
pub mod Launching
pub mod Sending
pub mod Receiving
pub mod Reports
pub mod Closing
use secure_e_fax.Prelude.{
  ℕ, ◌-◌, Bool, true, false, ◌&&◌, List, [], ◌∷◌, ◌++◌, none, some, ltb, ◌==◌, if◌then◌else◌,
}
use secure_e_fax.Text.{Bytes, codes}
use secure_e_fax.Outcome.{Outcome, ok, exits, blocks, faults, ◌>>=◌}
use secure_e_fax.Pipes.{
  PipeFifo, closed_pipe, block, non_block, open_pipe, close_pipe, make_readonly, make_writeonly,
  make_write_non_block,
}
use secure_e_fax.Controller.Types.{
  State, inactive, sending, receive_standby, start_send_on_standby, send_on_standby, FaxItem, Host,
  Machine, emit, write_state, write_error, stdout_message, beeps, ready_to_quit_notify, killed,
  runs_efax, idle, making,
}
use secure_e_fax.Controller.Files.{
  fork_error, receive_parms, init_sendfax_parms, cleanup_fax_send_fail,
}
use secure_e_fax.Controller.Save.{current_dir}

-- `state != inactive`
abbrev pub is_active : State → Bool
is_active inactive = false
is_active _ = true

abbrev pub is_send_on_standby : State → Bool
is_send_on_standby send_on_standby = true
is_send_on_standby _ = false

module _ (h : Host) where
  open h use {World, config}

  abbrev pub M : Type 0
  M = Machine World

  abbrev pub display_state : M → M
  display_state m = emit (write_state m.state) m

  -- kill_child
  unfoldable pub kill_child : M → M
  kill_child m =
      if ltb 0 m.child_pid && h.same_group m.world m.child_pid
      then emit (killed m.child_pid) (record m { world = h.kill m.child_pid m.world })
      else m

  unfoldable pub stop : M → M
  unfolding kill_child
  stop m =
      if is_active m.state
      then kill_child (emit (stdout_message "\n*** Stopping send/receive session ***\n\n") m)
      else emit beeps m

  unfoldable pub efax_closedown : M → M
  unfolding stop
  efax_closedown m =
      if is_active m.state
      then (if m.close_down then m else stop (record m { close_down = true }))
      else emit ready_to_quit_notify m

  unfoldable pub is_receiving_fax : M → Bool
  is_receiving_fax m = elim (h.size m.world (current_dir h ++ codes "/current.001")) [
    | none ↦ false
    | some n ↦ true
  ]

  -- join_child: g_source_add on the read end of stdout_pipe
  abbrev join_child : M → M
  join_child m = record m { joined = true }

  -- unjoin_child: removing a watch that is not registered is an error
  unfoldable pub unjoin_child : M → Outcome M
  unfolding close_pipe
  unjoin_child m =
      let (p, w) = close_pipe h.os m.stdout_pipe m.world in
      if m.joined
      then ok (record m { joined = false; stdout_pipe = p; stored = []; world = w })
      else faults

  abbrev close_stdout : M → M
  close_stdout m =
      let (p, w) = close_pipe h.os m.stdout_pipe m.world in record m { stdout_pipe = p; world = w }

  -- stdout_pipe.open(non_block), and its write end non-blocking too
  pub open_stdout : M → Outcome M
  unfolding open_pipe make_write_non_block
  open_stdout m = open_pipe h.os non_block m.stdout_pipe m.world >>= λ opened.
      ok (record m { stdout_pipe = make_write_non_block h.os opened.0; world = opened.1 })

  -- The parent's side of the fork: the read end of stdout_pipe is kept and joined, and the child, which
  -- waits on the SyncPipe, is released.
  parent_side : List Bytes → PipeFifo → ℕ → World → M → M
  unfolding make_readonly make_writeonly
  parent_side parms sync pid w m =
      let (p, w1) = make_readonly h.os m.stdout_pipe w in
      let (s, w2) = make_writeonly h.os sync w1 in
      let (s', w3) = make_readonly h.os s w2 in
      emit (runs_efax parms)
        (join_child (record m { child_pid = pid; stdout_pipe = p; world = w3 }))

  fork_efax : List Bytes → M → PipeFifo × World → Outcome M
  unfolding parent_side
  fork_efax parms m (sync, w) =
      let (child, w1) = h.fork w in
      elim child [ none ↦ exits fork_error | some pid ↦ ok (parent_side parms sync pid w1 m) ]

  -- A SyncPipe is made, and efax is started in a child process.
  pub launch : List Bytes → M → Outcome M
  unfolding open_pipe fork_efax
  launch parms m = open_pipe h.os block closed_pipe m.world >>= fork_efax parms m

  -- The thread that makes the fax pages is started; without it there is no session.
  start_worker : M → M
  unfolding close_pipe
  start_worker m =
      let (started, w) = h.start_thread m.world in
      let (p, w1) = close_pipe h.os m.stdout_pipe w in
      if started
      then record m { worker = making; world = w }
      else display_state (
          emit (write_error "Cannot start thread to make fax for sending\n")
            (record m { stdout_pipe = p; state = inactive; world = w1 }))

  begin_session : State → FaxItem → M → Outcome M
  unfolding start_worker
  begin_session next item m =
      let m1 = display_state (record m { state = next; last_fax_item_sent = item }) in
      let parms = init_sendfax_parms config (h.header_date m.world) item.number in
      ok (start_worker (record m1 { sendfax_parms_vec = parms }))

  -- The part of sendfax_impl that starts a session: `item` is the fax to send.
  start_session : State → FaxItem → M → Outcome M
  unfolding open_stdout begin_session
  start_session next item m = open_stdout m >>= begin_session next item

  send_in : State → FaxItem → Bool → M → Outcome M
  unfolding start_session is_receiving_fax kill_child
  send_in receive_standby item in_timer_event m =
      if is_receiving_fax m
      then ok (emit (write_error "Cannot send fax - a fax is being received\n") m)
      else ok (kill_child (record m { last_fax_item_sent = item; state = start_send_on_standby }))
  send_in inactive item in_timer_event m = start_session sending item m
  send_in start_send_on_standby item true m = start_session send_on_standby m.last_fax_item_sent m
  send_in _ item in_timer_event m = ok (emit beeps m)

  unfoldable pub sendfax_impl : FaxItem → Bool → M → Outcome M
  unfolding send_in
  sendfax_impl item in_timer_event m = send_in m.state item in_timer_event m

  begin_receiving : State → M → Outcome M
  unfolding launch
  begin_receiving mode m =
      launch (receive_parms config mode) (display_state (record m { state = mode }))

  receive_in : State → M → Outcome M
  unfolding open_stdout begin_receiving
  receive_in mode m =
      let (made_dir, w) = h.mkdir (current_dir h) m.world in
      let m1 = record m { world = w } in
      if made_dir
      then (open_stdout m1 >>= begin_receiving mode)
      else ok (
          emit
            (write_error
              "SERIOUS SYSTEM ERROR: Can't create directory to save received faxes.\nFaxes cannot be received!\n")
            m1)

  receive_from : Bytes → State → M → Outcome M
  unfolding receive_in
  receive_from [] mode m =
      ok (emit beeps (emit (write_error "You don't have the $HOME environmental variable set\n") m))
  receive_from (c ∷ path) mode m = receive_in mode m

  unfoldable pub receive : State → M → Outcome M
  unfolding receive_from
  receive mode m =
      if is_active m.state then ok (emit beeps m) else receive_from config.working_dir mode m

  -- fax_made_sem.wait(): it would wait for ever if nothing had been posted.
  await_worker : M → Outcome M
  await_worker m =
      if m.fax_made_sem == 0
      then blocks
      else ok (record m { fax_made_sem = m.fax_made_sem - 1; worker = idle })

  pub give_up_fax : M → Outcome M
  give_up_fax m =
      let m1 = record (close_stdout m) { state = inactive } in
      if is_send_on_standby m.state then receive receive_standby m1 else ok (display_state m1)

  unfoldable pub no_fax_made_slot : M → Outcome M
  unfolding await_worker give_up_fax
  no_fax_made_slot m = await_worker m >>= cleanup_fax_send_fail h >>= give_up_fax

  run_sendfax : M → Outcome M
  unfolding launch
  run_sendfax m = launch m.sendfax_parms_vec m

  unfoldable pub sendfax_slot : M → Outcome M
  unfolding await_worker run_sendfax
  sendfax_slot m = await_worker m >>= run_sendfax
