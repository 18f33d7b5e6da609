-- ===== src/Controller/Types.antt =====
-- The state of an EfaxController (efax_controller.h), with the parts of prog_config that it reads.
use Prim.Native.String.{String}
use secure_e_fax.Prelude.{ℕ, Bool, List, ◌∷◌, ◌++◌, []}
use secure_e_fax.Text.{Bytes}
use secure_e_fax.Os.{Os}
use secure_e_fax.Pipes.{PipeFifo}

-- EfaxController::State
pub data State : Type 0 where
  inactive sending receive_answer receive_takeover receive_standby : State
  start_send_on_standby send_on_standby : State

-- Fax_item
pub record FaxItem : Type 0 where
  pub file_list : List Bytes
  pub number : Bytes
  pub is_socket_file : Bool

-- The members of Prog_config that the controller reads.
pub record ProgConfig : Type 0 where
  pub lock_file : Bytes
  pub working_dir : Bytes
  pub rings : ℕ
  pub tone_dial : Bool
  pub addr_in_header : Bool
  pub my_name : Bytes
  pub my_number : Bytes
  pub page_size : Bytes
  pub resolution : Bytes
  pub parms : List Bytes

-- What the controller shows to the rest of the program, in the order of emission.
pub data Event : Type 0 where
  write_state : State → Event
  write_error : String → Event
  -- the message that a directory could not be deleted, and where its contents should now be
  cannot_delete : Bytes → Bytes → Event
  stdout_message : String → Event
  stdout_text : Bytes → Event
  beeps : Event
  fax_sent_notify : Bytes → Bytes → Event
  fax_received_notify : Bytes → Bytes → Event
  remove_from_socket_server_filelist : Bytes → Event
  ready_to_quit_notify : Event
  killed : ℕ → Event
  -- efax-0.9a is started with these arguments
  runs_efax : List Bytes → Event

-- The thread that makes the fax pages, and the Notifier by which it reports: it runs, or it has ended
-- and fax_made_notify or no_fax_made_notify waits to be dispatched in the main thread.
pub data Worker : Type 0 where
  idle making made not_made : Worker

-- The host that the program runs on, its settings, and the fuel of the loops over files.
pub record Host : Type 1 where
  pub os : Os
  pub open os use *
  pub config : ProgConfig
  pub fuel : ℕ

-- The members of EfaxController, prog_config.efax_controller_child_pid, and the world.
pub record Machine (W : Type 0) : Type 0 where
  pub state : State
  pub close_down : Bool
  pub received_fax_count : ℕ
  pub fax_made_sem : ℕ
  pub sendfax_parms_vec : List Bytes
  pub last_fax_item_sent : FaxItem
  pub stdout_pipe : PipeFifo
  -- a watch of stdout_pipe is registered under iowatch_tag
  pub joined : Bool
  -- the bytes that stdout_pipe_reassembler stores
  pub stored : Bytes
  pub child_pid : ℕ
  pub worker : Worker
  pub events : List Event
  pub world : W

abbrev pub emit : {W : Type 0} → Event → Machine W → Machine W
emit e m = record m { events = m.events ++ e ∷ [] }
