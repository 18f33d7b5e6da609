-- ===== src/Controller/Run/Tests.antt =====
-- A small host, and the controller's theorems at concrete machines.
use secure_e_fax.Prelude.{
  All, ◌∙◌, ◌⊎◌, ◌≢◌, ℕ, zero, suc, ◌+◌, ◌<◌, ◌≡◌, refl, Bool, true, false, ◌||◌, List, [], ◌∷◌,
  ◌++◌, none, some, arith, if◌then◌else◌,
}
use secure_e_fax.Text.{Bytes, codes, bytes_eq, bytes_eq_iff, bytes_eq_refl}
use secure_e_fax.Os.{Os, removed, exited}
use secure_e_fax.Outcome.{Outcome, ok, Safe, Returns}
use secure_e_fax.Controller.Types.{
  FaxItem, ProgConfig, Host, receive_answer, sending, making, emit, stdout_message,
}
use secure_e_fax.Controller.Control.{Inv, control}
use secure_e_fax.Controller.Save.{move_files}
use secure_e_fax.Controller.Save.Kept.{LinkLaws, IsThere, IsSaved, move_files-keeps}
use secure_e_fax.Controller.Files.Pages.{UnlinkLaws, HasPages, Removes, remove_pages_lem}
use secure_e_fax.Controller.Files.{
  remove_pages, init_sendfax_parms, make_fax_thread, page_name, page_files, split_path,
}
use secure_e_fax.Controller.Session.{M, efax_closedown, sendfax_impl}
use secure_e_fax.Controller.Session.Closing.{closedown_while_preparing}
use secure_e_fax.Controller.Timer.{child_ended}
use secure_e_fax.Controller.Timer.Closing.{closing_ends_receiving, Quits}
use secure_e_fax.Controller.Run.{
  sends, works, init, perform, Reach, start, next, Reach-Inv, Reach-Safe,
}

-- The names of the files that there are, and the last process id.
record Disk : Type 0 where
  names : List Bytes
  pids : ℕ

has : Bytes → List Bytes → Bool
has name [] = false
has name (n ∷ ns) = bytes_eq n name || has name ns

without : Bytes → List Bytes → List Bytes
without name [] = []
without name (n ∷ ns) = if bytes_eq n name then without name ns else n ∷ without name ns

abbrev disk_os : Os
disk_os = record {
  World = Disk;
  exists = λ w p. has p w.names;
  readable = λ w p. has p w.names;
  size = λ w p. if has p w.names then some 1 else none;
  mkdir = λ p w. if has p w.names then (false, w) else (true, record w { names = p ∷ w.names });
  rmdir = λ p w. (removed, record w { names = without p w.names });
  unlink = λ p w. record w { names = without p w.names };
  link = λ p q w. (true, record w { names = q ∷ w.names });
  list_dir = λ w p. some w.names;
  open_in = λ w p. true;
  open_out = λ p w. (true, record w { names = p ∷ w.names });
  copy = λ p q w. w;
  write_text = λ p t w. w;
  stamp = λ w. codes "20240101120000";
  header_date = λ w. codes "2024-01-01 12:00";
  description_date = λ w. codes "(1200 UTC 01 Jan 2024)";
  sleep = λ w. w;
  pipe = λ w. (some (5, 6), w);
  close = λ fd w. w;
  fork = λ w. (some (suc w.pids), record w { pids = suc w.pids });
  same_group = λ w p. true;
  kill = λ p w. w;
  start_thread = λ w. (true, w);
  ghostscript = λ dir args w. (true, record w { names = codes "/tmp/a.001" ∷ w.names });
  valid_prefix = λ s. 0;
  to_utf8 = λ s. some s;
}

abbrev settings : ProgConfig
settings = record {
  lock_file = codes "/var/lock/LCK..S0";
  working_dir = codes "/home/me";
  rings = b'1';
  tone_dial = true;
  addr_in_header = true;
  my_name = codes "Me";
  my_number = codes "123";
  page_size = codes "a4";
  resolution = codes "204x196";
  parms = codes "efax-0.9a" ∷ codes "-d/dev/ttyS0" ∷ [];
}

abbrev host : Host
host = record { os = disk_os; config = settings; fuel = 9 }

abbrev empty_disk : Disk
empty_disk = record { names = codes "/tmp/a" ∷ []; pids = 0 }

host-ForkPos : (w : Disk) (pid : ℕ) → (host.fork w).0 ≡ some pid → 0 < pid
host-ForkPos w pid e = ground arith

abbrev item : FaxItem
item = record { file_list = codes "/tmp/a" ∷ []; number = codes "555"; is_socket_file = false }

abbrev result_or : M host → Outcome (M host) → M host
result_or m (ok m1) = m1
result_or m _ = m

first : M host
unfolding init
first = init host empty_disk

-- The user sends a fax, the worker makes its pages, efax is started, and it ends well.
sent : M host
unfolding perform sendfax_impl first
sent = result_or first (perform host (sends item) first)

pages_made : M host
unfolding perform make_fax_thread page_name page_files split_path sent
pages_made = result_or sent (perform host works sent)

sending_state : sent.state ≡ sending
unfolding sent
sending_state = refl

made_pages : pages_made.sendfax_parms_vec ≡ sent.sendfax_parms_vec ++ codes "/tmp/a.001" ∷ []
unfolding pages_made init_sendfax_parms has bytes_eq
made_pages = refl

sent-Reach : Reach host sent
unfolding sent
sent-Reach = next (start empty_disk) (sends item) tt refl

Reach-Inv_example : Inv (control sent)
Reach-Inv_example = Reach-Inv host host-ForkPos sent-Reach

Reach-Safe_example : Safe (λ m1. Inv (control m1)) (perform host works sent)
unfolding sent
Reach-Safe_example = Reach-Safe host host-ForkPos works sent-Reach refl

-- efax answers a call while the program closes down.
answering : M host
answering = record first { state = receive_answer; joined = true; close_down = true; child_pid = 7 }

closing_ends_receiving_example : Returns (Quits host) (child_ended host (exited 0) answering)
unfolding answering
closing_ends_receiving_example = closing_ends_receiving host (exited 0) answering tt refl refl

sent_making : sent.worker ≡ making
unfolding sent
sent_making = refl

sent_open : sent.close_down ≡ false
unfolding sent
sent_open = refl

closedown_while_preparing_example :
    efax_closedown host sent
    ≡ emit
        (stdout_message "\n*** Stopping send/receive session ***\n\n")
        (record sent { close_down = true })
closedown_while_preparing_example =
    closedown_while_preparing host sent (Reach-Inv host host-ForkPos sent-Reach)
      (λ e. cc sent_making) sent_open

has-without : (p : Bytes) (ns : List Bytes) → has p (without p ns) ≡ false
unfolding has without
has-without p [] = refl
has-without p (n ∷ ns) = ground (arith, has-without p ns)

has-without_other : (p q : Bytes) (ns : List Bytes) → p ≢ q → has q (without p ns) ≡ has q ns
unfolding has without
has-without_other p q [] ne = refl
has-without_other p q (n ∷ ns) ne =
    ground (arith, has-without_other p q ns ne, bytes_eq_iff n p, bytes_eq_iff n q)

host-UnlinkLaws : UnlinkLaws host
host-UnlinkLaws = record {
  gone = λ p w e. has-without p w.names;
  kept = λ p q w ne. has-without_other p q w.names ne;
}

two_pages : Disk
two_pages = record {
  names = codes "/tmp/a" ∷ codes "/tmp/a.001" ∷ codes "/tmp/a.002" ∷ [];
  pids = 0;
}

two_pages-HasPages : HasPages host host-UnlinkLaws (codes "/tmp/a") 1 2 two_pages
unfolding two_pages has bytes_eq page_name
two_pages-HasPages = (has_page, refl)
  where
    has_page : (i : ℕ) → i < 2 → host.readable two_pages (page_name (codes "/tmp/a") (1 + i)) ≡ true
    has_page zero lt = refl
    has_page (suc zero) lt = refl
    has_page (suc (suc i)) lt = absurd (omega arith)

remove_pages_lem_example :
    Returns
      (Removes host host-UnlinkLaws (codes "/tmp/a") 1 2 two_pages)
      (remove_pages host 9 (codes "/tmp/a") 1 two_pages)
remove_pages_lem_example =
    remove_pages_lem host host-UnlinkLaws (codes "/tmp/a") 9 1 2 two_pages (omega arith)
      two_pages-HasPages

host-LinkLaws : LinkLaws host
unfolding has
host-LinkLaws = record {
  linked = λ p q w d e. ground (arith, bytes_eq_refl q);
  link_keeps = λ p q r w e. ground arith;
  unlink_keeps = λ p q w ne. has-without_other p q w.names ne;
  rmdir_keeps = λ d p w ne e. has-without_other d p w.names ne ∙ e;
}

received : M host
received = record first {
  world = record { names = codes "/home/me/faxin/current/current.001" ∷ []; pids = 0 };
}

move_files-keeps_example :
    All
      (IsThere host host-LinkLaws b'2'
        (codes "0240101")
        (move_files host
          (codes "/home/me/faxin/20240101")
          (codes "20240101")
          (codes "current.001" ∷ [])
          received).world)
      (codes "current.001" ∷ [])
    ⊎ All
        (IsSaved host host-LinkLaws b'2'
          (codes "0240101")
          (move_files host
            (codes "/home/me/faxin/20240101")
            (codes "20240101")
            (codes "current.001" ∷ [])
            received).world)
        (codes "current.001" ∷ [])
unfolding received has bytes_eq
move_files-keeps_example =
    move_files-keeps host host-LinkLaws b'2' (codes "0240101") (codes "current.001" ∷ []) received
      (omega arith) (refl, tt)
