-- ===== src/Socket/Tests.antt =====
-- The theorems on the socket server at concrete inputs.
use secure_e_fax.Prelude.{
  ℕ, ◌≡◌, refl, ◌↔◌, true, false, List, [], ◌∷◌, ◌++◌, none, some, arith, replicate,
}
use secure_e_fax.Text.{Bytes, codes, bytes_eq}
use secure_e_fax.Text.Decimal.{decimal}
use secure_e_fax.Socket.Peers.{
  addr_compare, is_valid_peer, named, no_hostname, all_pattern_chars, ends_with_star,
}
use secure_e_fax.Socket.Peers.Laws.{IsPeerName, IsPermitted, addr_compare_wild, is_valid_peer_iff}
use secure_e_fax.Socket.Queue.{
  SocketServer, print_queue, read_queued_faxes, add_file, remove_file, next_count, erase_first,
}
use secure_e_fax.Socket.Queue.Saved.{read-print_queue}
use secure_e_fax.Socket.Mailbox.{
  Mailbox, Run, start, comes_in, read_socket, standing_jobs, waiting_jobs, mailbox_fifo,
}

star_admits : addr_compare (codes "192.168.*") (codes "192.168.0.7") ≡ true
unfolding addr_compare bytes_eq
star_admits = refl

plain_refuses : addr_compare (codes "192.168.0.1") (codes "192.168.0.17") ≡ false
unfolding addr_compare bytes_eq
plain_refuses = refl

addr_compare_wild_example :
    (addr_compare (codes "192.168." ++ replicate 1 b'*') (codes "192.168.0.7") ≡ true)
    ↔ ((rest : Bytes) × (codes "192.168.0.7" ≡ codes "192.168." ++ rest))
unfolding all_pattern_chars ends_with_star
addr_compare_wild_example = addr_compare_wild (codes "192.168.") (codes "192.168.0.7") 0 refl refl

is_valid_peer_iff_example :
    (is_valid_peer (named (codes "evil") [] (codes "10.0.0.1" ∷ [])) no_hostname [] ≡ true) ↔ (
      (name : Bytes) × (valid : Bytes) × IsPeerName
        (named (codes "evil") [] (codes "10.0.0.1" ∷ []))
        name
      × IsPermitted no_hostname [] valid
      × (addr_compare valid name ≡ true))
is_valid_peer_iff_example =
    is_valid_peer_iff (named (codes "evil") [] (codes "10.0.0.1" ∷ [])) no_hostname []

abbrev server : SocketServer
server = record { count = 0; filenames = []; saved = []; can_save = true; unlinked = [] }

abbrev queued : List (Bytes × ℕ)
queued = (codes "/home/me/a?b", 7) ∷ (codes "/home/me/c", 12) ∷ []

read-print_queue_example :
    read_queued_faxes (λ file. true) (some (print_queue 12 queued)) server
    ≡ record server { filenames = queued; count = 12 }
read-print_queue_example =
    read-print_queue (λ file. true) 12 queued server (omega arith)
      ((omega arith, refl, omega arith), ((omega arith, refl, omega arith), tt))

abbrev one_job : Mailbox
one_job = record { server = server; fax_to_send = ([], 0); waiting = none }

one_job-Run : Run ([] ++ (codes "/a", 1) ∷ []) [] (read_socket (codes "/a") one_job)
unfolding next_count
one_job-Run = comes_in (codes "/a") (start server []) refl

mailbox_fifo_example :
    [] ++ (codes "/a", 1) ∷ []
    ≡ []
      ++ (standing_jobs (read_socket (codes "/a") one_job).fax_to_send
          ++ waiting_jobs (read_socket (codes "/a") one_job).waiting)
mailbox_fifo_example = mailbox_fifo one_job-Run

-- The count that follows the last is 1 again.
count_wraps : next_count 9999 ≡ 1
unfolding next_count
count_wraps = refl

added_then_removed :
    (remove_file (codes "/b") (add_file (codes "/b") (record server { count = 3 }))).1.saved
    ≡ codes "!3\n"
unfolding remove_file add_file erase_first bytes_eq print_queue decimal
added_then_removed = refl
