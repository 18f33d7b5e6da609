-- ===== src/Socket/Mailbox.antt =====
-- The hand-over of a print job from the socket thread to the main thread in socket_server.cpp:
-- read_socket, which waits on a condition while an earlier job stands in fax_to_send, and
-- get_fax_to_send, which takes it. A step of either thread holds the mutex.
use secure_e_fax.Prelude.{
  ℕ, ◌≤◌, ◌≡◌, ◌≢◌, refl, sym, ◌∙◌, List, [], ◌∷◌, ◌++◌, Option, none, some, ◌==◌, if◌then◌else◌,
  arith, append_assoc, append-nil,
}
use secure_e_fax.Text.{Bytes}
use secure_e_fax.Socket.Queue.{SocketServer, next_count, add_file}

abbrev pub Job : Type 0
Job = Bytes × ℕ

-- The server, fax_to_send, whose number is 0 where no job stands in it, and the job with which the
-- socket thread waits.
pub record Mailbox : Type 0 where
  pub server : SocketServer
  pub fax_to_send : Job
  pub waiting : Option Job

-- read_socket after a normal close by the client, up to the condition: the job gets the next number
-- and is added to the queue.
pub read_socket : Bytes → Mailbox → Mailbox
read_socket file m =
    let count = next_count m.server.count in
    record m {
      server = add_file file (record m.server { count = count });
      waiting = some (file, count);
    }

-- The rest of read_socket: `none` while an earlier job has not been taken.
pub deposit : Mailbox → Option Mailbox
deposit m = elim m.waiting [
  | none ↦ none
  | some job ↦
      if m.fax_to_send.1 == 0 then some (record m { fax_to_send = job; waiting = none }) else none
]

-- get_fax_to_send
pub get_fax_to_send : Mailbox → Job × Mailbox
get_fax_to_send m = (m.fax_to_send, record m { fax_to_send = (m.fax_to_send.0, 0) })

abbrev pub waiting_jobs : Option Job → List Job
waiting_jobs none = []
waiting_jobs (some job) = job ∷ []

abbrev pub standing_jobs : Job → List Job
standing_jobs job = if job.1 == 0 then [] else job ∷ []

-- The steps of the two threads, with the jobs that have come in, each the file the client sent and the
-- number that follows the last one, and those that get_fax_to_send has given.
pub data Run : List Job → List Job → Mailbox → Type 0 where
  start :
      (s : SocketServer) (file : Bytes)
      → Run [] [] (record { server = s; fax_to_send = (file, 0); waiting = none })
  comes_in :
      {came took : List Job} {m : Mailbox} (file : Bytes)
      → Run came took m
      → m.waiting ≡ none
      → Run (came ++ (file, next_count m.server.count) ∷ []) took (read_socket file m)
  deposits :
      {came took : List Job} {m m1 : Mailbox}
      → Run came took m
      → deposit m ≡ some m1
      → Run came took m1
  takes :
      {came took : List Job} {m : Mailbox}
      → Run came took m
      → Run came (took ++ standing_jobs (get_fax_to_send m).0) (get_fax_to_send m).1

-- Numbers run from 1 to 9999 and then begin again.
pub next_count_bounds : (n : ℕ) → (1 ≤ next_count n) × (next_count n ≤ 9999)
unfolding next_count
next_count_bounds n = ground arith

abbrev Numbered : Option Job → Type 0
Numbered none = Unit
Numbered (some job) = job.1 ≢ 0

record IsKept (came took : List Job) (m : Mailbox) : Type 0 where
  all_jobs : came ≡ took ++ (standing_jobs m.fax_to_send ++ waiting_jobs m.waiting)
  numbered : Numbered m.waiting

comes_in-IsKept :
    (came took : List Job) (m : Mailbox) (file : Bytes)
    → m.waiting ≡ none
    → IsKept came took m
    → IsKept (came ++ (file, next_count m.server.count) ∷ []) took (read_socket file m)
unfolding read_socket
comes_in-IsKept came took m file w k =
    let job : Job = (file, next_count m.server.count) in
    let bounds = next_count_bounds m.server.count in
    record {
      all_jobs = ground (
        arith,
        append_assoc took (standing_jobs m.fax_to_send) (job ∷ []),
        append-nil (standing_jobs m.fax_to_send),
      );
      numbered = omega arith;
    }

deposit-IsKept :
    (came took : List Job) (m m1 : Mailbox)
    → deposit m ≡ some m1
    → IsKept came took m
    → IsKept came took m1
unfolding deposit
deposit-IsKept came took m m1 e k = ground arith

get_fax_to_send-IsKept :
    (came took : List Job) (m : Mailbox)
    → IsKept came took m
    → IsKept came (took ++ standing_jobs m.fax_to_send) (get_fax_to_send m).1
unfolding get_fax_to_send
get_fax_to_send-IsKept came took m k = record {
  all_jobs =
      k.all_jobs ∙ sym (append_assoc took (standing_jobs m.fax_to_send) (waiting_jobs m.waiting));
  numbered = k.numbered;
}

Run-IsKept : {came took : List Job} {m : Mailbox} → Run came took m → IsKept came took m
unfolding get_fax_to_send
Run-IsKept (start s file) = record { all_jobs = refl; numbered = tt }
Run-IsKept (comes_in {came} {took} {m} file r w) = comes_in-IsKept came took m file w (Run-IsKept r)
Run-IsKept (deposits {came} {took} {m} {m1} r e) = deposit-IsKept came took m m1 e (Run-IsKept r)
Run-IsKept (takes {came} {took} {m} r) = get_fax_to_send-IsKept came took m (Run-IsKept r)

-- Every job that came in is, in its order, taken by the main thread, or stands in fax_to_send, or is
-- the one with which the socket thread waits: none is lost, made up, taken twice or overtaken.
pub mailbox_fifo :
    {came took : List Job} {m : Mailbox}
    → Run came took m
    → came ≡ took ++ (standing_jobs m.fax_to_send ++ waiting_jobs m.waiting)
mailbox_fifo r = (Run-IsKept r).all_jobs
