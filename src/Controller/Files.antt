-- ===== src/Controller/Files.antt =====
-- The files of fax pages, and the arguments of the programs that make and send them:
-- init_sendfax_parms, get_gs_parms, get_receive_parms, make_fax_thread and cleanup_fax_send_fail of
-- efax_controller.cpp. A page file is the name of the fax with a suffix, ".001" and so on.
pub mod Untouched
pub mod Pages
use Prim.Native.String.{String}
use secure_e_fax.Prelude.{
  ℕ, zero, suc, ◌+◌, true, false, List, [], ◌∷◌, ◌++◌, Option, none, some, ltb, if◌then◌else◌,
  length, take, drop, ◌⊎◌, inl, inr,
}
use secure_e_fax.Text.{Bytes, codes, rfind}
use secure_e_fax.Text.Decimal.{padded3}
use secure_e_fax.Outcome.{Outcome, ok, exits, out_of_fuel, ◌>>=◌}
use secure_e_fax.Controller.Types.{
  State, ProgConfig, Worker, Host, Machine, emit, receive_takeover, receive_standby, write_error,
  made, not_made,
}

-- FORK_ERROR
abbrev pub fork_error : ℕ
fork_error = 18

unfoldable pub page_name : Bytes → ℕ → Bytes
unfolding padded3
page_name name n = name ++ b'.' ∷ padded3 n

-- The directory and the base name of a file: an error where there is no '/' or nothing behind it.
unfoldable pub split_path : Bytes → Option (Bytes × Bytes)
unfolding rfind
split_path name = elim (rfind b'/' name) [
  | none ↦ none
  | some pos ↦
      if ltb (length name) (pos + 2) then none else some (take pos name, drop (suc pos) name)
]

module _ (c : ProgConfig) where
  -- get_gs_parms
  unfoldable pub gs_parms : Bytes → List Bytes
  gs_parms basename =
      codes "gs"
      ∷ codes "-q"
      ∷ codes "-sDEVICE=tiffg3"
      ∷ (codes "-r" ++ c.resolution)
      ∷ codes "-dNOPAUSE"
      ∷ codes "-dSAFER"
      ∷ (codes "-sOutputFile=" ++ basename ++ codes ".%03d")
      ∷ (codes "-sPAPERSIZE=" ++ c.page_size)
      ∷ basename
      ∷ []

  mode_parms : State → List Bytes
  mode_parms receive_takeover = codes "-w" ∷ []
  mode_parms receive_standby = (codes "-jS0=" ++ c.rings ∷ []) ∷ codes "-s" ∷ codes "-w" ∷ []
  mode_parms _ = []

  -- get_receive_parms
  unfoldable pub receive_parms : State → List Bytes
  unfolding mode_parms
  receive_parms mode = c.parms ++ codes "-rcurrent" ∷ mode_parms mode

  header_parm : Bytes → Bytes → Bytes
  header_parm date number =
      codes "-h"
      ++ date
      ++ codes "    "
      ++ c.my_name
      ++ codes " ("
      ++ c.my_number
      ++ codes ") --> "
      ++ (if c.addr_in_header then number else [])
      ++ codes "      %d/%d"

  dial_parms : Bytes → List Bytes
  dial_parms [] = codes "-jX3" ∷ codes "-t" ∷ [] ∷ []
  dial_parms number = (codes "-t" ++ (if c.tone_dial then b'T' else b'P') ∷ number) ∷ []

  -- init_sendfax_parms
  unfoldable pub init_sendfax_parms : Bytes → Bytes → List Bytes
  unfolding header_parm dial_parms
  init_sendfax_parms date number = c.parms ++ header_parm date number ∷ dial_parms number

module _ (h : Host) where
  -- The checks of make_fax_thread on one file: its directory and base name, or the error.
  checked_path : h.World → Bytes → String ⊎ (Bytes × Bytes)
  checked_path w name = elim (split_path name) [
    | none ↦ inl "Not valid file name\n"
    | some parts ↦
        if h.exists w name
        then (if h.readable w name
            then inr parts
            else inl "User does not have read permission on the file\n")
        else inl "File does not exist\n"
  ]

  -- The loop over the pages that ghostscript made: `.001`, `.002`, … as long as each can be read.
  unfoldable pub page_files : ℕ → Bytes → ℕ → h.World → Outcome (List Bytes)
  page_files zero name n w = out_of_fuel
  page_files (suc f) name n w = elim (h.readable w (page_name name n)) [
    | true ↦ page_files f name (suc n) w >>= λ rest. ok (page_name name n ∷ rest)
    | false ↦ ok []
  ]

  -- The worker thread ends: it posts the semaphore and emits a Notifier.
  abbrev pub report : Worker → Machine h.World → Machine h.World
  report outcome m = record m { fax_made_sem = suc m.fax_made_sem; worker = outcome }

  add_pages : List Bytes → Machine h.World → Option (Machine h.World)
  add_pages [] m = none
  add_pages (p ∷ ps) m = some (record m { sendfax_parms_vec = m.sendfax_parms_vec ++ p ∷ ps })

  -- A file of which no page was made ends the thread; otherwise `rest` goes on.
  check_pages :
      (Machine h.World → Outcome (Machine h.World))
      → Machine h.World
      → List Bytes
      → Outcome (Machine h.World)
  unfolding add_pages
  check_pages rest m pages = elim (add_pages pages m) [
    | none ↦ ok (report not_made (emit (write_error "Not valid postscript file\n") m))
    | some m1 ↦ rest m1
  ]

  run_ghostscript : Bytes × Bytes → Machine h.World → Outcome (Machine h.World)
  unfolding gs_parms
  run_ghostscript (dirname, basename) m =
      let (forked, w) = h.ghostscript dirname (gs_parms h.config basename) m.world in
      if forked then ok (record m { world = w }) else exits fork_error

  make_fax_files : List Bytes → Machine h.World → Outcome (Machine h.World)
  make_fax_files [] m = ok (report made m)
  make_fax_files (name ∷ names) m = elim (checked_path m.world name) [
    | inl message ↦ ok (report not_made (emit (write_error message) m))
    | inr parts ↦ run_ghostscript parts m >>= λ m1. page_files h.fuel name 1 m1.world >>= λ pages.
        elim (add_pages pages m1) [
          | none ↦ ok (report not_made (emit (write_error "Not valid postscript file\n") m1))
          | some m2 ↦ make_fax_files names m2
        ]
  ]

  -- The thread that makes the fax pages, from its start to its report.
  unfoldable pub make_fax_thread : Machine h.World → Outcome (Machine h.World)
  unfolding make_fax_files checked_path run_ghostscript check_pages page_files
  make_fax_thread m = make_fax_files m.last_fax_item_sent.file_list m

  unfoldable pub remove_pages : ℕ → Bytes → ℕ → h.World → Outcome h.World
  remove_pages zero name n w = out_of_fuel
  remove_pages (suc f) name n w = elim (h.readable w (page_name name n)) [
    | true ↦ remove_pages f name (suc n) (h.unlink (page_name name n) w)
    | false ↦ ok w
  ]

  unfoldable pub remove_files : List Bytes → h.World → Outcome h.World
  unfolding remove_pages
  remove_files [] w = ok w
  remove_files (name ∷ names) w = remove_pages h.fuel name 1 w >>= remove_files names

  unfoldable pub cleanup_fax_send_fail : Machine h.World → Outcome (Machine h.World)
  unfolding remove_files
  cleanup_fax_send_fail m =
      remove_files m.last_fax_item_sent.file_list m.world >>= λ w. ok (record m { world = w })
