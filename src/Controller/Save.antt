-- ===== src/Controller/Save.antt =====
-- save_sent_fax, save_received_fax and receive_cleanup of efax_controller.cpp: what becomes of the
-- files of a fax when a session has ended.
pub mod Untouched
pub mod Kept
use secure_e_fax.Prelude.{
  ℕ, zero, suc, ◌+◌, Bool, true, false, List, [], ◌∷◌, ◌++◌, ◌&&◌, Option, none, some, ltb,
  if◌then◌else◌, take, drop,
}
use secure_e_fax.Text.{Bytes, codes, bytes_eq}
use secure_e_fax.Os.{removed, not_empty}
use secure_e_fax.Outcome.{Outcome, ok, out_of_fuel, ◌>>=◌}
use secure_e_fax.Controller.Types.{
  Host, Machine, emit, write_error, cannot_delete, fax_received_notify,
}
use secure_e_fax.Controller.Files.{page_name, split_path}

module _ (h : Host) where
  open h use {World, config}

  -- mkdir() is tried four times, a second apart, so that the name, which is the time, changes.
  unfoldable pub make_fax_dir : ℕ → Bytes → Bytes → World → Option Bytes × World
  make_fax_dir zero base name w = (none, w)
  make_fax_dir (suc tries) base name w =
      let (done, w1) = h.mkdir (base ++ name) w in
      elim done [
        | true ↦ (some name, w1)
        | false ↦ make_fax_dir tries base (h.stamp (h.sleep w1)) (h.sleep w1)
      ]

  abbrev pub current_dir : Bytes
  current_dir = config.working_dir ++ codes "/faxin/current"

  -- The new name of a received file: the prefix "current" replaced; `none` for another file.
  pub saved_name : Bytes → Bytes → Bytes → Option Bytes
  saved_name new_dirname faxname file =
      if bytes_eq (take 8 file) (codes "current.")
      then some (new_dirname ++ codes "/" ++ faxname ++ drop 7 file)
      else none

  -- Every received page is linked into the new directory; the first failure ends the loop.
  unfoldable pub link_files : Bytes → Bytes → List Bytes → World → Bool × World
  unfolding saved_name
  link_files new_dirname faxname [] w = (true, w)
  link_files new_dirname faxname (file ∷ files) w = elim (saved_name new_dirname faxname file) [
    | none ↦ link_files new_dirname faxname files w
    | some new_filename ↦
        let (linked, w1) = h.link (current_dir ++ codes "/" ++ file) new_filename w in
        elim linked [ true ↦ link_files new_dirname faxname files w1 | false ↦ (false, w1) ]
  ]

  unfoldable pub unlink_files : List Bytes → World → World
  unlink_files [] w = w
  unlink_files (file ∷ files) w = unlink_files files (h.unlink (current_dir ++ codes "/" ++ file) w)

  remove_current : Bytes → Machine World → Machine World
  remove_current new_dirname m =
      let (answer, w) = h.rmdir current_dir m.world in
      let m1 = record m { world = w } in
      elim answer [ removed ↦ m1 | _ ↦ emit (cannot_delete current_dir new_dirname) m1 ]

  unfoldable pub move_files : Bytes → Bytes → List Bytes → Machine World → Machine World
  unfolding link_files unlink_files remove_current
  move_files new_dirname faxname files m =
      let (linked, w) = link_files new_dirname faxname files m.world in
      if linked
      then remove_current new_dirname (record m { world = unlink_files files w })
      else emit
          (write_error
            "SERIOUS SYSTEM ERROR: Cannot save all of the received fax.\nAll or part of the fax will be missing!\n")
          (record m { world = w })

  -- The name of the directory that the fax is saved in, empty where none could be made.
  unfoldable pub save_received_fax : Machine World → Bytes × Machine World
  unfolding make_fax_dir move_files
  save_received_fax m =
      let base = config.working_dir ++ codes "/faxin/" in
      let (made_dir, w) = make_fax_dir 4 base (h.stamp m.world) m.world in
      let m1 = record m { world = w } in
      elim made_dir [
        | none ↦ (
          [],
          emit
              (write_error
                "SERIOUS SYSTEM ERROR: Can't create directory to save received fax.\nThis fax will not be saved!\n")
              m1,
        )
        | some faxname ↦ (
          faxname,
          elim (h.list_dir w current_dir) [
            | none ↦
                emit
                  (write_error
                    "SERIOUS SYSTEM ERROR: Can't open received fax directory.\nThis fax will not be saved!\n")
                  m1
            | some files ↦ move_files (base ++ faxname) faxname files m1
          ],
        )
      ]

  -- A fax with a name is counted and announced.
  abbrev announce_received : Bytes × Machine World → Machine World
  announce_received ([], m) = m
  announce_received (faxname, m) =
      emit (fax_received_notify faxname [])
        (record m { received_fax_count = m.received_fax_count + 1 })

  keep_or_drop : Option ℕ → Machine World → Machine World
  unfolding save_received_fax
  keep_or_drop (some zero) m =
      let w1 = h.unlink (current_dir ++ codes "/current.001") m.world in
      record m { world = (h.rmdir current_dir w1).1 }
  keep_or_drop _ m = announce_received (save_received_fax m)

  unfoldable pub receive_cleanup : Machine World → Machine World
  unfolding keep_or_drop
  receive_cleanup m =
      let (answer, w) = h.rmdir current_dir m.world in
      let m1 = record m { world = w } in
      elim answer [
        | not_empty ↦ keep_or_drop (h.size w (current_dir ++ codes "/current.001")) m1
        | _ ↦ m1
      ]

module _ (h : Host) where
  open h use {World, config}

  -- The pages of one file are copied and removed, as long as the next can be read and opened and its
  -- copy can be opened: the next numbers of both, and the world.
  unfoldable pub copy_pages : ℕ → Bytes → Bytes → ℕ → ℕ → World → Outcome (ℕ × ℕ × World)
  copy_pages zero name fileout_name page out w = out_of_fuel
  copy_pages (suc f) name fileout_name page out w =
      let from = page_name name page in
      let to = page_name fileout_name out in
      elim (h.readable w from && h.open_in w from) [
        | false ↦ ok (page, out, w)
        | true ↦
            let (opened, w1) = h.open_out to w in
            elim opened [
              | false ↦ ok (page, out, w1)
              | true ↦
                  copy_pages f name fileout_name (suc page) (suc out)
                    (h.unlink from (h.copy from to w1))
            ]
      ]

  abbrev check_copied : ℕ → Machine World → Machine World
  check_copied page m =
      if ltb page 2
      then emit (write_error "There was a problem saving all or part of the sent fax\n") m
      else m

  -- The files of the sent fax in turn: the next number of a copy, and the base names.
  unfoldable pub save_files :
      Bytes → List Bytes → ℕ → List Bytes → Machine World → Outcome (ℕ × List Bytes × Machine World)
  unfolding copy_pages
  save_files fileout_name [] out bases m = ok (out, bases, m)
  save_files fileout_name (name ∷ names) out bases m = elim (split_path name) [
    | none ↦
        save_files fileout_name names out bases
          (emit (write_error "Not valid file name to save -- can't save sent fax\n") m)
    | some parts ↦ copy_pages h.fuel name fileout_name 1 out m.world >>= λ copied.
        save_files fileout_name names copied.1 (bases ++ parts.1 ∷ [])
          (check_copied copied.0 (record m { world = copied.2 }))
  ]

  -- A text converted to UTF-8 behind a description; a ConversionError is reported.
  abbrev add_utf8 : Bytes × Machine World → Bytes → Bytes × Machine World
  add_utf8 (text, m) part = elim (h.to_utf8 part) [
    | some converted ↦ (text ++ converted, m)
    | none ↦
        (text, emit (write_error "UTF-8 conversion error in EfaxController::save_sent_fax()\n") m)
  ]

  join_names : List Bytes → Bytes × Machine World → Bytes × Machine World
  join_names [] acc = acc
  join_names (name ∷ names) acc = join_names names (add_utf8 (acc.0 ++ b'+' ∷ [], acc.1) name)

  describe_files : List Bytes → Machine World → Bytes × Machine World
  unfolding join_names
  describe_files [] m = ([], m)
  describe_files (name ∷ names) m = join_names names (add_utf8 ([], m) name)

  add_number : Bytes → Bytes → Bytes
  add_number [] text = text
  add_number number text = text ++ codes " --> " ++ number

  describe : List Bytes → Bytes → Machine World → Bytes × Machine World
  unfolding describe_files add_number
  describe bases date m =
      let (text, m1) =
        (if m.last_fax_item_sent.is_socket_file
          then (codes "PRINT JOB", m)
          else describe_files bases m) in
      add_utf8 (add_number m.last_fax_item_sent.number text ++ b' ' ∷ [], m1) date

  write_description : Bytes → List Bytes → Bytes → Machine World → Bytes × Machine World
  unfolding describe
  write_description dirname bases date m =
      let file = dirname ++ codes "/Description" in
      let (opened, w) = h.open_out file m.world in
      let m1 = record m { world = w } in
      elim opened [
        | false ↦ ([], emit (write_error "Cannot save sent fax description\n") m1)
        | true ↦
            let (text, m2) = describe bases date m1 in
            (text, record m2 { world = h.write_text file text m2.world })
      ]

  -- The description is written if a page was saved.
  describe_saved :
      Bytes
      → Bytes
      → Bytes
      → ℕ × List Bytes × Machine World
      → Outcome (Bytes × Bytes × Machine World)
  unfolding write_description
  describe_saved base faxname date (out, bases, m) =
      let (text, m1) = write_description (base ++ faxname) bases date m in
      if ltb 1 out then ok (faxname, text, m1) else ok (faxname, [], m)

  save_in : Bytes → Bytes → Machine World → Outcome (Bytes × Bytes × Machine World)
  unfolding save_files describe_saved
  save_in base faxname m =
      save_files (base ++ faxname ++ codes "/" ++ faxname) m.last_fax_item_sent.file_list 1 [] m
      >>= describe_saved base faxname (h.description_date m.world)

  -- The directory name and the description of the saved fax.
  unfoldable pub save_sent_fax : Machine World → Outcome (Bytes × Bytes × Machine World)
  unfolding save_in
  save_sent_fax m =
      let base = config.working_dir ++ codes "/faxsent/" in
      let (made_dir, w) = make_fax_dir h 4 base (h.stamp m.world) m.world in
      let m1 = record m { world = w } in
      elim made_dir [
        | none ↦ ok (
          [],
          [],
          emit
              (write_error
                "SERIOUS SYSTEM ERROR: Can't create directory to save sent fax.\nThis fax will not be saved!\n")
              m1,
        )
        | some faxname ↦ save_in base faxname m1
      ]
