-- ===== src/Controller/Save/Untouched.antt =====
-- Saving the files of a fax leaves the control of an EfaxController as it was.
use secure_e_fax.Prelude.{
  ℕ, zero, suc, ◌≡◌, refl, ◌∙◌, List, [], ◌∷◌, ◌++◌, arith, Option-cases, inl, inr,
}
use secure_e_fax.Text.{Bytes, codes}
use secure_e_fax.Outcome.{Safe, Safe-bind, Safe-map}
use secure_e_fax.Controller.Types.{Host, Machine}
use secure_e_fax.Controller.Files.{page_name, split_path}
use secure_e_fax.Controller.Save.{
  make_fax_dir, link_files, unlink_files, remove_current, move_files, save_received_fax,
  keep_or_drop, receive_cleanup, copy_pages, check_copied, save_files, add_utf8, join_names,
  describe_files, describe, write_description, save_sent_fax, describe_saved, save_in,
}
use secure_e_fax.Controller.Control.{control}

module _ (h : Host) where
  open h use {World, config}

  abbrev Same : Machine World → Machine World → Type 0
  Same m m' = control m' ≡ control m

  remove_current-Same : (dir : Bytes) (m : Machine World) → Same m (remove_current h dir m)
  unfolding remove_current
  remove_current-Same dir m = ground arith

  move_files-Same :
      (dir faxname : Bytes) (files : List Bytes) (m : Machine World)
      → Same m (move_files h dir faxname files m)
  unfolding move_files
  move_files-Same dir faxname files m =
      let (linked, w) = link_files h dir faxname files m.world in
      ground (arith, remove_current-Same dir (record m { world = unlink_files h files w }))

  save_received_fax-Same : (m : Machine World) → Same m (save_received_fax h m).1
  unfolding save_received_fax remove_current
  save_received_fax-Same m = ground arith

  pub receive_cleanup-Same : (m : Machine World) → Same m (receive_cleanup h m)
  unfolding receive_cleanup keep_or_drop
  receive_cleanup-Same m = ground arith

  check_copied-Same : (page : ℕ) (m : Machine World) → Same m (check_copied h page m)
  check_copied-Same page m = ground arith

  copy_pages-Safe :
      (f : ℕ) (name to : Bytes) (page out : ℕ) (w : World)
      → Safe (λ _. Unit {0}) (copy_pages h f name to page out w)
  unfolding copy_pages
  copy_pages-Safe zero name to page out w = tt
  copy_pages-Safe (suc f) name to page out w =
      let from = page_name name page in
      let target = page_name to out in
      let w1 = (h.open_out target w).1 in
      ground (
        arith,
        copy_pages-Safe f name to (suc page) (suc out) (h.unlink from (h.copy from target w1)),
      )

  save_files-Safe :
      (to : Bytes) (names : List Bytes) (out : ℕ) (bases : List Bytes) (m : Machine World)
      → Safe (λ r. Same m r.2) (save_files h to names out bases m)
  unfolding save_files
  save_files-Safe to [] out bases m = refl
  save_files-Safe to (name ∷ names) out bases m = elim (Option-cases (split_path name)) [
    | inl e ↦ rw (e, Safe) (save_files-Safe to names out bases _)
    | inr (parts, e) ↦
        rw (e, Safe)
          (Safe-bind (λ _. Unit {0}) (λ r. Same m r.2) _ _
            (copy_pages-Safe h.fuel name to 1 out m.world)
            (λ copied _.
              let m1 = check_copied h copied.0 (record m { world = copied.2 }) in
              Safe-map (λ r. Same m1 r.2) (λ r. Same m r.2) _
                (λ r s. s ∙ check_copied-Same copied.0 (record m { world = copied.2 }))
                (save_files-Safe to names copied.1 (bases ++ parts.1 ∷ []) m1)))
  ]

  add_utf8-Same : (text part : Bytes) (m : Machine World) → Same m (add_utf8 h (text, m) part).1
  add_utf8-Same text part m = ground arith

  join_names-Same :
      (names : List Bytes) (text : Bytes) (m : Machine World)
      → Same m (join_names h names (text, m)).1
  unfolding join_names
  join_names-Same [] text m = refl
  join_names-Same (name ∷ names) text m =
      let (text', m') = add_utf8 h (text ++ b'+' ∷ [], m) name in
      join_names-Same names text' m' ∙ add_utf8-Same (text ++ b'+' ∷ []) name m

  describe_files-Same :
      (names : List Bytes) (m : Machine World) → Same m (describe_files h names m).1
  unfolding describe_files
  describe_files-Same [] m = refl
  describe_files-Same (name ∷ names) m =
      let (text', m') = add_utf8 h ([], m) name in
      join_names-Same names text' m' ∙ add_utf8-Same [] name m

  describe-Same :
      (names : List Bytes) (date : Bytes) (m : Machine World) → Same m (describe h names date m).1
  unfolding describe
  describe-Same names date m = ground (arith, describe_files-Same names m)

  write_description-Same :
      (dir : Bytes) (names : List Bytes) (date : Bytes) (m : Machine World)
      → Same m (write_description h dir names date m).1
  unfolding write_description
  write_description-Same dir names date m =
      let (opened, w) = h.open_out (dir ++ codes "/Description") m.world in
      ground (arith, describe-Same names date (record m { world = w }))

  describe_saved-Safe :
      (base faxname date : Bytes) (saved : ℕ × List Bytes × Machine World) (m : Machine World)
      → Same m saved.2
      → Safe (λ r. Same m r.2) (describe_saved h base faxname date saved)
  unfolding describe_saved
  describe_saved-Safe base faxname date (out, bases, m') m s =
      ground (arith, write_description-Same (base ++ faxname) bases date m')

  save_in-Safe :
      (base faxname : Bytes) (m : Machine World) → Safe (λ r. Same m r.2) (save_in h base faxname m)
  unfolding save_in
  save_in-Safe base faxname m =
      let to = base ++ faxname ++ codes "/" ++ faxname in
      let names = m.last_fax_item_sent.file_list in
      let date = h.description_date m.world in
      Safe-bind (λ r. Same m r.2) (λ r. Same m r.2) (save_files h to names 1 [] m)
        (describe_saved h base faxname date) (save_files-Safe to names 1 [] m)
        (λ saved s. describe_saved-Safe base faxname date saved m s)

  -- Saving a sent fax leaves the control as it was.
  pub save_sent_fax-Safe :
      (m : Machine World) → Safe (λ r. control r.2 ≡ control m) (save_sent_fax h m)
  unfolding save_sent_fax
  save_sent_fax-Safe m =
      let base = config.working_dir ++ codes "/faxsent/" in
      let dir = make_fax_dir h 4 base (h.stamp m.world) m.world in
      elim (Option-cases dir.0) [
        | inl e ↦ rw (e, Safe) refl
        | inr (faxname, e) ↦ rw (e, Safe) (save_in-Safe base faxname (record m { world = dir.1 }))
      ]
