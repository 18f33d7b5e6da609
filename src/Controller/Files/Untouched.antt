-- ===== src/Controller/Files/Untouched.antt =====
-- Making and removing the page files: what it leaves of the control of an EfaxController.
use secure_e_fax.Prelude.{
  ℕ, zero, suc, ◌≡◌, refl, ◌∙◌, List, [], ◌∷◌, some, ◌⊎◌, Sum-cases, Option-cases, some, ◌∙◌, inl,
  inr, arith,
}
use secure_e_fax.Text.{Bytes}
use secure_e_fax.Outcome.{Outcome, ok, ◌>>=◌, Safe, Safe-bind, Safe-map}
use secure_e_fax.Controller.Types.{made, not_made, Host, Machine}
use secure_e_fax.Controller.Files.{
  page_name, add_pages, check_pages, page_files, report, run_ghostscript, make_fax_files,
  make_fax_thread, checked_path, remove_pages, remove_files, cleanup_fax_send_fail,
}
use secure_e_fax.Controller.Control.{control}

module _ (h : Host) where
  open h use {World}

  remove_pages-Safe :
      (f : ℕ) (name : Bytes) (n : ℕ) (w : World) → Safe (λ _. Unit {0}) (remove_pages h f name n w)
  unfolding remove_pages
  remove_pages-Safe zero name n w = tt
  remove_pages-Safe (suc f) name n w =
      ground (arith, remove_pages-Safe f name (suc n) (h.unlink (page_name name n) w))

  remove_files-Safe :
      (names : List Bytes) (w : World) → Safe (λ _. Unit {0}) (remove_files h names w)
  unfolding remove_files
  remove_files-Safe [] w = tt
  remove_files-Safe (name ∷ names) w =
      Safe-bind (λ _. Unit {0}) (λ _. Unit {0}) (remove_pages h h.fuel name 1 w)
        (remove_files h names) (remove_pages-Safe h.fuel name 1 w)
        (λ w1 _. remove_files-Safe names w1)

  -- Removing the pages of a fax that was not sent leaves the control as it was.
  pub cleanup_fax_send_fail-Safe :
      (m : Machine World) → Safe (λ m'. control m' ≡ control m) (cleanup_fax_send_fail h m)
  unfolding cleanup_fax_send_fail
  cleanup_fax_send_fail-Safe m =
      Safe-bind (λ _. Unit {0}) (λ m'. control m' ≡ control m)
        (remove_files h m.last_fax_item_sent.file_list m.world) (λ w. ok (record m { world = w }))
        (remove_files-Safe m.last_fax_item_sent.file_list m.world) (λ w _. refl)

  -- The worker ends with one post of the semaphore and one report.
  abbrev pub Reports : Machine World → Machine World → Type 0
  Reports m m' =
      (control m' ≡ control (report h made m)) ⊎ (control m' ≡ control (report h not_made m))

  page_files-Safe :
      (f : ℕ) (name : Bytes) (n : ℕ) (w : World) → Safe (λ _. Unit {0}) (page_files h f name n w)
  unfolding page_files
  page_files-Safe zero name n w = tt
  page_files-Safe (suc f) name n w = ground (arith, page_files-Safe f name (suc n) w)

  Reports-trans : (m m1 m' : Machine World) → control m1 ≡ control m → Reports m1 m' → Reports m m'
  Reports-trans m m1 m' e (inl r) = inl (ground arith)
  Reports-trans m m1 m' e (inr r) = inr (ground arith)

  run_ghostscript-Safe :
      (parts : Bytes × Bytes) (m : Machine World)
      → Safe (λ m1. control m1 ≡ control m) (run_ghostscript h parts m)
  unfolding run_ghostscript
  run_ghostscript-Safe parts m = ground arith

  add_pages-Same :
      (pages : List Bytes) (m m' : Machine World)
      → add_pages h pages m ≡ some m'
      → control m' ≡ control m
  unfolding add_pages
  add_pages-Same [] m m' e = cc
  add_pages-Same (p ∷ ps) m m' e = ground arith

  check_pages-Safe :
      (rest : Machine World → Outcome (Machine World)) (m m1 : Machine World) (pages : List Bytes)
      → ((m2 : Machine World) → Safe (Reports m2) (rest m2))
      → control m1 ≡ control m
      → Safe (Reports m) (check_pages h rest m1 pages)
  unfolding check_pages
  check_pages-Safe rest m m1 pages k s = elim (Option-cases (add_pages h pages m1)) [
    | inl e ↦ rw (e, Safe) (Reports-trans m m1 (report h not_made m1) s (inr refl))
    | inr (m2, e) ↦
        rw (e, Safe)
          (Safe-map (Reports m2) (Reports m) (rest m2)
            (λ m'. Reports-trans m m2 m' (add_pages-Same pages m1 m2 e ∙ s)) (k m2))
  ]

  make_fax_files-Safe :
      (names : List Bytes) (m : Machine World) → Safe (Reports m) (make_fax_files h names m)
  unfolding make_fax_files check_pages
  make_fax_files-Safe [] m = inl refl
  make_fax_files-Safe (name ∷ names) m = elim (Sum-cases (checked_path h m.world name)) [
    | inl (message, e) ↦ rw (e, Safe) (inr refl)
    | inr (parts, e) ↦
        let rest = make_fax_files h names in
        rw (e, Safe)
          (Safe-bind (λ m1. control m1 ≡ control m) (Reports m) (run_ghostscript h parts m)
            (λ m1. page_files h h.fuel name 1 m1.world >>= check_pages h rest m1)
            (run_ghostscript-Safe parts m)
            (λ m1 s.
              Safe-bind (λ _. Unit {0}) (Reports m) (page_files h h.fuel name 1 m1.world)
                (check_pages h rest m1) (page_files-Safe h.fuel name 1 m1.world)
                (λ pages _. check_pages-Safe rest m m1 pages (make_fax_files-Safe names) s)))
  ]

  pub make_fax_thread-Safe : (m : Machine World) → Safe (Reports m) (make_fax_thread h m)
  unfolding make_fax_thread
  make_fax_thread-Safe m = make_fax_files-Safe m.last_fax_item_sent.file_list m
