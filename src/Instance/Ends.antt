-- ===== src/Instance/Ends.antt =====
-- The loop of is_program_running in src/main.cpp.
use secure_e_fax.Prelude.{
  ℕ, zero, suc, ◌+◌, ◌≤◌, ◌≡◌, ◌⊎◌, refl, sym, ap, ◌∙◌, Bool, true, false, ◌&&◌, some, none, ltb,
  Bool-cases, inl, inr, arith,
}
use secure_e_fax.Outcome.{Outcome, ok, out_of_fuel}
use secure_e_fax.Instance.{
  System, Attempt, attempt, take_over, bring_up, goes_on, lock_loop, first_attempt, write_pid,
  is_program_running, is_stale,
}

module _ (s : System) where
  lock_loop_stuck :
      (n : ℕ) (a : Attempt s)
      → goes_on s a ≡ true
      → s.has_file a.world ≡ false
      → lock_loop s n a ≡ out_of_fuel
  unfolding lock_loop attempt
  lock_loop_stuck zero a on gone = refl
  lock_loop_stuck (suc n) a on gone = rw (on, gone) (lock_loop_stuck n a on gone)

  lock_loop_unread :
      (n : ℕ) (a : Attempt s)
      → goes_on s a ≡ true
      → s.has_file a.world ≡ true
      → s.existing a.world ≡ none
      → s.has_file (s.unlinked a.world) ≡ false
      → lock_loop s n a ≡ out_of_fuel
  unfolding lock_loop attempt
  lock_loop_unread zero a on here unread gone = refl
  lock_loop_unread (suc n) a on here unread gone =
      let next : Attempt s = record {
        has_lock = a.has_lock;
        count = a.count;
        return_val = a.return_val;
        world = s.unlinked a.world;
      } in
      rw (on, here, unread) (lock_loop_stuck n next on gone)

  -- The lock file is not there, or it does not open and can be removed.
  abbrev pub IsBlocked : s.World → Type 0
  IsBlocked w =
      (s.has_file w ≡ false)
      ⊎ ((s.has_file w ≡ true) × (s.existing w ≡ none) × (s.has_file (s.unlinked w) ≡ false))

  -- When the first attempt to make the lock file fails, and then the file is not there (as in a directory in
  -- which the program may not make files), or is there, does not open for reading and is removed, the loop does
  -- not end, however many rounds it is given.
  pub is_program_running_endless :
      (n : ℕ) (w : s.World)
      → (s.created w).0 ≡ false
      → IsBlocked (s.created w).1
      → is_program_running s n w ≡ out_of_fuel
  unfolding is_program_running first_attempt
  is_program_running_endless n w refused (inl gone) =
      rw (lock_loop_stuck n (first_attempt s w) (rw refused refl) gone) refl
  is_program_running_endless n w refused (inr (here, unread, gone)) =
      rw (lock_loop_unread n (first_attempt s w) (rw refused refl) here unread gone) refl

  -- A lock file that stands in the way can be read.
  abbrev pub CanRead : Type 0
  CanRead =
      (w : s.World)
      → (s.created w).0 ≡ false
      → (s.has_file (s.created w).1 ≡ true)
        × ((pid : ℕ) × (good : Bool) × (s.existing (s.created w).1 ≡ some (pid, good)))

  abbrev ReadAt : Attempt s → Type 0
  ReadAt a =
      a.has_lock ≡ false
      → (s.has_file a.world ≡ true)
        × ((pid : ℕ) × (good : Bool) × (s.existing a.world ≡ some (pid, good)))

  -- The loop has ended, and has not both alerted a program and made the file.
  abbrev Returned : Outcome (Attempt s) → Type 0
  Returned end = (r : Attempt s) × (end ≡ ok r) × (r.return_val ≡ true → r.has_lock ≡ false)

  lock_loop_done : (n : ℕ) (a : Attempt s) → goes_on s a ≡ false → lock_loop s (suc n) a ≡ ok a
  unfolding lock_loop
  lock_loop_done n a off = rw off refl

  lock_loop_next :
      (n : ℕ) (a : Attempt s)
      → goes_on s a ≡ true
      → lock_loop s (suc n) a ≡ lock_loop s n (attempt s a)
  unfolding lock_loop
  lock_loop_next n a on = rw on refl

  attempt_stale :
      (a : Attempt s) (pid : ℕ) (good : Bool)
      → s.has_file a.world ≡ true
      → s.existing a.world ≡ some (pid, good)
      → is_stale s a.world pid good ≡ true
      → attempt s a ≡ take_over s a
  unfolding attempt
  attempt_stale a pid good here e stale = rw (attempt, here, e, stale) refl

  attempt_active :
      (a : Attempt s) (pid : ℕ) (good : Bool)
      → s.has_file a.world ≡ true
      → s.existing a.world ≡ some (pid, good)
      → is_stale s a.world pid good ≡ false
      → attempt s a ≡ bring_up s pid a
  unfolding attempt
  attempt_active a pid good here e active = rw (attempt, here, e, active) refl

  bring_up_lem :
      (pid : ℕ) (a : Attempt s)
      → (goes_on s (bring_up s pid a) ≡ false) × ((bring_up s pid a).has_lock ≡ a.has_lock)
  unfolding bring_up
  bring_up_lem pid a = elim (Bool-cases (s.has_fifo a.world)) [
    | inl e ↦ rw e (refl, refl)
    | inr e ↦ rw e (refl, refl)
  ]

  lock_loop_returns :
      CanRead
      → (n : ℕ) (a : Attempt s) → ReadAt a
      → a.return_val ≡ false
      → 2 ≤ a.count + n
      → Returned (lock_loop s (suc n) a)
  unfolding take_over
  lock_loop_returns can zero a at quiet enough =
      let off : goes_on s a ≡ false = ground arith in
      (a, lock_loop_done zero a off, λ r. ground arith)
  lock_loop_returns can (suc n) a at quiet enough = elim (Bool-cases (goes_on s a)) [
    | inr off ↦ (a, lock_loop_done (suc n) a off, λ r. ground arith)
    | inl on ↦
        let open_no : a.has_lock ≡ false = ground arith in
        let (here, (pid, good, e)) = at open_no in
        elim (Bool-cases (is_stale s a.world pid good)) [
          | inl stale ↦
              let (r, ended, apart) =
                lock_loop_returns can n (take_over s a) (can (s.unlinked a.world)) quiet
                  (omega arith) in
              (
                r,
                lock_loop_next (suc n) a on
                    ∙ ap (lock_loop s (suc n)) (attempt_stale a pid good here e stale)
                    ∙ ended,
                apart,
              )
          | inr active ↦
              let (off, same) = bring_up_lem pid a in
              (
                bring_up s pid a,
                lock_loop_next (suc n) a on
                    ∙ ap (lock_loop s (suc n)) (attempt_active a pid good here e active)
                    ∙ lock_loop_done n (bring_up s pid a) off,
                λ r. same ∙ open_no,
              )
        ]
  ]

  write_pid_lem :
      (r : Attempt s)
      → ((write_pid s r).return_val ≡ r.return_val) × ((write_pid s r).has_lock ≡ r.has_lock)
  unfolding write_pid
  write_pid_lem r = elim (Bool-cases (ltb r.count 2 && r.has_lock)) [
    | inl e ↦ rw e (refl, refl)
    | inr e ↦ rw e (refl, refl)
  ]

  -- When every lock file that stands in the way can be read, the loop ends within three tests of its condition,
  -- so that the function returns; and when it says that the program is running, it has alerted that program
  -- and holds no lock of its own.
  pub is_program_running_returns :
      (w : s.World)
      → CanRead
      → (r : Attempt s) × (is_program_running s 3 w ≡ ok r)
        × (r.return_val ≡ true → r.has_lock ≡ false)
  unfolding is_program_running first_attempt
  is_program_running_returns w can =
      let (r, ended, apart) =
        lock_loop_returns can 2 (first_attempt s w) (can w) refl (omega arith) in
      let (same_val, same_lock) = write_pid_lem r in
      (write_pid s r, rw ended refl, λ e. same_lock ∙ apart (sym same_val ∙ e))
