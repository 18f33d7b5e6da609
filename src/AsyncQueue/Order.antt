-- ===== src/AsyncQueue/Order.antt =====
-- The order of the objects in AsyncQueueDispatch of src/utils/async_queue.h.
use mathlib.Core.Path.{subst}
use secure_e_fax.Prelude.{
  ℕ, ◌≡◌, zero, suc, refl, sym, ap, ◌∙◌, List, [], ◌∷◌, ◌++◌, IfSome, append_assoc,
}
use secure_e_fax.AsyncQueue.{
  Dispatch, Run, start, pushes, calls, resumes, wakes, expires, pops, push, push_signal, signal,
  try_pop, resume, wake, expire, pop_now, taken,
}

module _ {ℓ} {A : Type ℓ} where
  abbrev made : List A → ℕ → ℕ → Dispatch A
  made q waiting woken = record { q = q; waiting = waiting; woken = woken }

  signal_lem : (q : List A) (waiting woken : ℕ) → (signal (made q waiting woken)).q ≡ q
  unfolding signal
  signal_lem q zero woken = refl
  signal_lem q (suc n) woken = refl

  try_pop_lem :
      (q : List A) (waiting woken : ℕ)
      → let r = try_pop (made q waiting woken) in taken r.0 ++ r.1.q ≡ q
  unfolding try_pop
  try_pop_lem [] waiting woken = refl
  try_pop_lem (obj ∷ q) waiting woken = refl

  resume_lem :
      (q : List A) (waiting woken : ℕ)
      → IfSome (λ r. taken r.0 ++ r.1.q ≡ q) (resume (made q waiting woken))
  unfolding resume
  resume_lem q waiting zero = tt
  resume_lem q waiting (suc n) = try_pop_lem q waiting n

  wake_lem : (q : List A) (waiting woken : ℕ) → IfSome (λ r. r.q ≡ q) (wake (made q waiting woken))
  unfolding wake
  wake_lem q zero woken = tt
  wake_lem q (suc n) woken = refl

  expire_lem :
      (q : List A) (waiting woken : ℕ) → IfSome (λ r. r.q ≡ q) (expire (made q waiting woken))
  unfolding expire
  expire_lem q zero woken = tt
  expire_lem q (suc n) woken = refl

  pop_now_lem :
      (q : List A) (waiting woken : ℕ)
      → IfSome (λ r. r.0 ∷ r.1.q ≡ q) (pop_now (made q waiting woken))
  unfolding pop_now
  pop_now_lem [] waiting woken = tt
  pop_now_lem (obj ∷ q) waiting woken = refl

  -- What a step takes from the front joins what has been popped.
  joins :
      (pushed popped got q q' : List A)
      → popped ++ q ≡ pushed
      → got ++ q' ≡ q
      → (popped ++ got) ++ q' ≡ pushed
  joins pushed popped got q q' before step =
      append_assoc popped got q' ∙ ap (λ t. popped ++ t) step ∙ before

  -- However the steps of the threads follow on each other, the objects popped, and then those in the queue,
  -- are the objects pushed, in their order: each is popped once at most, and none is lost.
  pub popped-pushed :
      {pushed popped : List A} {s : Dispatch A} → Run A pushed popped s → popped ++ s.q ≡ pushed
  unfolding push_signal push
  popped-pushed start = refl
  popped-pushed (pushes {pushed} {popped} {s} obj r) =
      ap (λ t. popped ++ t) (signal_lem (s.q ++ obj ∷ []) s.waiting s.woken)
      ∙ sym (append_assoc popped s.q (obj ∷ []))
      ∙ ap (λ t. t ++ obj ∷ []) (popped-pushed r)
  popped-pushed (calls {pushed} {popped} {s} r) =
      joins pushed popped (taken (try_pop s).0) s.q (try_pop s).1.q (popped-pushed r)
        (try_pop_lem s.q s.waiting s.woken)
  popped-pushed (resumes {pushed} {popped} {s} got after r e) =
      joins pushed popped (taken got) s.q after.q (popped-pushed r)
        (subst (IfSome (λ t. taken t.0 ++ t.1.q ≡ s.q)) e (resume_lem s.q s.waiting s.woken))
  popped-pushed (wakes {pushed} {popped} {s} after r e) =
      ap (λ t. popped ++ t) (subst (IfSome (λ t. t.q ≡ s.q)) e (wake_lem s.q s.waiting s.woken))
      ∙ popped-pushed r
  popped-pushed (expires {pushed} {popped} {s} after r e) =
      ap (λ t. popped ++ t) (subst (IfSome (λ t. t.q ≡ s.q)) e (expire_lem s.q s.waiting s.woken))
      ∙ popped-pushed r
  popped-pushed (pops {pushed} {popped} {s} obj after r e) =
      joins pushed popped (obj ∷ []) s.q after.q (popped-pushed r)
        (subst (IfSome (λ t. t.0 ∷ t.1.q ≡ s.q)) e (pop_now_lem s.q s.waiting s.woken))
