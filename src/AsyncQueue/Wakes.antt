-- ===== src/AsyncQueue/Wakes.antt =====
-- The wake-ups of AsyncQueueDispatch of src/utils/async_queue.h.
use mathlib.Core.Path.{subst}
use secure_e_fax.Prelude.{
  ℕ, ◌≡◌, ◌≢◌, ◌≤◌, ◌⊎◌, inl, inr, zero, suc, refl, List, [], ◌∷◌, some, IfSome, length,
  length-append, arith,
}
use secure_e_fax.AsyncQueue.{
  Dispatch, Run, start, pushes, calls, resumes, wakes, expires, pops, push, push_signal, signal,
  try_pop, resume, wake, expire, pop_now,
}

-- While a thread waits on the condition, as many threads have been woken as there are objects.
abbrev Covered {ℓ} : {A : Type ℓ} → Dispatch A → Type 0
Covered s = (s.waiting ≡ 0) ⊎ (length s.q ≤ s.woken)

module _ {ℓ} {A : Type ℓ} where
  abbrev made : List A → ℕ → ℕ → Dispatch A
  made q waiting woken = record { q = q; waiting = waiting; woken = woken }

  push_signal-Covered :
      (q : List A) (waiting woken : ℕ) (obj : A)
      → Covered (made q waiting woken)
      → Covered (push_signal obj (made q waiting woken))
  unfolding push_signal push signal
  push_signal-Covered q zero woken obj c = inl refl
  push_signal-Covered q (suc n) woken obj c = ground (arith, length-append q (obj ∷ []))

  try_pop-Covered :
      (q : List A) (waiting woken : ℕ)
      → Covered (made q waiting woken)
      → Covered (try_pop (made q waiting woken)).1
  unfolding try_pop
  try_pop-Covered [] waiting woken c = inr (omega arith)
  try_pop-Covered (obj ∷ q) waiting woken c = ground arith

  resume-Covered :
      (q : List A) (waiting woken : ℕ)
      → Covered (made q waiting woken)
      → IfSome (λ r. Covered r.1) (resume (made q waiting woken))
  unfolding resume try_pop
  resume-Covered q waiting zero c = tt
  resume-Covered [] waiting (suc n) c = inr (omega arith)
  resume-Covered (obj ∷ q) waiting (suc n) c = ground arith

  wake-Covered :
      (q : List A) (waiting woken : ℕ)
      → Covered (made q waiting woken)
      → IfSome Covered (wake (made q waiting woken))
  unfolding wake
  wake-Covered q zero woken c = tt
  wake-Covered q (suc n) woken c = ground arith

  expire-Covered :
      (q : List A) (waiting woken : ℕ)
      → Covered (made q waiting woken)
      → IfSome Covered (expire (made q waiting woken))
  unfolding expire
  expire-Covered q zero woken c = tt
  expire-Covered q (suc n) woken c = ground arith

  pop_now-Covered :
      (q : List A) (waiting woken : ℕ)
      → Covered (made q waiting woken)
      → IfSome (λ r. Covered r.1) (pop_now (made q waiting woken))
  unfolding pop_now
  pop_now-Covered [] waiting woken c = tt
  pop_now-Covered (obj ∷ q) waiting woken c = ground arith

  Run-Covered : {pushed popped : List A} {s : Dispatch A} → Run A pushed popped s → Covered s
  Run-Covered start = inl refl
  Run-Covered (pushes {pushed} {popped} {s} obj r) =
      push_signal-Covered s.q s.waiting s.woken obj (Run-Covered r)
  Run-Covered (calls {pushed} {popped} {s} r) =
      try_pop-Covered s.q s.waiting s.woken (Run-Covered r)
  Run-Covered (resumes {pushed} {popped} {s} got after r e) =
      subst (IfSome (λ t. Covered t.1)) e (resume-Covered s.q s.waiting s.woken (Run-Covered r))
  Run-Covered (wakes {pushed} {popped} {s} after r e) =
      subst (IfSome Covered) e (wake-Covered s.q s.waiting s.woken (Run-Covered r))
  Run-Covered (expires {pushed} {popped} {s} after r e) =
      subst (IfSome Covered) e (expire-Covered s.q s.waiting s.woken (Run-Covered r))
  Run-Covered (pops {pushed} {popped} {s} obj after r e) =
      subst (IfSome (λ t. Covered t.1)) e (pop_now-Covered s.q s.waiting s.woken (Run-Covered r))

  resumed :
      (q : List A) (waiting woken : ℕ)
      → waiting ≢ 0
      → q ≢ []
      → Covered (made q waiting woken)
      → (obj : A) × (after : Dispatch A) × (resume (made q waiting woken) ≡ some (some obj, after))
        × (q ≡ obj ∷ after.q)
  unfolding resume try_pop
  resumed [] waiting woken waits full c = absurd (full refl)
  resumed (obj ∷ q) waiting zero waits full c = absurd (ground arith)
  resumed (obj ∷ q) waiting (suc n) waits full c = (obj, made q waiting n, refl, refl)

  -- No wake-up is lost: whenever a thread waits on the condition while the queue has objects, another has been
  -- woken for each of these objects, and when it gets the mutex it pops the first.
  pub Run-woken :
      {pushed popped : List A} {s : Dispatch A}
      → Run A pushed popped s
      → s.waiting ≢ 0
      → s.q ≢ []
      → (length s.q ≤ s.woken)
        × ((obj : A) × (after : Dispatch A) × (resume s ≡ some (some obj, after))
            × (s.q ≡ obj ∷ after.q))
  Run-woken {s = s} r waits full =
      (ground (arith, Run-Covered r), resumed s.q s.waiting s.woken waits full (Run-Covered r))
