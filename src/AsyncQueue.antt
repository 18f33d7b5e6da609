-- ===== src/AsyncQueue.antt =====
-- The queues between threads: src/utils/async_queue.h (AsyncQueue and AsyncQueueDispatch). Each operation
-- holds the mutex, but for the waits of pop_dispatch and pop_timed_dispatch, which are two steps.
pub mod Order
pub mod Wakes
mod Tests
use secure_e_fax.Prelude.{
  ℕ, ◌≡◌, zero, suc, List, [], ◌∷◌, ◌++◌, Bool, true, false, Option, none, some,
}

-- AsyncQueue, as its list: push
unfoldable pub push {ℓ} : {A : Type ℓ} → A → List A → List A
push obj q = q ++ obj ∷ []

-- Its pop(obj); none is AsyncQueuePopError.
unfoldable pub pop {ℓ} : {A : Type ℓ} → List A → Option (A × List A)
pop [] = none
pop (obj ∷ q) = some (obj, q)

-- Its pop(void), which discards the object
unfoldable pub discard {ℓ} : {A : Type ℓ} → List A → Option (List A)
discard [] = none
discard (obj ∷ q) = some q

abbrev pub is_empty {ℓ} : {A : Type ℓ} → List A → Bool
is_empty [] = true
is_empty (obj ∷ q) = false

-- AsyncQueueDispatch: the objects, the number of threads that wait on the condition, and the number of those
-- that have been woken and wait for the mutex.
pub record Dispatch {ℓ} (A : Type ℓ) : Type ℓ where
  pub q : List A
  pub waiting : ℕ
  pub woken : ℕ

-- cond.signal(): one of the threads that wait is woken, if there is one.
unfoldable pub signal {ℓ} : {A : Type ℓ} → Dispatch A → Dispatch A
signal s = elim s.waiting [
  | zero ↦ s
  | suc n ↦ record { q = s.q; waiting = n; woken = suc s.woken }
]

-- push
unfoldable pub push_signal {ℓ} : {A : Type ℓ} → A → Dispatch A → Dispatch A
unfolding push signal
push_signal obj s = signal (record { q = push obj s.q; waiting = s.waiting; woken = s.woken })

-- The test of `while (q.empty())` and what follows, for a thread that holds the mutex: the object, or none
-- when the thread waits.
unfoldable pub try_pop {ℓ} : {A : Type ℓ} → Dispatch A → Option A × Dispatch A
try_pop s = elim s.q [
  | [] ↦ (none, record { q = []; waiting = suc s.waiting; woken = s.woken })
  | obj ∷ q ↦ (some obj, record { q = q; waiting = s.waiting; woken = s.woken })
]

-- wait() or timed_wait() has returned without a timeout, and the thread tests again. None if no thread has
-- been woken.
unfoldable pub resume {ℓ} : {A : Type ℓ} → Dispatch A → Option (Option A × Dispatch A)
unfolding try_pop
resume s = elim s.woken [
  | zero ↦ none
  | suc n ↦ some (try_pop (record { q = s.q; waiting = s.waiting; woken = n }))
]

-- A thread wakes that nobody has signalled.
unfoldable pub wake {ℓ} : {A : Type ℓ} → Dispatch A → Option (Dispatch A)
wake s = elim s.waiting [
  | zero ↦ none
  | suc n ↦ some (record { q = s.q; waiting = n; woken = suc s.woken })
]

-- timed_wait() has timed out, and pop_timed_dispatch returns true.
unfoldable pub expire {ℓ} : {A : Type ℓ} → Dispatch A → Option (Dispatch A)
expire s = elim s.waiting [
  | zero ↦ none
  | suc n ↦ some (record { q = s.q; waiting = n; woken = s.woken })
]

-- pop(obj), which does not wait.
unfoldable pub pop_now {ℓ} : {A : Type ℓ} → Dispatch A → Option (A × Dispatch A)
pop_now s = elim s.q [
  | [] ↦ none
  | obj ∷ q ↦ some (obj, record { q = q; waiting = s.waiting; woken = s.woken })
]

-- The object of a step that may have one.
abbrev pub taken {ℓ} : {A : Type ℓ} → Option A → List A
taken none = []
taken (some obj) = obj ∷ []

-- The steps of any number of threads, with the objects pushed and those popped, each in their order.
pub data Run {ℓ} (A : Type ℓ) : List A → List A → Dispatch A → Type ℓ where
  start : Run A [] [] (record { q = []; waiting = 0; woken = 0 })
  pushes :
      {pushed popped : List A} {s : Dispatch A} (obj : A)
      → Run A pushed popped s
      → Run A (pushed ++ obj ∷ []) popped (push_signal obj s)
  -- pop_dispatch or pop_timed_dispatch is called.
  calls :
      {pushed popped : List A} {s : Dispatch A}
      → Run A pushed popped s
      → Run A pushed (popped ++ taken (try_pop s).0) (try_pop s).1
  resumes :
      {pushed popped : List A} {s : Dispatch A} (got : Option A) (after : Dispatch A)
      → Run A pushed popped s
      → resume s ≡ some (got, after)
      → Run A pushed (popped ++ taken got) after
  wakes :
      {pushed popped : List A} {s : Dispatch A} (after : Dispatch A)
      → Run A pushed popped s
      → wake s ≡ some after
      → Run A pushed popped after
  expires :
      {pushed popped : List A} {s : Dispatch A} (after : Dispatch A)
      → Run A pushed popped s
      → expire s ≡ some after
      → Run A pushed popped after
  -- pop(obj), or pop(void).
  pops :
      {pushed popped : List A} {s : Dispatch A} (obj : A) (after : Dispatch A)
      → Run A pushed popped s
      → pop_now s ≡ some (obj, after)
      → Run A pushed (popped ++ obj ∷ []) after
