-- ===== src/AsyncQueue/Tests.antt =====
-- The queue with two threads that wait when an object is pushed.
use secure_e_fax.Prelude.{ℕ, ◌≡◌, ◌≤◌, ◌++◌, [], ◌∷◌, some, length, arith}
use secure_e_fax.AsyncQueue.{
  Dispatch, Run, start, pushes, calls, push, push_signal, signal, try_pop, resume,
}
use secure_e_fax.AsyncQueue.Order.{popped-pushed}
use secure_e_fax.AsyncQueue.Wakes.{Run-woken}

abbrev before : Dispatch ℕ
before = record { q = 7 ∷ []; waiting = 1; woken = 1 }

before-Run : Run ℕ (7 ∷ []) [] before
unfolding push_signal push signal try_pop
before-Run = pushes 7 (calls (calls start))

popped-pushed_example : [] ++ before.q ≡ 7 ∷ []
popped-pushed_example = popped-pushed before-Run

Run-woken_example :
    (length before.q ≤ before.woken)
    × ((obj : ℕ) × (after : Dispatch ℕ) × (resume before ≡ some (some obj, after))
        × (before.q ≡ obj ∷ after.q))
Run-woken_example = Run-woken before-Run (λ e. omega arith) (λ e. ground arith)
