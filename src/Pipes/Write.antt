-- ===== src/Pipes/Write.antt =====
-- PipeFifo::write of utils/pipes.cpp on a blocking pipe: the loop over unix write(). Its results are a
-- sequence of answers, which are not code of the repository.
pub mod Tests
use Prim.Native.Nat.{min}
use secure_e_fax.Prelude.{
  ℕ, ◌+◌, ◌≤◌, ◌≡◌, refl, sym, ap, ◌∙◌, List, [], ◌∷◌, ◌++◌, Option, none, some, arith, ◌==◌,
  ==_iff, if◌then◌else◌, length, take, drop, suc, All, Bool-cases, inl, inr, append_assoc,
  take-append-drop, length-append, length-take, append-nil,
}
use secure_e_fax.Text.{Bytes}
use secure_e_fax.Outcome.{Outcome, ok, out_of_fuel}

-- write() accepts what there is room for, fails with EINTR, or fails otherwise.
pub data Answer : Type 0 where
  accepts : ℕ → Answer
  interrupted : Answer
  refused : Answer

-- The bytes that are left, the count of those written, and what has arrived in the pipe: the result,
-- `none` for -1, and what arrives. The loop waits while there is no answer.
unfoldable pub write_blocking : List Answer → Bytes → ℕ → Bytes → Outcome (Option ℕ × Bytes)
write_blocking [] buffer written arrived = out_of_fuel
write_blocking (accepts room ∷ answers) buffer written arrived =
    let result = min room (length buffer) in
    let rest =
      write_blocking answers (drop result buffer) (written + result)
        (arrived ++ take result buffer) in
    if length (drop result buffer) == 0
    then ok (some (written + result), arrived ++ take result buffer)
    else rest
write_blocking (interrupted ∷ answers) buffer written arrived =
    let rest = write_blocking answers buffer written arrived in
    if length buffer == 0 then ok (none, arrived) else rest
write_blocking (refused ∷ answers) buffer written arrived = ok (none, arrived)

-- The answers that accept something; none refuses.
abbrev pub IsProgress : Answer → Type 0
IsProgress (accepts room) = 1 ≤ room
IsProgress interrupted = Unit
IsProgress refused = ⊥

abbrev pub acceptances : List Answer → ℕ
acceptances [] = 0
acceptances (accepts room ∷ answers) = suc (acceptances answers)
acceptances (_ ∷ answers) = acceptances answers

nothing_left :
    (taken left buffer : Bytes) → taken ++ left ≡ buffer → length left ≡ 0 → taken ≡ buffer
nothing_left taken [] buffer e z = sym (append-nil taken) ∙ e
nothing_left taken (c ∷ left) buffer e z = absurd (omega arith)

abbrev returned : ℕ → Bytes → Outcome (Option ℕ × Bytes)
returned n arrived = ok (some n, arrived)

same_result : {m n : ℕ} {a b : Bytes} → m ≡ n → a ≡ b → returned m a ≡ returned n b
same_result e f = cc

-- Whatever the sizes of the pieces that write() accepts, and whenever it is interrupted, once it has
-- accepted as many pieces as there are bytes, of which there is one at least, and has not failed, the
-- loop has ended: all the bytes have arrived in their order behind what was there, and their number is
-- the result.
pub write_blocking_lem :
    (answers : List Answer) (buffer : Bytes) (written : ℕ) (arrived : Bytes)
    → All IsProgress answers
    → 1 ≤ length buffer
    → length buffer ≤ acceptances answers
    → write_blocking answers buffer written arrived
      ≡ ok (some (written + length buffer), arrived ++ buffer)
unfolding write_blocking
write_blocking_lem [] buffer written arrived p some_left enough = absurd (omega arith)
write_blocking_lem (refused ∷ answers) buffer written arrived p some_left enough = absurd p.0
write_blocking_lem (interrupted ∷ answers) buffer written arrived p some_left enough =
    ground (arith, write_blocking_lem answers buffer written arrived p.1 some_left enough)
write_blocking_lem (accepts room ∷ answers) buffer written arrived p some_left enough =
    let result = min room (length buffer) in
    let left = drop result buffer in
    let parts = take-append-drop result buffer in
    let sizes : length (take result buffer) + length left ≡ length buffer =
      sym (length-append (take result buffer) left) ∙ ap length parts in
    let first : length (take result buffer) ≡ result = length-take result buffer ∙ omega arith in
    elim (Bool-cases (length left == 0)) [
      | inl b ↦
          let none_left : length left ≡ 0 = (==_iff (length left) 0).0 b in
          rw b (
            same_result (omega arith) (
              ap (λ s. arrived ++ s)
                (nothing_left (take result buffer) left buffer parts none_left)))
      | inr b ↦
          let some_rest : 1 ≤ length left = ground arith in
          rw b (
            write_blocking_lem answers left (written + result) (arrived ++ take result buffer) p.1
              some_rest (omega arith)
            ∙ same_result (omega arith)
                (append_assoc arrived (take result buffer) left ∙ ap (λ s. arrived ++ s) parts))
    ]
