-- ===== src/Pipes/Write/Tests.antt =====
-- A write that the pipe accepts in three pieces.
use secure_e_fax.Prelude.{◌≡◌, List, [], ◌∷◌, some, arith}
use secure_e_fax.Text.{codes}
use secure_e_fax.Outcome.{ok}
use secure_e_fax.Pipes.Write.{Answer, accepts, interrupted, write_blocking, write_blocking_lem}

abbrev answers : List Answer
answers = accepts 2 ∷ interrupted ∷ accepts 1 ∷ accepts 9 ∷ accepts 9 ∷ []

write_blocking_lem_example : write_blocking answers (codes "fax!") 0 [] ≡ ok (some 4, codes "fax!")
write_blocking_lem_example =
    write_blocking_lem answers (codes "fax!") 0 []
      (omega arith, (tt, (omega arith, (omega arith, (omega arith, tt))))) (omega arith)
      (omega arith)
