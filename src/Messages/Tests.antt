-- ===== src/Messages/Tests.antt =====
-- The messages of efax.
use secure_e_fax.Prelude.{◌≡◌, refl, ◌∷◌, ◌++◌}
use secure_e_fax.Text.{codes}
use secure_e_fax.Messages.{
  newline, cleanify, clean_loop, next_chunk, is_erased, contains, starts_with,
}
use secure_e_fax.Messages.Lines.{kept_lines, lines_of, cleanify-lines_of}

cleanify-lines_of_example :
    cleanify (codes "on" ++ newline ∷ codes "terminating on signal 15" ++ newline ∷ codes "off")
    ≡ kept_lines (
        lines_of
          (codes "on" ++ newline ∷ codes "terminating on signal 15" ++ newline ∷ codes "off"))
cleanify-lines_of_example =
    cleanify-lines_of
      (codes "on" ++ newline ∷ codes "terminating on signal 15" ++ newline ∷ codes "off")

cleanify_test :
    cleanify (codes "on" ++ newline ∷ codes "terminating on signal 15" ++ newline ∷ codes "off")
    ≡ codes "on" ++ newline ∷ codes "off"
unfolding cleanify clean_loop next_chunk is_erased contains starts_with
cleanify_test = refl
