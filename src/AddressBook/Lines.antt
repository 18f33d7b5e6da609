-- ===== src/AddressBook/Lines.antt =====
-- The lines of the address file of src/addressbook.cpp.
use secure_e_fax.Prelude.{
  ℕ, ◌≡◌, refl, sym, ap, ◌∙◌, List, [], ◌∷◌, ◌++◌, false, some, ◌==◌, All, All-append, append_assoc,
}
use secure_e_fax.Text.{Bytes}
use secure_e_fax.Text.Lines.{newline, get_lines, Without, get_lines-append}
use secure_e_fax.AddressBook.{
  Locale, Row, divider, saved_row, saved_rows, split_divider, read_row, read_rows,
}

-- A row that can be saved: both texts are there, are converted and back, have no line end, and the name has
-- no divider.
pub record IsRow (l : Locale) (row : Row) : Type 0 where
  pub name_text : Bytes
  pub number_text : Bytes
  pub saved_name : Bytes
  pub saved_number : Bytes
  pub has_name : row.name ≡ some name_text
  pub has_number : row.number ≡ some number_text
  pub writes_name : l.from_utf8 name_text ≡ some saved_name
  pub writes_number : l.from_utf8 number_text ≡ some saved_number
  pub reads_name : l.to_utf8 saved_name ≡ some name_text
  pub reads_number : l.to_utf8 saved_number ≡ some number_text
  pub one_name : Without newline saved_name
  pub one_number : Without newline saved_number
  pub no_divider : Without divider saved_name

split_divider-append :
    (s rest : Bytes) → Without divider s → split_divider (s ++ divider ∷ rest) ≡ (s, some rest)
unfolding split_divider
split_divider-append [] rest w = refl
split_divider-append (c ∷ s) rest (e, w) = rw (e, split_divider-append s rest w) refl

saved_row_lem :
    (l : Locale) (row : Row) (r : IsRow l row)
    → saved_row l row ≡ some (r.saved_name ++ divider ∷ (r.saved_number ++ newline ∷ []))
unfolding saved_row
saved_row_lem l row r =
    rw (saved_row, r.has_name, r.has_number, r.writes_name, r.writes_number) refl

read_row_lem :
    (l : Locale) (row : Row) (r : IsRow l row)
    → read_row l (r.saved_name ++ divider ∷ r.saved_number) ≡ row
unfolding read_row
read_row_lem l row r =
    rw
      (
        read_row,
        split_divider-append r.saved_name r.saved_number r.no_divider,
        r.reads_name,
        r.reads_number,
        sym r.has_name,
        sym r.has_number,
      )
      refl

read_rows_full :
    (l : Locale) (s t : Bytes) (d : ℕ) (lines : List Bytes)
    → read_rows l ((s ++ d ∷ t) ∷ lines) ≡ read_row l (s ++ d ∷ t) ∷ read_rows l lines
unfolding read_rows
read_rows_full l [] t d lines = refl
read_rows_full l (c ∷ s) t d lines = refl

-- Rows that can be saved are read back.
pub read_rows-saved_rows :
    (l : Locale) (rows : List Row)
    → All (IsRow l) rows
    → (text : Bytes) × (saved_rows l rows ≡ some text) × (read_rows l (get_lines text) ≡ rows)
unfolding saved_rows read_rows get_lines
read_rows-saved_rows l [] all = ([], refl, refl)
read_rows-saved_rows l (row ∷ rows) (r, all) =
    let (text, written, read) = read_rows-saved_rows l rows all in
    let line = r.saved_name ++ divider ∷ r.saved_number in
    let one : Without newline line =
      All-append (λ c. c == newline ≡ false) r.saved_name (divider ∷ r.saved_number) r.one_name
        (refl, r.one_number) in
    let whole : (r.saved_name ++ divider ∷ (r.saved_number ++ newline ∷ [])) ++ text
        ≡ line ++ newline ∷ text =
      append_assoc r.saved_name (divider ∷ (r.saved_number ++ newline ∷ [])) text
      ∙ ap (λ t. r.saved_name ++ divider ∷ t) (append_assoc r.saved_number (newline ∷ []) text)
      ∙ sym (append_assoc r.saved_name (divider ∷ r.saved_number) (newline ∷ text)) in
    (
      line ++ newline ∷ text,
      rw (saved_row_lem l row r, written) (ap some whole),
      rw
          (
            get_lines-append line text one,
            read_rows_full l r.saved_name r.saved_number divider (get_lines text),
            read_row_lem l row r,
            read,
          )
          refl,
    )
