-- ===== src/AddressBook/Tests.antt =====
-- The address book on concrete rows.
use secure_e_fax.Prelude.{◌≡◌, refl, [], ◌∷◌, none, some, true, arith}
use secure_e_fax.Text.{codes}
use secure_e_fax.Text.Lines.{get_lines}
use secure_e_fax.AddressBook.{
  Locale, Row, Book, read_list, read_row, read_rows, split_divider, move_up, move_down, swap_at,
  saved_row,
}
use secure_e_fax.AddressBook.Lines.{IsRow}
use secure_e_fax.AddressBook.Saved.{
  accept, delete, up, ok, acts, IsSaved, acts-read_list, move_down-move_up,
}

abbrev utf8 : Locale
utf8 = record { from_utf8 = some; to_utf8 = some }

abbrev ann : Row
ann = record { name = some (codes "Ann"); number = some (codes "12") }

abbrev bob : Row
bob = record { name = some (codes "Bo"); number = some (codes "9") }

ann-IsRow : IsRow utf8 ann
ann-IsRow = record {
  name_text = codes "Ann";
  number_text = codes "12";
  saved_name = codes "Ann";
  saved_number = codes "12";
  has_name = refl;
  has_number = refl;
  writes_name = refl;
  writes_number = refl;
  reads_name = refl;
  reads_number = refl;
  one_name = (refl, (refl, (refl, tt)));
  one_number = (refl, (refl, tt));
  no_divider = (refl, (refl, (refl, tt)));
}

bob-IsRow : IsRow utf8 bob
bob-IsRow = record {
  name_text = codes "Bo";
  number_text = codes "9";
  saved_name = codes "Bo";
  saved_number = codes "9";
  has_name = refl;
  has_number = refl;
  writes_name = refl;
  writes_number = refl;
  reads_name = refl;
  reads_number = refl;
  one_name = (refl, (refl, tt));
  one_number = (refl, tt);
  no_divider = (refl, (refl, tt));
}

abbrev two_rows : Book
two_rows = record {
  rows = ann ∷ bob ∷ [];
  selected = some 1;
  file = some (b'A' ∷ b'n' ∷ b'n' ∷ 3 ∷ b'1' ∷ b'2' ∷ 10 ∷ b'B' ∷ b'o' ∷ 3 ∷ b'9' ∷ 10 ∷ []);
  result = [];
}

two_rows-IsSaved : IsSaved utf8 two_rows
unfolding read_rows read_row get_lines split_divider
two_rows-IsSaved = record {
  text = b'A' ∷ b'n' ∷ b'n' ∷ 3 ∷ b'1' ∷ b'2' ∷ 10 ∷ b'B' ∷ b'o' ∷ 3 ∷ b'9' ∷ 10 ∷ [];
  on_disk = refl;
  sound = (ann-IsRow, (bob-IsRow, tt));
  same = refl;
}

acts-read_list_example :
    (after : Book) × (acts utf8
        (up ∷ accept (codes "Ann") (codes "12") ∷ ok ∷ delete none ∷ [])
        two_rows
      ≡ some after)
    × ((read_list utf8 after).rows ≡ after.rows)
acts-read_list_example =
    acts-read_list utf8 (up ∷ accept (codes "Ann") (codes "12") ∷ ok ∷ delete none ∷ []) two_rows
      two_rows-IsSaved (tt, (ann-IsRow, (tt, (tt, tt))))

move_down-move_up_example :
    (between after : Book) × (move_up utf8 true two_rows ≡ some between)
    × (move_down utf8 true between ≡ some after)
    × (swap_at 0 (ann ∷ bob ∷ []) ≡ some between.rows)
    × (after.rows ≡ ann ∷ bob ∷ [])
    × (after.selected ≡ some 1)
move_down-move_up_example = move_down-move_up utf8 two_rows 0 two_rows-IsSaved refl (omega arith)

-- A line without a divider is read with itself as the number.
read_row_test :
    read_row utf8 (codes "ab") ≡ record { name = some (codes "ab"); number = some (codes "ab") }
unfolding read_row split_divider
read_row_test = refl

-- A name that could not be read ends the program when the list is saved.
saved_row_test : saved_row utf8 (record { name = none; number = some (codes "9") }) ≡ none
unfolding saved_row
saved_row_test = refl
