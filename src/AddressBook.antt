-- ===== src/AddressBook.antt =====
-- The address book: src/addressbook.cpp. The rows of the list store, the row that is selected and the
-- address file are the state; the file is none when it does not exist.
pub mod Saved
mod Lines
mod Moves
mod Tests
use secure_e_fax.Prelude.{
  ℕ, zero, suc, ◌-◌, List, [], ◌∷◌, ◌++◌, Bool, true, false, ◌||◌, Option, none, some,
  if◌then◌else◌, ◌==◌,
}
use secure_e_fax.Text.{Bytes}
use secure_e_fax.Text.Lines.{newline, get_lines}

-- Utf8::locale_from_utf8 and Utf8::locale_to_utf8; none is a Utf8::ConversionError.
pub record Locale : Type 0 where
  pub from_utf8 : Bytes → Option Bytes
  pub to_utf8 : Bytes → Option Bytes

-- A row. A text is none (a null pointer) when reading could not convert it.
pub record Row : Type 0 where
  pub name : Option Bytes
  pub number : Option Bytes

pub record Book : Type 0 where
  pub rows : List Row
  pub selected : Option ℕ
  pub file : Option Bytes
  pub result : Bytes

-- ADDRESS_DIVIDER
abbrev pub divider : ℕ
divider = 3

infixl 20 ◌>>=◌
-- The program goes on if it has not ended.
abbrev ◌>>=◌ : {A B : Type 0} → Option A → (A → Option B) → Option B
none >>= f = none
some a >>= f = f a

-- What save_list writes for a row. A std::string cannot be made of a null pointer, and then the program
-- ends: none.
unfoldable pub saved_row : Locale → Row → Option Bytes
saved_row l row = elim row.name [
  | none ↦ none
  | some name ↦ elim row.number [
    | none ↦ elim (l.from_utf8 name) [ none ↦ some (newline ∷ []) | some n ↦ none ]
    | some number ↦ elim (l.from_utf8 name) [
      | none ↦ some (newline ∷ [])
      | some n ↦ elim (l.from_utf8 number) [
        | none ↦ some (n ++ divider ∷ newline ∷ [])
        | some m ↦ some (n ++ divider ∷ (m ++ newline ∷ []))
      ]
    ]
  ]
]

unfoldable pub saved_rows : Locale → List Row → Option Bytes
unfolding saved_row
saved_rows l [] = some []
saved_rows l (row ∷ rows) = do line ← saved_row l row; rest ← saved_rows l rows; some (line ++ rest)

-- save_list; `can_open` is whether the file opens for writing. None if the program ends.
unfoldable pub save_list : Locale → Bool → Book → Option Book
unfolding saved_rows
save_list l can_open b =
    if can_open
    then (do
      text ← saved_rows l b.rows
      some (record { rows = b.rows; selected = b.selected; file = some text; result = b.result }))
    else some b

-- find: the text before the first divider, and the text behind it, if there is one.
unfoldable pub split_divider : Bytes → Bytes × Option Bytes
split_divider [] = ([], none)
split_divider (c ∷ s) =
    let rest = split_divider s in if c == divider then ([], some s) else (c ∷ rest.0, rest.1)

-- Without a divider pos is npos, and pos++ is 0.
abbrev number_part : Bytes → Option Bytes → Bytes
number_part line none = line
number_part line (some behind) = behind

unfoldable pub read_row : Locale → Bytes → Row
unfolding split_divider
read_row l line =
    let (before, behind) = split_divider line in
    record { name = l.to_utf8 before; number = l.to_utf8 (number_part line behind) }

unfoldable pub read_rows : Locale → List Bytes → List Row
unfolding read_row
read_rows l [] = []
read_rows l ([] ∷ lines) = read_rows l lines
read_rows l ((c ∷ s) ∷ lines) = read_row l (c ∷ s) ∷ read_rows l lines

-- read_list. The selection is cleared with the rows.
unfoldable pub read_list : Locale → Book → Book
unfolding read_rows get_lines
read_list l b = elim b.file [
  | none ↦ b
  | some text ↦ record {
    rows = read_rows l (get_lines text);
    selected = none;
    file = b.file;
    result = b.result;
  }
]

unfoldable pub row_at : List Row → Option ℕ → Option Row
row_at rows none = none
row_at [] (some i) = none
row_at (row ∷ rows) (some zero) = some row
row_at (row ∷ rows) (some (suc i)) = row_at rows (some i)

unfoldable pub remove_at : ℕ → List Row → List Row
remove_at i [] = []
remove_at zero (row ∷ rows) = rows
remove_at (suc i) (row ∷ rows) = row ∷ remove_at i rows

-- The values of a row and of the next are exchanged; none if there is no next.
unfoldable pub swap_at : ℕ → List Row → Option (List Row)
swap_at i [] = none
swap_at zero (x ∷ []) = none
swap_at zero (x ∷ y ∷ rows) = some (y ∷ x ∷ rows)
swap_at (suc i) (x ∷ rows) = do swapped ← swap_at i rows; some (x ∷ swapped)

-- add_address_impl
unfoldable pub add_address : Locale → Bool → Bytes → Bytes → Book → Option Book
unfolding save_list
add_address l can_open name number b = save_list l can_open (record {
  rows = b.rows ++ record { name = some name; number = some number } ∷ [];
  selected = b.selected;
  file = b.file;
  result = b.result;
})

-- AddressDialog::selected_impl, with the signal `accepted`, which calls add_address_impl
unfoldable pub accept_address : Locale → Bool → Bytes → Bytes → Book → Option Book
unfolding add_address
accept_address l can_open [] number b = some b
accept_address l can_open (c ∷ name) [] b = some b
accept_address l can_open (c ∷ name) (d ∷ number) b =
    add_address l can_open (c ∷ name) (d ∷ number) b

-- delete_address_impl; `next` is the row that GTK selects when the selected one is removed.
unfoldable pub delete_address : Locale → Bool → Option ℕ → Book → Option Book
unfolding save_list remove_at
delete_address l can_open next b = elim b.selected [
  | none ↦ some b
  | some i ↦
      save_list l can_open
        (record { rows = remove_at i b.rows; selected = next; file = b.file; result = b.result })
]

-- The part that move_up_impl and move_down_impl share: the rows i and i + 1, and the row selected then.
unfoldable pub move_rows : Locale → Bool → ℕ → ℕ → Book → Option Book
unfolding swap_at save_list
move_rows l can_open i then_selected b = elim (swap_at i b.rows) [
  | none ↦ some b
  | some swapped ↦
      save_list l can_open
        (record { rows = swapped; selected = some then_selected; file = b.file; result = b.result })
]

-- move_up_impl
unfoldable pub move_up : Locale → Bool → Book → Option Book
unfolding move_rows
move_up l can_open b = elim b.selected [
  | none ↦ some b
  | some zero ↦ some b
  | some (suc i) ↦ move_rows l can_open i i b
]

-- move_down_impl
unfoldable pub move_down : Locale → Bool → Book → Option Book
unfolding move_rows
move_down l can_open b = elim b.selected [
  | none ↦ some b
  | some i ↦ move_rows l can_open i (suc i) b
]

-- addr_book_drag_n_drop, when GTK has moved a row that was dragged and left these rows
unfoldable pub drag_n_drop : Locale → Bool → List Row → Book → Option Book
unfolding save_list
drag_n_drop l can_open rows b =
    save_list l can_open
      (record { rows = rows; selected = b.selected; file = b.file; result = b.result })

-- get_number
abbrev get_number : Book → Option Bytes
get_number b = elim (row_at b.rows b.selected) [ none ↦ none | some row ↦ row.number ]

-- The result of ok_impl.
abbrev chosen : Book → Option Bytes → Bytes
chosen b none = b.result
chosen b (some number) = number

abbrev is_chosen : Bytes → Bool
is_chosen [] = false
is_chosen (c ∷ s) = true

-- ok_impl: the book, and whether `accepted` was emitted, with its result.
unfoldable pub ok_impl : Book → Book × Bool
unfolding row_at
ok_impl b =
    let result = chosen b (get_number b) in
    (
      record { rows = b.rows; selected = b.selected; file = b.file; result = result },
      is_chosen result,
    )

-- on_delete_event, and the cancel button
unfoldable pub on_delete_event : Book → Book
on_delete_event b = record { rows = b.rows; selected = b.selected; file = b.file; result = [] }
