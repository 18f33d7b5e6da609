-- ===== src/AddressBook/Saved.antt =====
-- The address file of src/addressbook.cpp against the rows that are shown, over the user's actions.
use mathlib.Core.Path.{subst}
use secure_e_fax.Prelude.{
  ℕ, zero, suc, ◌<◌, ◌≡◌, refl, List, [], ◌∷◌, ◌++◌, true, Option, some, All, All-append,
  Option-cases, IfSome, inl, inr, length, arith,
}
use secure_e_fax.Text.{Bytes}
use secure_e_fax.Text.Lines.{get_lines}
use secure_e_fax.AddressBook.{
  Locale, Row, Book, ◌>>=◌, read_rows, save_list, read_list, remove_at, swap_at, add_address,
  accept_address, delete_address, move_rows, move_up, move_down, drag_n_drop, ok_impl,
  on_delete_event,
}
use secure_e_fax.AddressBook.Lines.{IsRow, read_rows-saved_rows}
use secure_e_fax.AddressBook.Moves.{swap_at-All, swap_at-swap_at, swap_at-some, remove_at-All}

-- What the user does; `choose` is any change of the selection.
pub data Action : Type 0 where
  accept : Bytes → Bytes → Action
  delete : Option ℕ → Action
  up down ok shut : Action
  choose : Option ℕ → Action
  drag : List Row → Action

unfoldable pub act : Locale → Action → Book → Option Book
unfolding accept_address drag_n_drop delete_address move_up move_down ok_impl on_delete_event
act l (accept name number) b = accept_address l true name number b
act l (delete next) b = delete_address l true next b
act l up b = move_up l true b
act l down b = move_down l true b
act l (drag rows) b = drag_n_drop l true rows b
act l ok b = some (ok_impl b).0
act l shut b = some (on_delete_event b)
act l (choose next) b =
    some (record { rows = b.rows; selected = next; file = b.file; result = b.result })

unfoldable pub acts : Locale → List Action → Book → Option Book
unfolding act
acts l [] b = some b
acts l (a ∷ rest) b = act l a b >>= acts l rest

-- The file stands for the rows.
pub record IsSaved (l : Locale) (b : Book) : Type 0 where
  pub text : Bytes
  pub on_disk : b.file ≡ some text
  pub sound : All (IsRow l) b.rows
  pub same : read_rows l (get_lines text) ≡ b.rows

-- An address that is entered can be saved, and so can the rows behind a drag.
abbrev pub IsEntered : Locale → Action → Type 0
IsEntered l (accept name number) = IsRow l (record { name = some name; number = some number })
IsEntered l (drag rows) = All (IsRow l) rows
IsEntered l (delete next) = Unit
IsEntered l up = Unit
IsEntered l down = Unit
IsEntered l ok = Unit
IsEntered l shut = Unit
IsEntered l (choose next) = Unit

-- The program goes on, with a file that stands for its rows.
abbrev Keeps : Locale → Option Book → Type 0
Keeps l end = (b : Book) × (end ≡ some b) × IsSaved l b

save_list-Keeps : (l : Locale) (b : Book) → All (IsRow l) b.rows → Keeps l (save_list l true b)
unfolding save_list
save_list-Keeps l b sound =
    let (text, written, read) = read_rows-saved_rows l b.rows sound in
    (
      record { rows = b.rows; selected = b.selected; file = some text; result = b.result },
      rw (save_list, written) refl,
      record { text = text; on_disk = refl; sound = sound; same = read },
    )

move_rows-Keeps : (l : Locale) (i j : ℕ) (b : Book) → IsSaved l b → Keeps l (move_rows l true i j b)
unfolding move_rows
move_rows-Keeps l i j b s = elim (Option-cases (swap_at i b.rows)) [
  | inl e ↦ (b, rw (move_rows, e) refl, s)
  | inr (swapped, e) ↦
      let sound = subst (IfSome (All (IsRow l))) e (swap_at-All (IsRow l) i b.rows s.sound) in
      rw (move_rows, e)
        (save_list-Keeps l
          (record { rows = swapped; selected = some j; file = b.file; result = b.result }) sound)
]

act-Keeps : (l : Locale) (a : Action) (b : Book) → IsEntered l a → IsSaved l b → Keeps l (act l a b)
unfolding act drag_n_drop accept_address add_address delete_address move_up move_down ok_impl
    on_delete_event
act-Keeps l (accept [] number) b e s = (b, refl, s)
act-Keeps l (accept (c ∷ name) []) b e s = (b, refl, s)
act-Keeps l (accept (c ∷ name) (d ∷ number)) b e s =
    let row : Row = record { name = some (c ∷ name); number = some (d ∷ number) } in
    save_list-Keeps l
      (record {
        rows = b.rows ++ row ∷ [];
        selected = b.selected;
        file = b.file;
        result = b.result;
      })
      (All-append (IsRow l) b.rows (row ∷ []) s.sound (e, tt))
act-Keeps l (delete next) b e s = elim (Option-cases b.selected) [
  | inl n ↦ (b, ground arith, s)
  | inr (i, n) ↦
      rw (delete_address, n)
        (save_list-Keeps l
          (record { rows = remove_at i b.rows; selected = next; file = b.file; result = b.result })
          (remove_at-All (IsRow l) i b.rows s.sound))
]
act-Keeps l up b e s = elim (Option-cases b.selected) [
  | inl n ↦ (b, ground arith, s)
  | inr (zero, n) ↦ (b, ground arith, s)
  | inr (suc i, n) ↦ rw (move_up, n) (move_rows-Keeps l i i b s)
]
act-Keeps l down b e s = elim (Option-cases b.selected) [
  | inl n ↦ (b, ground arith, s)
  | inr (i, n) ↦ rw (move_down, n) (move_rows-Keeps l i (suc i) b s)
]
act-Keeps l (drag rows) b e s =
    save_list-Keeps l
      (record { rows = rows; selected = b.selected; file = b.file; result = b.result }) e
act-Keeps l ok b e s = (
  (ok_impl b).0,
  refl,
  record { text = s.text; on_disk = s.on_disk; sound = s.sound; same = s.same },
)
act-Keeps l shut b e s = (
  on_delete_event b,
  refl,
  record { text = s.text; on_disk = s.on_disk; sound = s.sound; same = s.same },
)
act-Keeps l (choose next) b e s = (
  record { rows = b.rows; selected = next; file = b.file; result = b.result },
  refl,
  record { text = s.text; on_disk = s.on_disk; sound = s.sound; same = s.same },
)

acts-Keeps :
    (l : Locale) (as_done : List Action) (b : Book)
    → All (IsEntered l) as_done
    → IsSaved l b
    → Keeps l (acts l as_done b)
unfolding acts
acts-Keeps l [] b e s = (b, refl, s)
acts-Keeps l (a ∷ rest) b (e, all) s =
    let (next, went, kept) = act-Keeps l a b e s in rw went (acts-Keeps l rest next all kept)

read_list_lem : (l : Locale) (b : Book) → IsSaved l b → (read_list l b).rows ≡ b.rows
unfolding read_list
read_list_lem l b s = rw (read_list, s.on_disk) s.same

-- Whatever the user does (addresses are entered, the selected one is deleted or moved, rows are dragged, any
-- row is selected, the window is closed), the program goes on, and to read the address file again gives the rows that are shown.
-- At the start the file stands for the rows, each file that is written opens, and each address that is
-- entered or dragged has texts that are converted to the locale and back, without line ends, and without the divider in the name.
pub acts-read_list :
    (l : Locale) (done : List Action) (b : Book)
    → IsSaved l b
    → All (IsEntered l) done
    → (after : Book) × (acts l done b ≡ some after) × ((read_list l after).rows ≡ after.rows)
acts-read_list l done b s e =
    let (after, went, kept) = acts-Keeps l done b e s in (after, went, read_list_lem l after kept)

move_rows_moved :
    (l : Locale) (i j : ℕ) (b : Book) (swapped : List Row)
    → IsSaved l b
    → swap_at i b.rows ≡ some swapped
    → (after : Book) × (move_rows l true i j b ≡ some after)
      × ((after.rows ≡ swapped) × ((after.selected ≡ some j) × IsSaved l after))
unfolding move_rows save_list
move_rows_moved l i j b swapped s e =
    let sound = subst (IfSome (All (IsRow l))) e (swap_at-All (IsRow l) i b.rows s.sound) in
    let (text, written, read) = read_rows-saved_rows l swapped sound in
    (
      record { rows = swapped; selected = some j; file = some text; result = b.result },
      rw (move_rows, e, save_list, written) refl,
      (refl, (refl, record { text = text; on_disk = refl; sound = sound; same = read })),
    )

-- When the selected row is not the first, to move it up and then down again leaves the rows and the selection
-- as they were, and between the two the row has exchanged its place with the one above it. The file stands
-- for the rows at the start, and opens for writing.
pub move_down-move_up :
    (l : Locale) (b : Book) (i : ℕ)
    → IsSaved l b
    → b.selected ≡ some (suc i)
    → suc i < length b.rows
    → (between after : Book) × (move_up l true b ≡ some between)
      × (move_down l true between ≡ some after)
      × (swap_at i b.rows ≡ some between.rows)
      × (after.rows ≡ b.rows)
      × (after.selected ≡ b.selected)
unfolding move_up move_down
move_down-move_up l b i s selected few =
    let (swapped, e) = swap_at-some i b.rows few in
    let (between, up_to, (rows_up, (now, kept))) = move_rows_moved l i i b swapped s e in
    let back = subst (IfSome (λ t. swap_at i t ≡ some b.rows)) e (swap_at-swap_at i b.rows) in
    let (after, down_to, (rows_down, (last, kept_again))) =
      move_rows_moved l i (suc i) between b.rows kept (rw rows_up back) in
    (
      between,
      after,
      rw (move_up, selected) up_to,
      rw (move_down, now) down_to,
      rw (e, rows_up) refl,
      rows_down,
      rw (last, selected) refl,
    )
