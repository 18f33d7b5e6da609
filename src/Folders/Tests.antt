-- ===== src/Folders/Tests.antt =====
-- Folders of received faxes.
use secure_e_fax.Prelude.{◌≡◌, refl, List, [], ◌∷◌, ◌++◌, true, false, ◌||◌}
use secure_e_fax.Text.{Bytes, codes, bytes_eq}
use secure_e_fax.Folders.{
  Level, no_row, row, has_path, get_all_folders, get_folders, climb, rsplit, grow, write_paths,
  is_valid_drop_path, begins,
}
use secure_e_fax.Folders.Paths.{level_paths}
use secure_e_fax.Folders.Saved.{Distinct, get_all_folders-write_paths}

-- Inbox with a folder in it, and Trash
abbrev tree : Level
tree = row (codes "Inbox") (row (codes "Old") no_row no_row) (row (codes "Trash") no_row no_row)

abbrev made : List Bytes
made = codes "@Inbox" ∷ codes "@Trash" ∷ []

get_all_folders-write_paths_example :
    let read = get_all_folders (λ t. true) made (write_paths [] tree) in
    ((q : Bytes) → has_path read q ≡ (has_path made q || has_path (level_paths [] tree) q))
    × Distinct read
unfolding has_path bytes_eq level_paths
get_all_folders-write_paths_example =
    get_all_folders-write_paths (λ t. true) made tree
      (
        (refl, (refl, (refl, (refl, (refl, tt))))),
        (
          ((refl, (refl, (refl, tt))), (tt, tt)),
          ((refl, (refl, (refl, (refl, (refl, tt))))), (tt, tt)),
        ),
      )
      (
        (refl, (refl, (refl, (refl, (refl, tt))))),
        (
          ((refl, (refl, (refl, tt))), (tt, tt)),
          ((refl, (refl, (refl, (refl, (refl, tt))))), (tt, tt)),
        ),
      )
      (refl, (refl, (refl, tt))) (refl, (refl, tt))

-- A name with a newline is read as two lines, and the second is no path.
newline_in_name :
    get_all_folders (λ t. true) made (write_paths [] (row (b'a' ∷ 10 ∷ codes "b") no_row no_row))
    ≡ made ++ codes "@a" ∷ []
unfolding get_all_folders write_paths get_folders climb has_path bytes_eq rsplit grow
newline_in_name = refl

-- A folder may not be moved into one whose name only begins with its own.
is_valid_drop_path_test : is_valid_drop_path (codes "@a") (codes "@ab@a") ≡ false
unfolding is_valid_drop_path begins
is_valid_drop_path_test = refl
