-- ===== src/Folders.antt =====
-- The folders of faxes: get_folders, get_pathname_for_folder, write_paths_for_level and is_valid_drop_path of
-- src/fax_list_manager.cpp. The keys of path_to_row_map are a list of paths, in the order in which they are
-- made; a level of the tree store is its first row, the rows below it, and the rows behind it.
mod Climb
pub mod Paths
pub mod Saved
mod Tests
use secure_e_fax.Prelude.{
  ℕ, zero, suc, List, [], ◌∷◌, ◌++◌, Bool, true, false, not, ◌&&◌, ◌||◌, Option, none, some,
  if◌then◌else◌, ltb, ◌==◌, length,
}
use secure_e_fax.Text.{Bytes, bytes_eq}
use secure_e_fax.Text.Lines.{newline, get_lines}

-- PATH_DIVIDER
abbrev pub divider : ℕ
divider = b'@'

-- rfind of the divider: what stands before it, and behind.
unfoldable pub rsplit : Bytes → Option (Bytes × Bytes)
rsplit [] = none
rsplit (c ∷ s) = elim (rsplit s) [
  | some (before, behind) ↦ some (c ∷ before, behind)
  | none ↦ if c == divider then some ([], s) else none
]

unfoldable pub has_path : List Bytes → Bytes → Bool
has_path [] path = false
has_path (p ∷ known) path = bytes_eq path p || has_path known path

abbrev pub is_root : Bytes → Bool
is_root [] = true
is_root (c ∷ s) = false

-- The loop of get_folders: the remaining path, and the rows to make, the outermost first. None is an input error.
-- Each round takes a byte at least, and the length of the path is the bound.
unfoldable pub climb : ℕ → List Bytes → Bytes → List Bytes → Option (Bytes × List Bytes)
climb zero known path rows = if is_root path || has_path known path then some (path, rows) else none
climb (suc n) known path rows =
    let next : Option (Bytes × List Bytes) = elim (rsplit path) [
      | none ↦ none
      | some (before, name) ↦ climb n known before (name ∷ rows)
    ] in
    if is_root path || has_path known path then some (path, rows) else next

-- The paths of the rows that are made below a path.
unfoldable pub grow : Bytes → List Bytes → List Bytes
grow path [] = []
grow path (name ∷ rows) = (path ++ divider ∷ name) ∷ grow (path ++ divider ∷ name) rows

-- get_folders; `is_valid` is Utf8::validate.
unfoldable pub get_folders : (Bytes → Bool) → List Bytes → Bytes → List Bytes × Bool
get_folders is_valid known line =
    if not (is_valid line) then (known, false) else elim (climb (length line) known line []) [
      | none ↦ (known, false)
      | some (path, rows) ↦ (known ++ grow path rows, not (is_root line))
    ]

-- The lines of PathList, in their order.
unfoldable pub get_each_folder : (Bytes → Bool) → List Bytes → List Bytes → List Bytes
get_each_folder is_valid known [] = known
get_each_folder is_valid known (line ∷ lines) =
    get_each_folder is_valid (get_folders is_valid known line).0 lines

-- PathList, with the getline that splits it.
unfoldable pub get_all_folders : (Bytes → Bool) → List Bytes → Bytes → List Bytes
unfolding get_each_folder get_lines
get_all_folders is_valid known file = get_each_folder is_valid known (get_lines file)

-- A level of the tree store from a row on.
pub data Level : Type 0 where
  no_row : Level
  row : (name : Bytes) → (children others : Level) → Level

-- write_paths_for_level: what is written to PathList; the first argument is the path of the parent.
unfoldable pub write_paths : Bytes → Level → Bytes
write_paths parent no_row = []
write_paths parent (row name children others) =
    (parent ++ divider ∷ name)
    ++ newline ∷ (write_paths (parent ++ divider ∷ name) children ++ write_paths parent others)

-- find(...) == 0
unfoldable pub begins : Bytes → Bytes → Bool
begins [] path = true
begins (c ∷ old) [] = false
begins (c ∷ old) (d ∷ path) = c == d && begins old path

unfoldable pub is_valid_drop_path : Bytes → Bytes → Bool
is_valid_drop_path old_pathname new_pathname =
    not (begins old_pathname new_pathname && ltb (length old_pathname) (length new_pathname))
