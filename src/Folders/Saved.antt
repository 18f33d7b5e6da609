-- ===== src/Folders/Saved.antt =====
-- PathList written by write_paths_for_level and read by get_folders (src/fax_list_manager.cpp).
use secure_e_fax.Prelude.{
  ◌≡◌, inl, inr, refl, sym, ap, ◌∙◌, List, [], ◌∷◌, ◌++◌, Bool, true, false, ◌||◌, All, All-append,
  ◌==◌, Bool-cases, arith,
}
use mathlib.Core.Path.{subst}
use secure_e_fax.Text.{Bytes, bytes_eq, bytes_eq→eq, bytes_eq_refl}
use secure_e_fax.Text.Lines.{
  newline, get_lines, print_lines, Without, AreLines, get_lines-print_lines, print_lines-append,
}
use secure_e_fax.Folders.{
  divider, has_path, is_root, get_folders, get_each_folder, get_all_folders, Level, no_row, row,
  write_paths,
}
use secure_e_fax.Folders.Paths.{
  level_paths, IsName, AllNames, IsThere, has_path-append, has_path-IsThere, stays, All-split,
  get_folders_known, get_folders_new, get_folders_path, get_each_folder-append,
  has_path-level_paths,
}

-- No path is there twice.
abbrev pub Distinct : List Bytes → Type 0
Distinct [] = Unit
Distinct (p ∷ ps) = (has_path ps p ≡ false) × Distinct ps

bytes_eq_apart : (p q : Bytes) → bytes_eq q p ≡ false → bytes_eq p q ≡ false
bytes_eq_apart p q e = elim (Bool-cases (bytes_eq p q)) [
  | inr other ↦ other
  | inl same ↦
      let back : bytes_eq q p ≡ true =
        ap (λ t. bytes_eq q t) (bytes_eq→eq p q same) ∙ bytes_eq_refl q in
      ground arith
]

Distinct-append :
    (ps : List Bytes) (q : Bytes) → Distinct ps → has_path ps q ≡ false → Distinct (ps ++ q ∷ [])
unfolding has_path
Distinct-append [] q d new = (refl, tt)
Distinct-append (p ∷ ps) q (once, d) new =
    let apart = bytes_eq_apart p q (ground arith) in
    (has_path-append ps (q ∷ []) p ∙ (rw (once, apart) refl), Distinct-append ps q d (ground arith))

-- And no name has a newline.
abbrev pub AllOneLine : Level → Type 0
AllOneLine no_row = Unit
AllOneLine (row name children others) =
    Without newline name × (AllOneLine children × AllOneLine others)

write_paths_lem :
    (parent : Bytes) (level : Level)
    → write_paths parent level ≡ print_lines (level_paths parent level)
unfolding write_paths print_lines level_paths
write_paths_lem parent no_row = refl
write_paths_lem parent (row name children others) =
    let path = parent ++ divider ∷ name in
    let below = level_paths path children in
    let behind = level_paths parent others in
    rw (write_paths_lem path children, write_paths_lem parent others)
      (ap (λ t. path ++ newline ∷ t) (sym (print_lines-append below behind)))

level_paths-AreLines :
    (parent : Bytes) (level : Level)
    → Without newline parent
    → AllOneLine level
    → AreLines (level_paths parent level)
unfolding level_paths
level_paths-AreLines parent no_row w names = tt
level_paths-AreLines parent (row name children others) w (one, (inner, outer)) =
    let path = parent ++ divider ∷ name in
    let at : Without newline path =
      All-append (λ c. c == newline ≡ false) parent (divider ∷ name) w (refl, one) in
    (
      at,
      All-append (Without newline) (level_paths path children) (level_paths parent others)
          (level_paths-AreLines path children at inner)
          (level_paths-AreLines parent others w outer),
    )

-- getline gives the paths that were written.
get_lines-write_paths :
    (level : Level) → AllOneLine level → get_lines (write_paths [] level) ≡ level_paths [] level
get_lines-write_paths level names =
    ap get_lines (write_paths_lem [] level)
    ∙ get_lines-print_lines (level_paths [] level) (level_paths-AreLines [] level tt names)

module _ (is_valid : Bytes → Bool) where
  get_folders-Distinct :
      (known : List Bytes) (parent name : Bytes)
      → is_valid (parent ++ divider ∷ name) ≡ true
      → IsName name
      → IsThere known parent
      → Distinct known
      → Distinct (get_folders is_valid known (parent ++ divider ∷ name)).0
  get_folders-Distinct known parent name valid a there d =
      let path = parent ++ divider ∷ name in
      elim (Bool-cases (has_path known path)) [
        | inl old ↦ subst Distinct (sym (get_folders_known is_valid known path valid old)) d
        | inr new ↦
            subst Distinct (sym (get_folders_new is_valid known parent name valid a there new))
              (Distinct-append known path d new)
      ]

  level_paths-Distinct :
      (known : List Bytes) (parent : Bytes) (level : Level)
      → AllNames level
      → All (λ line. is_valid line ≡ true) (level_paths parent level)
      → IsThere known parent
      → Distinct known
      → Distinct (get_each_folder is_valid known (level_paths parent level))
  unfolding get_each_folder level_paths
  level_paths-Distinct known parent no_row names valid there d = d
  level_paths-Distinct known parent (row name children others) (a, (inner, outer)) (v, valid) there
        d =
      let path = parent ++ divider ∷ name in
      let k1 = (get_folders is_valid known path).0 in
      let below = level_paths path children in
      let behind = level_paths parent others in
      let split = All-split (λ line. is_valid line ≡ true) below behind valid in
      let known_now = λ (t : Bytes). get_folders_path is_valid known parent name t v a there in
      let at_path : IsThere k1 path =
        has_path-IsThere k1 path (ground (arith, known_now path, bytes_eq_refl path)) in
      let first = has_path-level_paths is_valid k1 path children parent inner split.0 at_path in
      let k2 = get_each_folder is_valid k1 below in
      let at_parent : IsThere k2 parent =
        stays (is_root parent) (has_path known parent) (has_path k1 parent) (has_path k2 parent)
          (bytes_eq parent path) (has_path below parent) there (known_now parent) first in
      subst Distinct (sym (get_each_folder-append is_valid k1 below behind)) (
        level_paths-Distinct k2 parent others outer split.1 at_parent (
          level_paths-Distinct k1 path children inner split.0 at_path
            (get_folders-Distinct known parent name v a there d)))

  -- When the tree of folders is written to PathList and the file is read again, the paths that are then known
  -- are those of the tree and those that were known before (of the folders that the program always makes), no
  -- others, and none is there twice if none was. The names of the folders have no divider and no newline, and
  -- their paths are valid UTF-8.
  pub get_all_folders-write_paths :
      (known : List Bytes) (level : Level)
      → AllNames level
      → AllOneLine level
      → All (λ line. is_valid line ≡ true) (level_paths [] level)
      → Distinct known
      → let read = get_all_folders is_valid known (write_paths [] level) in
        ((q : Bytes) → has_path read q ≡ (has_path known q || has_path (level_paths [] level) q))
        × Distinct read
  unfolding get_all_folders
  get_all_folders-write_paths known level names lines valid d =
      rw (get_lines-write_paths level lines) (
        λ q. has_path-level_paths is_valid known [] level q names valid refl,
        level_paths-Distinct known [] level names valid refl d,
      )
