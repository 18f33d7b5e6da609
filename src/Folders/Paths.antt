-- ===== src/Folders/Paths.antt =====
-- The paths that get_folders of src/fax_list_manager.cpp makes for the lines of write_paths_for_level.
use secure_e_fax.Prelude.{
  ℕ, zero, suc, ◌+◌, ◌≡◌, inl, inr, refl, sym, ap, ◌∙◌, List, [], ◌∷◌, ◌++◌, append-nil, Bool, true,
  false, ◌||◌, none, some, length, length-append, All, Bool-cases, arith,
}
use secure_e_fax.Text.{Bytes, bytes_eq, bytes_eq→eq, bytes_eq_refl}
use secure_e_fax.Text.Lines.{Without}
use secure_e_fax.Folders.{
  divider, rsplit, has_path, is_root, climb, grow, get_folders, get_each_folder, Level, no_row, row,
}

-- A name has no divider.
abbrev pub IsName : Bytes → Type 0
IsName name = Without divider name

-- The paths of a level, each before those of the folders in it.
unfoldable pub level_paths : Bytes → Level → List Bytes
level_paths parent no_row = []
level_paths parent (row name children others) =
    (parent ++ divider ∷ name)
    ∷ (level_paths (parent ++ divider ∷ name) children ++ level_paths parent others)

abbrev pub AllNames : Level → Type 0
AllNames no_row = Unit
AllNames (row name children others) = IsName name × (AllNames children × AllNames others)

-- The row of a path is there, or the path is that of the root.
abbrev pub IsThere : List Bytes → Bytes → Type 0
IsThere known path = (is_root path || has_path known path) ≡ true

pub rsplit-none : (name : Bytes) → IsName name → rsplit name ≡ none
unfolding rsplit
rsplit-none [] a = refl
rsplit-none (c ∷ name) (e, a) = rw (rsplit-none name a, e) refl

pub rsplit_path :
    (parent name : Bytes) → IsName name → rsplit (parent ++ divider ∷ name) ≡ some (parent, name)
unfolding rsplit
rsplit_path [] name a = rw (rsplit-none name a) refl
rsplit_path (c ∷ parent) name a = rw (rsplit_path parent name a) refl

pub is_root_path : (parent name : Bytes) → is_root (parent ++ divider ∷ name) ≡ false
is_root_path [] name = refl
is_root_path (c ∷ parent) name = refl

pub climb_there :
    (n : ℕ) (known : List Bytes) (path : Bytes) (rows : List Bytes)
    → IsThere known path
    → climb n known path rows ≡ some (path, rows)
unfolding climb
climb_there zero known path rows there = rw there refl
climb_there (suc n) known path rows there = rw there refl

pub climb_once :
    (n : ℕ) (known : List Bytes) (parent name : Bytes)
    → IsName name
    → IsThere known parent
    → has_path known (parent ++ divider ∷ name) ≡ false
    → climb (suc n) known (parent ++ divider ∷ name) [] ≡ some (parent, name ∷ [])
unfolding climb
climb_once n known parent name a there new =
    rw (climb, is_root_path parent name, new, rsplit_path parent name a)
      (climb_there n known parent (name ∷ []) there)

pub has_path-append :
    (ps qs : List Bytes) (q : Bytes) → has_path (ps ++ qs) q ≡ (has_path ps q || has_path qs q)
unfolding has_path
has_path-append [] qs q = refl
has_path-append (p ∷ ps) qs q = ground (arith, has_path-append ps qs q)

pub or_false : (b : Bool) → (b || false) ≡ b
or_false false = refl
or_false true = refl

-- What is known already adds nothing.
pub known_again :
    (known : List Bytes) (path q : Bytes)
    → has_path known path ≡ true
    → has_path known q ≡ (has_path known q || bytes_eq q path)
known_again known path q old = elim (Bool-cases (bytes_eq q path)) [
  | inl same ↦ rw (bytes_eq→eq q path same, old) refl
  | inr other ↦ rw (other, or_false (has_path known q)) refl
]

pub has_path-IsThere :
    (known : List Bytes) (path : Bytes) → has_path known path ≡ true → IsThere known path
has_path-IsThere known path e = ground arith

pub stays :
    (root here here1 here2 same below : Bool)
    → (root || here) ≡ true
    → here1 ≡ (here || same)
    → here2 ≡ (here1 || below)
    → (root || here2) ≡ true
stays true here here1 here2 same below e e1 e2 = refl
stays false true here1 here2 same below e e1 e2 = ground arith
stays false false here1 here2 same below e e1 e2 = ground arith

pub regroup : (a b c d : Bool) → (((a || b) || c) || d) ≡ (a || (b || (c || d)))
regroup true b c d = refl
regroup false true c d = refl
regroup false false c d = refl

pub All-split :
    {A : Type 0} (P : A → Type 0) (xs ys : List A) → All P (xs ++ ys) → All P xs × All P ys
All-split P [] ys a = (tt, a)
All-split P (x ∷ xs) ys (p, a) = let (l, r) = All-split P xs ys a in ((p, l), r)

module _ (is_valid : Bytes → Bool) where
  pub get_folders_known :
      (known : List Bytes) (line : Bytes)
      → is_valid line ≡ true
      → has_path known line ≡ true
      → (get_folders is_valid known line).0 ≡ known
  unfolding get_folders grow
  get_folders_known known line valid there =
      let at : IsThere known line = ground arith in
      rw (get_folders, valid, climb_there (length line) known line [] at) (append-nil known)

  pub get_folders_new :
      (known : List Bytes) (parent name : Bytes)
      → is_valid (parent ++ divider ∷ name) ≡ true
      → IsName name
      → IsThere known parent
      → has_path known (parent ++ divider ∷ name) ≡ false
      → (get_folders is_valid known (parent ++ divider ∷ name)).0
        ≡ known ++ (parent ++ divider ∷ name) ∷ []
  unfolding get_folders grow
  get_folders_new known parent name valid a there new =
      let long : length (parent ++ divider ∷ name) ≡ suc (length parent + length name) =
        length-append parent (divider ∷ name) ∙ omega arith in
      rw
        (
          get_folders,
          valid,
          long,
          climb_once (length parent + length name) known parent name a there new,
        )
        refl

  -- After the line of a folder whose parent is there, its path is known beside those that were.
  pub get_folders_path :
      (known : List Bytes) (parent name q : Bytes)
      → is_valid (parent ++ divider ∷ name) ≡ true
      → IsName name
      → IsThere known parent
      → has_path (get_folders is_valid known (parent ++ divider ∷ name)).0 q
        ≡ (has_path known q || bytes_eq q (parent ++ divider ∷ name))
  unfolding has_path
  get_folders_path known parent name q valid a there =
      let path = parent ++ divider ∷ name in
      elim (Bool-cases (has_path known path)) [
        | inl old ↦
            ap (λ t. has_path t q) (get_folders_known known path valid old)
            ∙ known_again known path q old
        | inr new ↦
            ap (λ t. has_path t q) (get_folders_new known parent name valid a there new)
            ∙ has_path-append known (path ∷ []) q
            ∙ ap (λ b. has_path known q || b) (or_false (bytes_eq q path))
      ]

  pub get_each_folder-append :
      (known lines more : List Bytes)
      → get_each_folder is_valid known (lines ++ more)
        ≡ get_each_folder is_valid (get_each_folder is_valid known lines) more
  unfolding get_each_folder
  get_each_folder-append known [] more = refl
  get_each_folder-append known (line ∷ lines) more =
      get_each_folder-append (get_folders is_valid known line).0 lines more

  -- A tree of folders below a path that is there.
  pub has_path-level_paths :
      (known : List Bytes) (parent : Bytes) (level : Level) (q : Bytes)
      → AllNames level
      → All (λ line. is_valid line ≡ true) (level_paths parent level)
      → IsThere known parent
      → has_path (get_each_folder is_valid known (level_paths parent level)) q
        ≡ (has_path known q || has_path (level_paths parent level) q)
  unfolding get_each_folder level_paths has_path
  has_path-level_paths known parent no_row q names valid there = sym (or_false (has_path known q))
  has_path-level_paths known parent (row name children others) q (a, (inner, outer)) (v, valid)
        there =
      let path = parent ++ divider ∷ name in
      let k1 = (get_folders is_valid known path).0 in
      let below = level_paths path children in
      let behind = level_paths parent others in
      let k2 = get_each_folder is_valid k1 below in
      let known_now = λ (t : Bytes). get_folders_path known parent name t v a there in
      let at_path : IsThere k1 path =
        has_path-IsThere k1 path (ground (arith, known_now path, bytes_eq_refl path)) in
      let split = All-split (λ line. is_valid line ≡ true) below behind valid in
      let first = λ (t : Bytes). has_path-level_paths k1 path children t inner split.0 at_path in
      let at_parent : IsThere k2 parent =
        stays (is_root parent) (has_path known parent) (has_path k1 parent) (has_path k2 parent)
          (bytes_eq parent path) (has_path below parent) there (known_now parent) (first parent) in
      ap (λ t. has_path t q) (get_each_folder-append k1 below behind)
      ∙ has_path-level_paths k2 parent others q outer split.1 at_parent
      ∙ ap (λ b. b || has_path behind q) (first q ∙ ap (λ b. b || has_path below q) (known_now q))
      ∙ regroup (has_path known q) (bytes_eq q path) (has_path below q) (has_path behind q)
      ∙ ap (λ b. has_path known q || (bytes_eq q path || b)) (sym (has_path-append below behind q))
