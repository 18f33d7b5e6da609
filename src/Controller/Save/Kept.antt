-- ===== src/Controller/Save/Kept.antt =====
-- A received page is not lost when the fax is moved to its directory.
use mathlib.Core.Path.{subst}
use secure_e_fax.Prelude.{
  ℕ, ◌≡◌, ◌≢◌, refl, sym, ap, ◌∙◌, Bool, true, false, List, [], ◌∷◌, ◌++◌, none, some, ◌⊎◌, inl,
  inr, arith, if◌then◌else◌, drop, length, All, All-map, Bool-cases, Option-cases, append_assoc,
  append-nil, drop-append,
}
use secure_e_fax.Text.{Bytes, codes}
use secure_e_fax.Controller.Types.{Host, Machine}
use secure_e_fax.Controller.Save.{
  current_dir, saved_name, link_files, unlink_files, remove_current, move_files,
}

-- What link(), unlink() and rmdir() do to the files that can be read.
pub record LinkLaws (h : Host) : Type 0 where
  pub linked :
      (p q : Bytes) (w : h.World)
      → (h.link p q w).0 ≡ true
      → h.readable w p ≡ true
      → h.readable (h.link p q w).1 q ≡ true
  pub link_keeps :
      (p q r : Bytes) (w : h.World) → h.readable w r ≡ true → h.readable (h.link p q w).1 r ≡ true
  pub unlink_keeps :
      (p q : Bytes) (w : h.World) → p ≢ q → h.readable (h.unlink p w) q ≡ h.readable w q
  pub rmdir_keeps :
      (d p : Bytes) (w : h.World)
      → d ≢ p
      → h.readable w p ≡ true
      → h.readable (h.rmdir d w).1 p ≡ true

abbrev head_or : ℕ → Bytes → ℕ
head_or n [] = n
head_or n (c ∷ s) = c

given : (b : Bool) (x y : Bytes) → (if b then some x else none) ≡ some y → y ≡ x
given true x y e = cc
given false x y e = cc

module _ (h : Host) (laws : LinkLaws h) (c : ℕ) (name : Bytes) where
  abbrev pub new_dir : Bytes
  new_dir = (h.config.working_dir ++ codes "/faxin/") ++ c ∷ name

  abbrev pub old_file : Bytes → Bytes
  old_file file = current_dir h ++ codes "/" ++ file

  -- The page can be read under its new name, if it has one.
  abbrev pub IsSaved : h.World → Bytes → Type 0
  IsSaved w file =
      (new : Bytes) → saved_name h new_dir (c ∷ name) file ≡ some new → h.readable w new ≡ true

  abbrev pub IsThere : h.World → Bytes → Type 0
  IsThere w file = h.readable w (old_file file) ≡ true

  apart : (x y : Bytes) → new_dir ++ x ≡ current_dir h ++ y → c ≡ b'c'
  apart x y e =
      let dir = h.config.working_dir in
      ap (λ s. head_or 0 (drop 7 s))
        (sym (drop-append dir (codes "/faxin/" ++ c ∷ (name ++ x)))
          ∙ ap (drop (length dir)) (
              sym (append_assoc dir (codes "/faxin/") (c ∷ (name ++ x)))
              ∙ sym (append_assoc (dir ++ codes "/faxin/") (c ∷ name) x)
              ∙ e
              ∙ append_assoc dir (codes "/faxin/current") y)
          ∙ drop-append dir (codes "/faxin/current" ++ y))

  abbrev linking : Bytes → Bytes → h.World → Bool × h.World
  linking file new w = h.link (old_file file) new w

  module _ (file : Bytes) (files : List Bytes) (w : h.World) where
    link_files-other :
        saved_name h new_dir (c ∷ name) file ≡ none
        → link_files h new_dir (c ∷ name) (file ∷ files) w ≡ link_files h new_dir (c ∷ name) files w
    unfolding link_files
    link_files-other b = rw (b, link_files) refl

    link_files-done :
        (new : Bytes)
        → saved_name h new_dir (c ∷ name) file ≡ some new
        → (linking file new w).0 ≡ true
        → link_files h new_dir (c ∷ name) (file ∷ files) w
          ≡ link_files h new_dir (c ∷ name) files (linking file new w).1
    unfolding link_files
    link_files-done new b d = rw (b, d, link_files) refl

    link_files-failed :
        (new : Bytes)
        → saved_name h new_dir (c ∷ name) file ≡ some new
        → (linking file new w).0 ≡ false
        → link_files h new_dir (c ∷ name) (file ∷ files) w ≡ (false, (linking file new w).1)
    unfolding link_files
    link_files-failed new b d = rw (b, d, link_files) refl

  abbrev CanRead : Bytes → Bool × h.World → Type 0
  CanRead r outcome = h.readable outcome.1 r ≡ true

  link_files-keeps :
      (files : List Bytes) (w : h.World) (r : Bytes)
      → h.readable w r ≡ true
      → CanRead r (link_files h new_dir (c ∷ name) files w)
  unfolding link_files
  link_files-keeps [] w r e = e
  link_files-keeps (file ∷ files) w r e =
      elim (Option-cases (saved_name h new_dir (c ∷ name) file)) [
        | inl b ↦
            subst (CanRead r) (sym (link_files-other file files w b)) (link_files-keeps files w r e)
        | inr (new, b) ↦
            let there = laws.link_keeps (old_file file) new r w e in
            elim (Bool-cases (linking file new w).0) [
              | inl d ↦
                  subst (CanRead r) (sym (link_files-done file files w new b d))
                    (link_files-keeps files (linking file new w).1 r there)
              | inr d ↦ subst (CanRead r) (sym (link_files-failed file files w new b d)) there
            ]
      ]

  abbrev Saves : List Bytes → Bool × h.World → Type 0
  Saves files outcome = outcome.0 ≡ true → All (IsSaved outcome.1) files

  -- Where every link was made, every page can be read under its new name.
  link_files-Saves :
      (files : List Bytes) (w : h.World)
      → All (IsThere w) files
      → Saves files (link_files h new_dir (c ∷ name) files w)
  unfolding link_files
  link_files-Saves [] w t = λ e. tt
  link_files-Saves (file ∷ files) w t = elim (Option-cases (saved_name h new_dir (c ∷ name) file)) [
    | inl b ↦
        subst (Saves (file ∷ files)) (sym (link_files-other file files w b))
          (λ e. ((λ new b'. cc), link_files-Saves files w t.1 e))
    | inr (new, b) ↦ elim (Bool-cases (linking file new w).0) [
      | inl d ↦
          let w1 = (linking file new w).1 in
          let kept =
            All-map (IsThere w) (IsThere w1) files
              (λ other there. laws.link_keeps (old_file file) new (old_file other) w there) t.1 in
          let saved = link_files-keeps files w1 new (laws.linked (old_file file) new w d t.0) in
          subst (Saves (file ∷ files)) (sym (link_files-done file files w new b d))
            (λ e. ((λ new' b'. cc saved), link_files-Saves files w1 kept e))
      | inr d ↦
          subst (Saves (file ∷ files)) (sym (link_files-failed file files w new b d)) (λ e. cc)
    ]
  ]

  unlink_files-keeps :
      (files : List Bytes) (w : h.World) (r : Bytes)
      → ((file : Bytes) → old_file file ≢ r)
      → h.readable w r ≡ true
      → h.readable (unlink_files h files w) r ≡ true
  unfolding unlink_files
  unlink_files-keeps [] w r ne e = e
  unlink_files-keeps (file ∷ files) w r ne e =
      unlink_files-keeps files (h.unlink (old_file file) w) r ne
        (laws.unlink_keeps (old_file file) r w (ne file) ∙ e)

  saved_name-under :
      (file new : Bytes)
      → saved_name h new_dir (c ∷ name) file ≡ some new
      → (x : Bytes) × (new ≡ new_dir ++ x)
  unfolding saved_name
  saved_name-under file new b =
      let rest = drop 7 file in
      (
        codes "/" ++ ((c ∷ name) ++ rest),
        given _ (new_dir ++ codes "/" ++ (c ∷ name) ++ rest) new b
            ∙ append_assoc (new_dir ++ codes "/") (c ∷ name) rest
            ∙ append_assoc new_dir (codes "/") ((c ∷ name) ++ rest),
      )

  saved_name-apart :
      (file new : Bytes)
      → c ≢ b'c'
      → saved_name h new_dir (c ∷ name) file ≡ some new
      → (y : Bytes) → current_dir h ++ y ≢ new
  saved_name-apart file new ne b y e =
      let (x, u) = saved_name-under file new b in ne (apart x y (sym u ∙ sym e))

  remove_current-world :
      (m : Machine h.World)
      → (remove_current h new_dir m).world ≡ (h.rmdir (current_dir h) m.world).1
  unfolding remove_current
  remove_current-world m = ground arith

  -- Removing the old files and their directory keeps what is saved.
  clearing-IsSaved :
      (files : List Bytes) (w : h.World)
      → c ≢ b'c'
      → (file : Bytes) → IsSaved w file
      → IsSaved (h.rmdir (current_dir h) (unlink_files h files w)).1 file
  clearing-IsSaved files w ne file s new b =
      laws.rmdir_keeps (current_dir h) new (unlink_files h files w)
        (λ e. saved_name-apart file new ne b [] (append-nil (current_dir h) ∙ e))
        (unlink_files-keeps files w new
          (λ other e.
            saved_name-apart file new ne b (codes "/" ++ other)
              (sym (append_assoc (current_dir h) (codes "/") other) ∙ e))
          (s new b))

  -- Where link(), unlink() and rmdir() do what `LinkLaws` says, and the files can be read, no page is
  -- lost while a received fax is moved from "current" to a directory whose name does not begin with
  -- 'c': in the end each of the files can be read where it was, or each page can be read under its new
  -- name.
  pub move_files-keeps :
      (files : List Bytes) (m : Machine h.World)
      → c ≢ b'c'
      → All (IsThere m.world) files
      → All (IsThere (move_files h new_dir (c ∷ name) files m).world) files
        ⊎ All (IsSaved (move_files h new_dir (c ∷ name) files m).world) files
  unfolding move_files remove_current
  move_files-keeps files m ne t =
      let (linked, w1) = link_files h new_dir (c ∷ name) files m.world in
      elim (Bool-cases linked) [
        | inl d ↦
            rw (d, move_files)
              (inr (
                subst (λ w. All (IsSaved w) files) (sym (remove_current-world _))
                  (All-map (IsSaved w1) _ files (clearing-IsSaved files w1 ne)
                    (link_files-Saves files m.world t d))))
        | inr d ↦
            rw (d, move_files)
              (inl (
                All-map (IsThere m.world) (IsThere w1) files
                  (λ file there. link_files-keeps files m.world (old_file file) there) t))
      ]
