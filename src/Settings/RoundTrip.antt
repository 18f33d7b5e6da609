-- ===== src/Settings/RoundTrip.antt =====
-- What write_config of src/settings.cpp writes, read by configure_prog of src/main.cpp.
use mathlib.Core.Path.{subst}
use secure_e_fax.Prelude.{
  ◌≡◌, refl, sym, ap, ◌∙◌, List, [], ◌∷◌, true, false, some, if◌then◌else◌, ◌||◌, Option-cases,
  All-append, arith, Bool-cases, inl, inr,
}
use secure_e_fax.Text.{Bytes}
use secure_e_fax.Text.Lines.{
  newline, get_lines, print_lines, Without, AreLines, get_lines-print_lines, get_lines-AreLines,
}
use secure_e_fax.Settings.OneLine.{is_one_line-Without}
use secure_e_fax.Settings.{Key, work_subdir, dialog_keys, strip, find_prog_parm, Conversions}
use secure_e_fax.Settings.Keys.{◌is◌, place_of, is_sym}
use secure_e_fax.Settings.Write.{
  Values, is_found, named_key, write_coding, added_coding, replace_lines, terminating_line,
  missing_keys, add_missing, new_lines, write_config, all_allowed,
}
use secure_e_fax.Settings.Read.{read_parm, read_parm_lines, read_parms}
use secure_e_fax.Settings.Others.{read_parm_other}
use secure_e_fax.Settings.Default.{IsSound, missing_keys_all}
use secure_e_fax.Settings.Steps.{Holds, Holds-line, read_parm_lines-append, AllStorable}
use secure_e_fax.Settings.Replace.{
  named_key_apart, file_line_lem, replace_lines_end, replace_lines_again, replace_lines_kept,
  replace_lines_first, found_again, add_missing_found, add_missing_added, read_parm_terminating,
  or_false, or_right, or_among,
}

module _ (h : Conversions) (host : IsSound h) (values : Values)
    (storable : AllStorable h values) where
  -- The lines that replace the old ones carry the settings found.
  abbrev Carries : List Key → List Bytes × List Key → Type 0
  Carries found after =
      (read : Values)
      → Holds values found read
      → Holds values after.1 (read_parm_lines h after.0 read)

  replace_lines-Carries :
      (old : List Bytes) (found : List Key) → Carries found (replace_lines h values found old)
  unfolding replace_lines read_parm_lines is_found place_of
  replace_lines-Carries [] found = λ read holds. holds
  replace_lines-Carries (line ∷ old) found = elim (Option-cases (named_key dialog_keys line)) [
    | inl n ↦ elim (Bool-cases (find_prog_parm terminating_line line)) [
      | inl e ↦
          subst (Carries found) (sym (replace_lines_end h values found line old n e))
            (replace_lines-Carries old found)
      | inr e ↦
          subst (Carries found) (sym (replace_lines_kept h values found line old n e))
            (λ read holds.
              replace_lines-Carries old found (read_parm h line read)
                (λ i apart. read_parm_other h line read i n apart ∙ holds i apart))
    ]
    | inr (k, n) ↦ elim (Bool-cases (is_found k found)) [
      | inl e ↦
          subst (Carries found) (sym (replace_lines_again h values found line old k n e))
            (replace_lines-Carries old found)
      | inr e ↦
          let named = named_key_apart dialog_keys line k refl n in
          let (l, written, sets, one) =
            file_line_lem h (write_coding k) values k host (storable k named).0 in
          subst (Carries found) (sym (replace_lines_first h values found line l old k n e written))
            (λ read holds.
              replace_lines-Carries old (k ∷ found) (read_parm h l read)
                (Holds-line h values read found k l named sets holds))
    ]
  ]

  add_missing-Holds :
      (ks found known : List Key) (read : Values)
      → ((k : Key) → is_found k found ≡ true → is_found k known ≡ true)
      → is_found work_subdir ks ≡ false
      → Holds values known read
      → (j : Key) → j is work_subdir ≡ false
      → read_parm_lines h (add_missing h values found ks) read j
        ≡ (if is_found j known || is_found j ks then strip (values j) else [])
  unfolding add_missing read_parm_lines is_found
  add_missing-Holds [] found known read sub apart holds j other =
      ap (λ t. t j) (read_parm_terminating h read)
      ∙ holds j other
      ∙ ap (λ b. if b then strip (values j) else []) (or_false (is_found j known))
  add_missing-Holds (k ∷ ks) found known read sub apart holds j other =
      elim (Bool-cases (is_found k found)) [
        | inl e ↦
            rw
              (
                add_missing_found h values found k ks e,
                found_again j k known (is_found j ks) (sub k e),
              )
              (add_missing-Holds ks found known read sub (ground arith) holds j other)
        | inr e ↦
            let named = is_sym work_subdir k (ground arith) in
            let (l, written, sets, one) =
              file_line_lem h (added_coding k) values k host (storable k named).1 in
            let rest =
              add_missing-Holds ks found (k ∷ known) (read_parm h l read)
                (λ i f. or_right (i is k) (is_found i known) (sub i f)) (ground arith)
                (Holds-line h values read known k l named sets holds) j other in
            rw (add_missing_added h values found k ks l e written) (
              rest
              ∙ ap (λ b. if b then strip (values j) else [])
                  (or_among (j is k) (is_found j known) (is_found j ks)))
      ]

  -- Every line that is written is one.
  replace_lines-AreLines :
      (old : List Bytes) (found : List Key)
      → AreLines old
      → AreLines (replace_lines h values found old).0
  unfolding replace_lines is_found place_of
  replace_lines-AreLines [] found w = tt
  replace_lines-AreLines (line ∷ old) found (w, ws) =
      elim (Option-cases (named_key dialog_keys line)) [
        | inl n ↦ elim (Bool-cases (find_prog_parm terminating_line line)) [
          | inl e ↦
              rw (replace_lines_end h values found line old n e)
                (replace_lines-AreLines old found ws)
          | inr e ↦
              rw (replace_lines_kept h values found line old n e)
                (w, replace_lines-AreLines old found ws)
        ]
        | inr (k, n) ↦ elim (Bool-cases (is_found k found)) [
          | inl e ↦
              rw (replace_lines_again h values found line old k n e)
                (replace_lines-AreLines old found ws)
          | inr e ↦
              let named = named_key_apart dialog_keys line k refl n in
              let (l, written, sets, one) =
                file_line_lem h (write_coding k) values k host (storable k named).0 in
              rw (replace_lines_first h values found line l old k n e written)
                (one, replace_lines-AreLines old (k ∷ found) ws)
        ]
      ]

  add_missing-AreLines :
      (ks found : List Key)
      → is_found work_subdir ks ≡ false
      → AreLines (add_missing h values found ks)
  unfolding add_missing is_found
  add_missing-AreLines [] found apart = (is_one_line-Without terminating_line refl, tt)
  add_missing-AreLines (k ∷ ks) found apart = elim (Bool-cases (is_found k found)) [
    | inl e ↦
        rw (add_missing_found h values found k ks e) (add_missing-AreLines ks found (ground arith))
    | inr e ↦
        let named = is_sym work_subdir k (ground arith) in
        let (l, written, sets, one) =
          file_line_lem h (added_coding k) values k host (storable k named).1 in
        rw (add_missing_added h values found k ks l e written)
          (one, add_missing-AreLines ks found (ground arith))
  ]

  new_lines-AreLines : (old : List Bytes) → AreLines old → AreLines (new_lines h values old)
  unfolding new_lines is_found place_of
  new_lines-AreLines old w =
      let after = replace_lines h values [] old in
      All-append (Without newline) after.0 (add_missing h values after.1 missing_keys)
        (replace_lines-AreLines old [] w) (add_missing-AreLines missing_keys after.1 refl)

  -- What configure_prog reads from the new lines.
  new_lines-read :
      (old : List Bytes) (k : Key)
      → k is work_subdir ≡ false
      → read_parm_lines h (new_lines h values old) (λ j. []) k ≡ strip (values k)
  unfolding new_lines is_found place_of
  new_lines-read old k named =
      let after = replace_lines h values [] old in
      ap (λ t. t k)
        (read_parm_lines-append h after.0 (add_missing h values after.1 missing_keys) (λ j. []))
      ∙ add_missing-Holds missing_keys after.1 after.1 (read_parm_lines h after.0 (λ j. []))
          (λ j f. f) refl (replace_lines-Carries old [] (λ j. []) (λ j other. refl)) k named
      ∙ rw (or_right (is_found k after.1) (is_found k missing_keys) (missing_keys_all k named)) refl

-- When write_config accepts the dialog's settings and its file opens, it writes a file from which configure_prog
-- reads, for every setting of the dialog, its value without the blanks at its ends, whatever bytes the old file
-- has. Each value is empty, or is converted to a text without a comment marker, a newline and blanks at its ends,
-- and back; and the conversions leave ASCII text at the front of a text alone.
pub read_parms-write_config :
    (h : Conversions) (values : Values) (old : Bytes)
    → IsSound h
    → AllStorable h values
    → all_allowed dialog_keys values ≡ true
    → (new : Bytes) × (write_config h true values old ≡ some new)
      × ((k : Key) → k is work_subdir ≡ false → read_parms h new (λ j. []) k ≡ strip (values k))
unfolding write_config read_parms
read_parms-write_config h values old host storable allowed =
    let lines = new_lines h values (get_lines old) in
    let split : get_lines (print_lines lines) ≡ lines =
      get_lines-print_lines lines
        (new_lines-AreLines h host values storable (get_lines old) (get_lines-AreLines old)) in
    (
      print_lines lines,
      rw (write_config, allowed) refl,
      λ k named.
          ap (λ ls. read_parm_lines h ls (λ j. []) k) split
          ∙ new_lines-read h host values storable (get_lines old) k named,
    )
