-- ===== src/Settings/Replace.antt =====
-- The steps of the loops of write_config of src/settings.cpp over the old lines and the missing settings.
use mathlib.Core.Path.{subst}
use secure_e_fax.Prelude.{
  ◌≡◌, refl, sym, ap, ◌∙◌, List, [], ◌∷◌, Bool, true, false, none, some, ◌||◌, arith, Bool-cases,
  inl, inr,
}
use secure_e_fax.Text.{Bytes}
use secure_e_fax.Text.Lines.{newline, Without}
use secure_e_fax.Settings.{
  Key, work_subdir, text, dialog_keys, strip, find_prog_parm, valid_line, Conversions, Coding,
}
use secure_e_fax.Settings.Keys.{◌is◌, is→eq, is_sym}
use secure_e_fax.Settings.Write.{
  Values, is_found, named_key, file_line, write_coding, added_coding, replace_lines,
  terminating_line, added_line, add_missing,
}
use secure_e_fax.Settings.Read.{read_parm}
use secure_e_fax.Settings.Lines.{read_parm_invalid}
use secure_e_fax.Settings.Others.{the_key}
use secure_e_fax.Settings.Default.{IsSound}
use secure_e_fax.Settings.Steps.{IsStorable, Sets, setting_line_lem}

-- The dialog's list has no line for the directory.
pub named_key_apart :
    (ks : List Key) (line : Bytes) (k : Key)
    → is_found work_subdir ks ≡ false
    → named_key ks line ≡ some k
    → k is work_subdir ≡ false
unfolding named_key is_found the_key
named_key_apart [] line k apart n = ground arith
named_key_apart (j ∷ ks) line k apart n =
    elim (Bool-cases (find_prog_parm (text j) line || find_prog_parm (b'#' ∷ text j) line)) [
      | inl here ↦
          let found : named_key (j ∷ ks) line ≡ some j = rw (named_key, here) refl in
          subst (λ i. i is work_subdir ≡ false) (ap (the_key j) (sym found ∙ n))
            (is_sym work_subdir j (ground arith))
      | inr there ↦ named_key_apart ks line k (ground arith) (ground arith)
    ]

pub file_line_lem :
    (h : Conversions) (c : Coding) (values : Values) (k : Key)
    → IsSound h
    → IsStorable h c k (strip (values k))
    → (line : Bytes) × (file_line h c values k ≡ some line)
      × Sets h k (strip (values k)) line
      × Without newline line
unfolding file_line
file_line_lem h c values k host stored = setting_line_lem h c k (strip (values k)) host stored

-- The old line is dropped: the end of the file, or a setting again.
pub replace_lines_end :
    (h : Conversions) (values : Values) (found : List Key) (line : Bytes) (old : List Bytes)
    → named_key dialog_keys line ≡ none
    → find_prog_parm terminating_line line ≡ true
    → replace_lines h values found (line ∷ old) ≡ replace_lines h values found old
unfolding replace_lines
replace_lines_end h values found line old n e = rw (replace_lines, n, e) refl

pub replace_lines_again :
    (h : Conversions) (values : Values) (found : List Key) (line : Bytes) (old : List Bytes)
    (k : Key)
    → named_key dialog_keys line ≡ some k
    → is_found k found ≡ true
    → replace_lines h values found (line ∷ old) ≡ replace_lines h values found old
unfolding replace_lines
replace_lines_again h values found line old k n e = rw (replace_lines, n, e) refl

-- It is kept.
pub replace_lines_kept :
    (h : Conversions) (values : Values) (found : List Key) (line : Bytes) (old : List Bytes)
    → named_key dialog_keys line ≡ none
    → find_prog_parm terminating_line line ≡ false
    → let after = replace_lines h values found old in
      replace_lines h values found (line ∷ old) ≡ (line ∷ after.0, after.1)
unfolding replace_lines
replace_lines_kept h values found line old n e = rw (replace_lines, n, e) refl

-- It is replaced.
pub replace_lines_first :
    (h : Conversions) (values : Values) (found : List Key) (line l : Bytes) (old : List Bytes)
    (k : Key)
    → named_key dialog_keys line ≡ some k
    → is_found k found ≡ false
    → file_line h (write_coding k) values k ≡ some l
    → let after = replace_lines h values (k ∷ found) old in
      replace_lines h values found (line ∷ old) ≡ (l ∷ after.0, after.1)
unfolding replace_lines
replace_lines_first h values found line l old k n e written = rw (replace_lines, n, e, written) refl

-- A setting that is known already adds nothing.
pub found_again :
    (j k : Key) (known : List Key) (b : Bool)
    → is_found k known ≡ true
    → (is_found j known || (j is k || b)) ≡ (is_found j known || b)
found_again j k known b e = elim (Bool-cases (j is k)) [
  | inl here ↦ rw (is→eq j k here, e) refl
  | inr there ↦ rw there refl
]

pub add_missing_found :
    (h : Conversions) (values : Values) (found : List Key) (k : Key) (ks : List Key)
    → is_found k found ≡ true
    → add_missing h values found (k ∷ ks) ≡ add_missing h values found ks
unfolding add_missing
add_missing_found h values found k ks e = rw (add_missing, e) refl

pub add_missing_added :
    (h : Conversions) (values : Values) (found : List Key) (k : Key) (ks : List Key) (l : Bytes)
    → is_found k found ≡ false
    → file_line h (added_coding k) values k ≡ some l
    → add_missing h values found (k ∷ ks) ≡ l ∷ add_missing h values found ks
unfolding add_missing added_line
add_missing_added h values found k ks l e written = rw (add_missing, e, added_line, written) refl

pub read_parm_terminating :
    (h : Conversions) (read : Values) → read_parm h terminating_line read ≡ read
unfolding valid_line
read_parm_terminating h read = read_parm_invalid h terminating_line read refl

pub or_false : (b : Bool) → b ≡ (b || false)
or_false false = refl
or_false true = refl

pub or_right : (a b : Bool) → b ≡ true → (a || b) ≡ true
or_right a b e = ground arith

pub or_among : (a b c : Bool) → ((a || b) || c) ≡ (b || (a || c))
or_among a b c = ground arith
