-- ===== src/Settings/Steps.antt =====
-- The steps of write_config of src/settings.cpp, and what configure_prog of src/main.cpp reads from their lines.
use mathlib.Core.Path.{subst}
use secure_e_fax.Prelude.{
  ℕ, ◌≡◌, refl, sym, ap, ◌∙◌, List, [], ◌∷◌, ◌++◌, Bool, true, false, some, if◌then◌else◌, ◌⊎◌,
  append_assoc, append-nil, arith, Bool-cases, inl, inr,
}
use secure_e_fax.Text.{Bytes}
use secure_e_fax.Text.Lines.{newline, Without}
use secure_e_fax.Settings.{Key, work_subdir, text, strip, Conversions, Coding, from_utf8, to_utf8}
use secure_e_fax.Settings.Keys.{◌is◌, is→eq}
use secure_e_fax.Settings.Write.{
  Values, is_found, default_line, setting_line, write_coding, added_coding,
}
use secure_e_fax.Settings.Read.{put_value, read_coding, read_parm, read_parm_lines}
use secure_e_fax.Settings.Lines.{IsPlain, read_parm-text}
use secure_e_fax.Settings.OneLine.{default_line-Without, text-Without}
use secure_e_fax.Settings.Default.{
  IsSound, put_value_same, from_utf8_ascii, from_utf8_empty, default_line_ascii, text_ascii,
  read_parm-default_line,
}

-- A value that survives the conversions: empty, or converted to a text that a line can carry, and back.
pub record IsConverted (h : Conversions) (c : Coding) (k : Key) (v : Bytes) : Type 0 where
  pub converted : Bytes
  pub written : from_utf8 h c v ≡ some converted
  pub read : to_utf8 h (read_coding k) converted ≡ some v
  pub fits : IsPlain converted

abbrev pub IsStorable : Conversions → Coding → Key → Bytes → Type 0
IsStorable h c k v = (v ≡ []) ⊎ IsConverted h c k v

-- A value, or another if it is empty
abbrev pub or_else : Bytes → Bytes → Bytes
or_else [] r = r
or_else (c ∷ v) r = c ∷ v

-- What a line does that stands for the value v of the setting k.
abbrev pub Sets : Conversions → Key → Bytes → Bytes → Type 0
Sets h k v line =
    (values : Values) (j : Key)
    → read_parm h line values j ≡ put_value k (or_else v (values k)) values j

-- A line without a value.
pub setting_line_empty :
    (h : Conversions) (c : Coding) (k : Key)
    → IsSound h
    → (line : Bytes) × (from_utf8 h c (default_line k) ≡ some line)
      × Sets h k [] line
      × Without newline line
setting_line_empty h c k host =
    let written : from_utf8 h c (default_line k) ≡ some (default_line k) =
      subst (λ t. from_utf8 h c t ≡ some t) (append-nil (default_line k))
        (from_utf8_ascii h c (default_line k) [] [] host (default_line_ascii k)
          (from_utf8_empty h c host)) in
    (
      default_line k,
      written,
      λ values j. read_parm-default_line h k values j ∙ sym (put_value_same k values j),
      default_line-Without k,
    )

-- A line with a value.
pub setting_line_full :
    (h : Conversions) (c : Coding) (k : Key) (d : ℕ) (v : Bytes)
    → IsSound h
    → IsConverted h c k (d ∷ v)
    → (line : Bytes) × (from_utf8 h c (setting_line k (d ∷ v)) ≡ some line)
      × Sets h k (d ∷ v) line
      × Without newline line
unfolding setting_line
setting_line_full h c k d v host stored =
    let w = stored.converted in
    let written : from_utf8 h c (text k ++ 32 ∷ d ∷ v) ≡ some (text k ++ 32 ∷ w) =
      subst (λ t. from_utf8 h c t ≡ some (text k ++ 32 ∷ w))
        (append_assoc (text k) (32 ∷ []) (d ∷ v))
        (subst (λ t. from_utf8 h c ((text k ++ 32 ∷ []) ++ d ∷ v) ≡ some t)
          (append_assoc (text k) (32 ∷ []) w)
          (from_utf8_ascii h c (text k ++ 32 ∷ []) (d ∷ v) w host (text_ascii k) stored.written)) in
    (
      text k ++ 32 ∷ w,
      written,
      λ values j. ap (λ t. t j) (read_parm-text h k w (d ∷ v) values stored.fits stored.read),
      text-Without k w stored.fits.one_line,
    )

pub setting_line_lem :
    (h : Conversions) (c : Coding) (k : Key) (v : Bytes)
    → IsSound h
    → IsStorable h c k v
    → (line : Bytes) × (from_utf8 h c (setting_line k v) ≡ some line)
      × Sets h k v line
      × Without newline line
unfolding setting_line
setting_line_lem h c k [] host stored = setting_line_empty h c k host
setting_line_lem h c k (d ∷ v) host (inl e) = ground arith
setting_line_lem h c k (d ∷ v) host (inr stored) = setting_line_full h c k d v host stored

-- The settings that have been found are those of the dialog, the others are empty.
abbrev pub Holds : Values → List Key → Values → Type 0
Holds values found read =
    (j : Key)
    → j is work_subdir ≡ false
    → read j ≡ (if is_found j found then strip (values j) else [])

pub or_else_if : (b : Bool) (v : Bytes) → or_else v (if b then v else []) ≡ v
or_else_if true [] = refl
or_else_if false [] = refl
or_else_if b (c ∷ v) = refl

-- A line that stands for the value of a setting.
pub Holds-line :
    (h : Conversions) (values read : Values) (found : List Key) (k : Key) (line : Bytes)
    → k is work_subdir ≡ false
    → Sets h k (strip (values k)) line
    → Holds values found read
    → Holds values (k ∷ found) (read_parm h line read)
unfolding is_found
Holds-line h values read found k line named sets holds j other =
    sets read j ∙ elim (Bool-cases (j is k)) [
      | inl here ↦
          rw (here, is→eq j k here, holds k named)
            (or_else_if (is_found k found) (strip (values k)))
      | inr there ↦ rw (there, holds j other) refl
    ]

pub read_parm_lines-append :
    (h : Conversions) (xs ys : List Bytes) (read : Values)
    → read_parm_lines h (xs ++ ys) read ≡ read_parm_lines h ys (read_parm_lines h xs read)
unfolding read_parm_lines
read_parm_lines-append h [] ys read = refl
read_parm_lines-append h (x ∷ xs) ys read = read_parm_lines-append h xs ys (read_parm h x read)

-- Every value can be written, in the coding of a line that is replaced and in that of a line that is added.
abbrev pub AllStorable : Conversions → Values → Type 0
AllStorable h values =
    (k : Key)
    → k is work_subdir ≡ false
    → IsStorable h (write_coding k) k (strip (values k))
      × IsStorable h (added_coding k) k (strip (values k))
