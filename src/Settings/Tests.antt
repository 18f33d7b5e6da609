-- ===== src/Settings/Tests.antt =====
-- The settings functions on concrete files.
use secure_e_fax.Prelude.{◌≡◌, refl, [], ◌∷◌, true, false, some}
use secure_e_fax.Text.{Bytes, codes, bytes_eq}
use secure_e_fax.Text.Lines.{get_lines, print_lines}
use secure_e_fax.Settings.{
  Key, my_number, device, work_subdir, text, strip, is_ascii, find_prog_parm, trim_end, skip_blanks,
  from_utf8, to_utf8,
}
use secure_e_fax.Settings.Keys.{◌is◌, place_of}
use secure_e_fax.Settings.Write.{
  is_allowed, all_allowed, write_coding, write_config, replace_lines, named_key, is_found,
  file_line, setting_line, default_line,
}
use secure_e_fax.Settings.Read.{read_parms, read_config, entry_coding}
use secure_e_fax.Settings.Samples.{
  utf8_conv, utf8_conv-IsSound, entries, entries-AllStorable, fits_device, old_file,
}
use secure_e_fax.Settings.RoundTrip.{read_parms-write_config}
use secure_e_fax.Settings.Stale.{read_config_stale}

read_parms-write_config_example :
    (new : Bytes) × (write_config utf8_conv true entries old_file ≡ some new)
    × ((k : Key)
        → k is work_subdir ≡ false
        → read_parms utf8_conv new (λ j. []) k ≡ strip (entries k))
unfolding all_allowed is_allowed is_ascii strip trim_end skip_blanks bytes_eq
read_parms-write_config_example =
    read_parms-write_config utf8_conv entries old_file utf8_conv-IsSound entries-AllStorable refl

read_config_stale_example :
    let file = print_lines (codes "DEVICE: ttyS0" ∷ default_line my_number ∷ []) in
    ((read_config utf8_conv file (record { entries = entries; result = [] })).entries my_number
      ≡ codes "ttyS0")
    × (read_parms utf8_conv file entries my_number ≡ codes " 12 34")
unfolding text place_of to_utf8 entry_coding
read_config_stale_example =
    read_config_stale utf8_conv device (codes "ttyS0") (codes "ttyS0")
      (record { entries = entries; result = [] }) entries refl refl fits_device refl

-- The first lines of the new file.
write_config_test :
    (replace_lines utf8_conv entries [] (get_lines old_file)).0
    ≡ codes "# my settings"
      ∷ codes "NUMBER: 12 34"
      ∷ codes "RES: fine"
      ∷ codes "WORK_SUBDIR: fax"
      ∷ []
unfolding get_lines replace_lines named_key is_found file_line find_prog_parm write_coding from_utf8
    setting_line strip trim_end skip_blanks text place_of
write_config_test = refl

-- A newline in a value cuts it.
newline_in_value : read_parms utf8_conv (codes "NUMBER: 12\n34\n") (λ j. []) my_number ≡ codes "12"
unfolding read_parms find_prog_parm text place_of
newline_in_value = refl
