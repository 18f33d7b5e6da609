-- ===== src/Settings/Stale.antt =====
-- The variable that the settings share in SettingsDialog::read_config of src/settings.cpp, against the
-- variables of configure_prog in src/main.cpp.
use secure_e_fax.Prelude.{◌≡◌, refl, ap, ◌∙◌, [], ◌∷◌, ◌++◌, false, some, arith}
use secure_e_fax.Text.{Bytes}
use secure_e_fax.Text.Lines.{get_lines, print_lines, get_lines-print_lines}
use secure_e_fax.Settings.OneLine.{default_line-Without, text-Without}
use secure_e_fax.Settings.{
  Key, my_name, my_number, device, lock, modem_class, page, res, dial_prefix, rings, dialmode, init,
  reset, capabilities, parms, print_cmd, gtkprint, print_shrink, print_popup, ps_viewer,
  sock_server, sock_popup, sock_server_port, sock_client_address, sock_other_addresses,
  fax_received_popup, fax_received_exec, fax_received_prog, addr_in_header, log_file, work_subdir,
  text, dialog_keys, valid_line, before_hash, find_prog_parm, parm_value, trim_end, skip_blanks,
  Conversions, to_utf8,
}
use secure_e_fax.Settings.Keys.{◌is◌, place_of, first_key, first_key-text}
use secure_e_fax.Settings.Write.{Values, default_line}
use secure_e_fax.Settings.Read.{
  entry_coding, read_parm, read_parm_lines, read_parms, Dialog, entered, enter, read_entry,
  read_entries, read_config,
}
use secure_e_fax.Settings.Lines.{IsPlain, valid_line_plain, parm_value-text, read_parm_named}
use secure_e_fax.Settings.Default.{read_parm-default_line}

dialog_key-text :
    (k : Key) (rest : Bytes)
    → k is work_subdir ≡ false
    → first_key dialog_keys (text k ++ rest) ≡ some k
unfolding first_key find_prog_parm text place_of
dialog_key-text my_name rest e = refl
dialog_key-text my_number rest e = refl
dialog_key-text device rest e = refl
dialog_key-text lock rest e = refl
dialog_key-text modem_class rest e = refl
dialog_key-text page rest e = refl
dialog_key-text res rest e = refl
dialog_key-text dial_prefix rest e = refl
dialog_key-text rings rest e = refl
dialog_key-text dialmode rest e = refl
dialog_key-text init rest e = refl
dialog_key-text reset rest e = refl
dialog_key-text capabilities rest e = refl
dialog_key-text parms rest e = refl
dialog_key-text print_cmd rest e = refl
dialog_key-text gtkprint rest e = refl
dialog_key-text print_shrink rest e = refl
dialog_key-text print_popup rest e = refl
dialog_key-text ps_viewer rest e = refl
dialog_key-text sock_server rest e = refl
dialog_key-text sock_popup rest e = refl
dialog_key-text sock_server_port rest e = refl
dialog_key-text sock_client_address rest e = refl
dialog_key-text sock_other_addresses rest e = refl
dialog_key-text fax_received_popup rest e = refl
dialog_key-text fax_received_exec rest e = refl
dialog_key-text fax_received_prog rest e = refl
dialog_key-text addr_in_header rest e = refl
dialog_key-text log_file rest e = refl
dialog_key-text work_subdir rest e = ground arith

read_entry_named :
    (h : Conversions) (line l : Bytes) (k : Key) (d : Dialog)
    → valid_line line ≡ some l
    → first_key dialog_keys l ≡ some k
    → let result = parm_value (to_utf8 h (entry_coding k)) (text k) l d.result in
      read_entry h line d
      ≡ record { entries = enter k (entered k result) d.entries; result = result }
unfolding read_entry
read_entry_named h line l k d v f = rw (read_entry, v, f) refl

-- The shared variable after a line with a value.
read_entry-text :
    (h : Conversions) (k : Key) (w v : Bytes) (d : Dialog)
    → k is work_subdir ≡ false
    → IsPlain w
    → to_utf8 h (entry_coding k) w ≡ some v
    → (read_entry h (text k ++ 32 ∷ w) d).result ≡ v
read_entry-text h k w v d dialog plain_w e =
    ap (λ t. t.result)
      (read_entry_named h (text k ++ 32 ∷ w) (text k ++ 32 ∷ w) k d (valid_line_plain k w plain_w)
        (dialog_key-text k (32 ∷ w) dialog))
    ∙ parm_value-text (to_utf8 h (entry_coding k)) k w v d.result plain_w e

-- The entry of the number after a line that names it and is otherwise empty.
read_entry_empty :
    (h : Conversions) (d : Dialog)
    → (read_entry h (default_line my_number) d).entries my_number ≡ d.result
unfolding read_entry default_line valid_line before_hash first_key find_prog_parm text parm_value
    trim_end skip_blanks entered place_of
read_entry_empty h d = refl

-- A line leaves the settings that it does not name.
read_parm_apart :
    (h : Conversions) (k : Key) (w : Bytes) (values : Values)
    → IsPlain w
    → my_number is k ≡ false
    → read_parm h (text k ++ 32 ∷ w) values my_number ≡ values my_number
read_parm_apart h k w values plain_w apart =
    ap (λ t. t my_number)
      (read_parm_named h (text k ++ 32 ∷ w) (text k ++ 32 ∷ w) k values
        (valid_line_plain k w plain_w) (first_key-text k (32 ∷ w)))
    ∙ (rw apart refl)

-- When a line gives a setting a value and the next line names the fax number without one, the dialog shows
-- that value as the number, while the program keeps the number that it had. The setting is one of the
-- dialog's other than the number, the value has no comment marker, no newline and no blanks at its ends, and
-- it is v in the coding in which the dialog reads the setting.
pub read_config_stale :
    (h : Conversions) (k : Key) (w v : Bytes) (d : Dialog) (values : Values)
    → k is work_subdir ≡ false
    → my_number is k ≡ false
    → IsPlain w
    → to_utf8 h (entry_coding k) w ≡ some v
    → let file = print_lines ((text k ++ 32 ∷ w) ∷ default_line my_number ∷ []) in
      ((read_config h file d).entries my_number ≡ v)
      × (read_parms h file values my_number ≡ values my_number)
unfolding read_config read_parms read_entries read_parm_lines
read_config_stale h k w v d values dialog apart plain_w e =
    let d' = read_entry h (text k ++ 32 ∷ w) d in
    let values' = read_parm h (text k ++ 32 ∷ w) values in
    let lines = (text k ++ 32 ∷ w) ∷ default_line my_number ∷ [] in
    let split : get_lines (print_lines lines) ≡ lines =
      get_lines-print_lines lines
        (text-Without k w plain_w.one_line, (default_line-Without my_number, tt)) in
    (
      ap (λ ls. (read_entries h ls d).entries my_number) split
          ∙ read_entry_empty h d'
          ∙ read_entry-text h k w v d dialog plain_w e,
      ap (λ ls. read_parm_lines h ls values my_number) split
          ∙ read_parm-default_line h my_number values' my_number
          ∙ read_parm_apart h k w values plain_w apart,
    )
