-- ===== src/Settings/Read.antt =====
-- The loops that read the settings file: configure_prog of src/main.cpp, and SettingsDialog::read_config of
-- src/settings.cpp.
use secure_e_fax.Prelude.{List, [], ◌∷◌, Option, none, some, if◌then◌else◌}
use secure_e_fax.Text.{Bytes, codes}
use secure_e_fax.Text.Lines.{get_lines}
use secure_e_fax.Text.Decimal.{atoi}
use secure_e_fax.Settings.{
  Key, my_name, my_number, device, lock, modem_class, page, res, dial_prefix, rings, dialmode, init,
  reset, capabilities, parms, print_cmd, gtkprint, print_shrink, print_popup, ps_viewer,
  sock_server, sock_popup, sock_server_port, sock_client_address, sock_other_addresses,
  fax_received_popup, fax_received_exec, fax_received_prog, addr_in_header, log_file, work_subdir,
  text, config_keys, dialog_keys, is_ascii, parm_value, valid_line, Conversions, Coding, locale,
  filename, to_utf8,
}
use secure_e_fax.Settings.Keys.{◌is◌, first_key}
use secure_e_fax.Settings.Write.{Values, one_of, is_within}

abbrev pub put_value : Key → Bytes → Values → Values
put_value k v values j = if j is k then v else values j

-- The codings in which configure_prog and read_config read the values.
unfoldable pub read_coding : Key → Coding
read_coding my_name = locale
read_coding my_number = locale
read_coding device = locale
read_coding lock = filename
read_coding modem_class = locale
read_coding page = locale
read_coding res = locale
read_coding dial_prefix = locale
read_coding rings = locale
read_coding dialmode = locale
read_coding init = locale
read_coding reset = locale
read_coding capabilities = locale
read_coding parms = locale
read_coding print_cmd = locale
read_coding gtkprint = locale
read_coding print_shrink = locale
read_coding print_popup = locale
read_coding ps_viewer = locale
read_coding sock_server = locale
read_coding sock_popup = locale
read_coding sock_server_port = locale
read_coding sock_client_address = locale
read_coding sock_other_addresses = locale
read_coding fax_received_popup = locale
read_coding fax_received_exec = locale
read_coding fax_received_prog = filename
read_coding addr_in_header = locale
read_coding log_file = filename
read_coding work_subdir = filename

unfoldable pub entry_coding : Key → Coding
entry_coding my_name = locale
entry_coding my_number = locale
entry_coding device = locale
entry_coding lock = filename
entry_coding modem_class = locale
entry_coding page = locale
entry_coding res = locale
entry_coding dial_prefix = locale
entry_coding rings = locale
entry_coding dialmode = locale
entry_coding init = locale
entry_coding reset = locale
entry_coding capabilities = locale
entry_coding parms = locale
entry_coding print_cmd = locale
entry_coding gtkprint = locale
entry_coding print_shrink = locale
entry_coding print_popup = locale
entry_coding ps_viewer = locale
entry_coding sock_server = locale
entry_coding sock_popup = locale
entry_coding sock_server_port = locale
entry_coding sock_client_address = locale
entry_coding sock_other_addresses = locale
entry_coding fax_received_popup = locale
entry_coding fax_received_exec = locale
entry_coding fax_received_prog = locale
entry_coding addr_in_header = locale
entry_coding log_file = filename
entry_coding work_subdir = locale

-- One line in configure_prog, where each setting has a variable of its own.
unfoldable pub read_parm : Conversions → Bytes → Values → Values
unfolding valid_line first_key parm_value to_utf8 read_coding
read_parm h line values = elim (valid_line line) [
  | none ↦ values
  | some l ↦ elim (first_key config_keys l) [
    | none ↦ values
    | some k ↦ put_value k (parm_value (to_utf8 h (read_coding k)) (text k) l (values k)) values
  ]
]

unfoldable pub read_parm_lines : Conversions → List Bytes → Values → Values
unfolding read_parm
read_parm_lines h [] values = values
read_parm_lines h (line ∷ lines) values = read_parm_lines h lines (read_parm h line values)

-- The loop of configure_prog over the bytes of the file.
unfoldable pub read_parms : Conversions → Bytes → Values → Values
unfolding read_parm_lines get_lines
read_parms h file values = read_parm_lines h (get_lines file) values

-- What read_config enters in the dialog for a setting; none if it leaves the entry as it is.
unfoldable pub entered : Key → Bytes → Option Bytes
unfolding is_ascii
entered my_name v = if is_ascii v then some v else none
entered modem_class v =
    some (if one_of (codes "1" ∷ codes "2" ∷ codes "2.0" ∷ []) v then v else codes "2")
entered rings v = some (if is_within 1 9 (atoi v) then v else codes "1")
entered print_shrink v = some (if is_within 50 100 (atoi v) then v else codes "100")
entered sock_server_port v = some (if is_within 1024 65535 (atoi v) then v else codes "9900")
entered _ v = some v

-- The entries, and the variable `result`, which all the settings share.
pub record Dialog : Type 0 where
  pub entries : Values
  pub result : Bytes

abbrev pub enter : Key → Option Bytes → Values → Values
enter k none entries = entries
enter k (some v) entries = put_value k v entries

unfoldable pub read_entry : Conversions → Bytes → Dialog → Dialog
unfolding valid_line first_key parm_value to_utf8 entry_coding entered
read_entry h line d = elim (valid_line line) [
  | none ↦ d
  | some l ↦ elim (first_key dialog_keys l) [
    | none ↦ d
    | some k ↦
        let result = parm_value (to_utf8 h (entry_coding k)) (text k) l d.result in
        record { entries = enter k (entered k result) d.entries; result = result }
  ]
]

unfoldable pub read_entries : Conversions → List Bytes → Dialog → Dialog
unfolding read_entry
read_entries h [] d = d
read_entries h (line ∷ lines) d = read_entries h lines (read_entry h line d)

-- The loop of read_config over the bytes of the file.
unfoldable pub read_config : Conversions → Bytes → Dialog → Dialog
unfolding read_entries get_lines
read_config h file d = read_entries h (get_lines file) d
