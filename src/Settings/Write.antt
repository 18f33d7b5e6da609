-- ===== src/Settings/Write.antt =====
-- SettingsDialog::write_config of src/settings.cpp. The entries of the dialog's pages are a function of the
-- setting; the file is its bytes. The dialogs that report an error are left out.
use secure_e_fax.Prelude.{
  ℕ, List, [], ◌∷◌, ◌++◌, Bool, true, false, ◌&&◌, ◌||◌, Option, none, some, if◌then◌else◌, leb,
}
use secure_e_fax.Text.{Bytes, codes, bytes_eq}
use secure_e_fax.Text.Lines.{get_lines, print_lines}
use secure_e_fax.Text.Decimal.{ℤ, pos, negsuc, atoi}
use secure_e_fax.Settings.{
  Key, my_name, my_number, device, lock, modem_class, page, res, dial_prefix, rings, dialmode, init,
  reset, capabilities, parms, print_cmd, gtkprint, print_shrink, print_popup, ps_viewer,
  sock_server, sock_popup, sock_server_port, sock_client_address, sock_other_addresses,
  fax_received_popup, fax_received_exec, fax_received_prog, addr_in_header, log_file, work_subdir,
  text, dialog_keys, strip, is_ascii, find_prog_parm, Conversions, Coding, locale, filename, plain,
  from_utf8,
}
use secure_e_fax.Settings.Keys.{◌is◌}

abbrev pub Values : Type 0
Values = Key → Bytes

-- The line of a setting without a value.
unfoldable pub default_line : Key → Bytes
default_line my_name = codes "NAME: "
default_line my_number = codes "NUMBER: "
default_line device = codes "#DEVICE: modem"
default_line lock = codes "#LOCK: /var/lock"
default_line modem_class = codes "#CLASS: 2"
default_line page = codes "#PAGE: a4"
default_line res = codes "#RES: fine"
default_line dial_prefix = codes "#DIAL_PREFIX: "
default_line rings = codes "#RINGS: 1"
default_line dialmode = codes "#DIALMODE: tone"
default_line init = codes "#INIT: Z &FE&D2S7=120 &C0 M1L0"
default_line reset = codes "#RESET: Z"
default_line capabilities = codes "#CAPABILITIES: 1,5,0,2,0,0,0,0"
default_line parms = codes "#PARMS: "
default_line print_cmd = codes "#PRINT_CMD: lpr"
default_line gtkprint = codes "#USE_GTKPRINT: No"
default_line print_shrink = codes "#PRINT_SHRINK: 100"
default_line print_popup = codes "#PRINT_POPUP: Yes"
default_line ps_viewer = codes "#PS_VIEWER: gv"
default_line sock_server = codes "#SOCK_SERVER: No"
default_line sock_popup = codes "#SOCK_POPUP: No"
default_line sock_server_port = codes "#SOCK_SERVER_PORT: 9900"
default_line sock_client_address = codes "#SOCK_CLIENT_ADDRESS: localhost"
default_line sock_other_addresses = codes "#SOCK_OTHER_ADDRESSES:"
default_line fax_received_popup = codes "#FAX_RECEIVED_POPUP: No"
default_line fax_received_exec = codes "#FAX_RECEIVED_EXEC: No"
default_line fax_received_prog = codes "#FAX_RECEIVED_PROG: "
default_line addr_in_header = codes "#ADDR_IN_HEADER: Yes"
default_line log_file = codes "#LOG_FILE: logfile"
default_line work_subdir = []

unfoldable pub setting_line : Key → Bytes → Bytes
setting_line k [] = default_line k
setting_line k (c ∷ v) = text k ++ 32 ∷ c ∷ v

-- Text that is one of those listed.
abbrev pub one_of : List Bytes → Bytes → Bool
one_of [] v = false
one_of (t ∷ ts) v = bytes_eq v t || one_of ts v

abbrev pub is_within : ℕ → ℕ → ℤ → Bool
is_within low high (pos n) = leb low n && leb n high
is_within low high (negsuc n) = false

-- A digit from 1 to 9
abbrev pub is_rings : Bytes → Bool
is_rings [] = false
is_rings (c ∷ []) = leb b'1' c && leb c b'9'
is_rings (c ∷ d ∷ v) = false

abbrev pub no_value : Bytes → Bool
no_value [] = true
no_value (c ∷ v) = false

-- Whether write_config accepts the value of a setting.
unfoldable pub is_allowed : Key → Bytes → Bool
unfolding is_ascii
is_allowed my_name v = is_ascii v
is_allowed modem_class v = no_value v || one_of (codes "1" ∷ codes "2" ∷ codes "2.0" ∷ []) v
is_allowed page v = no_value v || one_of (codes "a4" ∷ codes "letter" ∷ codes "legal" ∷ []) v
is_allowed res v = no_value v || one_of (codes "fine" ∷ codes "standard" ∷ []) v
is_allowed rings v = no_value v || is_rings v
is_allowed dialmode v = no_value v || one_of (codes "tone" ∷ codes "pulse" ∷ []) v
is_allowed print_shrink v = no_value v || is_within 50 100 (atoi v)
is_allowed sock_server_port v = no_value v || is_within 1024 65535 (atoi v)
is_allowed _ v = true

unfoldable pub all_allowed : List Key → Values → Bool
unfolding is_allowed strip
all_allowed [] values = true
all_allowed (k ∷ ks) values = is_allowed k (strip (values k)) && all_allowed ks values

-- The coding in which write_config converts the line of a setting.
unfoldable pub write_coding : Key → Coding
write_coding my_name = locale
write_coding my_number = plain
write_coding device = locale
write_coding lock = filename
write_coding modem_class = plain
write_coding page = plain
write_coding res = plain
write_coding dial_prefix = locale
write_coding rings = plain
write_coding dialmode = plain
write_coding init = plain
write_coding reset = plain
write_coding capabilities = plain
write_coding parms = plain
write_coding print_cmd = filename
write_coding gtkprint = plain
write_coding print_shrink = plain
write_coding print_popup = plain
write_coding ps_viewer = filename
write_coding sock_server = plain
write_coding sock_popup = plain
write_coding sock_server_port = plain
write_coding sock_client_address = plain
write_coding sock_other_addresses = plain
write_coding fax_received_popup = plain
write_coding fax_received_exec = plain
write_coding fax_received_prog = filename
write_coding addr_in_header = plain
write_coding log_file = filename
write_coding work_subdir = plain

-- The line that is put in the file; none if the conversion fails.
unfoldable pub file_line : Conversions → Coding → Values → Key → Option Bytes
unfolding from_utf8 setting_line strip
file_line h c values k = from_utf8 h c (setting_line k (strip (values k)))

abbrev pub push_line : Option Bytes → List Bytes → List Bytes
push_line none lines = lines
push_line (some l) lines = l ∷ lines

-- The setting that a line names, also as a comment.
unfoldable pub named_key : List Key → Bytes → Option Key
unfolding find_prog_parm
named_key [] line = none
named_key (k ∷ ks) line =
    if find_prog_parm (text k) line || find_prog_parm (b'#' ∷ text k) line
    then some k
    else named_key ks line

-- The flags found_name and so on, as the list of the settings that have been found.
unfoldable pub is_found : Key → List Key → Bool
is_found k [] = false
is_found k (j ∷ js) = (k is j) || is_found k js

abbrev pub terminating_line : Bytes
terminating_line = codes "## end of efax-gtkrc ##"

-- The loop over the lines of the old file: the new lines, and the settings found.
unfoldable pub replace_lines : Conversions → Values → List Key → List Bytes → List Bytes × List Key
replace_lines h values found [] = ([], found)
replace_lines h values found (line ∷ lines) =
    let again = replace_lines h values found lines in
    elim (named_key dialog_keys line) [
      | none ↦ if find_prog_parm terminating_line line then again else (line ∷ again.0, again.1)
      | some k ↦
          let first = replace_lines h values (k ∷ found) lines in
          if is_found k found
          then again
          else (push_line (file_line h (write_coding k) values k) first.0, first.1)
    ]

-- The settings that are added if the old file has no line for them, in their order.
abbrev pub missing_keys : List Key
missing_keys =
    my_number ∷ device ∷ modem_class ∷ page ∷ res ∷ rings ∷ dialmode ∷ init ∷ reset ∷ capabilities
    ∷ parms ∷ gtkprint ∷ print_shrink ∷ print_popup ∷ sock_server ∷ sock_popup ∷ sock_server_port
    ∷ sock_client_address ∷ sock_other_addresses ∷ fax_received_popup ∷ fax_received_exec
    ∷ addr_in_header ∷ my_name ∷ lock ∷ dial_prefix ∷ print_cmd ∷ ps_viewer ∷ fax_received_prog
    ∷ log_file ∷ []

-- The coding of a line that is added: the source adds the line of the device without a conversion.
unfoldable pub added_coding : Key → Coding
unfolding write_coding
added_coding k = if k is device then plain else write_coding k

unfoldable pub added_line : Conversions → Values → Key → Option Bytes
unfolding file_line added_coding
added_line h values k = file_line h (added_coding k) values k

unfoldable pub add_missing : Conversions → Values → List Key → List Key → List Bytes
add_missing h values found [] = terminating_line ∷ []
add_missing h values found (k ∷ ks) =
    let rest = add_missing h values found ks in
    if is_found k found then rest else push_line (added_line h values k) rest

-- The lines of the new file.
unfoldable pub new_lines : Conversions → Values → List Bytes → List Bytes
unfolding replace_lines add_missing
new_lines h values old =
    let (lines, found) = replace_lines h values [] old in
    lines ++ add_missing h values found missing_keys

-- write_config: the new file, none if a value is not allowed or the file cannot be opened for writing.
unfoldable pub write_config : Conversions → Bool → Values → Bytes → Option Bytes
unfolding all_allowed new_lines get_lines print_lines
write_config h can_open values old =
    if all_allowed dialog_keys values && can_open
    then some (print_lines (new_lines h values (get_lines old)))
    else none
