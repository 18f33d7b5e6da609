-- ===== src/Settings/Default.antt =====
-- The lines of the settings that have no value.
use secure_e_fax.Prelude.{
  ◌≡◌, refl, sym, ap, ◌∙◌, [], ◌∷◌, ◌++◌, true, false, Option, none, some, Bool-cases, inl, inr,
}
use secure_e_fax.Text.{Bytes}
use secure_e_fax.Settings.{
  Key, my_name, my_number, device, lock, modem_class, page, res, dial_prefix, rings, dialmode, init,
  reset, capabilities, parms, print_cmd, gtkprint, print_shrink, print_popup, ps_viewer,
  sock_server, sock_popup, sock_server_port, sock_client_address, sock_other_addresses,
  fax_received_popup, fax_received_exec, fax_received_prog, addr_in_header, log_file, work_subdir,
  text, is_ascii, valid_line, before_hash, find_prog_parm, parm_value, trim_end, skip_blanks,
  Conversions, Coding, locale, filename, plain, from_utf8,
}
use secure_e_fax.Settings.Keys.{◌is◌, place_of, is→eq, first_key}
use secure_e_fax.Settings.Write.{Values, default_line, is_found, missing_keys}
use secure_e_fax.Settings.Read.{put_value, read_parm}
use secure_e_fax.Settings.Lines.{read_parm_invalid, read_parm_named}

-- The conversions leave ASCII text at the front as it is.
pub record IsSound (h : Conversions) : Type 0 where
  pub locale_ascii :
      (a v w : Bytes)
      → is_ascii a ≡ true
      → h.locale_from_utf8 v ≡ some w
      → h.locale_from_utf8 (a ++ v) ≡ some (a ++ w)
  pub filename_ascii :
      (a v w : Bytes)
      → is_ascii a ≡ true
      → h.filename_from_utf8 v ≡ some w
      → h.filename_from_utf8 (a ++ v) ≡ some (a ++ w)
  pub locale_empty : h.locale_from_utf8 [] ≡ some []
  pub filename_empty : h.filename_from_utf8 [] ≡ some []

the_bytes : Option Bytes → Bytes
the_bytes none = []
the_bytes (some v) = v

pub from_utf8_ascii :
    (h : Conversions) (c : Coding) (a v w : Bytes)
    → IsSound h
    → is_ascii a ≡ true
    → from_utf8 h c v ≡ some w
    → from_utf8 h c (a ++ v) ≡ some (a ++ w)
unfolding from_utf8 the_bytes
from_utf8_ascii h locale a v w host e f = host.locale_ascii a v w e f
from_utf8_ascii h filename a v w host e f = host.filename_ascii a v w e f
from_utf8_ascii h plain a v w host e f = ap (λ t. some (a ++ the_bytes t)) f

pub from_utf8_empty : (h : Conversions) (c : Coding) → IsSound h → from_utf8 h c [] ≡ some []
unfolding from_utf8
from_utf8_empty h locale host = host.locale_empty
from_utf8_empty h filename host = host.filename_empty
from_utf8_empty h plain host = refl

pub default_line_ascii : (k : Key) → is_ascii (default_line k) ≡ true
unfolding is_ascii default_line
default_line_ascii my_name = refl
default_line_ascii my_number = refl
default_line_ascii device = refl
default_line_ascii lock = refl
default_line_ascii modem_class = refl
default_line_ascii page = refl
default_line_ascii res = refl
default_line_ascii dial_prefix = refl
default_line_ascii rings = refl
default_line_ascii dialmode = refl
default_line_ascii init = refl
default_line_ascii reset = refl
default_line_ascii capabilities = refl
default_line_ascii parms = refl
default_line_ascii print_cmd = refl
default_line_ascii gtkprint = refl
default_line_ascii print_shrink = refl
default_line_ascii print_popup = refl
default_line_ascii ps_viewer = refl
default_line_ascii sock_server = refl
default_line_ascii sock_popup = refl
default_line_ascii sock_server_port = refl
default_line_ascii sock_client_address = refl
default_line_ascii sock_other_addresses = refl
default_line_ascii fax_received_popup = refl
default_line_ascii fax_received_exec = refl
default_line_ascii fax_received_prog = refl
default_line_ascii addr_in_header = refl
default_line_ascii log_file = refl
default_line_ascii work_subdir = refl

pub text_ascii : (k : Key) → is_ascii (text k ++ 32 ∷ []) ≡ true
unfolding is_ascii text
text_ascii my_name = refl
text_ascii my_number = refl
text_ascii device = refl
text_ascii lock = refl
text_ascii modem_class = refl
text_ascii page = refl
text_ascii res = refl
text_ascii dial_prefix = refl
text_ascii rings = refl
text_ascii dialmode = refl
text_ascii init = refl
text_ascii reset = refl
text_ascii capabilities = refl
text_ascii parms = refl
text_ascii print_cmd = refl
text_ascii gtkprint = refl
text_ascii print_shrink = refl
text_ascii print_popup = refl
text_ascii ps_viewer = refl
text_ascii sock_server = refl
text_ascii sock_popup = refl
text_ascii sock_server_port = refl
text_ascii sock_client_address = refl
text_ascii sock_other_addresses = refl
text_ascii fax_received_popup = refl
text_ascii fax_received_exec = refl
text_ascii fax_received_prog = refl
text_ascii addr_in_header = refl
text_ascii log_file = refl
text_ascii work_subdir = refl

-- A line that is empty behind the name of its setting leaves the setting as well.
pub put_value_same :
    (k : Key) (values : Values) (j : Key) → put_value k (values k) values j ≡ values j
put_value_same k values j = elim (Bool-cases (j is k)) [
  | inl here ↦ (rw here refl) ∙ ap values (sym (is→eq j k here))
  | inr there ↦ rw there refl
]

-- A line without a value leaves every setting.
pub read_parm-default_line :
    (h : Conversions) (k : Key) (values : Values) (j : Key)
    → read_parm h (default_line k) values j ≡ values j
unfolding default_line valid_line before_hash first_key find_prog_parm text parm_value trim_end
    skip_blanks
read_parm-default_line h my_name values j =
    ap (λ t. t j)
      (read_parm_named h (default_line my_name) (default_line my_name) my_name values refl refl)
    ∙ put_value_same my_name values j
read_parm-default_line h my_number values j =
    ap (λ t. t j)
      (read_parm_named h (default_line my_number) (default_line my_number) my_number values refl
        refl)
    ∙ put_value_same my_number values j
read_parm-default_line h device values j =
    ap (λ t. t j) (read_parm_invalid h (default_line device) values refl)
read_parm-default_line h lock values j =
    ap (λ t. t j) (read_parm_invalid h (default_line lock) values refl)
read_parm-default_line h modem_class values j =
    ap (λ t. t j) (read_parm_invalid h (default_line modem_class) values refl)
read_parm-default_line h page values j =
    ap (λ t. t j) (read_parm_invalid h (default_line page) values refl)
read_parm-default_line h res values j =
    ap (λ t. t j) (read_parm_invalid h (default_line res) values refl)
read_parm-default_line h dial_prefix values j =
    ap (λ t. t j) (read_parm_invalid h (default_line dial_prefix) values refl)
read_parm-default_line h rings values j =
    ap (λ t. t j) (read_parm_invalid h (default_line rings) values refl)
read_parm-default_line h dialmode values j =
    ap (λ t. t j) (read_parm_invalid h (default_line dialmode) values refl)
read_parm-default_line h init values j =
    ap (λ t. t j) (read_parm_invalid h (default_line init) values refl)
read_parm-default_line h reset values j =
    ap (λ t. t j) (read_parm_invalid h (default_line reset) values refl)
read_parm-default_line h capabilities values j =
    ap (λ t. t j) (read_parm_invalid h (default_line capabilities) values refl)
read_parm-default_line h parms values j =
    ap (λ t. t j) (read_parm_invalid h (default_line parms) values refl)
read_parm-default_line h print_cmd values j =
    ap (λ t. t j) (read_parm_invalid h (default_line print_cmd) values refl)
read_parm-default_line h gtkprint values j =
    ap (λ t. t j) (read_parm_invalid h (default_line gtkprint) values refl)
read_parm-default_line h print_shrink values j =
    ap (λ t. t j) (read_parm_invalid h (default_line print_shrink) values refl)
read_parm-default_line h print_popup values j =
    ap (λ t. t j) (read_parm_invalid h (default_line print_popup) values refl)
read_parm-default_line h ps_viewer values j =
    ap (λ t. t j) (read_parm_invalid h (default_line ps_viewer) values refl)
read_parm-default_line h sock_server values j =
    ap (λ t. t j) (read_parm_invalid h (default_line sock_server) values refl)
read_parm-default_line h sock_popup values j =
    ap (λ t. t j) (read_parm_invalid h (default_line sock_popup) values refl)
read_parm-default_line h sock_server_port values j =
    ap (λ t. t j) (read_parm_invalid h (default_line sock_server_port) values refl)
read_parm-default_line h sock_client_address values j =
    ap (λ t. t j) (read_parm_invalid h (default_line sock_client_address) values refl)
read_parm-default_line h sock_other_addresses values j =
    ap (λ t. t j) (read_parm_invalid h (default_line sock_other_addresses) values refl)
read_parm-default_line h fax_received_popup values j =
    ap (λ t. t j) (read_parm_invalid h (default_line fax_received_popup) values refl)
read_parm-default_line h fax_received_exec values j =
    ap (λ t. t j) (read_parm_invalid h (default_line fax_received_exec) values refl)
read_parm-default_line h fax_received_prog values j =
    ap (λ t. t j) (read_parm_invalid h (default_line fax_received_prog) values refl)
read_parm-default_line h addr_in_header values j =
    ap (λ t. t j) (read_parm_invalid h (default_line addr_in_header) values refl)
read_parm-default_line h log_file values j =
    ap (λ t. t j) (read_parm_invalid h (default_line log_file) values refl)
read_parm-default_line h work_subdir values j =
    ap (λ t. t j) (read_parm_invalid h (default_line work_subdir) values refl)

-- Every setting of the dialog is one that is added when it is missing.
pub missing_keys_all : (k : Key) → k is work_subdir ≡ false → is_found k missing_keys ≡ true
unfolding is_found place_of
missing_keys_all my_name e = refl
missing_keys_all my_number e = refl
missing_keys_all device e = refl
missing_keys_all lock e = refl
missing_keys_all modem_class e = refl
missing_keys_all page e = refl
missing_keys_all res e = refl
missing_keys_all dial_prefix e = refl
missing_keys_all rings e = refl
missing_keys_all dialmode e = refl
missing_keys_all init e = refl
missing_keys_all reset e = refl
missing_keys_all capabilities e = refl
missing_keys_all parms e = refl
missing_keys_all print_cmd e = refl
missing_keys_all gtkprint e = refl
missing_keys_all print_shrink e = refl
missing_keys_all print_popup e = refl
missing_keys_all ps_viewer e = refl
missing_keys_all sock_server e = refl
missing_keys_all sock_popup e = refl
missing_keys_all sock_server_port e = refl
missing_keys_all sock_client_address e = refl
missing_keys_all sock_other_addresses e = refl
missing_keys_all fax_received_popup e = refl
missing_keys_all fax_received_exec e = refl
missing_keys_all fax_received_prog e = refl
missing_keys_all addr_in_header e = refl
missing_keys_all log_file e = refl
missing_keys_all work_subdir e = sym e
