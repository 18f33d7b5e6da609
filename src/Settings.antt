-- ===== src/Settings.antt =====
-- The settings file of efax-gtk: the names of the settings, and the functions with which settings.cpp and
-- main.cpp find one in a line (get_prog_parm, find_prog_parm, strip and is_ascii, which both files have).
pub mod Keys
pub mod Write
pub mod Read
pub mod Lines
mod OneLine
mod Default
mod Others
mod Steps
mod Replace
pub mod RoundTrip
pub mod Stale
pub mod Configure
mod Samples
mod Tests
use secure_e_fax.Prelude.{
  ℕ, zero, suc, ◌+◌, ◌-◌, List, [], ◌∷◌, ◌++◌, Bool, true, false, not, ◌&&◌, ◌||◌, Option, none,
  some, if◌then◌else◌, ltb, leb, ◌==◌, length, drop,
}
use secure_e_fax.Text.{Bytes, codes}

-- The settings.
pub data Key : Type 0 where
  my_name my_number device lock modem_class page res dial_prefix rings dialmode init reset : Key
  capabilities parms print_cmd gtkprint print_shrink print_popup ps_viewer sock_server : Key
  sock_popup sock_server_port sock_client_address sock_other_addresses fax_received_popup : Key
  fax_received_exec fax_received_prog addr_in_header log_file work_subdir : Key

-- The name of a setting in the file.
unfoldable pub text : Key → Bytes
text my_name = codes "NAME:"
text my_number = codes "NUMBER:"
text device = codes "DEVICE:"
text lock = codes "LOCK:"
text modem_class = codes "CLASS:"
text page = codes "PAGE:"
text res = codes "RES:"
text dial_prefix = codes "DIAL_PREFIX:"
text rings = codes "RINGS:"
text dialmode = codes "DIALMODE:"
text init = codes "INIT:"
text reset = codes "RESET:"
text capabilities = codes "CAPABILITIES:"
text parms = codes "PARMS:"
text print_cmd = codes "PRINT_CMD:"
text gtkprint = codes "USE_GTKPRINT:"
text print_shrink = codes "PRINT_SHRINK:"
text print_popup = codes "PRINT_POPUP:"
text ps_viewer = codes "PS_VIEWER:"
text sock_server = codes "SOCK_SERVER:"
text sock_popup = codes "SOCK_POPUP:"
text sock_server_port = codes "SOCK_SERVER_PORT:"
text sock_client_address = codes "SOCK_CLIENT_ADDRESS:"
text sock_other_addresses = codes "SOCK_OTHER_ADDRESSES:"
text fax_received_popup = codes "FAX_RECEIVED_POPUP:"
text fax_received_exec = codes "FAX_RECEIVED_EXEC:"
text fax_received_prog = codes "FAX_RECEIVED_PROG:"
text addr_in_header = codes "ADDR_IN_HEADER:"
text log_file = codes "LOG_FILE:"
text work_subdir = codes "WORK_SUBDIR:"

-- The order in which write_config and read_config look for the settings.
abbrev pub dialog_keys : List Key
dialog_keys =
    my_name ∷ my_number ∷ device ∷ lock ∷ modem_class ∷ page ∷ res ∷ dial_prefix ∷ rings ∷ dialmode
    ∷ init ∷ reset ∷ capabilities ∷ parms ∷ print_cmd ∷ gtkprint ∷ print_shrink ∷ print_popup
    ∷ ps_viewer ∷ sock_server ∷ sock_popup ∷ sock_server_port ∷ sock_client_address
    ∷ sock_other_addresses ∷ fax_received_popup ∷ fax_received_exec ∷ fax_received_prog
    ∷ addr_in_header ∷ log_file ∷ []

-- The order in which configure_prog does.
abbrev pub config_keys : List Key
config_keys =
    my_name ∷ my_number ∷ device ∷ lock ∷ modem_class ∷ page ∷ res ∷ dial_prefix ∷ rings ∷ dialmode
    ∷ init ∷ reset ∷ capabilities ∷ parms ∷ print_cmd ∷ gtkprint ∷ print_shrink ∷ print_popup
    ∷ ps_viewer ∷ sock_server ∷ sock_popup ∷ sock_server_port ∷ sock_client_address
    ∷ sock_other_addresses ∷ fax_received_popup ∷ fax_received_exec ∷ fax_received_prog ∷ log_file
    ∷ addr_in_header ∷ work_subdir ∷ []

-- ` ` and `\t`
abbrev pub is_blank : ℕ → Bool
is_blank c = c == 32 || c == 9

-- The loop that erases trailing blanks.
unfoldable pub trim_end : Bytes → Bytes
trim_end [] = []
trim_end (c ∷ s) =
    let rest = trim_end s in
    elim rest [ [] ↦ if is_blank c then [] else c ∷ [] | d ∷ r ↦ c ∷ d ∷ r ]

-- From the first that is not blank.
unfoldable pub skip_blanks : Bytes → Bytes
skip_blanks [] = []
skip_blanks (c ∷ s) = let rest = skip_blanks s in if is_blank c then rest else c ∷ s

unfoldable pub strip : Bytes → Bytes
unfolding trim_end skip_blanks
strip setting = skip_blanks (trim_end setting)

unfoldable pub is_ascii : Bytes → Bool
is_ascii [] = true
is_ascii (c ∷ s) = ltb c 128 && is_ascii s

-- `!line.substr(0, length).compare(name)`, which is find_prog_parm
unfoldable pub find_prog_parm : Bytes → Bytes → Bool
find_prog_parm [] line = true
find_prog_parm (c ∷ name) [] = false
find_prog_parm (c ∷ name) (d ∷ line) = c == d && find_prog_parm name line

-- What get_prog_parm does with `result` when it has found the name; `convert` is convert_func. The line
-- begins with the name, so that the loop that trims it does not empty it.
unfoldable pub parm_value : (Bytes → Option Bytes) → Bytes → Bytes → Bytes → Bytes
unfolding trim_end skip_blanks
parm_value convert name line result = elim (skip_blanks (drop (length name) (trim_end line))) [
  | [] ↦ result
  | c ∷ value ↦ elim (convert (c ∷ value)) [ none ↦ [] | some converted ↦ converted ]
]

-- get_prog_parm: none if the name was not found, else the new `result`.
unfoldable pub get_prog_parm : (Bytes → Option Bytes) → Bytes → Bytes → Bytes → Option Bytes
unfolding find_prog_parm parm_value
get_prog_parm convert name line result =
    if find_prog_parm name line then some (parm_value convert name line result) else none

-- The text before a comment marker.
unfoldable pub before_hash : Bytes → Bytes
before_hash [] = []
before_hash (c ∷ s) = let rest = before_hash s in if c == b'#' then [] else c ∷ rest

-- The part of a line that is looked at, if any.
unfoldable pub valid_line : Bytes → Option Bytes
unfolding before_hash
valid_line [] = none
valid_line (c ∷ s) = if c == b'#' then none else some (before_hash (c ∷ s))

-- The functions of glib that convert and fold texts, and access(), as arguments: none is a
-- Utf8::ConversionError.
pub record Conversions : Type 0 where
  pub locale_from_utf8 : Bytes → Option Bytes
  pub locale_to_utf8 : Bytes → Option Bytes
  pub filename_from_utf8 : Bytes → Option Bytes
  pub filename_to_utf8 : Bytes → Option Bytes
  pub to_lower : Bytes → Bytes

-- The coding of a value in the file: that of the locale, of file names, or its own.
pub data Coding : Type 0 where
  locale filename plain : Coding

unfoldable pub from_utf8 : Conversions → Coding → Bytes → Option Bytes
from_utf8 h locale = h.locale_from_utf8
from_utf8 h filename = h.filename_from_utf8
from_utf8 h plain = some

unfoldable pub to_utf8 : Conversions → Coding → Bytes → Option Bytes
to_utf8 h locale = h.locale_to_utf8
to_utf8 h filename = h.filename_to_utf8
to_utf8 h plain = some
