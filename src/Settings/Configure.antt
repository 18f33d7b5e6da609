-- ===== src/Settings/Configure.antt =====
-- What configure_prog of src/main.cpp makes of the settings it has read, when the file is read again
-- (`reread`): the fields of prog_config, and the messages of its return value.
pub mod Words
pub mod Valid
pub mod Accepted
mod Tests
use secure_e_fax.Prelude.{
  ℕ, zero, suc, List, [], ◌∷◌, ◌++◌, map, Bool, true, false, not, ◌&&◌, ◌||◌, Option, none, some,
  if◌then◌else◌, ltb, ◌==◌, length,
}
use secure_e_fax.Text.{Bytes, codes, bytes_eq}
use secure_e_fax.Text.Decimal.{atoi}
use secure_e_fax.Settings.{
  my_name, my_number, device, lock, modem_class, page, res, dial_prefix, rings, dialmode, init,
  reset, capabilities, parms, print_cmd, gtkprint, print_shrink, print_popup, ps_viewer,
  sock_server, sock_popup, sock_server_port, sock_client_address, sock_other_addresses,
  fax_received_popup, fax_received_exec, fax_received_prog, addr_in_header, log_file, is_blank,
  skip_blanks, is_ascii, Conversions,
}
use secure_e_fax.Settings.Write.{Values, is_within, is_rings, no_value}

-- `find_first_of(" \t", start)`: the text before, and the text from there.
unfoldable pub up_to_blank : Bytes → Bytes
up_to_blank [] = []
up_to_blank (c ∷ s) = let rest = up_to_blank s in if is_blank c then [] else c ∷ rest

unfoldable pub from_blank : Bytes → Bytes
from_blank [] = []
from_blank (c ∷ s) = let rest = from_blank s in if is_blank c then c ∷ s else rest

-- The loop that splits a setting; the text is what stands from `start`.
unfoldable pub split_loop : ℕ → Bytes → List Bytes
unfolding up_to_blank from_blank skip_blanks
split_loop zero s = []
split_loop (suc n) s = elim (skip_blanks (from_blank s)) [
  | [] ↦ up_to_blank s ∷ []
  | c ∷ t ↦ up_to_blank s ∷ split_loop n (c ∷ t)
]

-- Each round takes a byte at least.
unfoldable pub split_words : Bytes → List Bytes
unfolding split_loop
split_words [] = []
split_words (c ∷ s) = split_loop (length (c ∷ s)) (c ∷ s)

-- The parts of the return value.
pub data Message : Type 0 where
  bad_name bad_class no_device default_device default_resolution bad_resolution bad_rings : Message
  default_page bad_page bad_dialmode bad_shrink default_viewer no_port bad_port : Message

abbrev pub or_default : Bytes → Bytes → Bytes
or_default preset [] = preset
or_default preset (c ∷ v) = c ∷ v

-- std::replace of '/' by '_'
abbrev pub underscored : Bytes → Bytes
underscored s = map (λ c. if c == b'/' then b'_' else c) s

abbrev pub init_parms : Bytes → List Bytes
init_parms [] = codes "-iZ" ∷ codes "-i&FE&D2S7=120" ∷ codes "-i&C0" ∷ codes "-iM1L0" ∷ []
init_parms (c ∷ s) = map (λ w. codes "-i" ++ w) (split_words (c ∷ s))

abbrev pub reset_parms : Bytes → List Bytes
reset_parms [] = codes "-kZ" ∷ []
reset_parms (c ∷ s) = map (λ w. codes "-k" ++ w) (split_words (c ∷ s))

-- A parameter with its letter, if the setting is not empty.
abbrev pub lettered : Bytes → Bytes → List Bytes
lettered letter [] = []
lettered letter (c ∷ v) = (letter ++ c ∷ v) ∷ []

unfoldable pub class_parm : Bytes → List Bytes × List Message
class_parm [] = ([], [])
class_parm (c ∷ v) =
    if bytes_eq (c ∷ v) (codes "2.0")
    then (codes "-o0" ∷ [], [])
    else if bytes_eq (c ∷ v) (codes "1")
    then (codes "-o1" ∷ [], [])
    else if bytes_eq (c ∷ v) (codes "2")
    then (codes "-o2" ∷ [], [])
    else (codes "-o2" ∷ [], bad_class ∷ [])

-- The device that is used; `has_modem` is whether /dev/modem exists.
unfoldable pub device_used : Bool → Bytes → Bytes × List Message
device_used has_modem [] =
    if has_modem then (codes "modem", default_device ∷ []) else ([], no_device ∷ [])
device_used has_modem (c ∷ v) = (c ∷ v, [])

abbrev pub lock_dir : Option Bytes → Bytes
lock_dir none = codes "/var/lock"
lock_dir (some dir) = dir

abbrev pub lock_base : Conversions → Bytes → Bytes
lock_base h [] = codes "/var/lock"
lock_base h (c ∷ v) = lock_dir (h.filename_from_utf8 (c ∷ v))

-- The name of the lock file, and the parameters of efax for it and the device.
unfoldable pub device_parms : Conversions → Bytes → Bytes → Bytes × List Bytes
device_parms h [] lock_setting = ([], [])
device_parms h (c ∷ v) lock_setting = elim (h.locale_from_utf8 (c ∷ v)) [
  | none ↦ ([], [])
  | some [] ↦ ([], [])
  | some (d ∷ name) ↦
      let lock_name = lock_base h lock_setting ++ codes "/LCK.." ++ underscored (c ∷ v) in
      (lock_name, (codes "-d/dev/" ++ d ∷ name) ∷ (codes "-x" ++ lock_name) ∷ [])
]

unfoldable pub resolution_of : Conversions → Bytes → Bytes × List Message
resolution_of h [] = (codes "204x196", default_resolution ∷ [])
resolution_of h (c ∷ v) =
    let temp = h.to_lower (c ∷ v) in
    if bytes_eq temp (codes "fine")
    then (codes "204x196", [])
    else if bytes_eq temp (codes "standard")
    then (codes "204x98", [])
    else (codes "204x196", bad_resolution ∷ [])

-- A char
unfoldable pub rings_of : Bytes → ℕ × List Message
rings_of [] = (b'1', [])
rings_of (c ∷ v) =
    if not (no_value v) || ltb c b'1' || ltb b'9' c then (b'1', bad_rings ∷ []) else (c, [])

-- page_size and page_dim
unfoldable pub page_of : Conversions → Bytes → (Bytes × Bytes) × List Message
page_of h [] = ((codes "a4", codes "210x297mm"), default_page ∷ [])
page_of h (c ∷ v) =
    let size = h.to_lower (c ∷ v) in
    if bytes_eq size (codes "a4")
    then ((size, codes "210x297mm"), [])
    else if bytes_eq size (codes "letter")
    then ((size, codes "216x279mm"), [])
    else if bytes_eq size (codes "legal")
    then ((size, codes "216x356mm"), [])
    else ((codes "a4", codes "210x297mm"), bad_page ∷ [])

unfoldable pub tone_dial_of : Conversions → Bytes → Bool × List Message
tone_dial_of h [] = (true, [])
tone_dial_of h (c ∷ v) =
    let temp = h.to_lower (c ∷ v) in
    if bytes_eq temp (codes "tone")
    then (true, [])
    else if bytes_eq temp (codes "pulse")
    then (false, [])
    else (true, bad_dialmode ∷ [])

unfoldable pub shrink_of : Bytes → Bytes × List Message
shrink_of [] = (codes "100", [])
shrink_of (c ∷ v) =
    if is_within 50 100 (atoi (c ∷ v)) then (c ∷ v, []) else (codes "100", bad_shrink ∷ [])

unfoldable pub port_of : Bool → Bytes → Bytes × List Message
port_of has_server [] = ([], if has_server then no_port ∷ [] else [])
port_of has_server (c ∷ v) =
    if is_within 1024 65535 (atoi (c ∷ v)) then (c ∷ v, []) else ([], bad_port ∷ [])

unfoldable pub name_of : Bytes → Bytes × List Message
unfolding is_ascii
name_of v = if is_ascii v then (v, []) else ([], bad_name ∷ [])

unfoldable pub viewer_of : Bytes → Bytes × List Message
viewer_of [] = (codes "gv", default_viewer ∷ [])
viewer_of (c ∷ v) = (c ∷ v, [])

-- Whether a setting says so in any case of letters.
abbrev pub says : Conversions → Bytes → Bytes → Bool
says h word v = bytes_eq (h.to_lower v) word

-- The fields of prog_config that configure_prog sets.
pub record Config : Type 0 where
  pub name_text : Bytes
  pub number_text : Bytes
  pub all_parms : List Bytes
  pub lock_name : Bytes
  pub resolution : Bytes
  pub ring_digit : ℕ
  pub page_size : Bytes
  pub page_dim : Bytes
  pub prefix : Bytes
  pub tone_dial : Bool
  pub print_command : Bytes
  pub has_gtkprint : Bool
  pub shrink : Bytes
  pub has_print_popup : Bool
  pub ps_view_cmd : Bytes
  pub has_sock_server : Bool
  pub has_sock_popup : Bool
  pub port_text : Bytes
  pub other_sock_client_address : Bool
  pub permitted_clients_list : List Bytes
  pub has_received_popup : Bool
  pub has_received_exec : Bool
  pub received_prog : Bytes
  pub logfile_name : Bytes
  pub has_addr_in_header : Bool

-- The part of configure_prog behind the reading loop.
unfoldable pub configure : Conversions → Bool → Values → Config × List Message
configure h has_modem values =
    let name = name_of (values my_name) in
    let of_class = class_parm (values modem_class) in
    let used = device_used has_modem (values device) in
    let of_device = device_parms h used.0 (values lock) in
    let resolution = resolution_of h (values res) in
    let ring = rings_of (values rings) in
    let sized = page_of h (values page) in
    let tone = tone_dial_of h (values dialmode) in
    let shrink = shrink_of (values print_shrink) in
    let viewer = viewer_of (values ps_viewer) in
    let has_server = says h (codes "yes") (values sock_server) in
    let port = port_of has_server (values sock_server_port) in
    let standard = codes "efax-0.9a" ∷ codes "-vew" ∷ codes "-vin" ∷ codes "-u" ∷ [] in
    (
      record {
        name_text = name.0;
        number_text = values my_number;
        all_parms =
            standard
            ++ lettered (codes "-l") (values my_number)
            ++ init_parms (values init)
            ++ reset_parms (values reset)
            ++ of_class.0
            ++ of_device.1
            ++ lettered (codes "-c") (values capabilities)
            ++ split_words (values parms);
        lock_name = of_device.0;
        resolution = resolution.0;
        ring_digit = ring.0;
        page_size = sized.0.0;
        page_dim = sized.0.1;
        prefix = values dial_prefix;
        tone_dial = tone.0;
        print_command = or_default (codes "lpr") (values print_cmd);
        has_gtkprint = says h (codes "yes") (values gtkprint);
        shrink = shrink.0;
        has_print_popup = not (says h (codes "no") (values print_popup));
        ps_view_cmd = viewer.0;
        has_sock_server = has_server;
        has_sock_popup = says h (codes "yes") (values sock_popup);
        port_text = port.0;
        other_sock_client_address = says h (codes "other") (values sock_client_address);
        permitted_clients_list = split_words (values sock_other_addresses);
        has_received_popup = says h (codes "yes") (values fax_received_popup);
        has_received_exec = says h (codes "yes") (values fax_received_exec);
        received_prog = values fax_received_prog;
        logfile_name = values log_file;
        has_addr_in_header = not (says h (codes "no") (values addr_in_header));
      },
      name.1 ++ of_class.1 ++ used.1 ++ resolution.1 ++ ring.1 ++ sized.1 ++ tone.1 ++ shrink.1
          ++ viewer.1 ++ port.1,
    )
