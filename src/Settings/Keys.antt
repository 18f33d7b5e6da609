-- ===== src/Settings/Keys.antt =====
-- The names of the settings, told apart.
use secure_e_fax.Prelude.{
  ℕ, ◌≡◌, refl, ap, sym, ◌∙◌, Bool, true, false, Option, none, some, List, [], ◌∷◌, ◌++◌, ◌==◌,
  ==_iff, arith, get_or, if◌then◌else◌,
}
use secure_e_fax.Text.{Bytes}
use secure_e_fax.Settings.{
  Key, my_name, my_number, device, lock, modem_class, page, res, dial_prefix, rings, dialmode, init,
  reset, capabilities, parms, print_cmd, gtkprint, print_shrink, print_popup, ps_viewer,
  sock_server, sock_popup, sock_server_port, sock_client_address, sock_other_addresses,
  fax_received_popup, fax_received_exec, fax_received_prog, addr_in_header, log_file, work_subdir,
  text, config_keys, dialog_keys, find_prog_parm,
}

-- A setting's place in the data type.
unfoldable pub place_of : Key → ℕ
place_of my_name = 0
place_of my_number = 1
place_of device = 2
place_of lock = 3
place_of modem_class = 4
place_of page = 5
place_of res = 6
place_of dial_prefix = 7
place_of rings = 8
place_of dialmode = 9
place_of init = 10
place_of reset = 11
place_of capabilities = 12
place_of parms = 13
place_of print_cmd = 14
place_of gtkprint = 15
place_of print_shrink = 16
place_of print_popup = 17
place_of ps_viewer = 18
place_of sock_server = 19
place_of sock_popup = 20
place_of sock_server_port = 21
place_of sock_client_address = 22
place_of sock_other_addresses = 23
place_of fax_received_popup = 24
place_of fax_received_exec = 25
place_of fax_received_prog = 26
place_of addr_in_header = 27
place_of log_file = 28
place_of work_subdir = 29

key_at : ℕ → Key
key_at i = get_or work_subdir dialog_keys i

key_at-place_of : (k : Key) → key_at (place_of k) ≡ k
unfolding key_at place_of
key_at-place_of my_name = refl
key_at-place_of my_number = refl
key_at-place_of device = refl
key_at-place_of lock = refl
key_at-place_of modem_class = refl
key_at-place_of page = refl
key_at-place_of res = refl
key_at-place_of dial_prefix = refl
key_at-place_of rings = refl
key_at-place_of dialmode = refl
key_at-place_of init = refl
key_at-place_of reset = refl
key_at-place_of capabilities = refl
key_at-place_of parms = refl
key_at-place_of print_cmd = refl
key_at-place_of gtkprint = refl
key_at-place_of print_shrink = refl
key_at-place_of print_popup = refl
key_at-place_of ps_viewer = refl
key_at-place_of sock_server = refl
key_at-place_of sock_popup = refl
key_at-place_of sock_server_port = refl
key_at-place_of sock_client_address = refl
key_at-place_of sock_other_addresses = refl
key_at-place_of fax_received_popup = refl
key_at-place_of fax_received_exec = refl
key_at-place_of fax_received_prog = refl
key_at-place_of addr_in_header = refl
key_at-place_of log_file = refl
key_at-place_of work_subdir = refl

infix 50 ◌is◌
abbrev pub ◌is◌ : Key → Key → Bool
j is k = place_of j == place_of k

pub is→eq : (j k : Key) → (j is k) ≡ true → j ≡ k
is→eq j k h =
    let same : place_of j ≡ place_of k = ground (arith, ==_iff (place_of j) (place_of k)) in
    sym (key_at-place_of j) ∙ ap key_at same ∙ key_at-place_of k

pub is_refl : (k : Key) → (k is k) ≡ true
is_refl k = ground (arith, ==_iff (place_of k) (place_of k))

pub is_sym : (j k : Key) → j is k ≡ false → k is j ≡ false
is_sym j k h = ground (arith, ==_iff (place_of j) (place_of k), ==_iff (place_of k) (place_of j))

-- The first setting of a list that a line names.
unfoldable pub first_key : List Key → Bytes → Option Key
first_key [] line = none
first_key (k ∷ ks) line = if find_prog_parm (text k) line then some k else first_key ks line

-- A line that begins with a name names that setting.
pub first_key-text : (k : Key) (rest : Bytes) → first_key config_keys (text k ++ rest) ≡ some k
unfolding first_key find_prog_parm text
first_key-text my_name rest = refl
first_key-text my_number rest = refl
first_key-text device rest = refl
first_key-text lock rest = refl
first_key-text modem_class rest = refl
first_key-text page rest = refl
first_key-text res rest = refl
first_key-text dial_prefix rest = refl
first_key-text rings rest = refl
first_key-text dialmode rest = refl
first_key-text init rest = refl
first_key-text reset rest = refl
first_key-text capabilities rest = refl
first_key-text parms rest = refl
first_key-text print_cmd rest = refl
first_key-text gtkprint rest = refl
first_key-text print_shrink rest = refl
first_key-text print_popup rest = refl
first_key-text ps_viewer rest = refl
first_key-text sock_server rest = refl
first_key-text sock_popup rest = refl
first_key-text sock_server_port rest = refl
first_key-text sock_client_address rest = refl
first_key-text sock_other_addresses rest = refl
first_key-text fax_received_popup rest = refl
first_key-text fax_received_exec rest = refl
first_key-text fax_received_prog rest = refl
first_key-text addr_in_header rest = refl
first_key-text log_file rest = refl
first_key-text work_subdir rest = refl
