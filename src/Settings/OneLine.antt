-- ===== src/Settings/OneLine.antt =====
-- The lines of the settings file (src/settings.cpp) hold no newline.
use secure_e_fax.Prelude.{
  ◌≡◌, refl, [], ◌∷◌, ◌++◌, Bool, true, false, not, ◌&&◌, ◌==◌, All-append, arith,
}
use secure_e_fax.Text.{Bytes}
use secure_e_fax.Text.Lines.{newline, Without}
use secure_e_fax.Settings.{
  Key, my_name, my_number, device, lock, modem_class, page, res, dial_prefix, rings, dialmode, init,
  reset, capabilities, parms, print_cmd, gtkprint, print_shrink, print_popup, ps_viewer,
  sock_server, sock_popup, sock_server_port, sock_client_address, sock_other_addresses,
  fax_received_popup, fax_received_exec, fax_received_prog, addr_in_header, log_file, work_subdir,
  text,
}
use secure_e_fax.Settings.Write.{default_line}

abbrev pub is_one_line : Bytes → Bool
is_one_line [] = true
is_one_line (c ∷ s) = not (c == newline) && is_one_line s

pub is_one_line-Without : (s : Bytes) → is_one_line s ≡ true → Without newline s
is_one_line-Without [] e = tt
is_one_line-Without (c ∷ s) e = (ground arith, is_one_line-Without s (ground arith))

default_line-one : (k : Key) → is_one_line (default_line k) ≡ true
unfolding default_line
default_line-one my_name = refl
default_line-one my_number = refl
default_line-one device = refl
default_line-one lock = refl
default_line-one modem_class = refl
default_line-one page = refl
default_line-one res = refl
default_line-one dial_prefix = refl
default_line-one rings = refl
default_line-one dialmode = refl
default_line-one init = refl
default_line-one reset = refl
default_line-one capabilities = refl
default_line-one parms = refl
default_line-one print_cmd = refl
default_line-one gtkprint = refl
default_line-one print_shrink = refl
default_line-one print_popup = refl
default_line-one ps_viewer = refl
default_line-one sock_server = refl
default_line-one sock_popup = refl
default_line-one sock_server_port = refl
default_line-one sock_client_address = refl
default_line-one sock_other_addresses = refl
default_line-one fax_received_popup = refl
default_line-one fax_received_exec = refl
default_line-one fax_received_prog = refl
default_line-one addr_in_header = refl
default_line-one log_file = refl
default_line-one work_subdir = refl

text-one : (k : Key) → is_one_line (text k) ≡ true
unfolding text
text-one my_name = refl
text-one my_number = refl
text-one device = refl
text-one lock = refl
text-one modem_class = refl
text-one page = refl
text-one res = refl
text-one dial_prefix = refl
text-one rings = refl
text-one dialmode = refl
text-one init = refl
text-one reset = refl
text-one capabilities = refl
text-one parms = refl
text-one print_cmd = refl
text-one gtkprint = refl
text-one print_shrink = refl
text-one print_popup = refl
text-one ps_viewer = refl
text-one sock_server = refl
text-one sock_popup = refl
text-one sock_server_port = refl
text-one sock_client_address = refl
text-one sock_other_addresses = refl
text-one fax_received_popup = refl
text-one fax_received_exec = refl
text-one fax_received_prog = refl
text-one addr_in_header = refl
text-one log_file = refl
text-one work_subdir = refl

pub default_line-Without : (k : Key) → Without newline (default_line k)
default_line-Without k = is_one_line-Without (default_line k) (default_line-one k)

pub text-Without : (k : Key) (w : Bytes) → Without newline w → Without newline (text k ++ 32 ∷ w)
text-Without k w one =
    All-append (λ c. c == newline ≡ false) (text k) (32 ∷ w)
      (is_one_line-Without (text k) (text-one k)) (refl, one)
