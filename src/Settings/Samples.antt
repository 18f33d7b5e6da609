-- ===== src/Settings/Samples.antt =====
-- A host, a dialog and a file for the tests.
use secure_e_fax.Prelude.{refl, ap, [], ◌++◌, Option, none, some, inl, inr}
use secure_e_fax.Text.{Bytes, codes}
use secure_e_fax.Settings.{
  my_name, my_number, device, lock, modem_class, page, res, dial_prefix, rings, dialmode, init,
  reset, capabilities, parms, print_cmd, gtkprint, print_shrink, print_popup, ps_viewer,
  sock_server, sock_popup, sock_server_port, sock_client_address, sock_other_addresses,
  fax_received_popup, fax_received_exec, fax_received_prog, addr_in_header, log_file, work_subdir,
  strip, is_ascii, before_hash, trim_end, skip_blanks, Conversions, from_utf8, to_utf8,
}
use secure_e_fax.Settings.Keys.{place_of}
use secure_e_fax.Settings.Write.{Values, write_coding, added_coding}
use secure_e_fax.Settings.Read.{read_coding}
use secure_e_fax.Settings.Lines.{IsPlain}
use secure_e_fax.Settings.Default.{IsSound}
use secure_e_fax.Settings.Steps.{AllStorable}

-- A host whose locale is UTF-8.
abbrev pub utf8_conv : Conversions
utf8_conv = record {
  locale_from_utf8 = some;
  locale_to_utf8 = some;
  filename_from_utf8 = some;
  filename_to_utf8 = some;
  to_lower = λ t. t;
}

abbrev the_text : Option Bytes → Bytes
the_text none = []
the_text (some v) = v

pub utf8_conv-IsSound : IsSound utf8_conv
utf8_conv-IsSound = record {
  locale_ascii = λ a v w e f. ap (λ t. some (a ++ the_text t)) f;
  filename_ascii = λ a v w e f. ap (λ t. some (a ++ the_text t)) f;
  locale_empty = refl;
  filename_empty = refl;
}

-- The dialog with a name, a number with a blank before it, and a resolution.
abbrev pub entries : Values
entries my_name = codes "Ann"
entries my_number = codes " 12 34"
entries res = codes "fine"
entries _ = []

fits_my_name : IsPlain (codes "Ann")
unfolding trim_end skip_blanks before_hash
fits_my_name = record {
  first = 65;
  others = codes "nn";
  some_text = refl;
  no_hash = refl;
  no_end = refl;
  no_start = refl;
  one_line = (refl, (refl, (refl, tt)));
}

fits_my_number : IsPlain (codes "12 34")
unfolding trim_end skip_blanks before_hash
fits_my_number = record {
  first = 49;
  others = codes "2 34";
  some_text = refl;
  no_hash = refl;
  no_end = refl;
  no_start = refl;
  one_line = (refl, (refl, (refl, (refl, (refl, tt)))));
}

fits_res : IsPlain (codes "fine")
unfolding trim_end skip_blanks before_hash
fits_res = record {
  first = 102;
  others = codes "ine";
  some_text = refl;
  no_hash = refl;
  no_end = refl;
  no_start = refl;
  one_line = (refl, (refl, (refl, (refl, tt))));
}

pub entries-AllStorable : AllStorable utf8_conv entries
unfolding strip trim_end skip_blanks from_utf8 to_utf8 write_coding added_coding read_coding
    place_of before_hash is_ascii
entries-AllStorable my_name e = (
  inr (record {
    converted = strip (entries my_name);
    written = refl;
    read = refl;
    fits = fits_my_name;
  }),
  inr (record {
    converted = strip (entries my_name);
    written = refl;
    read = refl;
    fits = fits_my_name;
  }),
)
entries-AllStorable my_number e = (
  inr (record {
    converted = strip (entries my_number);
    written = refl;
    read = refl;
    fits = fits_my_number;
  }),
  inr (record {
    converted = strip (entries my_number);
    written = refl;
    read = refl;
    fits = fits_my_number;
  }),
)
entries-AllStorable device e = (inl refl, inl refl)
entries-AllStorable lock e = (inl refl, inl refl)
entries-AllStorable modem_class e = (inl refl, inl refl)
entries-AllStorable page e = (inl refl, inl refl)
entries-AllStorable res e = (
  inr (record { converted = strip (entries res); written = refl; read = refl; fits = fits_res }),
  inr (record { converted = strip (entries res); written = refl; read = refl; fits = fits_res }),
)
entries-AllStorable dial_prefix e = (inl refl, inl refl)
entries-AllStorable rings e = (inl refl, inl refl)
entries-AllStorable dialmode e = (inl refl, inl refl)
entries-AllStorable init e = (inl refl, inl refl)
entries-AllStorable reset e = (inl refl, inl refl)
entries-AllStorable capabilities e = (inl refl, inl refl)
entries-AllStorable parms e = (inl refl, inl refl)
entries-AllStorable print_cmd e = (inl refl, inl refl)
entries-AllStorable gtkprint e = (inl refl, inl refl)
entries-AllStorable print_shrink e = (inl refl, inl refl)
entries-AllStorable print_popup e = (inl refl, inl refl)
entries-AllStorable ps_viewer e = (inl refl, inl refl)
entries-AllStorable sock_server e = (inl refl, inl refl)
entries-AllStorable sock_popup e = (inl refl, inl refl)
entries-AllStorable sock_server_port e = (inl refl, inl refl)
entries-AllStorable sock_client_address e = (inl refl, inl refl)
entries-AllStorable sock_other_addresses e = (inl refl, inl refl)
entries-AllStorable fax_received_popup e = (inl refl, inl refl)
entries-AllStorable fax_received_exec e = (inl refl, inl refl)
entries-AllStorable fax_received_prog e = (inl refl, inl refl)
entries-AllStorable addr_in_header e = (inl refl, inl refl)
entries-AllStorable log_file e = (inl refl, inl refl)
entries-AllStorable work_subdir e = (inl refl, inl refl)

pub fits_device : IsPlain (codes "ttyS0")
unfolding trim_end skip_blanks before_hash
fits_device = record {
  first = b't';
  others = codes "tyS0";
  some_text = refl;
  no_hash = refl;
  no_end = refl;
  no_start = refl;
  one_line = (refl, (refl, (refl, (refl, (refl, tt)))));
}

-- An old file with a comment, a setting twice and no end.
abbrev pub old_file : Bytes
old_file = codes "# my settings\nNUMBER: 99\n#RES: fine\nNUMBER: 98\nWORK_SUBDIR: fax\n"
