-- ===== src/Settings/Configure/Accepted.antt =====
-- Settings that write_config of src/settings.cpp accepts, in configure_prog of src/main.cpp.
use secure_e_fax.Prelude.{
  ◌≡◌, refl, sym, ap, ◌∙◌, List, [], ◌∷◌, ◌++◌, Bool, true, false, ◌&&◌, ◌||◌, some, ltb, leb, inl,
  inr, Bool-cases, All, All-append, arith,
}
use mathlib.Core.Path.{subst}
use secure_e_fax.Text.{Bytes, codes, bytes_eq, bytes_eq→eq}
use secure_e_fax.Settings.{
  Key, my_name, my_number, device, modem_class, page, res, rings, dialmode, print_shrink,
  sock_server, sock_server_port, ps_viewer, work_subdir, dialog_keys, strip, Conversions,
}
use secure_e_fax.Settings.Keys.{◌is◌, place_of, is→eq}
use secure_e_fax.Settings.Write.{Values, one_of, is_allowed, all_allowed, is_found, write_config}
use secure_e_fax.Settings.Read.{read_parms}
use secure_e_fax.Settings.Others.{dialog_keys_all}
use secure_e_fax.Settings.Default.{IsSound}
use secure_e_fax.Settings.Steps.{AllStorable}
use secure_e_fax.Settings.RoundTrip.{read_parms-write_config}
use secure_e_fax.Settings.Configure.{
  Message, bad_name, bad_class, no_device, default_device, default_resolution, bad_resolution,
  bad_rings, default_page, bad_page, bad_dialmode, bad_shrink, default_viewer, no_port, bad_port,
  Config, configure, name_of, class_parm, device_used, resolution_of, rings_of, page_of,
  tone_dial_of, shrink_of, port_of, viewer_of, or_default, says,
}

-- The messages that a setting is invalid.
abbrev pub is_complaint : Message → Bool
is_complaint bad_name = true
is_complaint bad_class = true
is_complaint no_device = false
is_complaint default_device = false
is_complaint default_resolution = false
is_complaint bad_resolution = true
is_complaint bad_rings = true
is_complaint default_page = false
is_complaint bad_page = true
is_complaint bad_dialmode = true
is_complaint bad_shrink = true
is_complaint default_viewer = false
is_complaint no_port = false
is_complaint bad_port = true

abbrev pub NoComplaint : List Message → Type 0
NoComplaint messages = All (λ m. is_complaint m ≡ false) messages

-- Text in small ASCII letters and other signs below `A`.
abbrev pub is_small : Bytes → Bool
is_small [] = true
is_small (c ∷ s) = (ltb c b'A' || (leb b'a' c && leb c b'z')) && is_small s

-- Utf8::to_lower leaves small letters.
abbrev pub Lowers : Conversions → Type 0
Lowers h = (t : Bytes) → is_small t ≡ true → h.to_lower t ≡ t

all_allowed_each :
    (ks : List Key) (values : Values) (k : Key)
    → all_allowed ks values ≡ true
    → is_found k ks ≡ true
    → is_allowed k (strip (values k)) ≡ true
unfolding all_allowed is_found
all_allowed_each [] values k a f = ground arith
all_allowed_each (j ∷ ks) values k a f = elim (Bool-cases (k is j)) [
  | inl here ↦
      subst (λ i. is_allowed i (strip (values i)) ≡ true) (sym (is→eq k j here)) (ground arith)
  | inr there ↦ all_allowed_each ks values k (ground arith) (ground arith)
]

-- What holds of the texts listed holds of the one that was chosen.
one_of_elim :
    (P : Bytes → Type 0) (ts : List Bytes) (v : Bytes) → one_of ts v ≡ true → All P ts → P v
one_of_elim P [] v e all = ground arith
one_of_elim P (t ∷ ts) v e (here, all) = elim (Bool-cases (bytes_eq v t)) [
  | inl same ↦ subst P (sym (bytes_eq→eq v t same)) here
  | inr other ↦ one_of_elim P ts v (ground arith) all
]

name_of_accepted : (v : Bytes) → is_allowed my_name v ≡ true → name_of v ≡ (v, [])
unfolding is_allowed name_of
name_of_accepted v e = rw e refl

class_parm_accepted : (v : Bytes) → is_allowed modem_class v ≡ true → NoComplaint (class_parm v).1
unfolding is_allowed class_parm bytes_eq
class_parm_accepted [] e = tt
class_parm_accepted (c ∷ v) e =
    one_of_elim (λ t. NoComplaint (class_parm t).1) (codes "1" ∷ codes "2" ∷ codes "2.0" ∷ [])
      (c ∷ v) e (tt, (tt, (tt, tt)))

module _ (h : Conversions) (lowers : Lowers h) where
  resolution_of_accepted : (v : Bytes) → is_allowed res v ≡ true → NoComplaint (resolution_of h v).1
  unfolding is_allowed resolution_of bytes_eq
  resolution_of_accepted [] e = (refl, tt)
  resolution_of_accepted (c ∷ v) e =
      one_of_elim (λ t. NoComplaint (resolution_of h t).1) (codes "fine" ∷ codes "standard" ∷ [])
        (c ∷ v) e (rw (lowers (codes "fine") refl) tt, (rw (lowers (codes "standard") refl) tt, tt))

  tone_dial_of_accepted :
      (v : Bytes) → is_allowed dialmode v ≡ true → NoComplaint (tone_dial_of h v).1
  unfolding is_allowed tone_dial_of bytes_eq
  tone_dial_of_accepted [] e = tt
  tone_dial_of_accepted (c ∷ v) e =
      one_of_elim (λ t. NoComplaint (tone_dial_of h t).1) (codes "tone" ∷ codes "pulse" ∷ [])
        (c ∷ v) e (rw (lowers (codes "tone") refl) tt, (rw (lowers (codes "pulse") refl) tt, tt))

  page_of_accepted :
      (v : Bytes)
      → is_allowed page v ≡ true
      → NoComplaint (page_of h v).1 × ((page_of h v).0.0 ≡ or_default (codes "a4") v)
  unfolding is_allowed page_of bytes_eq
  page_of_accepted [] e = ((refl, tt), refl)
  page_of_accepted (c ∷ v) e =
      one_of_elim
        (λ t. NoComplaint (page_of h t).1 × ((page_of h t).0.0 ≡ or_default (codes "a4") t))
        (codes "a4" ∷ codes "letter" ∷ codes "legal" ∷ []) (c ∷ v) e
        (
          rw (lowers (codes "a4") refl) (tt, refl),
          (
            rw (lowers (codes "letter") refl) (tt, refl),
            (rw (lowers (codes "legal") refl) (tt, refl), tt),
          ),
        )

rings_of_accepted :
    (v : Bytes)
    → is_allowed rings v ≡ true
    → NoComplaint (rings_of v).1 × (((rings_of v).0 ∷ []) ≡ or_default (codes "1") v)
unfolding is_allowed rings_of
rings_of_accepted [] e = (tt, refl)
rings_of_accepted (c ∷ []) e =
    let low : ltb c b'1' ≡ false = ground arith in
    let high : ltb b'9' c ≡ false = ground arith in rw (low, high) (tt, refl)
rings_of_accepted (c ∷ d ∷ v) e = ground arith

shrink_of_accepted :
    (v : Bytes)
    → is_allowed print_shrink v ≡ true
    → NoComplaint (shrink_of v).1 × ((shrink_of v).0 ≡ or_default (codes "100") v)
unfolding is_allowed shrink_of
shrink_of_accepted [] e = (tt, refl)
shrink_of_accepted (c ∷ v) e = rw e (tt, refl)

port_of_accepted :
    (b : Bool) (v : Bytes)
    → is_allowed sock_server_port v ≡ true
    → NoComplaint (port_of b v).1 × ((port_of b v).0 ≡ v)
unfolding is_allowed port_of
port_of_accepted true [] e = ((refl, tt), refl)
port_of_accepted false [] e = (tt, refl)
port_of_accepted b (c ∷ v) e = rw e (tt, refl)

device_used_quiet : (b : Bool) (v : Bytes) → NoComplaint (device_used b v).1
unfolding device_used
device_used_quiet true [] = (refl, tt)
device_used_quiet false [] = (refl, tt)
device_used_quiet b (c ∷ v) = tt

viewer_of_quiet : (v : Bytes) → NoComplaint (viewer_of v).1
unfolding viewer_of
viewer_of_quiet [] = (refl, tt)
viewer_of_quiet (c ∷ v) = tt

-- The settings that the program works with, for a file that the dialog wrote.
pub record IsAccepted (h : Conversions) (values : Values) (c : Config) (messages : List Message)
    : Type 0 where
  pub quiet : NoComplaint messages
  pub same_name : c.name_text ≡ strip (values my_name)
  pub same_number : c.number_text ≡ strip (values my_number)
  pub same_page : c.page_size ≡ or_default (codes "a4") (strip (values page))
  pub same_rings : c.ring_digit ∷ [] ≡ or_default (codes "1") (strip (values rings))
  pub same_shrink : c.shrink ≡ or_default (codes "100") (strip (values print_shrink))
  pub same_port : c.port_text ≡ strip (values sock_server_port)

quiet_append : (xs ys : List Message) → NoComplaint xs → NoComplaint ys → NoComplaint (xs ++ ys)
quiet_append = All-append (λ m. is_complaint m ≡ false)

-- The same for settings as they are read.
configure-IsAccepted :
    (h : Conversions) (has_modem : Bool) (values read : Values)
    → Lowers h
    → all_allowed dialog_keys values ≡ true
    → ((k : Key) → k is work_subdir ≡ false → read k ≡ strip (values k))
    → let made = configure h has_modem read in IsAccepted h values made.0 made.1
unfolding configure place_of
configure-IsAccepted h has_modem values read lowers allowed same =
    let fine : (k : Key) → k is work_subdir ≡ false → is_allowed k (read k) ≡ true = λ k named.
      subst (λ v. is_allowed k v ≡ true) (sym (same k named))
        (all_allowed_each dialog_keys values k allowed (dialog_keys_all k named)) in
    let name = name_of_accepted (read my_name) (fine my_name refl) in
    let of_page = page_of_accepted h lowers (read page) (fine page refl) in
    let ring = rings_of_accepted (read rings) (fine rings refl) in
    let shrink = shrink_of_accepted (read print_shrink) (fine print_shrink refl) in
    let port =
      port_of_accepted (says h (codes "yes") (read sock_server)) (read sock_server_port)
        (fine sock_server_port refl) in
    record {
      quiet =
          quiet_append _ _
            (quiet_append _ _
              (quiet_append _ _
                (quiet_append _ _
                  (quiet_append _ _
                    (quiet_append _ _
                      (quiet_append _ _
                        (quiet_append _ _
                          (quiet_append _ _ (rw name tt)
                            (class_parm_accepted (read modem_class) (fine modem_class refl)))
                          (device_used_quiet has_modem (read device)))
                        (resolution_of_accepted h lowers (read res) (fine res refl)))
                      ring.0)
                    of_page.0)
                  (tone_dial_of_accepted h lowers (read dialmode) (fine dialmode refl)))
                shrink.0)
              (viewer_of_quiet (read ps_viewer)))
            port.0;
      same_name = ap (λ p. p.0) name ∙ same my_name refl;
      same_number = same my_number refl;
      same_page = of_page.1 ∙ ap (or_default (codes "a4")) (same page refl);
      same_rings = ring.1 ∙ ap (or_default (codes "1")) (same rings refl);
      same_shrink = shrink.1 ∙ ap (or_default (codes "100")) (same print_shrink refl);
      same_port = port.1 ∙ same sock_server_port refl;
    }

-- When write_config accepts the dialog's settings and its file opens, it writes a file, whatever the old one
-- was, for which configure_prog reports no setting as invalid; and the name, the number, the page size, the
-- rings, the print shrink and the server's port that the program then works with are those of the dialog,
-- without the blanks at their ends, or the program's own choice where the dialog has none. Each value
-- is empty, or is converted to a text without a comment marker, a newline and blanks at its ends, and back; the
-- conversions leave ASCII text at the front of a text alone, and to_lower leaves small ASCII letters.
pub configure-write_config :
    (h : Conversions) (has_modem : Bool) (values : Values) (old : Bytes)
    → IsSound h
    → Lowers h
    → AllStorable h values
    → all_allowed dialog_keys values ≡ true
    → (new : Bytes) × (write_config h true values old ≡ some new)
      × (let made = configure h has_modem (read_parms h new (λ j. [])) in
          IsAccepted h values made.0 made.1)
configure-write_config h has_modem values old host lowers storable allowed =
    let (new, written, same) = read_parms-write_config h values old host storable allowed in
    (
      new,
      written,
      configure-IsAccepted h has_modem values (read_parms h new (λ j. [])) lowers allowed same,
    )
