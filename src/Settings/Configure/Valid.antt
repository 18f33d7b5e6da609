-- ===== src/Settings/Configure/Valid.antt =====
-- The fields of prog_config behind configure_prog of src/main.cpp, whatever the file has.
use secure_e_fax.Prelude.{
  ℕ, ◌≤◌, ◌≡◌, ◌≢◌, refl, [], ◌∷◌, Bool, true, ◌⊎◌, inl, inr, Bool-cases, arith,
}
use secure_e_fax.Text.{Bytes, codes, bytes_eq, bytes_eq→eq}
use secure_e_fax.Text.Decimal.{atoi, digits_value}
use secure_e_fax.Settings.{
  my_name, res, rings, page, print_shrink, sock_server, sock_server_port, print_cmd, ps_viewer,
  is_ascii, Conversions,
}
use secure_e_fax.Settings.Write.{Values, is_within}
use secure_e_fax.Settings.Configure.{
  Config, configure, name_of, resolution_of, rings_of, page_of, shrink_of, port_of, viewer_of,
  or_default, says,
}

-- A page size with its dimensions.
abbrev IsPage : Bytes → Bytes → Type 0
IsPage size dim =
    ((size ≡ codes "a4") × (dim ≡ codes "210x297mm"))
    ⊎ (((size ≡ codes "letter") × (dim ≡ codes "216x279mm"))
        ⊎ ((size ≡ codes "legal") × (dim ≡ codes "216x356mm")))

pub record IsValid (c : Config) : Type 0 where
  pub name_plain : is_ascii c.name_text ≡ true
  pub resolution_known : (c.resolution ≡ codes "204x196") ⊎ (c.resolution ≡ codes "204x98")
  pub ring_low : b'1' ≤ c.ring_digit
  pub ring_high : c.ring_digit ≤ b'9'
  pub page_known : IsPage c.page_size c.page_dim
  pub shrink_within : is_within 50 100 (atoi c.shrink) ≡ true
  pub port_within : (c.port_text ≡ []) ⊎ (is_within 1024 65535 (atoi c.port_text) ≡ true)
  pub prints : c.print_command ≢ []
  pub views : c.ps_view_cmd ≢ []

name_of_lem : (v : Bytes) → is_ascii (name_of v).0 ≡ true
unfolding name_of is_ascii
name_of_lem v = elim (Bool-cases (is_ascii v)) [ inl e ↦ rw (e, e) refl | inr e ↦ rw e refl ]

resolution_of_lem :
    (h : Conversions) (v : Bytes)
    → ((resolution_of h v).0 ≡ codes "204x196") ⊎ ((resolution_of h v).0 ≡ codes "204x98")
unfolding resolution_of
resolution_of_lem h [] = inl refl
resolution_of_lem h (c ∷ v) = elim (Bool-cases (bytes_eq (h.to_lower (c ∷ v)) (codes "fine"))) [
  | inl e ↦ rw e (inl refl)
  | inr e ↦ elim (Bool-cases (bytes_eq (h.to_lower (c ∷ v)) (codes "standard"))) [
    | inl f ↦ rw (e, f) (inr refl)
    | inr f ↦ rw (e, f) (inl refl)
  ]
]

rings_of_lem : (v : Bytes) → (b'1' ≤ (rings_of v).0) × ((rings_of v).0 ≤ b'9')
unfolding rings_of
rings_of_lem [] = (omega arith, omega arith)
rings_of_lem (c ∷ v) = (ground arith, ground arith)

page_of_lem : (h : Conversions) (v : Bytes) → IsPage (page_of h v).0.0 (page_of h v).0.1
unfolding page_of
page_of_lem h [] = inl (refl, refl)
page_of_lem h (c ∷ v) = elim (Bool-cases (bytes_eq (h.to_lower (c ∷ v)) (codes "a4"))) [
  | inl e ↦ rw e (inl (bytes_eq→eq (h.to_lower (c ∷ v)) (codes "a4") e, refl))
  | inr e ↦ elim (Bool-cases (bytes_eq (h.to_lower (c ∷ v)) (codes "letter"))) [
    | inl f ↦ rw (e, f) (inr (inl (bytes_eq→eq (h.to_lower (c ∷ v)) (codes "letter") f, refl)))
    | inr f ↦ elim (Bool-cases (bytes_eq (h.to_lower (c ∷ v)) (codes "legal"))) [
      | inl g ↦ rw (e, f, g) (inr (inr (bytes_eq→eq (h.to_lower (c ∷ v)) (codes "legal") g, refl)))
      | inr g ↦ rw (e, f, g) (inl (refl, refl))
    ]
  ]
]

preset_shrink : is_within 50 100 (atoi (codes "100")) ≡ true
unfolding atoi digits_value
preset_shrink = refl

shrink_of_lem : (v : Bytes) → is_within 50 100 (atoi (shrink_of v).0) ≡ true
unfolding shrink_of
shrink_of_lem [] = preset_shrink
shrink_of_lem (c ∷ v) = elim (Bool-cases (is_within 50 100 (atoi (c ∷ v)))) [
  | inl e ↦ rw (e, e) refl
  | inr e ↦ rw e preset_shrink
]

port_of_lem :
    (b : Bool) (v : Bytes)
    → ((port_of b v).0 ≡ []) ⊎ (is_within 1024 65535 (atoi (port_of b v).0) ≡ true)
unfolding port_of
port_of_lem b [] = inl refl
port_of_lem b (c ∷ v) = elim (Bool-cases (is_within 1024 65535 (atoi (c ∷ v)))) [
  | inl e ↦ rw e (inr e)
  | inr e ↦ rw e (inl refl)
]

or_default_full : (d : ℕ) (t v : Bytes) → or_default (d ∷ t) v ≢ []
or_default_full d t [] e = ground arith
or_default_full d t (c ∷ v) e = ground arith

viewer_of_lem : (v : Bytes) → (viewer_of v).0 ≢ []
unfolding viewer_of
viewer_of_lem [] e = ground arith
viewer_of_lem (c ∷ v) e = ground arith

-- Whatever the settings in the file are, the name is ASCII text, the resolution is one of the two of
-- facsimile, the ring count is a digit from 1 to 9, the page size is a known one with its own dimensions, the
-- shrink is from 50 to 100, the port is empty or from 1024 to 65535, and there are a print command and a
-- PostScript viewer.
pub configure-IsValid :
    (h : Conversions) (has_modem : Bool) (values : Values)
    → IsValid (configure h has_modem values).0
unfolding configure
configure-IsValid h has_modem values = record {
  name_plain = name_of_lem (values my_name);
  resolution_known = resolution_of_lem h (values res);
  ring_low = (rings_of_lem (values rings)).0;
  ring_high = (rings_of_lem (values rings)).1;
  page_known = page_of_lem h (values page);
  shrink_within = shrink_of_lem (values print_shrink);
  port_within = port_of_lem (says h (codes "yes") (values sock_server)) (values sock_server_port);
  prints = or_default_full b'l' (codes "pr") (values print_cmd);
  views = viewer_of_lem (values ps_viewer);
}
