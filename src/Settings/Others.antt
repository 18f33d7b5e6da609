-- ===== src/Settings/Others.antt =====
-- The lines of the settings file that name no setting of the dialog.
use mathlib.Core.Path.{subst}
use secure_e_fax.Prelude.{
  ◌≡◌, refl, sym, ap, ◌∙◌, List, [], ◌∷◌, true, false, Option, none, some, arith, Option-cases,
  Bool-cases, inl, inr,
}
use secure_e_fax.Text.{Bytes}
use secure_e_fax.Settings.{
  Key, my_name, my_number, device, lock, modem_class, page, res, dial_prefix, rings, dialmode, init,
  reset, capabilities, parms, print_cmd, gtkprint, print_shrink, print_popup, ps_viewer,
  sock_server, sock_popup, sock_server_port, sock_client_address, sock_other_addresses,
  fax_received_popup, fax_received_exec, fax_received_prog, addr_in_header, log_file, work_subdir,
  text, config_keys, dialog_keys, find_prog_parm, before_hash, valid_line, Conversions,
}
use secure_e_fax.Settings.Keys.{◌is◌, place_of, first_key, is→eq}
use secure_e_fax.Settings.Write.{Values, is_found, named_key}
use secure_e_fax.Settings.Read.{read_parm}
use secure_e_fax.Settings.Lines.{read_parm_named, read_parm_unnamed, read_parm_invalid}

find_prog_parm-before_hash :
    (name line : Bytes)
    → find_prog_parm name (before_hash line) ≡ true
    → find_prog_parm name line ≡ true
unfolding find_prog_parm before_hash
find_prog_parm-before_hash [] line f = refl
find_prog_parm-before_hash (c ∷ name) [] f = f
find_prog_parm-before_hash (c ∷ name) (d ∷ line) f =
    ground (arith, find_prog_parm-before_hash name line)

-- The setting of a search that finds one.
unfoldable pub the_key : Key → Option Key → Key
the_key k none = k
the_key k (some j) = j

first_key→find :
    (ks : List Key) (l : Bytes) (k : Key)
    → first_key ks l ≡ some k
    → find_prog_parm (text k) l ≡ true
unfolding first_key the_key
first_key→find [] l k f = ground arith
first_key→find (j ∷ ks) l k f = elim (Bool-cases (find_prog_parm (text j) l)) [
  | inl here ↦
      let found : first_key (j ∷ ks) l ≡ some j = rw (first_key, here) refl in
      let same : j ≡ k = ap (the_key k) (sym found ∙ f) in
      subst (λ i. find_prog_parm (text i) l ≡ true) same here
  | inr there ↦ first_key→find ks l k (ground arith)
]

-- A line in which no setting is looked for names none of them.
named_key-none :
    (ks : List Key) (line : Bytes) (k : Key)
    → named_key ks line ≡ none
    → is_found k ks ≡ true
    → find_prog_parm (text k) line ≡ false
unfolding named_key is_found
named_key-none [] line k n f = ground arith
named_key-none (j ∷ ks) line k n f = elim (Bool-cases (k is j)) [
  | inl here ↦ rw (is→eq k j here) (ground (arith))
  | inr there ↦ named_key-none ks line k (ground arith) (ground arith)
]

-- The dialog knows every other setting.
pub dialog_keys_all : (k : Key) → k is work_subdir ≡ false → is_found k dialog_keys ≡ true
unfolding is_found place_of
dialog_keys_all my_name e = refl
dialog_keys_all my_number e = refl
dialog_keys_all device e = refl
dialog_keys_all lock e = refl
dialog_keys_all modem_class e = refl
dialog_keys_all page e = refl
dialog_keys_all res e = refl
dialog_keys_all dial_prefix e = refl
dialog_keys_all rings e = refl
dialog_keys_all dialmode e = refl
dialog_keys_all init e = refl
dialog_keys_all reset e = refl
dialog_keys_all capabilities e = refl
dialog_keys_all parms e = refl
dialog_keys_all print_cmd e = refl
dialog_keys_all gtkprint e = refl
dialog_keys_all print_shrink e = refl
dialog_keys_all print_popup e = refl
dialog_keys_all ps_viewer e = refl
dialog_keys_all sock_server e = refl
dialog_keys_all sock_popup e = refl
dialog_keys_all sock_server_port e = refl
dialog_keys_all sock_client_address e = refl
dialog_keys_all sock_other_addresses e = refl
dialog_keys_all fax_received_popup e = refl
dialog_keys_all fax_received_exec e = refl
dialog_keys_all fax_received_prog e = refl
dialog_keys_all addr_in_header e = refl
dialog_keys_all log_file e = refl
dialog_keys_all work_subdir e = sym e

valid_line-some : (line l : Bytes) → valid_line line ≡ some l → before_hash line ≡ l
unfolding valid_line
valid_line-some [] l v = ground arith
valid_line-some (c ∷ s) l v = ground arith

named_other :
    (line l : Bytes) (k : Key)
    → named_key dialog_keys line ≡ none
    → valid_line line ≡ some l
    → first_key config_keys l ≡ some k
    → k is work_subdir ≡ true
named_other line l k n v f = elim (Bool-cases (k is work_subdir)) [
  | inl here ↦ here
  | inr there ↦
      let in_line =
        find_prog_parm-before_hash (text k) line
          (rw (valid_line-some line l v) (first_key→find config_keys l k f)) in
      let not_there = named_key-none dialog_keys line k n (dialog_keys_all k there) in ground arith
]

-- Such a line leaves every setting but the directory, which the dialog does not know.
pub read_parm_other :
    (h : Conversions) (line : Bytes) (values : Values) (j : Key)
    → named_key dialog_keys line ≡ none
    → j is work_subdir ≡ false
    → read_parm h line values j ≡ values j
read_parm_other h line values j n other = elim (Option-cases (valid_line line)) [
  | inl v ↦ ap (λ t. t j) (read_parm_invalid h line values v)
  | inr (l, v) ↦ elim (Option-cases (first_key config_keys l)) [
    | inl f ↦ ap (λ t. t j) (read_parm_unnamed h line l values v f)
    | inr (k, f) ↦
        let is_dir = is→eq k work_subdir (named_other line l k n v f) in
        let apart : j is k ≡ false = rw is_dir other in
        ap (λ t. t j) (read_parm_named h line l k values v f) ∙ (rw apart refl)
  ]
]
