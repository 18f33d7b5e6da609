-- ===== src/Settings/Lines.antt =====
-- The lines of the settings file, as they are written and read.
use secure_e_fax.Prelude.{
  ℕ, ◌≡◌, refl, sym, ap, ◌∙◌, [], ◌∷◌, ◌++◌, Option, none, some, drop-append, append_assoc,
}
use secure_e_fax.Text.{Bytes}
use secure_e_fax.Text.Lines.{newline, Without}
use secure_e_fax.Settings.{
  Key, my_name, my_number, device, lock, modem_class, page, res, dial_prefix, rings, dialmode, init,
  reset, capabilities, parms, print_cmd, gtkprint, print_shrink, print_popup, ps_viewer,
  sock_server, sock_popup, sock_server_port, sock_client_address, sock_other_addresses,
  fax_received_popup, fax_received_exec, fax_received_prog, addr_in_header, log_file, work_subdir,
  text, config_keys, trim_end, skip_blanks, parm_value, before_hash, valid_line, Conversions,
  to_utf8,
}
use secure_e_fax.Settings.Keys.{first_key, first_key-text}
use secure_e_fax.Settings.Write.{Values}
use secure_e_fax.Settings.Read.{put_value, read_coding, read_parm}

-- A value that a line can carry: it is not empty, has no blanks at its ends, no comment marker and no newline.
pub record IsPlain (w : Bytes) : Type 0 where
  pub first : ℕ
  pub others : Bytes
  pub some_text : w ≡ first ∷ others
  pub no_hash : before_hash w ≡ w
  pub no_end : trim_end w ≡ w
  pub no_start : skip_blanks w ≡ w
  pub one_line : Without newline w

pub trim_end-append : (p w : Bytes) → IsPlain w → trim_end (p ++ w) ≡ p ++ w
unfolding trim_end
trim_end-append [] w v = v.no_end
trim_end-append (c ∷ []) w v = rw (v.no_end, v.some_text) refl
trim_end-append (c ∷ d ∷ p) w v = rw (trim_end-append (d ∷ p) w v) refl

pub valid_line-text :
    (k : Key) (rest : Bytes) → valid_line (text k ++ rest) ≡ some (text k ++ before_hash rest)
unfolding valid_line text
valid_line-text my_name rest = refl
valid_line-text my_number rest = refl
valid_line-text device rest = refl
valid_line-text lock rest = refl
valid_line-text modem_class rest = refl
valid_line-text page rest = refl
valid_line-text res rest = refl
valid_line-text dial_prefix rest = refl
valid_line-text rings rest = refl
valid_line-text dialmode rest = refl
valid_line-text init rest = refl
valid_line-text reset rest = refl
valid_line-text capabilities rest = refl
valid_line-text parms rest = refl
valid_line-text print_cmd rest = refl
valid_line-text gtkprint rest = refl
valid_line-text print_shrink rest = refl
valid_line-text print_popup rest = refl
valid_line-text ps_viewer rest = refl
valid_line-text sock_server rest = refl
valid_line-text sock_popup rest = refl
valid_line-text sock_server_port rest = refl
valid_line-text sock_client_address rest = refl
valid_line-text sock_other_addresses rest = refl
valid_line-text fax_received_popup rest = refl
valid_line-text fax_received_exec rest = refl
valid_line-text fax_received_prog rest = refl
valid_line-text addr_in_header rest = refl
valid_line-text log_file rest = refl
valid_line-text work_subdir rest = refl

-- What follows the name and a blank is the value.
pub parm_value-text :
    (convert : Bytes → Option Bytes) (k : Key) (w v result : Bytes)
    → IsPlain w
    → convert w ≡ some v
    → parm_value convert (text k) (text k ++ 32 ∷ w) result ≡ v
unfolding parm_value skip_blanks
parm_value-text convert k w v result plain_w e =
    let line = append_assoc (text k) (32 ∷ []) w in
    let trimmed : trim_end (text k ++ 32 ∷ w) ≡ text k ++ 32 ∷ w =
      sym (ap trim_end line) ∙ trim_end-append (text k ++ 32 ∷ []) w plain_w ∙ line in
    rw
      (
        parm_value,
        trimmed,
        drop-append (text k) (32 ∷ w),
        plain_w.no_start,
        plain_w.some_text,
        sym plain_w.some_text,
        e,
      )
      refl

pub read_parm_named :
    (h : Conversions) (line l : Bytes) (k : Key) (values : Values)
    → valid_line line ≡ some l
    → first_key config_keys l ≡ some k
    → read_parm h line values
      ≡ put_value k (parm_value (to_utf8 h (read_coding k)) (text k) l (values k)) values
unfolding read_parm
read_parm_named h line l k values v f = rw (read_parm, v, f) refl

pub read_parm_unnamed :
    (h : Conversions) (line l : Bytes) (values : Values)
    → valid_line line ≡ some l
    → first_key config_keys l ≡ none
    → read_parm h line values ≡ values
unfolding read_parm
read_parm_unnamed h line l values v f = rw (read_parm, v, f) refl

-- A line with a value is looked at whole.
pub valid_line_plain :
    (k : Key) (w : Bytes) → IsPlain w → valid_line (text k ++ 32 ∷ w) ≡ some (text k ++ 32 ∷ w)
unfolding before_hash
valid_line_plain k w plain_w =
    valid_line-text k (32 ∷ w) ∙ ap (λ t. some (text k ++ 32 ∷ t)) plain_w.no_hash

-- It is read as its value.
pub read_parm-text :
    (h : Conversions) (k : Key) (w v : Bytes) (values : Values)
    → IsPlain w
    → to_utf8 h (read_coding k) w ≡ some v
    → read_parm h (text k ++ 32 ∷ w) values ≡ put_value k v values
read_parm-text h k w v values plain_w e =
    read_parm_named h (text k ++ 32 ∷ w) (text k ++ 32 ∷ w) k values (valid_line_plain k w plain_w)
      (first_key-text k (32 ∷ w))
    ∙ ap (λ t. put_value k t values)
        (parm_value-text (to_utf8 h (read_coding k)) k w v (values k) plain_w e)

-- A comment, and an empty line, leave the settings.
pub read_parm_invalid :
    (h : Conversions) (line : Bytes) (values : Values)
    → valid_line line ≡ none
    → read_parm h line values ≡ values
unfolding read_parm
read_parm_invalid h line values v = rw (read_parm, v) refl
