-- ===== src/Settings/Configure/Tests.antt =====
-- configure_prog on concrete settings.
use secure_e_fax.Prelude.{◌≡◌, refl, [], ◌∷◌, true, false, some}
use secure_e_fax.Text.{Bytes, codes, bytes_eq}
use secure_e_fax.Settings.{strip, is_ascii, trim_end, skip_blanks}
use secure_e_fax.Settings.Write.{is_allowed, all_allowed, write_config}
use secure_e_fax.Settings.Read.{read_parms}
use secure_e_fax.Settings.Samples.{
  utf8_conv, utf8_conv-IsSound, entries, entries-AllStorable, old_file,
}
use secure_e_fax.Settings.Configure.{configure, split_words}
use secure_e_fax.Settings.Configure.Words.{joined, split_words-joined}
use secure_e_fax.Settings.Configure.Valid.{IsValid, configure-IsValid}
use secure_e_fax.Settings.Configure.Accepted.{IsAccepted, configure-write_config}

-- `Z &F  &C0`
split_words-joined_example :
    split_words (codes "Z &F  &C0") ≡ codes "Z" ∷ codes "&F" ∷ codes "&C0" ∷ []
unfolding joined
split_words-joined_example =
    split_words-joined (codes "Z") ((codes " ", codes "&F") ∷ (codes "  ", codes "&C0") ∷ [])
      (record { first = b'Z'; others = []; some_text = refl; no_blanks = (refl, tt) })
      (
        (
          record { blank = 32; more = []; some_gap = refl; blanks = (refl, tt) },
          record {
            first = b'&';
            others = codes "F";
            some_text = refl;
            no_blanks = (refl, (refl, tt));
          },
        ),
        (
          (
            record { blank = 32; more = codes " "; some_gap = refl; blanks = (refl, (refl, tt)) },
            record {
              first = b'&';
              others = codes "C0";
              some_text = refl;
              no_blanks = (refl, (refl, (refl, tt)));
            },
          ),
          tt,
        ),
      )

configure-IsValid_example : IsValid (configure utf8_conv true entries).0
configure-IsValid_example = configure-IsValid utf8_conv true entries

configure-write_config_example :
    (new : Bytes) × (write_config utf8_conv true entries old_file ≡ some new)
    × (let made = configure utf8_conv false (read_parms utf8_conv new (λ j. [])) in
        IsAccepted utf8_conv entries made.0 made.1)
unfolding all_allowed is_allowed is_ascii strip trim_end skip_blanks bytes_eq
configure-write_config_example =
    configure-write_config utf8_conv false entries old_file utf8_conv-IsSound (λ t e. refl)
      entries-AllStorable refl
