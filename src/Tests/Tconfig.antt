-- ===== src/Tests/Tconfig.antt =====
-- A user file.
use trollbot.Prelude.{◌≡◌, ◌≢◌, refl, some, Gives, codes, Bytes}
use trollbot.Text.{str_eq, has_byte}
use trollbot.Tconfig.{
  Blocks, null, block, join, siblings, enter, leave, same_label, search, insert, read_quoted,
  read_key, read_value, skip_to_value, read_entry, skip_comment, skip_line, parse_step, parse_loop,
  rewind, Parsed, tree, file_to_tconfig,
}
use trollbot.Tconfig.Write.{indent, quote, write_blocks, tconfig_to_file}
use trollbot.Tconfig.Fuel.{file_to_tconfig-fuel}
use trollbot.Tconfig.Words.{is_text_byte, begins_key, IsText, IsKey}
use trollbot.Tconfig.RoundTrip.{IsConfig, file_to_tconfig-tconfig_to_file}

abbrev entry : Bytes → Bytes → Blocks → Blocks → Blocks
entry k v child next = block (some (k, v)) child next

abbrev users : Blocks
users =
    entry (codes "user") (codes "al")
      (entry (codes "uhost") (codes "*!a b") null (entry (codes "flags") (codes "n") null null))
      (entry (codes "user") (codes "bo") null null)

abbrev file : Bytes
file = codes "\nuser\tal\n{\n  uhost\t\"*!a b\"\n  flags\tn\n}\n\nuser\tbo\n"

written : tconfig_to_file users ≡ some file
unfolding tconfig_to_file write_blocks indent quote has_byte
written = refl

commented :
    file_to_tconfig (codes "// x\n/* y */ a b\n{ c d }\n")
    ≡ tree (entry (codes "a") (codes "b") (entry (codes "c") (codes "d") null null) null)
unfolding file_to_tconfig parse_loop parse_step rewind siblings join enter leave insert search
    same_label str_eq read_entry read_quoted read_key read_value skip_to_value skip_comment
    skip_line
commented = refl

texts :
    (IsKey (codes "user"))
    × (IsText (codes "al"))
    × (IsKey (codes "uhost"))
    × (IsText (codes "*!a b"))
    × (IsKey (codes "flags"))
    × (IsText (codes "n"))
    × (IsText (codes "bo"))
unfolding is_text_byte begins_key
texts = (
  (refl, (refl, (refl, (refl, (refl, tt))))),
  (refl, (refl, tt)),
  (refl, (refl, (refl, (refl, (refl, (refl, tt)))))),
  (refl, (refl, (refl, (refl, (refl, tt))))),
  (refl, (refl, (refl, (refl, (refl, (refl, tt)))))),
  (refl, tt),
  (refl, (refl, tt)),
)

users-IsConfig : IsConfig users
unfolding same_label str_eq
users-IsConfig = (
  texts.0,
  texts.1,
  (refl, tt),
  (texts.2, texts.3, (refl, tt), tt, (texts.4, texts.5, tt, tt, tt)),
  (texts.0, texts.6, tt, tt, tt),
)

file_to_tconfig-tconfig_to_file_example :
    Gives (λ text. file_to_tconfig text ≡ tree users) (tconfig_to_file users)
file_to_tconfig-tconfig_to_file_example =
    file_to_tconfig-tconfig_to_file users (λ e. cc) users-IsConfig

file_to_tconfig-fuel_example : file_to_tconfig file ≢ Parsed.out_of_fuel
file_to_tconfig-fuel_example = file_to_tconfig-fuel file
