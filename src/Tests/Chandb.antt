-- ===== src/Tests/Chandb.antt =====
-- A channel file, and the defaults for it.
use trollbot.Prelude.{
  Bool, true, false, if◌then◌else◌, Bool-cases, inl, inr, ◌≡◌, refl, List, [], ◌∷◌, map, none, some,
  Gives, Bytes, codes,
}
use trollbot.Text.{str_eq, tstrcasecmp, tolower}
use trollbot.Tconfig.{
  same_label, siblings, join, enter, leave, search, insert, read_quoted, read_key, read_value,
  skip_to_value, read_entry, skip_comment, skip_line, parse_step, parse_loop, rewind, tree,
  file_to_tconfig,
}
use trollbot.Tconfig.Words.{is_text_byte, begins_key}
use trollbot.Tconfig.RoundTrip.{IsConfig}
use trollbot.Tconfig.Merge.{is_at}
use trollbot.Chanfile.{ChanRecord, var_blocks, chan_blocks, chans_to_tconfig, chan_init, chans_save}
use trollbot.Chanfile.Load.{turned, IsChanlist}
use trollbot.Chanfile.Defaults.{NoAt, has_var, fill, filled, defaults_tree}
use trollbot.Chanfile.Disk.{chan_init-chans_save}

abbrev chans : List ChanRecord
chans =
    record {
      name = codes "#a";
      egg_vars = some (some (codes "k", codes "v") ∷ some (codes "l", codes "w") ∷ []);
    }
    ∷ record { name = codes "#b"; egg_vars = some (some (codes "k", codes "v") ∷ []) }
    ∷ []

chans-IsChanlist : IsChanlist chans
unfolding tstrcasecmp tolower
chans-IsChanlist = (tt, (refl, tt), (tt, tt, tt))

-- Without a channel, nothing is saved.
no_channel : chans_save [] ≡ none
unfolding chans_save chans_to_tconfig
no_channel = refl

chans-IsConfig : IsConfig (chan_blocks chans)
unfolding chan_blocks var_blocks is_text_byte begins_key same_label str_eq
chans-IsConfig = (
  (refl, (refl, (refl, (refl, (refl, (refl, (refl, (refl, tt)))))))),
  (refl, (refl, tt)),
  (refl, tt),
  ((refl, (refl, tt)), (refl, tt), (refl, tt), tt, ((refl, (refl, tt)), (refl, tt), tt, tt, tt)),
  (
    (refl, (refl, (refl, (refl, (refl, (refl, (refl, (refl, tt)))))))),
    (refl, (refl, tt)),
    tt,
    ((refl, (refl, tt)), (refl, tt), tt, tt, tt),
    tt,
  ),
)

-- The file that the repository ships as db_dist/chandb.defaults.
abbrev shipped : Bytes
shipped =
    codes
      "channel *\n{\n  // x:y x joins in y seconds constitutes a flood\n  flood-chan 10:60\n \n  // x:y x deops in y seconds constitutes a flood\n  flood-deop 3:10\n\n  // x:y x kicks in y seconds constitutes a flood\n  flood-kick 3:10\n\n  // x:y x joins in y seconds constitutes a flood\n  flood-join 5:60\n\n  // x:y x ctcps in y seconds constitutes a flood\n  flood-ctcp 3:60\n\n  // x:y x nick changes in y seconds constitutes a flood\n  flood-nick 5:60\n\n  // x:y random delay from x to y seconds for auto* functions\n  aop-delay  5:30\n\n  // x kick users after x minutes of idling\n  idle-kick  0\n\n  // Channel mode \n  chanmode \"nt\"\n \n  // I don't know what the hell this does\n  stopnethack-mode 0\n\n  // Take action against users who deop/kick/ban friends/owners\n  revenge-mode 0\n\n  // Default time in seconds of a ban with no specified time\n  ban-time 120\n\n  // Time to set exempts for\n  exempt-time 60\n\n  // time to set invites for\n  invite-time 60\n  \n  autoop 0\n  bitch 0\n  autovoice 0\n  cycle 1\n  dontkickops 1\n  dynamicexempts 1\n  enforcebans 0\n  greet 1\n  dynamicinvites 1\n  dynamicbans 1\n  enforcebans 0\n  revenge 0 \n  userbans 1\n  userinvites 1\n  autohalfop 0\n  nodesynch 0\n  protectops 1\n  revengebot 0\n  seen 0\n  statuslog 1\n  userexempts 1\n  protecthalfops 0\n  statuslog 1\n  secret 0\n  shared 1\n}\n"

abbrev first_default : Bytes × Bytes
first_default = (codes "flood-chan", codes "10:60")

abbrev defaults : List (Bytes × Bytes)
defaults =
    (codes "flood-deop", codes "3:10")
    ∷ (codes "flood-kick", codes "3:10")
    ∷ (codes "flood-join", codes "5:60")
    ∷ (codes "flood-ctcp", codes "3:60")
    ∷ (codes "flood-nick", codes "5:60")
    ∷ (codes "aop-delay", codes "5:30")
    ∷ (codes "idle-kick", codes "0")
    ∷ (codes "chanmode", codes "nt")
    ∷ (codes "stopnethack-mode", codes "0")
    ∷ (codes "revenge-mode", codes "0")
    ∷ (codes "ban-time", codes "120")
    ∷ (codes "exempt-time", codes "60")
    ∷ (codes "invite-time", codes "60")
    ∷ (codes "autoop", codes "0")
    ∷ (codes "bitch", codes "0")
    ∷ (codes "autovoice", codes "0")
    ∷ (codes "cycle", codes "1")
    ∷ (codes "dontkickops", codes "1")
    ∷ (codes "dynamicexempts", codes "1")
    ∷ (codes "enforcebans", codes "0")
    ∷ (codes "greet", codes "1")
    ∷ (codes "dynamicinvites", codes "1")
    ∷ (codes "dynamicbans", codes "1")
    ∷ (codes "revenge", codes "0")
    ∷ (codes "userbans", codes "1")
    ∷ (codes "userinvites", codes "1")
    ∷ (codes "autohalfop", codes "0")
    ∷ (codes "nodesynch", codes "0")
    ∷ (codes "protectops", codes "1")
    ∷ (codes "revengebot", codes "0")
    ∷ (codes "seen", codes "0")
    ∷ (codes "statuslog", codes "1")
    ∷ (codes "userexempts", codes "1")
    ∷ (codes "protecthalfops", codes "0")
    ∷ (codes "secret", codes "0")
    ∷ (codes "shared", codes "1")
    ∷ []

shipped_read : file_to_tconfig shipped ≡ tree (defaults_tree (first_default ∷ defaults))
unfolding file_to_tconfig parse_loop parse_step rewind siblings join enter leave insert search
    same_label str_eq read_entry read_quoted read_key read_value skip_to_value skip_comment
    skip_line var_blocks
shipped_read = refl

unfoldable none_at : List (Bytes × Bytes) → Bool
none_at [] = true
none_at (d ∷ ds) = if is_at d.0 then false else none_at ds

none_at-NoAt : (ds : List (Bytes × Bytes)) → none_at ds ≡ true → NoAt ds
unfolding none_at
none_at-NoAt [] h = tt
none_at-NoAt (d ∷ ds) h = elim (Bool-cases (is_at d.0)) [
  | inl e ↦ absurd cc
  | inr e ↦ (e, none_at-NoAt ds cc)
]

no_at : NoAt (first_default ∷ defaults)
unfolding none_at
no_at = none_at-NoAt (first_default ∷ defaults) refl

chan_init-chans_save_example :
    Gives
      (λ text.
        (chan_init none text [] ≡ some (map turned chans))
        × (chan_init (some shipped) text []
            ≡ some (map turned (map (filled (first_default ∷ defaults)) chans))))
      (chans_save chans)
chan_init-chans_save_example =
    chan_init-chans_save chans shipped first_default defaults (λ e. cc) chans-IsChanlist
      chans-IsConfig ((tt, (tt, tt)), ((tt, tt), tt)) no_at shipped_read

-- The second channel gets `l` and `chanmode`, the first only `chanmode`.
chans_filled :
    map (filled ((codes "l", codes "10:60") ∷ (codes "chanmode", codes "nt") ∷ [])) chans
    ≡ record {
      name = codes "#a";
      egg_vars = some (
          some (codes "k", codes "v")
          ∷ some (codes "l", codes "w")
          ∷ some (codes "chanmode", codes "nt")
          ∷ []);
    }
      ∷ record {
        name = codes "#b";
        egg_vars = some (
            some (codes "k", codes "v")
            ∷ some (codes "l", codes "10:60")
            ∷ some (codes "chanmode", codes "nt")
            ∷ []);
      }
      ∷ []
unfolding filled fill has_var str_eq
chans_filled = refl
