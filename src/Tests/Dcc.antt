-- ===== src/Tests/Dcc.antt =====
-- A DCC session from the prompt for the name to a command.
use trollbot.Prelude.{
  ◌≡◌, refl, [], ◌∷◌, Option, none, some, true, false, zero, Yields, Bytes, codes,
}
use trollbot.Text.{str_eq, tstrcasecmp, tolower, has_byte}
use trollbot.Channel.{find_first}
use trollbot.Linked.{linked, to_front}
use trollbot.Trigger.{Trigger, used}
use trollbot.User.{User, new_user}
use trollbot.Egg.{
  EggNetwork, has_flags, egg_matchattr, asks_only, egg_makepasswd, pass_ok, egg_passwdok,
}
use trollbot.Egg.Passwd.{hashed}
use trollbot.Dcc.{
  connected, has_username, DccSession, sends_only, find_place, has_prefix, dcc_command_handler,
  logged_in, parse_dcc_line,
}
use trollbot.Dcc.Login.{Opens, parse_dcc_line-Opens}
use trollbot.Dcc.Complete.{prompt, parse_dcc_line_twice}
use trollbot.Dcc.Empty.{parse_dcc_line_asks}

abbrev user : User
user = record (new_user (codes "al") none (some (codes "h")) none none none (some (codes "pn"))) {
  hash_type = some (codes "sha");
}

abbrev net : EggNetwork
net = record {
  label = codes "a";
  userfile = some (codes "db/a");
  default_flags = some (codes "p");
  users = linked [] (user ∷ []);
  chans = [];
}

-- A hash that is the text itself.
abbrev plain : Option (Bytes → Bytes → Option Bytes)
plain = some λ pass kind. some pass

abbrev at_prompt : DccSession
at_prompt = record { status = has_username; user = some zero }

parse_dcc_line-Opens_example :
    Yields
      (Opens plain (some (codes "sha")) net at_prompt (codes "h"))
      (parse_dcc_line plain (some (codes "sha")) net [] at_prompt (codes "h"))
parse_dcc_line-Opens_example =
    parse_dcc_line-Opens plain (some (codes "sha")) net [] at_prompt (codes "h")

-- The name, then the password.
named :
    parse_dcc_line plain
      (some (codes "sha"))
      net
      []
      (record { status = connected; user = none })
      (codes "al")
    ≡ some (sends_only (some at_prompt) net [] (codes "Please enter your password." ∷ []))
unfolding parse_dcc_line find_place egg_matchattr has_flags has_byte find_first to_front tstrcasecmp
    tolower str_eq new_user
named = refl

admitted :
    parse_dcc_line plain (some (codes "sha")) net [] at_prompt (codes "h")
    ≡ some (logged_in plain (some (codes "sha")) [] zero (net, []))
unfolding parse_dcc_line egg_passwdok pass_ok asks_only egg_makepasswd str_eq new_user
admitted = refl

refused :
    parse_dcc_line plain (some (codes "sha")) net [] at_prompt (codes "x")
    ≡ some (sends_only none net [] (codes "Incorrect password" ∷ []))
unfolding parse_dcc_line egg_passwdok pass_ok asks_only egg_makepasswd str_eq new_user
refused = refl

first : find_first (λ u. str_eq user.username u.username) net.users.from ≡ some user
unfolding find_first str_eq new_user
first = refl

has : user.passhash ≡ some (codes "h")
unfolding new_user
has = refl

dash : asks_only (some (codes "-")) ≡ true
unfolding asks_only str_eq
dash = refl

parse_dcc_line_asks_example :
    parse_dcc_line plain (some (codes "sha")) net [] at_prompt (codes "-")
    ≡ some (logged_in plain (some (codes "sha")) [] zero (net, []))
parse_dcc_line_asks_example =
    parse_dcc_line_asks plain (codes "sha") net [] zero user (codes "h") (codes "-") refl first has
      refl dash

found : find_place (codes "al") net.users.from ≡ some (zero, user)
unfolding find_place str_eq new_user
found = refl

flag : egg_matchattr net (codes "al") (codes "p") none ≡ some true
unfolding egg_matchattr has_flags has_byte find_first to_front tstrcasecmp tolower new_user
flag = refl

not_asked : asks_only (some (codes "h")) ≡ false
unfolding asks_only str_eq
not_asked = refl

makes : egg_makepasswd plain (codes "h") (codes "sha") ≡ some (codes "h")
unfolding egg_makepasswd
makes = refl

parse_dcc_line_twice_example :
    (parse_dcc_line plain
        (some (codes "sha"))
        net
        []
        (record { status = connected; user = none })
        (codes "al")
      ≡ some (
          sends_only
            (some (prompt plain (codes "sha") net [] zero))
            net
            []
            (codes "Please enter your password." ∷ [])))
    × (parse_dcc_line plain
          (some (codes "sha"))
          net
          []
          (prompt plain (codes "sha") net [] zero)
          (codes "h")
        ≡ some (logged_in plain (some (codes "sha")) [] zero (net, [])))
parse_dcc_line_twice_example =
    parse_dcc_line_twice plain (codes "sha") net [] zero user (codes "al") (codes "h") (codes "h")
      found flag has refl (hashed not_asked refl has makes)

abbrev help : Trigger
help = record {
  glob_flags = none;
  chan_flags = none;
  mask = some (codes ".help");
  command = none;
  handler = some 1;
  usecount = 0;
}

abbrev owner : Trigger
owner = record help { glob_flags = some (codes "x"); mask = some (codes ".h") }

-- A trigger whose flags the user lacks is passed over.
helped :
    dcc_command_handler net (codes "al") (codes ".help me") (owner ∷ help ∷ [])
    ≡ some (owner ∷ used help ∷ [], some (used help))
unfolding dcc_command_handler has_prefix egg_matchattr has_flags has_byte find_first to_front
    tstrcasecmp tolower new_user
helped = refl
