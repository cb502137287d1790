-- ===== src/Dcc/Empty.antt =====
-- A password prompt answered with an empty line or with `-`.
use trollbot.Prelude.{ℕ, ◌≡◌, sym, subst, true, List, [], Option, some, HasValue, get_elem?, Bytes}
use trollbot.User.{User}
use trollbot.Trigger.{Trigger}
use trollbot.Egg.{EggNetwork, asks_only}
use trollbot.Egg.Passwd.{present, user_of}
use trollbot.Dcc.Complete.{parse_dcc_line-Accepted}
use trollbot.Dcc.{has_username, logged_in, parse_dcc_line}

-- Whoever answers the password prompt with an empty line or `-` is authenticated, whatever the
-- password of the user, if the user is the first of his name, has a password, and its kind of hash
-- is the configured one.
pub parse_dcc_line_asks :
    (create_hash : Option (Bytes → Bytes → Option Bytes)) (kind : Bytes) (net : EggNetwork)
    (triggers : List Trigger) (p : ℕ) (u : User) (hash line : Bytes)
    → get_elem? net.users.from p ≡ some u
    → user_of create_hash u.username net.users.from ≡ some u
    → u.passhash ≡ some hash
    → u.hash_type ≡ some kind
    → asks_only (some line) ≡ true
    → parse_dcc_line create_hash
        (some kind)
        net
        triggers
        (record { status = has_username; user = some p })
        line
      ≡ some (logged_in create_hash (some kind) triggers p (net, []))
parse_dcc_line_asks create_hash kind net triggers p u hash line at first has of_kind asks =
    parse_dcc_line-Accepted create_hash kind net triggers p u hash line at first has of_kind
      (present asks (subst HasValue (sym has) tt))
