-- ===== src/Dcc.antt =====
-- A line from a DCC session: `parse_dcc_line` and `dcc_command_handler` of src/dcc.c. `none` is a
-- fault. The message of the day, and what a command or the party line sends, are output only.
pub mod Login
pub mod Complete
pub mod Empty
use trollbot.Prelude.{
  ◌>>=◌, ℕ, zero, suc, Bool, true, false, ◌&&◌, List, [], ◌∷◌, ◌++◌, Option, none, some,
  if◌then◌else◌, get_elem?, Bytes, codes, ◌==◌,
}
use trollbot.Text.{str_eq}
use trollbot.User.{User, Written, users_save}
use trollbot.Linked.{linked}
use trollbot.Trigger.{Trigger, used}
use trollbot.Egg.{EggNetwork, egg_makepasswd, egg_passwdok, egg_matchattr, with_from, as_saved}

-- `enum dcc_status`
pub data DccStatus : Type 0 where
  waiting : DccStatus
  nonblock_connect : DccStatus
  waiting_connect : DccStatus
  not_ready : DccStatus
  connected : DccStatus
  has_username : DccStatus
  authenticated : DccStatus

-- What these functions use of a `struct dcc_session`; `user` is the place of the user in the list
-- of the network, counted from its head pointer.
pub record DccSession : Type 0 where
  pub status : DccStatus
  pub user : Option ℕ

-- What a line leaves: the session, or none when it is closed and freed, the network and its DCC
-- triggers, the user files that are written, what is sent, and the trigger that ran.
pub record DccOutcome : Type 0 where
  pub session : Option DccSession
  pub net : EggNetwork
  pub triggers : List Trigger
  pub files : List Written
  pub sent : List Bytes
  pub ran : Option Trigger

abbrev pub sends_only : Option DccSession → EggNetwork → List Trigger → List Bytes → DccOutcome
sends_only session net triggers sent = record {
  session = session;
  net = net;
  triggers = triggers;
  files = [];
  sent = sent;
  ran = none;
}

-- The first user with this name, and his place.
abbrev pub one_on : Option (ℕ × User) → Option (ℕ × User)
one_on none = none
one_on (some r) = some (suc r.0, r.1)

unfoldable pub find_place : Bytes → List User → Option (ℕ × User)
unfolding str_eq
find_place name [] = none
find_place name (u ∷ us) =
    let rest = one_on (find_place name us) in
    if str_eq u.username name then some (zero, u) else rest

abbrev pub with_name : EggNetwork → List Trigger → (p : ℕ) (allowed : Bool) → DccOutcome
with_name net triggers p true =
    sends_only (some (record { status = has_username; user = some p })) net triggers
      (codes "Please enter your password." ∷ [])
with_name net triggers p false =
    sends_only none net triggers (codes "You do not have the flags to access DCC." ∷ [])

-- A line is a user name.
abbrev pub named_user : EggNetwork → List Trigger → Option (ℕ × User) → Option DccOutcome
named_user net triggers none =
    some (sends_only none net triggers (codes "Incorrect username." ∷ []))
named_user net triggers (some r) = do
  allowed ← egg_matchattr net r.1.username (codes "p") none
  some (with_name net triggers r.0 allowed)

-- A user of the list, replaced.
unfoldable pub set_at : ℕ → User → List User → List User
set_at i u [] = []
set_at zero u (v ∷ us) = u ∷ us
set_at (suc i) u (v ∷ us) = v ∷ set_at i u us

-- `dcc_command_handler`: the triggers afterwards, and the one that ran. `none` in place of it: the
-- line goes to the party line.
abbrev pub may_run : EggNetwork → (username : Bytes) → Option Bytes → Option Bool
may_run net username none = some true
may_run net username (some flags) = egg_matchattr net username flags none

-- `!strncmp(mask, command, strlen(mask))`
unfoldable pub has_prefix : Bytes → Bytes → Bool
has_prefix [] s = true
has_prefix (a ∷ mask) [] = false
has_prefix (a ∷ mask) (c ∷ s) = a == c && has_prefix mask s

abbrev pub behind_trigger :
    Trigger → List Trigger × Option Trigger → Option (List Trigger × Option Trigger)
behind_trigger t r = some (t ∷ r.0, r.1)

abbrev pub run_dcc :
    Trigger
    → List Trigger
    → Option ℕ
    → Option (List Trigger × Option Trigger)
    → Option (List Trigger × Option Trigger)
run_dcc t ts none rest = rest >>= behind_trigger t
run_dcc t ts (some h) rest = some (used t ∷ ts, some (used t))

abbrev pub try_dcc :
    (command : Bytes) (allowed : Bool) (mask : Option Bytes) (t : Trigger) (ts : List Trigger)
    → Option (List Trigger × Option Trigger)
    → Option (List Trigger × Option Trigger)
try_dcc command false mask t ts rest = rest >>= behind_trigger t
try_dcc command true none t ts rest = none
try_dcc command true (some mask) t ts rest =
    if has_prefix mask command then run_dcc t ts t.handler rest else (rest >>= behind_trigger t)

unfoldable pub dcc_command_handler :
    EggNetwork → (username command : Bytes) → List Trigger → Option (List Trigger × Option Trigger)
unfolding egg_matchattr has_prefix
dcc_command_handler net username command [] = some ([], none)
dcc_command_handler net username command (t ∷ ts) =
    let rest = dcc_command_handler net username command ts in
    may_run net username t.glob_flags >>= λ allowed. try_dcc command allowed t.mask t ts rest

module _ (create_hash : Option (Bytes → Bytes → Option Bytes))
    (config_hash_type : Option Bytes) where
  -- `strcmp(g_cfg->hash_type, user->hash_type)`: the user with a new hash, if the kinds differ.
  abbrev pub rehashed : (pass : Bytes) → User → Option Bytes → Option Bytes → Option (Option User)
  rehashed pass u none kind = none
  rehashed pass u (some config) none = none
  rehashed pass u (some config) (some kind) = some (
      if str_eq config kind
      then none
      else some
          (record u { hash_type = some config; passhash = egg_makepasswd create_hash pass config }))

  abbrev pub save_changed : EggNetwork → ℕ → Option User → Option (EggNetwork × List Written)
  save_changed net p none = some (net, [])
  save_changed net p (some u) = do
    files ← users_save (some (as_saved (with_from net (set_at p u net.users.from)))) []
    some (with_from net (set_at p u net.users.from), files)

  abbrev pub logged_in : List Trigger → ℕ → EggNetwork × List Written → DccOutcome
  logged_in triggers p r = record {
    session = some (record { status = authenticated; user = some p });
    net = r.0;
    triggers = triggers;
    files = r.1;
    sent = codes "Type .help for help." ∷ [];
    ran = none;
  }

  -- What `egg_passwdok` decides.
  abbrev pub pass_checked :
      EggNetwork → List Trigger → ℕ → User → (line : Bytes) → Bool → Option DccOutcome
  pass_checked net triggers p u line false =
      some (sends_only none net triggers (codes "Incorrect password" ∷ []))
  pass_checked net triggers p u line true = do
    change ← rehashed line u config_hash_type u.hash_type
    r ← save_changed net p change
    some (logged_in triggers p r)

  -- A line is a password. Without a stored one the session is freed, and then used again.
  abbrev pub given_pass :
      EggNetwork → List Trigger → ℕ → User → (line : Bytes) → Option Bytes → Option DccOutcome
  given_pass net triggers p u line none = none
  given_pass net triggers p u line (some hash) =
      egg_passwdok create_hash net u.username (some line) >>= pass_checked net triggers p u line

  abbrev pub commanded : EggNetwork → DccSession → List Trigger × Option Trigger → DccOutcome
  commanded net s r = record {
    session = some s;
    net = net;
    triggers = r.0;
    files = [];
    sent = [];
    ran = r.1;
  }

  abbrev pub placed : ℕ → User → Option (ℕ × User)
  placed p u = some (p, u)

  -- The user of the session, read through its pointer.
  abbrev pub user_at : EggNetwork → Option ℕ → Option (ℕ × User)
  user_at net none = none
  user_at net (some p) = get_elem? net.users.from p >>= placed p

  -- The `switch`.
  abbrev pub by_status :
      EggNetwork → List Trigger → DccSession → (line : Bytes) → DccStatus → Option DccOutcome
  by_status net triggers s line connected = named_user net triggers (find_place line net.users.from)
  by_status net triggers s line has_username =
      user_at net s.user >>= λ r. given_pass net triggers r.0 r.1 line r.1.passhash
  by_status net triggers s line authenticated = user_at net s.user >>= λ r.
      dcc_command_handler net r.1.username line triggers >>= λ c. some (commanded net s c)
  by_status net triggers s line waiting = some (sends_only (some s) net triggers [])
  by_status net triggers s line nonblock_connect = some (sends_only (some s) net triggers [])
  by_status net triggers s line waiting_connect = some (sends_only (some s) net triggers [])
  by_status net triggers s line not_ready = some (sends_only (some s) net triggers [])

  -- `parse_dcc_line`
  unfoldable pub parse_dcc_line :
      EggNetwork → List Trigger → DccSession → (line : Bytes) → Option DccOutcome
  unfolding find_place egg_matchattr egg_passwdok users_save dcc_command_handler set_at str_eq
  parse_dcc_line net triggers s line = by_status net triggers s line s.status
