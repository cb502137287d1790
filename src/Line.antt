-- ===== src/Line.antt =====
-- A line of the server from the buffer to the triggers: the whole of `parse_irc_line` of src/irc.c.
-- `none` is a fault.
pub mod Ping
use trollbot.Prelude.{
  ◌>>=◌, Bool, true, false, List, [], ◌∷◌, ◌++◌, Option, none, some, if◌then◌else◌, get_elem?,
  Bytes, codes,
}
use trollbot.Text.{str_eq}
use trollbot.Irc.{IrcData, parse_irc_data}
use trollbot.Trigger.{TrigTable, behind_byte}
use trollbot.Trigger.Match.{Outcome, trigger_match}

-- The fields of `struct network` that the function reads.
pub record NetworkState : Type 0 where
  pub nick : Bytes
  pub botnick : Bytes
  pub shost : Option Bytes
  pub trigs : TrigTable

-- What it sends, the new `shost`, whether `dcc_init_listener` runs, and what the triggers do.
pub record LineOutcome : Type 0 where
  pub sent : List Bytes
  pub shost : Option Bytes
  pub listens : Bool
  pub matched : Outcome

abbrev pub pong : Bytes → Bytes
pong w = codes "PONG :" ++ (w ++ codes "\n")

-- `data->rest[0]` is read without a test of `rest`.
unfoldable pub answer_ping : IrcData → Option (List Bytes)
unfolding str_eq
answer_ping d =
    if str_eq d.command (codes "PING")
    then (do r ← d.rest; some (elim (get_elem? r 0) [ none ↦ [] | some w ↦ pong w ∷ [] ]))
    else some []

-- The reply 302: the text behind the `@`, unless the address is known.
abbrev pub host_in : Option Bytes → Option Bytes
host_in none = none
host_in (some text) = behind_byte b'@' text

unfoldable pub learn_host : NetworkState → IrcData → Option Bytes
unfolding str_eq behind_byte
learn_host net d =
    if str_eq (codes "302") d.command
    then elim net.shost [ none ↦ host_in d.rest_str | some h ↦ none ]
    else none

abbrev pub or_else : Option Bytes → Option Bytes → Option Bytes
or_else none old = old
or_else (some h) old = some h

abbrev pub is_found : Option Bytes → Bool
is_found none = false
is_found (some h) = true

-- `parse_irc_line(net, buffer)`
unfoldable pub parse_irc_line : NetworkState → Bytes → Option LineOutcome
unfolding parse_irc_data answer_ping learn_host trigger_match
parse_irc_line net buffer = do
  d ← parse_irc_data net.nick buffer
  sent ← answer_ping d
  matched ← trigger_match net.botnick net.trigs d
  some (record {
    sent = sent;
    shost = or_else (learn_host net d) net.shost;
    listens = is_found (learn_host net d);
    matched = matched;
  })
