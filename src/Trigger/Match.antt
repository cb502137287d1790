-- ===== src/Trigger/Match.antt =====
-- `trigger_match`: the test of each kind of trigger, and the table that a command selects.
pub mod Count
pub mod Tables
pub mod Ready
pub mod Total
pub mod First
use trollbot.Prelude.{
  ◌>>=◌, ℕ, zero, suc, Bool, true, false, List, [], ◌∷◌, ◌++◌, map, Option, none, some, ◌==◌,
  if◌then◌else◌, get_elem?, Bytes, codes,
}
use trollbot.Text.{str_eq, tolower}
use trollbot.Wildcard.{troll_matchwilds}
use trollbot.Irc.{IrcPrefix, IrcData}
use trollbot.Trigger.{
  Trigger, TrigTable, Ran, untouched, run_all, run_first, run_head, run_raw, take,
}

-- `!strncmp(text, mask, strlen(mask))`
unfoldable pub starts_with : (mask text : Bytes) → Bool
starts_with [] text = true
starts_with (c ∷ mask) [] = false
starts_with (c ∷ mask) (d ∷ text) = if c == d then starts_with mask text else false

-- `!strcasecmp(a, b)`
abbrev pub strcase_eq : Bytes → Bytes → Bool
strcase_eq a b = str_eq (map tolower a) (map tolower b)

-- `!troll_matchwilds(text, mask)`
abbrev pub matched : Option ℕ → Option Bool
matched none = none
matched (some r) = some (r == 0)

abbrev pub matches : Option Bytes → Trigger → Option Bool
matches text t = matched (troll_matchwilds text t.mask)

-- `if (data->rest[0] != NULL)`, before the test of a message.
abbrev pub if_rest : IrcData → Option Bool → Option Bool
if_rest d test = d.rest >>= λ r. elim (get_elem? r 0) [ none ↦ some false | some w ↦ test ]

-- MSG
abbrev pub msg_test : IrcData → Trigger → Option Bool
msg_test d t = if_rest d (do text ← d.rest_str; mask ← t.mask; some (starts_with mask text))

-- MSGM, PUBM and NOTC
abbrev pub text_test : IrcData → Trigger → Option Bool
text_test d t = if_rest d (matches d.rest_str t)

-- PUB, for a text that is there.
abbrev pub pub_test : Bytes → Trigger → Option Bool
pub_test text t = do mask ← t.mask; some (starts_with mask text)

-- `snprintf` into `newmask[1024]`
abbrev pub newmask : Bytes → Option Bytes
newmask s = some (take 1023 s)

-- `"%s %s!%s@%s"`
abbrev pub origin_mask : Bytes → IrcPrefix → Option Bytes
origin_mask room p = do
  nick ← p.nick
  user ← p.user
  host ← p.host
  some (room ++ b' ' ∷ (nick ++ b'!' ∷ (user ++ b'@' ∷ host)))

-- JOIN, where `data->rest` is there.
abbrev pub join_test : IrcData → List Bytes → Trigger → Option Bool
join_test d rest t = do
  room ← get_elem? rest 0
  p ← d.prefix
  mask ← origin_mask room p
  matches (newmask mask) t

abbrev pub is_some : Option Bytes → Bool
is_some none = false
is_some (some s) = true

-- PART: the same, if the sender has a nick, a user and a host.
abbrev pub part_test : IrcData → Trigger → Option Bool
part_test d t = elim d.rest [
  | none ↦ some false
  | some rest ↦ d.prefix >>= λ p.
      if is_some p.nick
      then (if is_some p.user
          then (if is_some p.host then join_test d rest t else some false)
          else some false)
      else some false
]

-- `(data->c_params != NULL) && data->c_params[i] != NULL`
abbrev pub param : IrcData → ℕ → Option Bytes
param d i = d.c_params >>= λ ps. get_elem? ps i

-- TOPIC
abbrev pub topic_test : IrcData → Trigger → Option Bool
topic_test d t = elim (param d 0) [
  | none ↦ some false
  | some room ↦ elim d.rest_str [
    | none ↦ some false
    | some text ↦ matches (newmask (room ++ b' ' ∷ text)) t
  ]
]

-- KICK, whose reason may be missing: a NULL for a `%s`.
abbrev pub kick_test : IrcData → Trigger → Option Bool
kick_test d t = elim (param d 0) [
  | none ↦ some false
  | some room ↦ elim (param d 1) [
    | none ↦ some false
    | some nick ↦ d.rest_str >>= λ text. matches (newmask (room ++ b' ' ∷ (nick ++ b' ' ∷ text))) t
  ]
]

-- The tables after a message, and the triggers whose handlers ran, in order.
pub record Outcome : Type 0 where
  pub table : TrigTable
  pub calls : List Trigger

abbrev pub quiet : TrigTable → Outcome
quiet tab = record { table = tab; calls = [] }

-- A PRIVMSG to the bot.
unfoldable pub match_private : TrigTable → IrcData → Option Outcome
unfolding run_all starts_with
match_private tab d = do
  msg ← run_all (msg_test d) tab.msg
  msgm ← run_all (text_test d) tab.msgm
  some (record {
    table = record tab { msg = msg.triggers; msgm = msgm.triggers };
    calls = msg.calls ++ msgm.calls;
  })

abbrev pub run_pub : Option Bytes → List Trigger → Option Ran
run_pub none ts = some (untouched ts)
run_pub (some text) ts = run_first (pub_test text) ts

-- Any other PRIVMSG.
unfoldable pub match_public : TrigTable → IrcData → Option Outcome
unfolding run_all run_first starts_with
match_public tab d = do
  found ← run_pub d.rest_str tab.pub_
  pubm ← run_all (text_test d) tab.pubm
  some (record {
    table = record tab { pub_ = found.triggers; pubm = pubm.triggers };
    calls = found.calls ++ pubm.calls;
  })

abbrev pub to_bot : Bool → TrigTable → IrcData → Option Outcome
to_bot true = match_private
to_bot false = match_public

-- `data->c_params[0]` is read without a test of `c_params`.
unfoldable pub match_privmsg : (botnick : Bytes) → TrigTable → IrcData → Option Outcome
unfolding match_private match_public
match_privmsg botnick tab d = d.c_params >>= λ ps. elim (get_elem? ps 0) [
  | none ↦ some (quiet tab)
  | some target ↦ to_bot (strcase_eq target botnick) tab d
]

-- The walk of one table.
abbrev pub run_in : (List Trigger → TrigTable) → Option Ran → Option Outcome
run_in put ran = do r ← ran; some (record { table = put r.triggers; calls = r.calls })

unfoldable pub match_join : TrigTable → IrcData → Option Outcome
unfolding run_head
match_join tab d = elim d.rest [
  | none ↦ some (quiet tab)
  | some rest ↦ run_in (λ ts. record tab { join = ts }) (run_head (join_test d rest) tab.join)
]

-- The other commands: one table each, and QUIT none.
unfoldable pub match_other : TrigTable → IrcData → Option Outcome
unfolding run_all run_raw
match_other tab d =
    if str_eq d.command (codes "PART")
    then run_in (λ ts. record tab { part = ts }) (run_all (part_test d) tab.part)
    else if str_eq d.command (codes "QUIT")
    then some (quiet tab)
    else if str_eq d.command (codes "TOPIC")
    then run_in (λ ts. record tab { topc = ts }) (run_all (topic_test d) tab.topc)
    else if str_eq d.command (codes "KICK")
    then run_in (λ ts. record tab { kick = ts }) (run_all (kick_test d) tab.kick)
    else if str_eq d.command (codes "NOTICE")
    then run_in (λ ts. record tab { notc = ts }) (run_all (text_test d) tab.notc)
    else run_in (λ ts. record tab { raw = ts }) (run_raw d.command tab.raw)

-- `trigger_match(net, data)`
unfoldable pub trigger_match : (botnick : Bytes) → TrigTable → IrcData → Option Outcome
unfolding match_privmsg match_join match_other
trigger_match botnick tab d =
    if str_eq d.command (codes "PRIVMSG")
    then match_privmsg botnick tab d
    else if str_eq d.command (codes "JOIN")
    then match_join tab d
    else match_other tab d
