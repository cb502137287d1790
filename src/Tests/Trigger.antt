-- ===== src/Tests/Trigger.antt =====
-- Triggers and messages.
use trollbot.Prelude.{◌≡◌, refl, true, false, [], ◌∷◌, none, some, Bytes, codes, Gives, ℕ}
use trollbot.Text.{has_byte, str_eq}
use trollbot.Irc.{IrcData}
use trollbot.Trigger.{Trigger, TrigTable}
use trollbot.Trigger.Match.{trigger_match}
use trollbot.Trigger.Match.Tables.{Settled}
use trollbot.Trigger.Match.Total.{IsTable, IsAnswerable, trigger_match-Gives}

no_bar : has_byte b'|' (codes "no") ≡ false
unfolding has_byte
no_bar = refl

abbrev trigger : Bytes → ℕ → Trigger
trigger mask n = record {
  glob_flags = none;
  chan_flags = none;
  mask = some mask;
  handler = some n;
  command = none;
  usecount = 0;
}

abbrev table : TrigTable
table = record {
  pub_ = trigger (codes "!a") 1 ∷ trigger (codes "!b") 2 ∷ [];
  pubm = [];
  msg = trigger (codes "pass") 3 ∷ [];
  msgm = [];
  part = [];
  join = trigger (codes "*") 4 ∷ trigger (codes "*") 5 ∷ [];
  sign = [];
  ctcp = [];
  kick = [];
  notc = [];
  dcc = [];
  raw = trigger (codes "352") 6 ∷ [];
  topc = [];
}

table-IsTable : IsTable table
table-IsTable = record {
  msg = (tt, tt);
  pub_ = (tt, (tt, tt));
  raw = ((tt, tt), tt);
  join = λ e. cc;
}

abbrev message : Bytes → Bytes → Bytes → IrcData
message command target text = record {
  prefix = some (record {
    servername = none;
    nick = some (codes "al");
    user = some (codes "a");
    host = some (codes "h");
  });
  command = command;
  c_params = some (target ∷ []);
  c_params_str = some target;
  rest = some (text ∷ []);
  rest_str = some text;
}

abbrev said : IrcData
said = message (codes "PRIVMSG") (codes "#c") (codes "!bye")

said-IsAnswerable : IsAnswerable said
said-IsAnswerable = record {
  privmsg = λ e. (tt, tt, tt);
  join = λ e. (tt, (tt, tt, tt));
  part = λ e. (tt, (tt, tt, tt));
  kick = λ e. tt;
  notice = λ e. tt;
}

trigger_match-Gives_example : Gives (Settled table) (trigger_match (codes "bot") table said)
trigger_match-Gives_example =
    trigger_match-Gives (codes "bot") table said table-IsTable said-IsAnswerable

privmsg : str_eq (codes "PRIVMSG") (codes "PRIVMSG") ≡ true
unfolding str_eq
privmsg = refl

abbrev joined : IrcData
joined = message (codes "JOIN") (codes "#c") (codes "#c")

joined-IsAnswerable : IsAnswerable joined
joined-IsAnswerable = record {
  privmsg = λ e. (tt, tt, tt);
  join = λ e. (tt, (tt, tt, tt));
  part = λ e. (tt, (tt, tt, tt));
  kick = λ e. tt;
  notice = λ e. tt;
}

not_privmsg : str_eq (codes "JOIN") (codes "PRIVMSG") ≡ false
unfolding str_eq
not_privmsg = refl

is_join : str_eq (codes "JOIN") (codes "JOIN") ≡ true
unfolding str_eq
is_join = refl
