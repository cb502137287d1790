-- ===== src/Tests/Irc.antt =====
-- Lines of a server.
use trollbot.Prelude.{
  ◌≡◌, refl, ap, List, [], ◌∷◌, none, some, codes, peek, arith, All, Bytes, Gives,
}
use trollbot.Irc.Loops.{is_plain, IsWord, IsParam}
use trollbot.Irc.Format.{Message, unnamed, person, IsMessage, format, message_data}
use trollbot.Irc.RoundTrip.{parse_irc_data-format}
use trollbot.Trigger.{Trigger, TrigTable}
use trollbot.Trigger.Match.Total.{IsTable}
use trollbot.Trigger.Match.Tables.{Settled}
use trollbot.Line.{NetworkState, pong, parse_irc_line}
use trollbot.Line.Ping.{parse_irc_line-pong}
use trollbot.Text.{has_byte, str_eq}
use trollbot.Irc.{
  parse_irc_data, parse_prefix, prefix_of, user_prefix, server_prefix, copy_until, params_loop,
  rest_loop, ends_line,
}

privmsg :
    parse_irc_data (codes "bot") (codes ":al!a@h PRIVMSG #c :hello you\r\n")
    ≡ some (record {
      prefix = some (record {
        servername = none;
        nick = some (codes "al");
        user = some (codes "a");
        host = some (codes "h");
      });
      command = codes "PRIVMSG";
      c_params = some (codes "#c" ∷ []);
      c_params_str = some (codes "#c ");
      rest = some (codes "hello" ∷ codes "you" ∷ []);
      rest_str = some (codes "hello you");
    })
unfolding parse_irc_data parse_prefix prefix_of user_prefix server_prefix copy_until params_loop
    rest_loop ends_line has_byte str_eq
privmsg = refl

-- A PING from a server that sends no `:`, and a parameter at the very end, are faults.
no_colon : parse_irc_data (codes "bot") (codes "PING a ") ≡ none
unfolding parse_irc_data parse_prefix prefix_of user_prefix server_prefix copy_until params_loop
    rest_loop ends_line has_byte str_eq
no_colon = refl

abbrev hello : Message
hello = record {
  origin = person (codes "al") (codes "a") (codes "h");
  command = codes "PRIVMSG";
  params = codes "#c" ∷ [];
  trailing = codes "hi" ∷ codes "you" ∷ [];
}

plain : (IsWord (codes "hi")) × (IsWord (codes "you")) × (IsParam (codes "#c"))
unfolding is_plain ends_line
plain = ((refl, (refl, tt)), (refl, (refl, (refl, tt))), (λ e. omega arith, (refl, (refl, tt))))

hello-IsMessage : IsMessage (codes "bot") hello
unfolding has_byte
hello-IsMessage = record {
  origin = (refl, refl, refl);
  no_colon = λ c s e ne. omega (arith, ap peek e);
  command = refl;
  params = (plain.2, tt);
  trailing = (plain.0, (plain.1, tt));
}

parse_irc_data-format_example :
    parse_irc_data (codes "bot") (format hello) ≡ some (message_data hello)
parse_irc_data-format_example = parse_irc_data-format (codes "bot") hello hello-IsMessage

abbrev ping : List Bytes → Message
ping ws = record { origin = unnamed; command = codes "PING"; params = []; trailing = ws }

ping-IsMessage : (ws : List Bytes) → All IsWord ws → IsMessage (codes "bot") (ping ws)
unfolding has_byte
ping-IsMessage ws h = record {
  origin = tt;
  no_colon = λ c s e ne. omega (arith, ap peek e);
  command = refl;
  params = tt;
  trailing = h;
}

abbrev trigger : Trigger
trigger = record {
  glob_flags = none;
  chan_flags = none;
  mask = some (codes "*");
  handler = some 1;
  command = none;
  usecount = 0;
}

abbrev table : TrigTable
table = record {
  pub_ = [];
  pubm = [];
  msg = [];
  msgm = [];
  part = [];
  join = trigger ∷ [];
  sign = [];
  ctcp = [];
  kick = [];
  notc = [];
  dcc = [];
  raw = [];
  topc = [];
}

abbrev net : NetworkState
net = record { nick = codes "bot"; botnick = codes "bot"; shost = none; trigs = table }

table-IsTable : IsTable table
table-IsTable = record { msg = tt; pub_ = tt; raw = tt; join = λ e. cc }

parse_irc_line-pong_example :
    Gives
      (λ o. (o.sent ≡ pong (codes "hi") ∷ []) × Settled table o.matched)
      (parse_irc_line net (format (ping (codes "hi" ∷ []))))
parse_irc_line-pong_example =
    parse_irc_line-pong net (ping (codes "hi" ∷ []))
      (ping-IsMessage (codes "hi" ∷ []) (plain.0, tt)) refl (codes "hi") [] refl table-IsTable
