-- ===== src/Line/Ping.antt =====
-- PING: what is sent back, and the line without a `:` that is a fault.
use trollbot.Prelude.{
  ◌>>=◌, Gives, Gives-bind, Gives-known, ◌≡◌, refl, ap, ◌∙◌, true, false, List, [], ◌∷◌, Option,
  none, some, if◌then◌else◌, get_elem?, Bytes, codes,
}
use trollbot.Text.{str_eq}
use trollbot.Irc.{IrcData, parse_irc_data}
use trollbot.Irc.Format.{Message, IsMessage, format, message_data, some_words}
use trollbot.Irc.RoundTrip.{parse_irc_data-format}
use trollbot.Trigger.Match.{trigger_match}
use trollbot.Trigger.Match.Total.{IsTable, IsAnswerable, trigger_match-Gives}
use trollbot.Trigger.Match.Tables.{Settled}
use trollbot.Line.{
  NetworkState, LineOutcome, pong, answer_ping, parse_irc_line, learn_host, or_else, is_found,
}

-- What `answer_ping` reads of the message.
abbrev answer : Bytes → Option (List Bytes) → Option (List Bytes)
answer command rest =
    if str_eq command (codes "PING")
    then (do r ← rest; some (elim (get_elem? r 0) [ none ↦ [] | some w ↦ pong w ∷ [] ]))
    else some []

answer_ping-ping :
    (d : IrcData) (rest : Option (List Bytes))
    → d.command ≡ codes "PING"
    → d.rest ≡ rest
    → answer_ping d ≡ answer (codes "PING") rest
unfolding answer_ping
answer_ping-ping d rest c r = ap (λ x. answer x d.rest) c ∙ ap (answer (codes "PING")) r

ping-IsAnswerable : (d : IrcData) → d.command ≡ codes "PING" → IsAnswerable d
unfolding str_eq
ping-IsAnswerable d e = record {
  privmsg = λ h. absurd (other (codes "PRIVMSG") refl h);
  join = λ h. absurd (other (codes "JOIN") refl h);
  part = λ h. absurd (other (codes "PART") refl h);
  kick = λ h. absurd (other (codes "KICK") refl h);
  notice = λ h. absurd (other (codes "NOTICE") refl h);
}
  where
    other : (s : Bytes) → str_eq (codes "PING") s ≡ false → str_eq d.command s ≡ true → ⊥
    other s differs equal = let same = ap (λ c. str_eq c s) e in cc

module _ (net : NetworkState) (m : Message) (h : IsMessage net.nick m)
    (ping : m.command ≡ codes "PING") where
  -- A well-formed PING line with words behind its `:` is answered with the first of them, and makes
  -- no fault, if the tables have what `trigger_match` reads.
  pub parse_irc_line-pong :
      (w : Bytes) (ws : List Bytes)
      → m.trailing ≡ w ∷ ws
      → IsTable net.trigs
      → Gives
          (λ o. (o.sent ≡ pong w ∷ []) × Settled net.trigs o.matched)
          (parse_irc_line net (format m))
  unfolding parse_irc_line str_eq
  parse_irc_line-pong w ws t ready =
      Gives-known _ (parse_irc_data net.nick (format m)) _ (parse_irc_data-format net.nick m h) (
        Gives-known _ (answer_ping (message_data m)) _
          (answer_ping-ping (message_data m) (some (w ∷ ws)) ping (ap some_words t))
          (Gives-bind (Settled net.trigs) _ (trigger_match net.botnick net.trigs (message_data m)) _
            (trigger_match-Gives net.botnick net.trigs (message_data m) ready
              (ping-IsAnswerable (message_data m) ping))
            λ o s. (refl, s)))

  -- A well-formed PING line without words behind a `:` is a fault: `rest` is NULL, and `rest[0]` is
  -- read.
  pub parse_irc_line_no_rest : m.trailing ≡ [] → parse_irc_line net (format m) ≡ none
  unfolding parse_irc_line str_eq
  parse_irc_line_no_rest t =
      ap (λ d. d >>= λ d. answer_ping d >>= finish d) (parse_irc_data-format net.nick m h)
      ∙ ap (λ a. a >>= finish (message_data m))
          (answer_ping-ping (message_data m) none ping (ap some_words t))
    where
      finish : IrcData → List Bytes → Option LineOutcome
      finish d sent = do
        matched ← trigger_match net.botnick net.trigs d
        some (record {
          sent = sent;
          shost = or_else (learn_host net d) net.shost;
          listens = is_found (learn_host net d);
          matched = matched;
        })
