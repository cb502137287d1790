-- ===== src/Trigger/Match/Total.antt =====
-- When `trigger_match` makes no fault.
use trollbot.Prelude.{
  Gives, Gives-Yields, HasValue, HasValue-step, ◌≡◌, ◌≢◌, Bool, true, false, List, [], Option, none,
  some, if_cases, get_elem?, Bytes, codes, All,
}
use trollbot.Text.{str_eq}
use trollbot.Irc.{IrcData}
use trollbot.Trigger.{Trigger, TrigTable, Ran, run_all, run_head}
use trollbot.Trigger.Match.{
  Outcome, quiet, matches, msg_test, text_test, pub_test, join_test, part_test, topic_test,
  kick_test, run_pub, to_bot, strcase_eq, run_in, match_private, match_public, match_privmsg,
  match_join, match_other, trigger_match,
}
use trollbot.Trigger.Match.Tables.{Settled, trigger_match-Settled}
use trollbot.Trigger.Match.Ready.{
  HasMask, IsCallable, IsJoin, matches-HasValue, if_rest-HasValue, every, weaken, run_raw-HasValue,
  part_test-HasValue, topic_test-HasValue, kick_test-HasValue, mask_test-HasValue,
  join_test-HasValue, run_all-HasValue, run_first-HasValue, run_head-HasValue,
}

-- What `trigger_match` needs of the tables: a mask in each trigger it compares, handlers in RAW,
-- and at least one trigger for JOIN.
pub record IsTable (tab : TrigTable) : Type 0 where
  pub msg : All HasMask tab.msg
  pub pub_ : All HasMask tab.pub_
  pub raw : All IsCallable tab.raw
  pub join : tab.join ≢ []

-- What `trigger_match` needs of a message, by its command.
pub record IsAnswerable (d : IrcData) : Type 0 where
  pub privmsg :
      str_eq d.command (codes "PRIVMSG") ≡ true
      → HasValue d.c_params × HasValue d.rest × HasValue d.rest_str
  pub join : str_eq d.command (codes "JOIN") ≡ true → IsJoin d d.rest
  pub part : str_eq d.command (codes "PART") ≡ true → IsJoin d d.rest
  pub kick : str_eq d.command (codes "KICK") ≡ true → HasValue d.rest_str
  pub notice : str_eq d.command (codes "NOTICE") ≡ true → HasValue d.rest

module _ (tab : TrigTable) (ready : IsTable tab) (d : IrcData) where
  text_run : HasValue d.rest → (ts : List Trigger) → HasValue (run_all (text_test d) ts)
  text_run h ts =
      run_all-HasValue (text_test d) ts (
        every _ ts λ t. if_rest-HasValue d (matches d.rest_str t) h (matches-HasValue d.rest_str t))

  match_private-HasValue : HasValue d.rest → HasValue d.rest_str → HasValue (match_private tab d)
  unfolding match_private
  match_private-HasValue h s =
      HasValue-step (run_all (msg_test d) tab.msg) _
        (run_all-HasValue (msg_test d) tab.msg (
          weaken HasMask _ tab.msg ready.msg λ t m.
            if_rest-HasValue d _ h
              (HasValue-step d.rest_str _ s λ text. mask_test-HasValue text t m)))
        λ r. HasValue-step (run_all (text_test d) tab.msgm) _ (text_run h tab.msgm) λ q. tt

  run_pub-HasValue : (text : Option Bytes) → HasValue (run_pub text tab.pub_)
  run_pub-HasValue none = tt
  run_pub-HasValue (some s) =
      run_first-HasValue (pub_test s) tab.pub_
        (weaken HasMask _ tab.pub_ ready.pub_ λ t m. mask_test-HasValue s t m)

  match_public-HasValue : HasValue d.rest → HasValue (match_public tab d)
  unfolding match_public
  match_public-HasValue h =
      HasValue-step (run_pub d.rest_str tab.pub_) _ (run_pub-HasValue d.rest_str)
        λ r. HasValue-step (run_all (text_test d) tab.pubm) _ (text_run h tab.pubm) λ q. tt

  match_privmsg-HasValue :
      (botnick : Bytes)
      → HasValue d.c_params × HasValue d.rest × HasValue d.rest_str
      → HasValue (match_privmsg botnick tab d)
  unfolding match_privmsg
  match_privmsg-HasValue botnick h = HasValue-step d.c_params _ h.0 λ ps. by_target (get_elem? ps 0)
    where
      by_bot : (b : Bool) → HasValue (to_bot b tab d)
      by_bot true = match_private-HasValue h.1 h.2
      by_bot false = match_public-HasValue h.1

      by_target :
          (target : Option Bytes)
          → HasValue {A = Outcome} (elim target [
            | none ↦ some (quiet tab)
            | some t ↦ to_bot (strcase_eq t botnick) tab d
          ])
      by_target none = tt
      by_target (some t) = by_bot (strcase_eq t botnick)

  match_join-HasValue : IsJoin d d.rest → HasValue (match_join tab d)
  unfolding match_join
  match_join-HasValue h = by_rest d.rest h
    where
      by_rest :
          (o : Option (List Bytes))
          → IsJoin d o
          → HasValue {A = Outcome} (elim o [
            | none ↦ some (quiet tab)
            | some rest ↦
                run_in (λ ts. record tab { join = ts }) (run_head (join_test d rest) tab.join)
          ])
      by_rest none j = tt
      by_rest (some rest) j =
          HasValue-step (run_head (join_test d rest) tab.join) _
            (run_head-HasValue (join_test d rest) tab.join ready.join
              λ t. join_test-HasValue d rest t j)
            λ r. tt

  run_in-HasValue :
      (put : List Trigger → TrigTable) (ran : Option Ran) → HasValue ran → HasValue (run_in put ran)
  run_in-HasValue put ran h = HasValue-step ran _ h λ r. tt

  match_other-HasValue : IsAnswerable d → HasValue (match_other tab d)
  unfolding match_other
  match_other-HasValue a =
      if_cases HasValue (str_eq d.command (codes "PART"))
        (λ e.
          run_in-HasValue (λ ts. record tab { part = ts }) _
            (run_all-HasValue (part_test d) tab.part
              (every _ tab.part λ t. part_test-HasValue d t (a.part e))))
        λ e.
          if_cases HasValue (str_eq d.command (codes "QUIT")) (λ e. tt)
            λ e.
              if_cases HasValue (str_eq d.command (codes "TOPIC"))
                (λ e.
                  run_in-HasValue (λ ts. record tab { topc = ts }) _
                    (run_all-HasValue (topic_test d) tab.topc
                      (every _ tab.topc λ t. topic_test-HasValue d t)))
                λ e.
                  if_cases HasValue (str_eq d.command (codes "KICK"))
                    (λ e.
                      run_in-HasValue (λ ts. record tab { kick = ts }) _
                        (run_all-HasValue (kick_test d) tab.kick
                          (every _ tab.kick λ t. kick_test-HasValue d t (a.kick e))))
                    λ e.
                      if_cases HasValue (str_eq d.command (codes "NOTICE"))
                        (λ e.
                          run_in-HasValue (λ ts. record tab { notc = ts }) _
                            (text_run (a.notice e) tab.notc))
                        λ e.
                          run_in-HasValue (λ ts. record tab { raw = ts }) _
                            (run_raw-HasValue d.command tab.raw ready.raw)

  pub trigger_match-HasValue :
      (botnick : Bytes) → IsAnswerable d → HasValue (trigger_match botnick tab d)
  unfolding trigger_match
  trigger_match-HasValue botnick a =
      if_cases HasValue (str_eq d.command (codes "PRIVMSG"))
        (λ e. match_privmsg-HasValue botnick (a.privmsg e))
        λ e.
          if_cases HasValue (str_eq d.command (codes "JOIN")) (λ e. match_join-HasValue (a.join e))
            λ e. match_other-HasValue a

-- `trigger_match` makes no fault if the tables have the masks and handlers that it reads and a
-- trigger for JOIN, and the message has the parts that its command is expected to have; the tables
-- are left with the same triggers, each handler that ran counted once.
pub trigger_match-Gives :
    (botnick : Bytes) (tab : TrigTable) (d : IrcData)
    → IsTable tab
    → IsAnswerable d
    → Gives (Settled tab) (trigger_match botnick tab d)
trigger_match-Gives botnick tab d ready a =
    Gives-Yields (Settled tab) _ (trigger_match-HasValue tab ready d botnick a)
      (trigger_match-Settled botnick tab d)
