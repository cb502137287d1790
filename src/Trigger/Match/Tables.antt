-- ===== src/Trigger/Match/Tables.antt =====
-- What a message does to the tables as a whole.
use trollbot.Prelude.{
  Yields, Yields-bind, Yields-step, ◌≡◌, refl, Bool, true, false, List, ◌++◌, Option, none, some,
  if_cases, get_elem?, Bytes, codes,
}
use trollbot.Text.{str_eq}
use trollbot.Irc.{IrcData}
use trollbot.Trigger.{Trigger, TrigTable, Ran, run_all, run_head}
use trollbot.Trigger.Match.{
  Outcome, quiet, msg_test, text_test, pub_test, join_test, part_test, topic_test, kick_test,
  run_pub, to_bot, strcase_eq, run_in, match_private, match_public, match_privmsg, match_join,
  match_other, trigger_match,
}
use trollbot.Trigger.Match.Count.{
  Walked, Walks, still, run_all-Walks, run_first-Walks, run_head-Walks, run_raw-Walks,
  Walked-append, lead, follow,
}

-- Every trigger of the tables, the ones that no message comes to at the end.
abbrev pub all_triggers : TrigTable → List Trigger
all_triggers t =
    t.pub_
    ++ (t.pubm
        ++ (t.msg
            ++ (t.msgm
                ++ (t.part
                    ++ (t.join
                        ++ (t.kick
                            ++ (t.notc
                                ++ (t.topc ++ (t.raw ++ (t.sign ++ (t.ctcp ++ t.dcc)))))))))))

-- How a message may leave the tables.
pub record Settled (tab : TrigTable) (o : Outcome) : Type 0 where
  pub walked : Walked (all_triggers tab) (all_triggers o.table) o.calls
  pub sign : o.table.sign ≡ tab.sign
  pub ctcp : o.table.ctcp ≡ tab.ctcp
  pub dcc : o.table.dcc ≡ tab.dcc

abbrev settled :
    {tab : TrigTable} (o : Outcome)
    → o.table.sign ≡ tab.sign
    → o.table.ctcp ≡ tab.ctcp
    → o.table.dcc ≡ tab.dcc
    → Walked (all_triggers tab) (all_triggers o.table) o.calls
    → Settled tab o
settled o s c d w = record { walked = w; sign = s; ctcp = c; dcc = d }

quiet-Settled : (tab : TrigTable) → Settled tab (quiet tab)
quiet-Settled tab = settled (quiet tab) refl refl refl (still _)

match_private-Settled : (tab : TrigTable) (d : IrcData) → Yields (Settled tab) (match_private tab d)
unfolding match_private
match_private-Settled tab d =
    Yields-bind (Walks tab.msg) (Settled tab) (run_all (msg_test d) tab.msg) _
      (run_all-Walks (msg_test d) tab.msg)
      λ r v.
        Yields-bind (Walks tab.msgm) (Settled tab) (run_all (text_test d) tab.msgm) _
          (run_all-Walks (text_test d) tab.msgm)
          λ s w.
            settled _ refl refl refl (lead tab.pub_ (lead tab.pubm (Walked-append v (follow _ w))))

run_pub-Walks : (text : Option Bytes) (ts : List Trigger) → Yields (Walks ts) (run_pub text ts)
run_pub-Walks none ts = still ts
run_pub-Walks (some s) ts = run_first-Walks (pub_test s) ts

match_public-Settled : (tab : TrigTable) (d : IrcData) → Yields (Settled tab) (match_public tab d)
unfolding match_public
match_public-Settled tab d =
    Yields-bind (Walks tab.pub_) (Settled tab) (run_pub d.rest_str tab.pub_) _
      (run_pub-Walks d.rest_str tab.pub_)
      λ r v.
        Yields-bind (Walks tab.pubm) (Settled tab) (run_all (text_test d) tab.pubm) _
          (run_all-Walks (text_test d) tab.pubm)
          λ s w. settled _ refl refl refl (Walked-append v (follow _ w))

match_privmsg-Settled :
    (botnick : Bytes) (tab : TrigTable) (d : IrcData)
    → Yields (Settled tab) (match_privmsg botnick tab d)
unfolding match_privmsg
match_privmsg-Settled botnick tab d =
    Yields-step (Settled tab) d.c_params _ λ ps. by_target (get_elem? ps 0)
  where
    by_bot : (b : Bool) → Yields (Settled tab) (to_bot b tab d)
    by_bot true = match_private-Settled tab d
    by_bot false = match_public-Settled tab d

    by_target :
        (target : Option Bytes)
        → Yields
            (Settled tab)
            (elim target [ none ↦ some (quiet tab) | some t ↦ to_bot (strcase_eq t botnick) tab d ])
    by_target none = quiet-Settled tab
    by_target (some t) = by_bot (strcase_eq t botnick)

run_in-Settled :
    {tab : TrigTable} (put : List Trigger → TrigTable) (ts : List Trigger) (ran : Option Ran)
    → Yields (Walks ts) ran
    → ((r : Ran) → Walks ts r → Settled tab (record { table = put r.triggers; calls = r.calls }))
    → Yields (Settled tab) (run_in put ran)
run_in-Settled {tab} put ts ran w k = Yields-bind (Walks ts) (Settled tab) ran _ w k

match_join-Settled : (tab : TrigTable) (d : IrcData) → Yields (Settled tab) (match_join tab d)
unfolding match_join
match_join-Settled tab d = by_rest d.rest
  where
    by_rest :
        (rest : Option (List Bytes))
        → Yields (Settled tab) (elim rest [
          | none ↦ some (quiet tab)
          | some rest ↦
              run_in (λ ts. record tab { join = ts }) (run_head (join_test d rest) tab.join)
        ])
    by_rest none = quiet-Settled tab
    by_rest (some rest) =
        run_in-Settled (λ ts. record tab { join = ts }) tab.join
          (run_head (join_test d rest) tab.join) (run_head-Walks (join_test d rest) tab.join)
          λ r w. settled _ refl refl refl (
            lead tab.pub_
              (lead tab.pubm (lead tab.msg (lead tab.msgm (lead tab.part (follow _ w))))))

module _ (tab : TrigTable) where
  to_part :
      {ts us cs : List Trigger}
      → Walked ts us cs
      → Walked
          (tab.pub_ ++ (tab.pubm ++ (tab.msg ++ (tab.msgm ++ ts))))
          (tab.pub_ ++ (tab.pubm ++ (tab.msg ++ (tab.msgm ++ us))))
          cs
  to_part w = lead tab.pub_ (lead tab.pubm (lead tab.msg (lead tab.msgm w)))

  to_kick :
      {ts us cs : List Trigger}
      → Walked ts us cs
      → Walked
          (tab.pub_ ++ (tab.pubm ++ (tab.msg ++ (tab.msgm ++ (tab.part ++ (tab.join ++ ts))))))
          (tab.pub_ ++ (tab.pubm ++ (tab.msg ++ (tab.msgm ++ (tab.part ++ (tab.join ++ us))))))
          cs
  to_kick w = to_part (lead tab.part (lead tab.join w))

match_other-Settled : (tab : TrigTable) (d : IrcData) → Yields (Settled tab) (match_other tab d)
unfolding match_other
match_other-Settled tab d =
    if_cases Goal (str_eq d.command (codes "PART"))
      (λ e.
        walk (λ ts. record tab { part = ts }) _ _ (run_all-Walks (part_test d) tab.part)
          λ r w. settled _ refl refl refl (to_part tab (follow _ w)))
      λ e.
        if_cases Goal (str_eq d.command (codes "QUIT")) (λ e. quiet-Settled tab)
          λ e.
            if_cases Goal (str_eq d.command (codes "TOPIC"))
              (λ e.
                walk (λ ts. record tab { topc = ts }) _ _ (run_all-Walks (topic_test d) tab.topc)
                  λ r w.
                    settled _ refl refl refl
                      (to_kick tab (lead tab.kick (lead tab.notc (follow _ w)))))
              λ e.
                if_cases Goal (str_eq d.command (codes "KICK"))
                  (λ e.
                    walk (λ ts. record tab { kick = ts }) _ _ (run_all-Walks (kick_test d) tab.kick)
                      λ r w. settled _ refl refl refl (to_kick tab (follow _ w)))
                  λ e.
                    if_cases Goal (str_eq d.command (codes "NOTICE"))
                      (λ e.
                        walk (λ ts. record tab { notc = ts }) _ _
                          (run_all-Walks (text_test d) tab.notc)
                          λ r w.
                            settled _ refl refl refl (to_kick tab (lead tab.kick (follow _ w))))
                      λ e.
                        walk (λ ts. record tab { raw = ts }) _ _ (run_raw-Walks d.command tab.raw)
                          λ r w. settled _ refl refl refl (
                            to_kick tab
                              (lead tab.kick (lead tab.notc (lead tab.topc (follow _ w)))))
  where
    Goal : Option Outcome → Type 0
    Goal = Yields (Settled tab)

    walk :
        (put : List Trigger → TrigTable) (ts : List Trigger) (ran : Option Ran)
        → Yields (Walks ts) ran
        → ((r : Ran)
            → Walks ts r
            → Settled tab (record { table = put r.triggers; calls = r.calls }))
        → Goal (run_in put ran)
    walk = run_in-Settled

pub trigger_match-Settled :
    (botnick : Bytes) (tab : TrigTable) (d : IrcData)
    → Yields (Settled tab) (trigger_match botnick tab d)
unfolding trigger_match
trigger_match-Settled botnick tab d =
    if_cases (Yields (Settled tab)) (str_eq d.command (codes "PRIVMSG"))
      (λ e. match_privmsg-Settled botnick tab d)
      λ e.
        if_cases (Yields (Settled tab)) (str_eq d.command (codes "JOIN"))
          (λ e. match_join-Settled tab d) λ e. match_other-Settled tab d
