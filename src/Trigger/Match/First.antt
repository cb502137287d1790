-- ===== src/Trigger/Match/First.antt =====
-- Where a message runs at most one handler of a table: PUB and JOIN.
use trollbot.Trigger.Match.Total.{IsTable, IsAnswerable, trigger_match-HasValue}
use trollbot.Prelude.{
  Gives, Gives-Yields, Yields, Yields-bind, Yields-step, ℕ, ◌≡◌, ◌⊎◌, inl, inr, refl, sym, subst,
  Bool, true, false, List, [], ◌∷◌, Option, none, some, if_cases, Bytes, codes,
}
use trollbot.Text.{str_eq}
use trollbot.Irc.{IrcData}
use trollbot.Trigger.{Trigger, TrigTable, Ran, used, run_handler, run_head}
use trollbot.Trigger.Match.{Outcome, quiet, join_test, run_in, match_join, trigger_match}

run_head-one :
    (test : Trigger → Option Bool) (t : Trigger) (rear : List Trigger)
    → Yields
        (λ r.
          ((r.triggers ≡ t ∷ rear) × (r.calls ≡ []))
          ⊎ ((r.triggers ≡ used t ∷ rear) × (r.calls ≡ used t ∷ [])))
        (run_head test (t ∷ rear))
unfolding run_head run_handler
run_head-one test t rear =
    Yields-step _ (test t) _
      λ hit. if_cases One hit (λ e. by_handler t.handler) λ e. inl (refl, refl)
  where
    One : Ran → Type 0
    One r =
        ((r.triggers ≡ t ∷ rear) × (r.calls ≡ []))
        ⊎ ((r.triggers ≡ used t ∷ rear) × (r.calls ≡ used t ∷ []))

    by_handler :
        (o : Option ℕ)
        → One (elim o [
          | none ↦ record { triggers = t ∷ rear; calls = [] }
          | some h ↦ record { triggers = used t ∷ rear; calls = used t ∷ [] }
        ])
    by_handler none = inl (refl, refl)
    by_handler (some h) = inr (refl, refl)

join_head :
    (botnick : Bytes) (tab : TrigTable) (d : IrcData) (rest : List Bytes) (t : Trigger)
    (rear : List Trigger)
    → str_eq d.command (codes "PRIVMSG") ≡ false
    → str_eq d.command (codes "JOIN") ≡ true
    → d.rest ≡ some rest
    → tab.join ≡ t ∷ rear
    → Yields
        (λ o.
          ((o.table.join ≡ t ∷ rear) × (o.calls ≡ []))
          ⊎ ((o.table.join ≡ used t ∷ rear) × (o.calls ≡ used t ∷ [])))
        (trigger_match botnick tab d)
unfolding trigger_match match_join
join_head botnick tab d rest t rear n j r e =
    rw (n, j)
      (subst (λ o. Yields Goal (by_rest o)) (sym r)
        (Yields-bind Walk Goal (run_head (join_test d rest) tab.join) _
          (subst (λ ts. Yields Walk (run_head (join_test d rest) ts)) (sym e)
            (run_head-one (join_test d rest) t rear))
          λ q w. w))
  where
    Goal : Outcome → Type 0
    Goal o =
        ((o.table.join ≡ t ∷ rear) × (o.calls ≡ []))
        ⊎ ((o.table.join ≡ used t ∷ rear) × (o.calls ≡ used t ∷ []))

    Walk : Ran → Type 0
    Walk r =
        ((r.triggers ≡ t ∷ rear) × (r.calls ≡ []))
        ⊎ ((r.triggers ≡ used t ∷ rear) × (r.calls ≡ used t ∷ []))

    by_rest : Option (List Bytes) → Option Outcome
    by_rest o = elim o [
      | none ↦ some (quiet tab)
      | some rest ↦ run_in (λ ts. record tab { join = ts }) (run_head (join_test d rest) tab.join)
    ]

module _ (botnick : Bytes) (tab : TrigTable) (d : IrcData) (ready : IsTable tab)
    (a : IsAnswerable d) where
  -- A JOIN with a channel behind its `:` runs the handler of the first JOIN trigger or none, and
  -- leaves the others as they are. The tables and the message have what `trigger_match` reads, and
  -- it makes no fault.
  pub trigger_match-join :
      (rest : List Bytes) (t : Trigger) (rear : List Trigger)
      → str_eq d.command (codes "PRIVMSG") ≡ false
      → str_eq d.command (codes "JOIN") ≡ true
      → d.rest ≡ some rest
      → tab.join ≡ t ∷ rear
      → Gives
          (λ o.
            ((o.table.join ≡ t ∷ rear) × (o.calls ≡ []))
            ⊎ ((o.table.join ≡ used t ∷ rear) × (o.calls ≡ used t ∷ [])))
          (trigger_match botnick tab d)
  trigger_match-join rest t rear n j r e =
      Gives-Yields _ (trigger_match botnick tab d) (trigger_match-HasValue tab ready d botnick a)
        (join_head botnick tab d rest t rear n j r e)
