-- ===== src/Trigger/Match/Ready.antt =====
-- When the tests and the walks of `trigger_match` make no fault.
use trollbot.Prelude.{
  ◌>>=◌, HasValue, HasValue-step, ℕ, ◌≢◌, refl, Bool, true, false, List, [], ◌∷◌, ◌++◌, Option,
  none, some, if◌then◌else◌, if_cases, get_elem?, Bytes, All,
}
use trollbot.Text.{str_eq}
use trollbot.Irc.{IrcPrefix, IrcData}
use trollbot.Wildcard.Total.{IsFlag, troll_matchwilds-IsFlag}
use trollbot.Trigger.{
  Trigger, Ran, used, run_handler, keep, run_all, run_first, run_head, run_raw, untouched,
}
use trollbot.Trigger.Match.{
  matched, matches, if_rest, pub_test, join_test, part_test, topic_test, kick_test, param, is_some,
  origin_mask, newmask,
}

abbrev pub HasMask : Trigger → Type 0
HasMask t = HasValue t.mask

-- A mask and a handler.
abbrev pub IsCallable : Trigger → Type 0
IsCallable t = HasValue t.mask × HasValue t.handler

abbrev pub IsPerson : Option IrcPrefix → Type 0
IsPerson none = ⊥
IsPerson (some p) = HasValue p.nick × HasValue p.user × HasValue p.host

-- A channel in `rest`, from a person.
abbrev pub IsJoin : IrcData → Option (List Bytes) → Type 0
IsJoin d none = Unit
IsJoin d (some rest) = HasValue (get_elem? rest 0) × IsPerson d.prefix

matched-HasValue : (r : Option ℕ) → IsFlag r → HasValue (matched r)
matched-HasValue (some r) f = tt
matched-HasValue none f = absurd f

pub matches-HasValue : (text : Option Bytes) (t : Trigger) → HasValue (matches text t)
matches-HasValue text t = matched-HasValue _ (troll_matchwilds-IsFlag text t.mask)

pub if_rest-HasValue :
    (d : IrcData) (test : Option Bool) → HasValue d.rest → HasValue test → HasValue (if_rest d test)
if_rest-HasValue d test h t = HasValue-step d.rest _ h λ r. by_first (get_elem? r 0)
  where
    by_first : (w : Option Bytes) → HasValue (elim w [ none ↦ some false | some w ↦ test ])
    by_first none = tt
    by_first (some w) = t

module _ (test : Trigger → Option Bool) where
  pub run_all-HasValue :
      (ts : List Trigger) → All (λ t. HasValue (test t)) ts → HasValue (run_all test ts)
  unfolding run_all
  run_all-HasValue [] h = tt
  run_all-HasValue (t ∷ ts) h =
      HasValue-step (test t) _ h.0
        λ hit. HasValue-step (run_all test ts) _ (run_all-HasValue ts h.1) λ r. tt

  pub run_first-HasValue :
      (ts : List Trigger) → All (λ t. HasValue (test t)) ts → HasValue (run_first test ts)
  unfolding run_first
  run_first-HasValue [] h = tt
  run_first-HasValue (t ∷ ts) h = HasValue-step (test t) _ h.0 (by_hit (run_first-HasValue ts h.1))
    where
      by_hit :
          HasValue (run_first test ts)
          → (hit : Bool)
          → HasValue (elim hit [
            | true ↦ some (run_handler t (untouched ts))
            | false ↦ (do later ← run_first test ts; some (keep t later))
          ])
      by_hit w true = tt
      by_hit w false = HasValue-step (run_first test ts) _ w λ r. tt

  pub run_head-HasValue :
      (ts : List Trigger)
      → ts ≢ []
      → ((t : Trigger) → HasValue (test t))
      → HasValue (run_head test ts)
  unfolding run_head
  run_head-HasValue [] ne h = absurd (ne refl)
  run_head-HasValue (t ∷ ts) ne h = HasValue-step (test t) _ (h t) λ hit. tt

pub every : (P : Trigger → Type 0) (ts : List Trigger) → ((t : Trigger) → P t) → All P ts
every P [] k = tt
every P (t ∷ ts) k = (k t, every P ts k)

pub weaken :
    (P Q : Trigger → Type 0) (ts : List Trigger) → All P ts → ((t : Trigger) → P t → Q t) → All Q ts
weaken P Q [] h k = tt
weaken P Q (t ∷ ts) h k = (k t h.0, weaken P Q ts h.1 k)

pub run_raw-HasValue :
    (command : Bytes) (ts : List Trigger) → All IsCallable ts → HasValue (run_raw command ts)
unfolding run_raw
run_raw-HasValue command [] h = tt
run_raw-HasValue command (t ∷ ts) h = HasValue-step t.mask _ h.0.0 λ mask.
    HasValue-step (run_raw command ts) _ (run_raw-HasValue command ts h.1)
      λ r. if_cases HasValue (str_eq mask command) (λ e. called t.handler h.0.1 r) λ e. tt
  where
    called :
        (o : Option ℕ)
        → HasValue o
        → (r : Ran)
        → HasValue {A = Ran} (elim o [
          | none ↦ none
          | some n ↦ some (record { triggers = used t ∷ r.triggers; calls = used t ∷ r.calls })
        ])
    called (some n) v r = tt
    called none v r = absurd v

pub join_test-HasValue :
    (d : IrcData) (rest : List Bytes) (t : Trigger)
    → IsJoin d (some rest)
    → HasValue (join_test d rest t)
join_test-HasValue d rest t h =
    HasValue-step (get_elem? rest 0) _ h.0 λ room. by_prefix room d.prefix h.1
  where
    by_prefix :
        (room : Bytes) (p : Option IrcPrefix)
        → IsPerson p
        → HasValue (do q ← p; mask ← origin_mask room q; matches (newmask mask) t)
    by_prefix room (some p) q =
        HasValue-step (origin_mask room p) _
          (HasValue-step p.nick _ q.0
            λ n. HasValue-step p.user _ q.1 λ u. HasValue-step p.host _ q.2 λ o. tt)
          λ mask. matches-HasValue (newmask mask) t
    by_prefix room none q = absurd q

pub part_test-HasValue : (d : IrcData) (t : Trigger) → IsJoin d d.rest → HasValue (part_test d t)
part_test-HasValue d t h = by_rest d.rest h
  where
    by_flags :
        (b c e : Bool) (m : Option Bool)
        → HasValue m
        → HasValue
            (if b then (if c then (if e then m else some false) else some false) else some false)
    by_flags b c e m v =
        if_cases HasValue b
          (λ p. if_cases HasValue c (λ q. if_cases HasValue e (λ r. v) λ r. tt) λ q. tt) λ p. tt

    by_prefix :
        (rest : List Bytes) (o : Option IrcPrefix)
        → IsPerson o
        → HasValue (join_test d rest t)
        → HasValue (do
          p ← o
          if is_some p.nick
              then (if is_some p.user
                  then (if is_some p.host then join_test d rest t else some false)
                  else some false)
              else some false)
    by_prefix rest (some p) q v =
        by_flags (is_some p.nick) (is_some p.user) (is_some p.host) (join_test d rest t) v
    by_prefix rest none q v = absurd q

    by_rest :
        (o : Option (List Bytes))
        → IsJoin d o
        → HasValue {A = Bool} (elim o [
          | none ↦ some false
          | some rest ↦ d.prefix >>= λ p.
              if is_some p.nick
              then (if is_some p.user
                  then (if is_some p.host then join_test d rest t else some false)
                  else some false)
              else some false
        ])
    by_rest none j = tt
    by_rest (some rest) j = by_prefix rest d.prefix j.1 (join_test-HasValue d rest t j)

pub topic_test-HasValue : (d : IrcData) (t : Trigger) → HasValue (topic_test d t)
topic_test-HasValue d t = by_parts (param d 0) d.rest_str
  where
    by_parts :
        (room text : Option Bytes)
        → HasValue {A = Bool} (elim room [
          | none ↦ some false
          | some r ↦ elim text [ none ↦ some false | some s ↦ matches (newmask (r ++ b' ' ∷ s)) t ]
        ])
    by_parts none text = tt
    by_parts (some r) none = tt
    by_parts (some r) (some s) = matches-HasValue (newmask (r ++ b' ' ∷ s)) t

pub kick_test-HasValue :
    (d : IrcData) (t : Trigger) → HasValue d.rest_str → HasValue (kick_test d t)
kick_test-HasValue d t h = by_parts (param d 0) (param d 1)
  where
    by_parts :
        (room nick : Option Bytes)
        → HasValue {A = Bool} (elim room [
          | none ↦ some false
          | some r ↦ elim nick [
            | none ↦ some false
            | some n ↦ d.rest_str >>= λ s. matches (newmask (r ++ b' ' ∷ (n ++ b' ' ∷ s))) t
          ]
        ])
    by_parts none nick = tt
    by_parts (some r) none = tt
    by_parts (some r) (some n) =
        HasValue-step d.rest_str _ h λ s. matches-HasValue (newmask (r ++ b' ' ∷ (n ++ b' ' ∷ s))) t

pub mask_test-HasValue : (text : Bytes) (t : Trigger) → HasMask t → HasValue (pub_test text t)
mask_test-HasValue text t m = HasValue-step t.mask _ m λ mask. tt
