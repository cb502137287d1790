-- ===== src/Trigger/Match/Count.antt =====
-- A message counts each handler that it runs, and changes nothing else about the triggers.
use trollbot.Prelude.{
  ◌>>=◌, Yields, Yields-bind, Yields-step, ℕ, ◌≡◌, refl, Bool, true, false, List, [], ◌∷◌, ◌++◌,
  Option, none, some, if_cases, Bytes,
}
use trollbot.Text.{str_eq}
use trollbot.Trigger.{
  Trigger, Ran, used, run_handler, keep, untouched, run_all, run_first, run_head, run_raw,
}

-- The triggers before and after a walk, and those that ran: each at most once and in order, with
-- its `usecount` one higher, and only where there is a handler.
pub data Walked : (before after calls : List Trigger) → Type 0 where
  done : Walked [] [] []
  kept : {ts us cs : List Trigger} (t : Trigger) → Walked ts us cs → Walked (t ∷ ts) (t ∷ us) cs
  ran :
      {ts us cs : List Trigger} (t : Trigger) (h : ℕ)
      → t.handler ≡ some h
      → Walked ts us cs
      → Walked (t ∷ ts) (used t ∷ us) (used t ∷ cs)

abbrev pub Walks : List Trigger → Ran → Type 0
Walks ts r = Walked ts r.triggers r.calls

pub still : (ts : List Trigger) → Walked ts ts []
still [] = done
still (t ∷ ts) = kept t (still ts)

pub run_handler-Walks :
    (t : Trigger) (ts : List Trigger) (r : Ran) → Walks ts r → Walks (t ∷ ts) (run_handler t r)
unfolding run_handler
run_handler-Walks t ts r w = by_handler t.handler refl
  where
    by_handler :
        (h : Option ℕ)
        → t.handler ≡ h
        → Walks (t ∷ ts) (elim h [
          | none ↦ record { triggers = t ∷ r.triggers; calls = r.calls }
          | some h ↦ record { triggers = used t ∷ r.triggers; calls = used t ∷ r.calls }
        ])
    by_handler none e = kept t w
    by_handler (some h) e = ran t h e w

module _ (test : Trigger → Option Bool) where
  pub run_all-Walks : (ts : List Trigger) → Yields (Walks ts) (run_all test ts)
  unfolding run_all
  run_all-Walks [] = done
  run_all-Walks (t ∷ ts) = Yields-step (Walks (t ∷ ts)) (test t) _ λ hit.
      Yields-bind (Walks ts) (Walks (t ∷ ts)) (run_all test ts) _ (run_all-Walks ts)
        λ r w. if_cases (Walks (t ∷ ts)) hit (λ e. run_handler-Walks t ts r w) λ e. kept t w

  pub run_first-Walks : (ts : List Trigger) → Yields (Walks ts) (run_first test ts)
  unfolding run_first
  run_first-Walks [] = done
  run_first-Walks (t ∷ ts) = Yields-step (Walks (t ∷ ts)) (test t) _ (by_hit (run_first-Walks ts))
    where
      by_hit :
          Yields (Walks ts) (run_first test ts)
          → (hit : Bool)
          → Yields (Walks (t ∷ ts)) (elim hit [
            | true ↦ some (run_handler t (untouched ts))
            | false ↦ (do later ← run_first test ts; some (keep t later))
          ])
      by_hit w true = run_handler-Walks t ts (untouched ts) (still ts)
      by_hit w false =
          Yields-bind (Walks ts) (Walks (t ∷ ts)) (run_first test ts) _ w λ r v. kept t v

  pub run_head-Walks : (ts : List Trigger) → Yields (Walks ts) (run_head test ts)
  unfolding run_head
  run_head-Walks [] = tt
  run_head-Walks (t ∷ ts) = Yields-step (Walks (t ∷ ts)) (test t) _ λ hit.
      if_cases (Walks (t ∷ ts)) hit (λ e. run_handler-Walks t ts (untouched ts) (still ts))
        λ e. still (t ∷ ts)

pub run_raw-Walks : (command : Bytes) (ts : List Trigger) → Yields (Walks ts) (run_raw command ts)
unfolding run_raw
run_raw-Walks command [] = done
run_raw-Walks command (t ∷ ts) = Yields-step (Walks (t ∷ ts)) t.mask _ λ mask.
    Yields-bind (Walks ts) (Walks (t ∷ ts)) (run_raw command ts) _ (run_raw-Walks command ts) λ r w.
      if_cases (Yields (Walks (t ∷ ts))) (str_eq mask command) (λ e. called t.handler refl r w)
        λ e. kept t w
  where
    called :
        (h : Option ℕ)
        → t.handler ≡ h
        → (r : Ran) → Walks ts r
        → Yields (Walks (t ∷ ts)) (elim h [
          | none ↦ none
          | some h ↦ some (record { triggers = used t ∷ r.triggers; calls = used t ∷ r.calls })
        ])
    called none e r w = tt
    called (some h) e r w = ran t h e w

-- One list after the other.
pub Walked-append :
    {ts us cs ts' us' cs' : List Trigger}
    → Walked ts us cs
    → Walked ts' us' cs'
    → Walked (ts ++ ts') (us ++ us') (cs ++ cs')
Walked-append done v = v
Walked-append (kept t w) v = kept t (Walked-append w v)
Walked-append (ran t h e w) v = ran t h e (Walked-append w v)

-- Triggers that a walk does not come to, before and behind it.
pub lead :
    (front : List Trigger) {ts us cs : List Trigger}
    → Walked ts us cs
    → Walked (front ++ ts) (front ++ us) cs
lead front w = Walked-append (still front) w

pub follow :
    (rear : List Trigger) {ts us cs : List Trigger}
    → Walked ts us cs
    → Walked (ts ++ rear) (us ++ rear) cs
follow rear done = still rear
follow rear (kept t w) = kept t (follow rear w)
follow rear (ran t h e w) = ran t h e (follow rear w)
