-- ===== src/Store/Returns.antt =====
-- Total correctness of a run: it returns, with no fault and enough fuel, and a postcondition holds.
use trollbot.Store.{Store, Run, ok, Cmd, and_then}

pub data Returns {A B : Type 0} (Post : B → Store A → Type 0) : Run A B → Type 0 where
  returns : {b : B} {h : Store A} → Post b h → Returns Post (ok b h)

module _ {A B : Type 0} {Post : B → Store A → Type 0} where
  pub bind :
      {C : Type 0} {Goal : C → Store A → Type 0} {m : Run A B} {k : B → Cmd A C}
      → Returns Post m
      → ((b : B) (h : Store A) → Post b h → Returns Goal (k b h))
      → Returns Goal (and_then m k)
  bind (returns p) next = next _ _ p

  pub weaken :
      {Goal : B → Store A → Type 0} {m : Run A B}
      → Returns Post m
      → ((b : B) (h : Store A) → Post b h → Goal b h)
      → Returns Goal m
  weaken (returns p) f = returns (f _ _ p)
