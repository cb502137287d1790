-- ===== src/Log/Sent.antt =====
-- A log entry reaches exactly the filters that have all its flags.
use trollbot.Prelude.{
  ◌≡◌, ◌↔◌, refl, sym, subst, ◌∙◌, if_cases, Bool-cases, inl, inr, true, List, [], ◌∷◌, Option,
  none, some, arith, All, Bytes,
}
use mathlib.Core.Option.{some-injective}
use trollbot.Text.{has_byte}
use trollbot.Log.{LogFilter, first_missing, hand_on, log_filters_check}

-- The filter has a handler and each of the flags.
abbrev pub Wants : Option Bytes → LogFilter → Type 0
Wants none f = ⊥
Wants (some flags) f =
    (own : Bytes) × (f.flags ≡ some own)
    × (f.has_handler ≡ true)
    × All (λ c. has_byte c own ≡ true) flags

-- The filters that want the entry, in order and without any other.
pub data Sent (entry : Option Bytes) : List LogFilter → List LogFilter → Type 0 where
  done : Sent entry [] []
  take :
      {f : LogFilter} {fs gs : List LogFilter}
      → Wants entry f
      → Sent entry fs gs
      → Sent entry (f ∷ fs) (f ∷ gs)
  skip :
      {f : LogFilter} {fs gs : List LogFilter}
      → ¬ Wants entry f
      → Sent entry fs gs
      → Sent entry (f ∷ fs) gs

first_missing-All :
    (own flags : Bytes) → (first_missing own flags ≡ []) ↔ All (λ c. has_byte c own ≡ true) flags
unfolding first_missing
first_missing-All own [] = ((λ e. tt), λ h. refl)
first_missing-All own (c ∷ flags) = elim (Bool-cases (has_byte c own)) [
  | inl p ↦
      rw p
        ((λ e. (refl, (first_missing-All own flags).0 e)), λ h. (first_missing-All own flags).1 h.1)
  | inr p ↦ rw p ((λ e. cc), λ h. cc)
]

module _ (f : LogFilter) (flags : Bytes) {fs gs : List LogFilter}
    (sent : Sent (some flags) fs gs) where
  hand_on-Sent :
      (own missing : Bytes)
      → f.flags ≡ some own
      → first_missing own flags ≡ missing
      → Sent (some flags) (f ∷ fs) (hand_on f missing gs)
  hand_on-Sent own [] e m =
      if_cases (Sent (some flags) (f ∷ fs)) f.has_handler
        (λ h. take (own, e, h, (first_missing-All own flags).0 m) sent)
        λ h. skip (λ w. absurd (ground (arith, w.2))) sent
  hand_on-Sent own (c ∷ missing) e m =
      skip
        (λ w.
          let same : w.0 ≡ own = some-injective _ _ (sym w.1 ∙ e) in
          let all : first_missing own flags ≡ [] =
            (first_missing-All own flags).1
              (subst (λ o. All (λ c. has_byte c o ≡ true) flags) same w.3) in
          cc)
        sent

  filter-Sent :
      (own : Option Bytes)
      → f.flags ≡ own
      → Sent
          (some flags)
          (f ∷ fs)
          (elim own [ none ↦ gs | some o ↦ hand_on f (first_missing o flags) gs ])
  filter-Sent none e = skip (λ w. cc) sent
  filter-Sent (some own) e = hand_on-Sent own (first_missing own flags) e refl

-- The handlers that run are those of the filters that have all flags of the entry, each once, in
-- the order of the list. An entry without flags reaches no filter, and no filter without flags is
-- reached.
pub log_filters_check-Sent :
    (fs : List LogFilter) (entry : Option Bytes) → Sent entry fs (log_filters_check fs entry)
unfolding log_filters_check
log_filters_check-Sent [] entry = done
log_filters_check-Sent (f ∷ fs) none = skip (λ w. w) (log_filters_check-Sent fs none)
log_filters_check-Sent (f ∷ fs) (some flags) =
    filter-Sent f flags (log_filters_check-Sent fs (some flags)) f.flags refl
