-- ===== src/Trigger/Flags.antt =====
-- How `new_trigger` splits `userflags|chanflags`.
use trollbot.Prelude.{
  ℕ, ◌+◌, ◌-◌, ◌≡◌, refl, ap, false, [], ◌∷◌, ◌++◌, Option, none, some, arith, ◌==◌, if◌then◌else◌,
  length, length-append, Bytes, peek,
}
use trollbot.Text.{has_byte}
use trollbot.Trigger.{behind_byte, take, with_flags, front_flags, new_trigger}

behind_byte-first :
    (c : ℕ) (g s : Bytes) → has_byte c g ≡ false → behind_byte c (g ++ c ∷ s) ≡ some s
unfolding behind_byte has_byte
behind_byte-first c [] s h = ground arith
behind_byte-first c (a ∷ g) s h =
    let miss : (a == c) ≡ false = ground arith in
    let later : has_byte c g ≡ false = ground arith in rw miss (behind_byte-first c g s later)

behind_byte-none : (c : ℕ) (s : Bytes) → has_byte c s ≡ false → behind_byte c s ≡ none
unfolding behind_byte has_byte
behind_byte-none c [] h = refl
behind_byte-none c (a ∷ s) h =
    let miss : (a == c) ≡ false = ground arith in
    let later : has_byte c s ≡ false = ground arith in rw miss (behind_byte-none c s later)

take-front : (g s : Bytes) → take (length g) (g ++ s) ≡ g
unfolding take
take-front [] s = refl
take-front (a ∷ g) s = ap (◌∷◌ a) (take-front g s)

-- NULL for no flags at all.
abbrev pub flags_or_null : Bytes → Option Bytes
flags_or_null [] = none
flags_or_null (a ∷ g) = some (a ∷ g)

front_flags-length : (g s : Bytes) → front_flags (g ++ s) (length g) ≡ flags_or_null g
front_flags-length [] s = refl
front_flags-length (a ∷ g) s = ap some (take-front (a ∷ g) s)

-- Flags with a `|` in them are split at the first one: the flags before it are the global ones, and
-- those behind it the channel's. Flags without a `|` are all global, and none if they begin with a
-- `-`.
pub new_trigger-flags :
    (g s : Bytes) (mask command : Option Bytes) (handler : Option ℕ)
    → has_byte b'|' g ≡ false
    → (new_trigger (some (g ++ b'|' ∷ s)) mask command handler
        ≡ with_flags (flags_or_null g) (some s) mask command handler)
      × (new_trigger (some g) mask command handler
          ≡ with_flags (if peek g == b'-' then none else some g) none mask command handler)
unfolding new_trigger
new_trigger-flags g s mask command handler h =
    let size : length (g ++ b'|' ∷ s) - (length s + 1) ≡ length g =
      omega (arith, length-append g (b'|' ∷ s)) in
    (
      rw (new_trigger, behind_byte-first b'|' g s h, size, front_flags-length g (b'|' ∷ s)),
      rw (new_trigger, behind_byte-none b'|' g h),
    )
