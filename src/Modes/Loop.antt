-- ===== src/Modes/Loop.antt =====
-- The loop over the mode characters: which of them count, when it makes no fault, and what it
-- keeps.
use trollbot.Prelude.{
  ◌>>=◌, ℕ, ◌+◌, ◌≡◌, refl, ap, fun_ext, inl, inr, Bool, false, ◌||◌, [], ◌∷◌, some, arith, ◌==◌,
  if◌then◌else◌, Bytes, Bool-cases,
}
use trollbot.Modes.{ModeState, ModeLine, mode_step, mode_loop}

-- The mode characters that take a parameter here.
unfoldable pub takes_parameter : ℕ → Bool
takes_parameter c = c == b'o' || c == b'v' || c == b'b'

unfoldable pub counts : ℕ → Bool
unfolding takes_parameter
counts c = c == b'+' || c == b'-' || takes_parameter c

unfoldable pub relevant : Bytes → Bytes
relevant [] = []
relevant (c ∷ modes) = if counts c then c ∷ relevant modes else relevant modes

mode_step_other :
    (l : ModeLine) (s : ModeState) (c : ℕ) → counts c ≡ false → mode_step l s c ≡ some s
unfolding mode_step counts takes_parameter
mode_step_other l s c h = ground arith

-- `mode_loop` does the same on the modes without any character other than `+ - o v b`: in
-- particular `k`, `e`, `I` and `j` do not move on to the next parameter, though the comments beside
-- them say that they have one.
pub mode_loop-relevant :
    (l : ModeLine) (s : ModeState) (modes : Bytes)
    → mode_loop l s modes ≡ mode_loop l s (relevant modes)
unfolding mode_loop relevant
mode_loop-relevant l s [] = refl
mode_loop-relevant l s (c ∷ modes) = elim (Bool-cases (counts c)) [
  | inl p ↦ rw p (
      unfold mode_loop in
      ap (λ f. mode_step l s c >>= f) (fun_ext λ s'. mode_loop-relevant l s' modes))
  | inr p ↦ rw (p, mode_step_other l s c p) (mode_loop-relevant l s modes)
]

-- The parameters that the modes take.
unfoldable pub needed : Bytes → ℕ
unfolding takes_parameter
needed [] = 0
needed (c ∷ modes) = (if takes_parameter c then 1 else 0) + needed modes
