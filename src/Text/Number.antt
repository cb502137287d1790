-- ===== src/Text/Number.antt =====
-- `atoi` of <stdlib.h>, in the C locale.
use trollbot.Prelude.{
  ℤ, pos, negate, ℕ, ◌+◌, ◌-◌, ◌*◌, Bool, ◌&&◌, [], ◌∷◌, leb, ◌==◌, if◌then◌else◌, Bytes,
}
use trollbot.Text.{isspace}

-- `isdigit`, and the digits that `atoi` reads.
abbrev pub is_digit : ℕ → Bool
is_digit c = leb b'0' c && leb c b'9'

unfoldable pub digits : ℕ → Bytes → ℕ
digits n [] = n
digits n (c ∷ s) = if is_digit c then digits (10 * n + (c - b'0')) s else n

abbrev pub signed : Bytes → ℤ
signed [] = pos 0
signed (c ∷ s) =
    if c == b'-'
    then negate (digits 0 s)
    else if c == b'+'
    then pos (digits 0 s)
    else pos (digits 0 (c ∷ s))

-- `atoi`, for a number that an `int` holds.
unfoldable pub atoi : Bytes → ℤ
unfolding isspace digits
atoi [] = pos 0
atoi (c ∷ s) = let rest = atoi s in if isspace c then rest else signed (c ∷ s)
