-- ===== src/Wildcard/Language.antt =====
-- What a mask means, as the comment above `troll_matchwilds` says it.
use trollbot.Prelude.{ℕ, Bool, true, false, ◌||◌, [], ◌∷◌, ◌≡◌, ◌==◌, Bytes}
use trollbot.Text.{isspace}

-- The bytes with a meaning of their own in a mask.
unfoldable pub is_special : ℕ → Bool
is_special c = c == b'?' || c == b'*' || c == b'%' || c == b'~' || c == b'\\'

pub data Matches : Bytes → Bytes → Type 0 where
  done : Matches [] []
  -- `?`: one byte.
  any : {n t : Bytes} (c h : ℕ) → c ≡ b'?' → Matches n t → Matches (c ∷ n) (h ∷ t)
  -- `*`: any number of bytes.
  star_stop : {n t : Bytes} (c : ℕ) → c ≡ b'*' → Matches n t → Matches (c ∷ n) t
  star_more : {n t : Bytes} (c h : ℕ) → c ≡ b'*' → Matches (c ∷ n) t → Matches (c ∷ n) (h ∷ t)
  -- `%`: any number of bytes other than white space.
  word_stop : {n t : Bytes} (c : ℕ) → c ≡ b'%' → Matches n t → Matches (c ∷ n) t
  word_more :
      {n t : Bytes} (c h : ℕ)
      → c ≡ b'%'
      → isspace h ≡ false
      → Matches (c ∷ n) t
      → Matches (c ∷ n) (h ∷ t)
  -- `~`: white space, at least one byte.
  space_stop :
      {n t : Bytes} (c h : ℕ) → c ≡ b'~' → isspace h ≡ true → Matches n t → Matches (c ∷ n) (h ∷ t)
  space_more :
      {n t : Bytes} (c h : ℕ)
      → c ≡ b'~'
      → isspace h ≡ true
      → Matches (c ∷ n) t
      → Matches (c ∷ n) (h ∷ t)
  -- `\`: the next byte is literal.
  escaped : {n t : Bytes} (c h : ℕ) → c ≡ b'\\' → Matches n t → Matches (c ∷ h ∷ n) (h ∷ t)
  literal : {n t : Bytes} (h : ℕ) → is_special h ≡ false → Matches n t → Matches (h ∷ n) (h ∷ t)
