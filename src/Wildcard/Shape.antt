-- ===== src/Wildcard/Shape.antt =====
-- How a round moves: the needle shrinks, the haystack does not grow, `escaped` is cleared, and a
-- round sets the retry at a `*` alone.
use trollbot.Prelude.{
  ℕ, ◌≤◌, ◌<◌, ◌≡◌, Bool, true, false, ◌&&◌, not, [], ◌∷◌, ap, arith, ◌==◌, if◌then◌else◌, if_cases,
  eq_of_==, length, Bytes, peek,
}
use trollbot.Text.{isspace}
use trollbot.Wildcard.{
  Position, position, Step, result, next, star, mismatch, skip_to, skip_word, skip_spaces, ladder,
  round,
}

pub length-skip_to : (c : ℕ) (t : Bytes) → length (skip_to c t) ≤ length t
unfolding skip_to
length-skip_to c [] = omega arith
length-skip_to c (h ∷ t) = ground (arith, length-skip_to c t)

pub length-skip_word : (c : ℕ) (t : Bytes) → length (skip_word c t) ≤ length t
unfolding skip_word
length-skip_word c [] = omega arith
length-skip_word c (h ∷ t) = ground (arith, length-skip_word c t)

pub length-skip_spaces : (t : Bytes) → length (skip_spaces t) ≤ length t
unfolding skip_spaces
length-skip_spaces [] = omega arith
length-skip_spaces (h ∷ t) = ground (arith, length-skip_spaces t)

pub record Moves (n t : Bytes) (q : Position) : Type 0 where
  pub cleared : q.escaped ≡ false
  pub shorter : length q.needle < length n
  pub no_longer : length q.haystack ≤ length t

abbrev pub Shape : Bytes → Bytes → Step → Type 0
Shape n t (result r) = r ≤ 1
Shape n t (next q) = Moves n t q
Shape n t (star q) = Moves n t q × (n ≡ b'*' ∷ q.needle) × (0 < length t)
Shape n t mismatch = Unit

-- Behind a backslash only the last test of the ladder is left.
pub ladder_escaped :
    (c : ℕ) (n : Bytes) (h : ℕ) (hs : Bytes)
    → ladder true (c ∷ n) h hs ≡ (if not (c == h) then mismatch else next (position n hs false))
unfolding ladder
ladder_escaped c n h hs = ground arith

-- The needle `m` is the one before the backslash was skipped.
ladder_escaped-Shape :
    (m n : Bytes) (h : ℕ) (hs : Bytes) → length n ≤ length m → Shape m (h ∷ hs) (ladder true n h hs)
unfolding ladder
ladder_escaped-Shape m [] h hs le = tt
ladder_escaped-Shape m (c ∷ n) h hs le =
    rw (ladder_escaped c n h hs)
      (if_cases (Shape m (h ∷ hs)) (not (c == h)) (λ p. tt) λ p. ground arith)

ladder-Shape :
    (c : ℕ) (n : Bytes) (h : ℕ) (hs : Bytes) → Shape (c ∷ n) (h ∷ hs) (ladder false (c ∷ n) h hs)
unfolding ladder
ladder-Shape c n h hs =
    if_cases P (c == b'?' && true) (λ p. ground arith)
      λ p.
        if_cases P (c == b'*' && true)
          (λ q. (
            ground (arith, length-skip_to (peek n) (h ∷ hs)),
            ap (λ x. x ∷ n) (eq_of_== c b'*' (ground arith)),
            omega arith,
          ))
          λ q.
            if_cases P (c == b'%' && true) (λ r. ground (arith, length-skip_word (peek n) (h ∷ hs)))
              λ r.
                if_cases P (c == b'~' && true)
                  (λ s.
                    if_cases P (isspace h) (λ sp. ground (arith, length-skip_spaces hs))
                      (λ sp. omega arith))
                  λ s. if_cases P (not (c == h)) (λ u. tt) (λ u. ground arith)
  where
    P : Step → Type 0
    P = Shape (c ∷ n) (h ∷ hs)

pub round-Shape : (e : Bool) (n t : Bytes) → Shape n t (round e n t)
unfolding round
round-Shape e [] [] = omega arith
round-Shape e [] (h ∷ t) = omega arith
round-Shape e (c ∷ []) [] = ground arith
round-Shape e (c ∷ d ∷ n) [] = omega arith
round-Shape true (c ∷ n) (h ∷ t) =
    if_cases (Shape (c ∷ n) (h ∷ t)) (c == b'\\')
      (λ p. ladder_escaped-Shape (c ∷ n) n h t (omega arith))
      (λ p. ladder_escaped-Shape (c ∷ n) (c ∷ n) h t (omega arith))
round-Shape false (c ∷ n) (h ∷ t) =
    if_cases (Shape (c ∷ n) (h ∷ t)) (c == b'\\')
      (λ p. ladder_escaped-Shape (c ∷ n) n h t (omega arith)) (λ p. ladder-Shape c n h t)
