-- ===== src/Wildcard/Total.antt =====
-- Both matchers return 0 or 1: the fuel is enough, also for the retries of `matchwilds`.
use trollbot.Prelude.{
  ℕ, zero, suc, ◌+◌, ◌*◌, ◌≤◌, ◌<◌, false, [], ◌∷◌, Option, none, some, arith, length, Bytes,
}
use trollbot.Wildcard.{
  Position, position, Step, result, next, star, mismatch, round, second, Retry, troll_after,
  troll_loop, troll_matchwilds, match_after, match_loop, matchwilds,
}
use trollbot.Wildcard.Shape.{Shape, round-Shape}

-- A C result that is 0 or 1.
abbrev pub IsFlag : Option ℕ → Type 0
IsFlag none = ⊥
IsFlag (some r) = r ≤ 1

troll_after-IsFlag :
    (loop : Position → Option ℕ) (n t : Bytes) (s : Step)
    → ((q : Position) → length q.needle < length n → IsFlag (loop q))
    → Shape n t s
    → IsFlag (troll_after loop s)
troll_after-IsFlag loop n t (result r) ih m = m
troll_after-IsFlag loop n t (next q) ih m = ih q m.shorter
troll_after-IsFlag loop n t (star q) ih m = ih q m.0.shorter
troll_after-IsFlag loop n t mismatch ih m = omega arith

troll_loop-IsFlag : (f : ℕ) (p : Position) → length p.needle < f → IsFlag (troll_loop f p)
unfolding troll_loop
troll_loop-IsFlag zero p h = absurd (omega arith)
troll_loop-IsFlag (suc f) p h =
    troll_after-IsFlag (troll_loop f) p.needle p.haystack (round p.escaped p.needle p.haystack)
      (λ q l. troll_loop-IsFlag f q (omega arith)) (round-Shape p.escaped p.needle p.haystack)

-- `troll_matchwilds` returns 0 or 1 on every pair of texts, NULL included.
pub troll_matchwilds-IsFlag :
    (haystack needle : Option Bytes) → IsFlag (troll_matchwilds haystack needle)
unfolding troll_matchwilds
troll_matchwilds-IsFlag none n = omega arith
troll_matchwilds-IsFlag (some h) none = omega arith
troll_matchwilds-IsFlag (some h) (some n) = troll_loop-IsFlag _ (position n h false) (omega arith)

pub mul_mono : (a b k : ℕ) → a ≤ b → a * k ≤ b * k
mul_mono a b k h = grind arith

module _ (k : ℕ) where
  -- The rounds that are left, at most, where no needle is longer than `k`.
  abbrev rounds : Position → Option Retry → ℕ
  rounds p none = (length p.haystack + 1) * (k + 1) + length p.needle
  rounds p (some r) = (length r.lasthay + 2) * (k + 1) + length p.needle

  abbrev Within : Position → Option Retry → Type 0
  Within p none = length p.needle ≤ k
  Within p (some r) =
      (length p.needle ≤ k) × (length r.lastneedle ≤ k) × (length p.haystack ≤ length r.lasthay + 1)

  rounds_star :
      (t q : Bytes) → length q ≤ length t → 0 < length t → length (second q) + 2 ≤ length t + 1
  rounds_star t [] h g = omega arith
  rounds_star t (c ∷ q) h g = omega arith

  length-second : (q : Bytes) → length q ≤ length (second q) + 1
  length-second [] = omega arith
  length-second (c ∷ q) = omega arith

  match_after-IsFlag :
      (loop : Position → Option Retry → Option ℕ) (p : Position) (last : Option Retry) (s : Step)
      → ((q : Position) (l : Option Retry)
          → Within q l
          → rounds q l < rounds p last
          → IsFlag (loop q l))
      → Within p last
      → Shape p.needle p.haystack s
      → IsFlag (match_after loop p last s)
  match_after-IsFlag loop p last (result r) ih w m = m
  match_after-IsFlag loop p none (next q) ih w m =
      let h = m.shorter in
      let g = m.no_longer in
      ih q none (omega arith) (
        omega
          (arith, mul_mono (length q.haystack + 1) (length p.haystack + 1) (k + 1) (omega arith)))
  match_after-IsFlag loop p (some r) (next q) ih w m =
      let h = m.shorter in
      let g = m.no_longer in ih q (some r) (omega arith, w.1, omega arith) (omega arith)
  match_after-IsFlag loop p none (star q) ih w (m, e, pos) =
      let h = m.shorter in
      let g = m.no_longer in
      ih q _ (omega arith, w, length-second q.haystack)
        (omega (
          arith,
          mul_mono (length (second q.haystack) + 2) (length p.haystack + 1) (k + 1)
              (rounds_star p.haystack q.haystack g pos),
        ))
  match_after-IsFlag loop p (some r) (star q) ih w (m, e, pos) =
      let h = m.shorter in
      let g = m.no_longer in
      let le = rounds_star p.haystack q.haystack g pos in
      ih q _ (omega arith, w.0, length-second q.haystack)
        (omega (
          arith,
          mul_mono (length (second q.haystack) + 2) (length r.lasthay + 2) (k + 1) (omega arith),
        ))
  match_after-IsFlag loop p none mismatch ih w m = omega arith
  match_after-IsFlag loop p (some r) mismatch ih w m = ih _ none w.1 (omega arith)

  match_loop-IsFlag :
      (f : ℕ) (p : Position) (last : Option Retry)
      → Within p last
      → rounds p last < f
      → IsFlag (match_loop f p last)
  unfolding match_loop
  match_loop-IsFlag zero p last w h = absurd (omega arith)
  match_loop-IsFlag (suc f) p last w h =
      match_after-IsFlag (match_loop f) p last (round p.escaped p.needle p.haystack)
        (λ q l v g. match_loop-IsFlag f q l v (omega arith)) w
        (round-Shape p.escaped p.needle p.haystack)

-- `matchwilds` returns 0 or 1 on every pair of texts, NULL included.
pub matchwilds-IsFlag : (haystack needle : Option Bytes) → IsFlag (matchwilds haystack needle)
unfolding matchwilds
matchwilds-IsFlag none n = omega arith
matchwilds-IsFlag (some h) none = omega arith
matchwilds-IsFlag (some h) (some n) =
    match_loop-IsFlag (length n) _ (position n h false) none (omega arith) (omega arith)
