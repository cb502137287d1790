-- ===== src/Wildcard/Compare.antt =====
-- Masks on which the matchers are exact, and how the two compare.
use trollbot.Prelude.{
  ℕ, zero, suc, ◌+◌, ◌*◌, ◌≤◌, ◌<◌, ◌≡◌, ◌≢◌, ◌↔◌, refl, sym, Bool, true, false, ◌||◌, [], ◌∷◌,
  Option, none, some, arith, ◌==◌, length, Bytes, ==_refl, if◌then◌else◌,
}
use trollbot.Wildcard.{
  Position, position, Step, result, next, star, mismatch, round, ladder, Retry, troll_after,
  skip_to, troll_loop, troll_matchwilds, match_after, match_loop, matchwilds,
}
use trollbot.Wildcard.Shape.{ladder_escaped}
use trollbot.Wildcard.Total.{mul_mono}
use trollbot.Wildcard.Sound.{troll_matchwilds-Matches}
use trollbot.Wildcard.Language.{
  is_special, Matches, done, any, star_stop, star_more, word_stop, word_more, space_stop,
  space_more, escaped, literal,
}

-- A mask of literal bytes, `?` and escaped bytes: no run of unknown length.
unfoldable pub is_fixed : Bytes → Bool
is_fixed [] = true
is_fixed (c ∷ []) = if c == b'*' || c == b'%' || c == b'~' || c == b'\\' then false else true
is_fixed (c ∷ d ∷ n) =
    if c == b'\\'
    then is_fixed n
    else if c == b'*' || c == b'%' || c == b'~'
    then false
    else is_fixed (d ∷ n)

-- A fixed mask begins with no run, and its tail is fixed but behind a backslash.
is_fixed_head :
    (c : ℕ) (n : Bytes)
    → is_fixed (c ∷ n) ≡ true
    → (c ≢ b'*') × (c ≢ b'%') × (c ≢ b'~') × (c ≢ b'\\' → is_fixed n ≡ true)
unfolding is_fixed
is_fixed_head c [] x = ground arith
is_fixed_head c (d ∷ n) x = ground arith

is_fixed_escaped : (c : ℕ) (n : Bytes) → is_fixed (b'\\' ∷ c ∷ n) ≡ true → is_fixed n ≡ true
unfolding is_fixed
is_fixed_escaped c n x = x

round_literal :
    (k : ℕ) (n t : Bytes)
    → is_special k ≡ false
    → round false (k ∷ n) (k ∷ t) ≡ next (position n t false)
unfolding round ladder is_special
round_literal k n t e = ground arith

round_any : (h : ℕ) (n t : Bytes) → round false (b'?' ∷ n) (h ∷ t) ≡ next (position n t false)
unfolding round ladder
round_any h n t = refl

round_escaped :
    (h : ℕ) (n t : Bytes) → round false (b'\\' ∷ h ∷ n) (h ∷ t) ≡ next (position n t false)
unfolding round
round_escaped h n t = rw (ladder_escaped h n h t) (rw (==_refl h))

not_backslash : (k : ℕ) → is_special k ≡ false → k ≢ b'\\'
unfolding is_special
not_backslash k e = ground arith

Matches-troll_loop :
    (f : ℕ) {n t : Bytes}
    → Matches n t
    → is_fixed n ≡ true
    → length n < f
    → troll_loop f (position n t false) ≡ some 0
unfolding troll_loop
Matches-troll_loop zero m x h = absurd (omega arith)
Matches-troll_loop (suc f) done x h = unfold round in refl
Matches-troll_loop (suc f) (any {n} {t} c k e m) x h =
    let more = (is_fixed_head c n x).3 (omega arith) in
    rw (e, round_any k n t) (Matches-troll_loop f m more (omega arith))
Matches-troll_loop (suc f) (star_stop {n} c e m) x h = absurd ((is_fixed_head c n x).0 e)
Matches-troll_loop (suc f) (star_more {n} c k e m) x h = absurd ((is_fixed_head c n x).0 e)
Matches-troll_loop (suc f) (word_stop {n} c e m) x h = absurd ((is_fixed_head c n x).1 e)
Matches-troll_loop (suc f) (word_more {n} c k e s m) x h = absurd ((is_fixed_head c n x).1 e)
Matches-troll_loop (suc f) (space_stop {n} c k e s m) x h = absurd ((is_fixed_head c n x).2 e)
Matches-troll_loop (suc f) (space_more {n} c k e s m) x h = absurd ((is_fixed_head c n x).2 e)
Matches-troll_loop (suc f) (escaped {n} {t} c k e m) x h =
    let more = is_fixed_escaped k n (rw e at x) in
    rw (e, round_escaped k n t) (Matches-troll_loop f m more (omega arith))
Matches-troll_loop (suc f) (literal {n} {t} k e m) x h =
    let more = (is_fixed_head k n x).3 (not_backslash k e) in
    rw (round_literal k n t e) (Matches-troll_loop f m more (omega arith))

-- On a mask of literal bytes, `?` and escaped bytes `troll_matchwilds` decides exactly whether the
-- mask describes the text.
pub troll_matchwilds_fixed :
    (haystack needle : Bytes)
    → is_fixed needle ≡ true
    → (troll_matchwilds (some haystack) (some needle) ≡ some 0) ↔ Matches needle haystack
troll_matchwilds_fixed h n x = (
  troll_matchwilds-Matches h n,
  λ m. unfold troll_matchwilds in Matches-troll_loop _ m x (omega arith),
)

-- Whatever `troll_matchwilds` accepts on the way, `matchwilds` accepts too: they part at a mismatch
-- alone, where the first gives up.
troll_after-match_after :
    (loop : Position → Option ℕ) (loop' : Position → Option Retry → Option ℕ)
    → ((q : Position) (l : Option Retry) → loop q ≡ some 0 → loop' q l ≡ some 0)
    → (p : Position) (last : Option Retry) (s : Step) → troll_after loop s ≡ some 0
    → match_after loop' p last s ≡ some 0
troll_after-match_after loop loop' ih p last (result r) z = z
troll_after-match_after loop loop' ih p last (next q) z = ih q last z
troll_after-match_after loop loop' ih p last (star q) z = ih q _ z
troll_after-match_after loop loop' ih p last mismatch z = absurd (ground arith)

troll_loop-match_loop :
    (f g : ℕ) (p : Position) (last : Option Retry)
    → f ≤ g
    → troll_loop f p ≡ some 0
    → match_loop g p last ≡ some 0
unfolding troll_loop match_loop
troll_loop-match_loop zero g p last h z = absurd (ground arith)
troll_loop-match_loop (suc f) zero p last h z = absurd (omega arith)
troll_loop-match_loop (suc f) (suc g) p last h z =
    troll_after-match_after (troll_loop f) (match_loop g)
      (λ q l. troll_loop-match_loop f g q l (omega arith)) p last
      (round p.escaped p.needle p.haystack) z

fuel_le : (h n : ℕ) → n + 1 ≤ (h + 2) * (n + 1)
fuel_le h n = omega (arith, mul_mono 1 (h + 2) (n + 1) (omega arith))

-- `matchwilds` accepts every pair of texts that `troll_matchwilds` accepts.
pub troll_matchwilds-matchwilds :
    (haystack needle : Bytes)
    → troll_matchwilds (some haystack) (some needle) ≡ some 0
    → matchwilds (some haystack) (some needle) ≡ some 0
unfolding troll_matchwilds matchwilds
troll_matchwilds-matchwilds h n z =
    troll_loop-match_loop _ _ _ none (fuel_le (length h) (length n)) z

round_star :
    (a : ℕ) (n t : Bytes)
    → round false (b'*' ∷ a ∷ n) (a ∷ t) ≡ star (position (a ∷ n) (a ∷ t) false)
unfolding round ladder skip_to
round_star a n t = rw (==_refl a)

round_miss :
    (k h : ℕ) (n t : Bytes) → is_special k ≡ false → k ≢ h → round false (k ∷ n) (h ∷ t) ≡ mismatch
unfolding round ladder is_special
round_miss k h n t e ne = ground arith

not_escape : (k : ℕ) → is_special k ≡ false → (k == b'\\' || false) ≡ false
not_escape k e = ground (arith, not_backslash k e)

-- `*` is greedy up to the first byte that follows it in the mask, and `troll_matchwilds` never goes
-- back: the mask `*ab` describes the text `aab` and does not match it, for all bytes `a` and `b`
-- that differ and have no meaning of their own.
pub troll_matchwilds_greedy :
    (a b : ℕ)
    → is_special a ≡ false
    → is_special b ≡ false
    → a ≢ b
    → Matches (b'*' ∷ a ∷ b ∷ []) (a ∷ a ∷ b ∷ [])
      × (troll_matchwilds (some (a ∷ a ∷ b ∷ [])) (some (b'*' ∷ a ∷ b ∷ [])) ≡ some 1)
      × (matchwilds (some (a ∷ a ∷ b ∷ [])) (some (b'*' ∷ a ∷ b ∷ [])) ≡ some 0)
troll_matchwilds_greedy a b p q ne = (
  star_more b'*' a refl (star_stop b'*' refl (literal a p (literal b q done))),
  unfold troll_matchwilds troll_loop in
      rw (round_star a (b ∷ []) (a ∷ b ∷ [])) (
        rw (round_literal a (b ∷ []) (a ∷ b ∷ []) p)
          (rw (round_miss b a [] (b ∷ []) q (λ e. ne (sym e))))),
  unfold matchwilds match_loop in
      rw (round_star a (b ∷ []) (a ∷ b ∷ [])) (
        rw (round_literal a (b ∷ []) (a ∷ b ∷ []) p) (
          rw (round_miss b a [] (b ∷ []) q (λ e. ne (sym e))) (
            rw (not_escape b q) (
              rw (round_star a (b ∷ []) (b ∷ [])) (
                rw (round_literal a (b ∷ []) (b ∷ []) p)
                  (rw (round_literal b [] [] q) (unfold round in refl))))))),
)
