-- ===== src/Wildcard/Sound.antt =====
-- What the two matchers accept, the mask describes.
use trollbot.Prelude.{
  ℕ, zero, suc, ◌≡◌, refl, ◌⊎◌, inl, inr, Bool, true, false, ◌&&◌, not, [], ◌∷◌, Option, none, some,
  subst, arith, ◌==◌, Bool-cases, if_cases, eq_of_==, Bytes, peek,
}
use trollbot.Text.{isspace}
use trollbot.Wildcard.{
  Position, position, Step, result, next, star, mismatch, skip_to, skip_word, skip_spaces, ladder,
  second, Retry, round, troll_after, troll_loop, troll_matchwilds, match_after, match_loop,
  matchwilds,
}
use trollbot.Wildcard.Shape.{Shape, round-Shape, ladder_escaped}
use trollbot.Wildcard.Language.{
  is_special, Matches, done, any, star_stop, star_more, word_stop, word_more, space_stop,
  space_more, escaped, literal,
}

skip_to-Matches :
    (c d : ℕ) {n : Bytes} (t : Bytes) → c ≡ b'*' → Matches n (skip_to d t) → Matches (c ∷ n) t
unfolding skip_to
skip_to-Matches c d [] e m = star_stop c e m
skip_to-Matches c d (h ∷ t) e m = elim (Bool-cases (h == d)) [
  | inl stop ↦ star_stop c e (rw stop at m)
  | inr go ↦ star_more c h e (skip_to-Matches c d t e (rw go at m))
]

-- Where a `*` may be tried again: one byte behind the place where its loop stopped.
skip_to-retry :
    (c d : ℕ) {n : Bytes} (t : Bytes)
    → c ≡ b'*'
    → Matches (c ∷ n) (second (skip_to d t))
    → Matches (c ∷ n) t
unfolding skip_to
skip_to-retry c d [] e m = m
skip_to-retry c d (h ∷ t) e m = elim (Bool-cases (h == d)) [
  | inl stop ↦ star_more c h e (rw stop at m)
  | inr go ↦ star_more c h e (skip_to-retry c d t e (rw go at m))
]

skip_word-Matches :
    (c d : ℕ) {n : Bytes} (t : Bytes) → c ≡ b'%' → Matches n (skip_word d t) → Matches (c ∷ n) t
unfolding skip_word
skip_word-Matches c d [] e m = word_stop c e m
skip_word-Matches c d (h ∷ t) e m = elim (Bool-cases (isspace h)) [
  | inl space ↦ word_stop c e (rw space at m)
  | inr word ↦ elim (Bool-cases (h == d)) [
    | inl stop ↦ word_stop c e (rw (word, stop) at m)
    | inr go ↦ word_more c h e word (skip_word-Matches c d t e (rw (word, go) at m))
  ]
]

skip_spaces-Matches :
    (c h : ℕ) {n : Bytes} (t : Bytes)
    → c ≡ b'~'
    → isspace h ≡ true
    → Matches n (skip_spaces t)
    → Matches (c ∷ n) (h ∷ t)
unfolding skip_spaces
skip_spaces-Matches c h [] e s m = space_stop c h e s m
skip_spaces-Matches c h (k ∷ t) e s m = elim (Bool-cases (isspace k)) [
  | inl space ↦ space_more c h e s (skip_spaces-Matches c k t e space (rw space at m))
  | inr word ↦ space_stop c h e s (rw word at m)
]

-- What a step claims: where the loop goes on, a match there is a match here.
abbrev pub Claims : Bytes → Bytes → Step → Type 0
Claims n t (result r) = r ≡ 0 → Matches n t
Claims n t (next q) = Matches q.needle q.haystack → Matches n t
Claims n t (star q) =
    (Matches q.needle q.haystack → Matches n t) × (Matches n (second q.haystack) → Matches n t)
Claims n t mismatch = Unit

ladder_escaped-Claims :
    (n : Bytes) (h : ℕ) (hs : Bytes) → Claims (b'\\' ∷ n) (h ∷ hs) (ladder true n h hs)
unfolding ladder
ladder_escaped-Claims [] h hs = tt
ladder_escaped-Claims (c ∷ n) h hs = rw (ladder_escaped c n h hs) (
    if_cases (Claims (b'\\' ∷ c ∷ n) (h ∷ hs)) (not (c == h)) (λ p. tt)
      λ p m. rw (eq_of_== c h (ground arith)) (escaped b'\\' h refl m))

ladder-Claims :
    (c : ℕ) (n : Bytes) (h : ℕ) (hs : Bytes)
    → (c == b'\\') ≡ false
    → Claims (c ∷ n) (h ∷ hs) (ladder false (c ∷ n) h hs)
unfolding ladder is_special
ladder-Claims c n h hs e =
    if_cases P (c == b'?' && true) (λ p. any c h (ground arith))
      λ p.
        if_cases P (c == b'*' && true)
          (λ q. (
            skip_to-Matches c (peek n) (h ∷ hs) (ground arith),
            skip_to-retry c (peek n) (h ∷ hs) (ground arith),
          ))
          λ q.
            if_cases P (c == b'%' && true)
              (λ r. skip_word-Matches c (peek n) (h ∷ hs) (ground arith))
              λ r.
                if_cases P (c == b'~' && true)
                  (λ s.
                    if_cases P (isspace h) (λ sp. skip_spaces-Matches c h hs (ground arith) sp)
                      (λ sp z. absurd (omega arith)))
                  λ s.
                    if_cases P (not (c == h)) (λ u. tt)
                      (λ u m. rw (eq_of_== c h (ground arith)) (literal h (ground arith) m))
  where
    P : Step → Type 0
    P = Claims (c ∷ n) (h ∷ hs)

round-Claims : (n t : Bytes) → Claims n t (round false n t)
unfolding round
round-Claims [] [] = λ z. done
round-Claims [] (h ∷ t) = λ z. absurd (omega arith)
round-Claims (c ∷ []) [] = λ z. star_stop c (ground arith) done
round-Claims (c ∷ d ∷ n) [] = λ z. absurd (omega arith)
round-Claims (c ∷ n) (h ∷ t) = elim (Bool-cases (c == b'\\')) [
  | inl esc ↦ rw (esc, eq_of_== c b'\\' esc) (ladder_escaped-Claims n h t)
  | inr plain ↦ rw plain (ladder-Claims c n h t plain)
]

-- In a retry with `escaped` set, the `*` is compared as it stands, which is a match of it too.
retry-Claims : (c : ℕ) (n t : Bytes) → c ≡ b'*' → Claims (c ∷ n) t (round true (c ∷ n) t)
unfolding round
retry-Claims c [] [] e = λ z. absurd (ground arith)
retry-Claims c (d ∷ n) [] e = λ z. absurd (omega arith)
retry-Claims c n (h ∷ t) e =
    let plain : (c == b'\\') ≡ false = ground arith in
    rw (plain, ladder_escaped c n h t)
      (if_cases (Claims (c ∷ n) (h ∷ t)) (not (c == h)) (λ p. tt)
        λ p m. star_more c h e (star_stop c e m))

-- A position from which the rounds are sound: `escaped` is set at the `*` of a retry alone.
abbrev IsSound : Bool → Bytes → Type 0
IsSound e n = (e ≡ false) ⊎ ((m : Bytes) × (n ≡ b'*' ∷ m))

IsSound-Claims : (e : Bool) (n t : Bytes) → IsSound e n → Claims n t (round e n t)
IsSound-Claims e n t (inl p) = rw p (round-Claims n t)
IsSound-Claims true n t (inr (m, q)) = rw q (retry-Claims b'*' m t refl)
IsSound-Claims false n t (inr _) = round-Claims n t

at_cleared :
    (loop : Position → Option ℕ) (q : Position)
    → q.escaped ≡ false
    → loop q ≡ some 0
    → loop (position q.needle q.haystack false) ≡ some 0
at_cleared loop q e z = subst (λ b. loop (position q.needle q.haystack b) ≡ some 0) e z

troll_after-Matches :
    (loop : Position → Option ℕ)
    → ((n t : Bytes) → loop (position n t false) ≡ some 0 → Matches n t)
    → (n t : Bytes) (s : Step) → Claims n t s
    → Shape n t s
    → troll_after loop s ≡ some 0
    → Matches n t
troll_after-Matches loop ih n t (result r) c m z = c (ground arith)
troll_after-Matches loop ih n t (next q) c m z = c (ih _ _ (at_cleared loop q m.cleared z))
troll_after-Matches loop ih n t (star q) c m z = c.0 (ih _ _ (at_cleared loop q m.0.cleared z))
troll_after-Matches loop ih n t mismatch c m z = absurd (ground arith)

troll_loop-Matches :
    (f : ℕ) (n t : Bytes) → troll_loop f (position n t false) ≡ some 0 → Matches n t
unfolding troll_loop
troll_loop-Matches zero n t z = absurd (ground arith)
troll_loop-Matches (suc f) n t z =
    troll_after-Matches (troll_loop f) (troll_loop-Matches f) n t (round false n t)
      (round-Claims n t) (round-Shape false n t) z

-- Whatever `troll_matchwilds` accepts, the mask describes.
pub troll_matchwilds-Matches :
    (haystack needle : Bytes)
    → troll_matchwilds (some haystack) (some needle) ≡ some 0
    → Matches needle haystack
unfolding troll_matchwilds
troll_matchwilds-Matches h n z = troll_loop-Matches _ n h z

module _ (needle haystack : Bytes) where
  -- A retry leads to a match of the whole.
  abbrev RetryLeads : Option Retry → Type 0
  RetryLeads none = Unit
  RetryLeads (some r) =
      (m : Bytes) × (r.lastneedle ≡ b'*' ∷ m)
      × (Matches r.lastneedle r.lasthay → Matches needle haystack)

  -- What is known when a round begins.
  record Leads (p : Position) (last : Option Retry) : Type 0 where
    sound : IsSound p.escaped p.needle
    leads : Matches p.needle p.haystack → Matches needle haystack
    retry : RetryLeads last

  match_after-Matches :
      (loop : Position → Option Retry → Option ℕ)
      → ((p : Position) (last : Option Retry)
          → Leads p last
          → loop p last ≡ some 0
          → Matches needle haystack)
      → (p : Position) (last : Option Retry) (s : Step) → Leads p last
      → Claims p.needle p.haystack s
      → Shape p.needle p.haystack s
      → match_after loop p last s ≡ some 0
      → Matches needle haystack
  match_after-Matches loop ih p last (result r) l c m z = l.leads (c (ground arith))
  match_after-Matches loop ih p last (next q) l c m z =
      ih q last (record { sound = inl m.cleared; leads = λ x. l.leads (c x); retry = l.retry }) z
  match_after-Matches loop ih p last (star q) l c (m, e, _) z =
      ih q _
        (record {
          sound = inl m.cleared;
          leads = λ x. l.leads (c.0 x);
          retry = (q.needle, e, λ x. l.leads (c.1 x));
        })
        z
  match_after-Matches loop ih p none mismatch l c m z = absurd (ground arith)
  match_after-Matches loop ih p (some r) mismatch l c m z =
      ih _ none (record { sound = inr (l.retry.0, l.retry.1); leads = l.retry.2; retry = tt }) z

  match_loop-Matches :
      (f : ℕ) (p : Position) (last : Option Retry)
      → Leads p last
      → match_loop f p last ≡ some 0
      → Matches needle haystack
  unfolding match_loop
  match_loop-Matches zero p last l z = absurd (ground arith)
  match_loop-Matches (suc f) p last l z =
      match_after-Matches (match_loop f) (match_loop-Matches f) p last
        (round p.escaped p.needle p.haystack) l
        (IsSound-Claims p.escaped p.needle p.haystack l.sound)
        (round-Shape p.escaped p.needle p.haystack) z

  -- Whatever `matchwilds` accepts, the mask describes, retries included.
  pub matchwilds-Matches :
      matchwilds (some haystack) (some needle) ≡ some 0 → Matches needle haystack
  unfolding matchwilds
  matchwilds-Matches z =
      match_loop-Matches _ (position needle haystack false) none
        (record { sound = inl refl; leads = λ x. x; retry = tt }) z
