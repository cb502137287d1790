-- ===== src/Wildcard.antt =====
-- The wildcard matchers: `troll_matchwilds` of src/troll_lib.c, which the triggers use, and
-- `matchwilds` of src/util.c, which goes back once to the last `*`. A pointer into a text is the
-- rest of the text behind it. Each round of the `while` loop is a step from one position to the
-- next, and a loop runs on fuel.
pub mod Language
pub mod Shape
pub mod Sound
pub mod Total
pub mod Compare
use trollbot.Prelude.{
  ℕ, zero, suc, ◌+◌, ◌*◌, Bool, true, false, ◌&&◌, ◌||◌, not, [], ◌∷◌, Option, none, some, ◌==◌,
  if◌then◌else◌, length, Bytes, peek,
}
use trollbot.Text.{isspace}

-- `needle`, `haystack` and `escaped`.
pub record Position : Type 0 where
  pub needle : Bytes
  pub haystack : Bytes
  pub escaped : Bool

abbrev pub position : Bytes → Bytes → Bool → Position
position n h e = record { needle = n; haystack = h; escaped = e }

-- What one round does: it returns a value, or the loop goes on. `mismatch` is the branch in which
-- the two functions differ.
pub data Step : Type 0 where
  result : ℕ → Step
  next : Position → Step
  star : Position → Step
  mismatch : Step

-- The loop behind `*`: up to the byte that follows the `*` in the needle.
unfoldable pub skip_to : ℕ → Bytes → Bytes
skip_to c [] = []
skip_to c (h ∷ hs) = if h == c then h ∷ hs else skip_to c hs

-- The loop behind `%`: the same, and it stops at white space.
unfoldable pub skip_word : ℕ → Bytes → Bytes
skip_word c [] = []
skip_word c (h ∷ hs) = if isspace h then h ∷ hs else if h == c then h ∷ hs else skip_word c hs

-- The loop behind `~`.
unfoldable pub skip_spaces : Bytes → Bytes
skip_spaces [] = []
skip_spaces (h ∷ hs) = if isspace h then skip_spaces hs else h ∷ hs

-- The ladder of a round at the haystack `h ∷ hs`. A needle that ends behind its backslash stands at
-- NUL, which no byte of the haystack equals.
unfoldable pub ladder : Bool → Bytes → ℕ → Bytes → Step
ladder e [] h hs = mismatch
ladder e (c ∷ n) h hs =
    if c == b'?' && not e
    then next (position n hs e)
    else if c == b'*' && not e
    then star (position n (skip_to (peek n) (h ∷ hs)) e)
    else if c == b'%' && not e
    then next (position n (skip_word (peek n) (h ∷ hs)) e)
    else if c == b'~' && not e
    then (if isspace h then next (position n (skip_spaces hs) e) else result 1)
    else if not (c == h)
    then mismatch
    else next (position n hs false)

-- One round, and what follows the loop when the needle is at its end.
unfoldable pub round : Bool → Bytes → Bytes → Step
round e [] [] = result 0
round e [] (h ∷ hs) = result 1
round e (c ∷ []) [] = result (if c == b'*' && not e then 0 else 1)
round e (c ∷ d ∷ n) [] = result 1
round e (c ∷ n) (h ∷ hs) = if c == b'\\' then ladder true n h hs else ladder e (c ∷ n) h hs

-- How `troll_matchwilds` goes on behind a round.
abbrev pub troll_after : (Position → Option ℕ) → Step → Option ℕ
troll_after loop (result r) = some r
troll_after loop (next q) = loop q
troll_after loop (star q) = loop q
troll_after loop mismatch = some 1

-- The loop of `troll_matchwilds`; `none` means that the fuel ran out.
unfoldable pub troll_loop : ℕ → Position → Option ℕ
troll_loop zero p = none
troll_loop (suc f) p = troll_after (troll_loop f) (round p.escaped p.needle p.haystack)

troll_texts : Bytes → Bytes → Option ℕ
troll_texts haystack needle = troll_loop (length needle + 1) (position needle haystack false)

-- `troll_matchwilds(haystack, needle)`: 0 for a match. NULL is `none`.
unfoldable pub troll_matchwilds : Option Bytes → Option Bytes → Option ℕ
unfolding troll_texts
troll_matchwilds (some haystack) (some needle) = troll_texts haystack needle
troll_matchwilds none _ = some 1
troll_matchwilds _ _ = some 1

-- `&haystack[1]`. Past the NUL it is never read: the round behind such a `*` returns.
abbrev pub second : Bytes → Bytes
second [] = []
second (h ∷ hs) = hs

-- `lastneedle` and `lasthay`, if they are set.
pub record Retry : Type 0 where
  pub lastneedle : Bytes
  pub lasthay : Bytes

-- How `matchwilds` goes on behind a round at the needle `n`: `*` sets the retry, and a mismatch
-- uses it up. `escaped` stays as it is there: set, where the byte that failed stood behind a
-- backslash.
abbrev pub match_after :
    (Position → Option Retry → Option ℕ) → Position → Option Retry → Step → Option ℕ
match_after loop p last (result r) = some r
match_after loop p last (next q) = loop q last
match_after loop p last (star q) =
    loop q (some (record { lastneedle = p.needle; lasthay = second q.haystack }))
match_after loop p none mismatch = some 1
match_after loop p (some r) mismatch =
    loop (position r.lastneedle r.lasthay (peek p.needle == b'\\' || p.escaped)) none

-- The loop of `matchwilds`.
unfoldable pub match_loop : ℕ → Position → Option Retry → Option ℕ
match_loop zero p last = none
match_loop (suc f) p last = match_after (match_loop f) p last (round p.escaped p.needle p.haystack)

match_texts : Bytes → Bytes → Option ℕ
match_texts haystack needle =
    match_loop ((length haystack + 2) * (length needle + 1)) (position needle haystack false) none

-- `matchwilds(haystack, needle)`.
unfoldable pub matchwilds : Option Bytes → Option Bytes → Option ℕ
unfolding match_texts
matchwilds (some haystack) (some needle) = match_texts haystack needle
matchwilds none _ = some 1
matchwilds _ _ = some 1
