-- ===== src/Tests/Wildcard.antt =====
-- The wildcard matchers at concrete masks.
use trollbot.Prelude.{◌≡◌, ◌↔◌, refl, none, some, true, false, Bytes, codes}
use trollbot.Text.{isspace}
use trollbot.Wildcard.{
  skip_to, skip_word, skip_spaces, ladder, round, troll_loop, troll_matchwilds, match_loop,
  matchwilds,
}
use trollbot.Wildcard.Language.{is_special, Matches}
use trollbot.Wildcard.Sound.{matchwilds-Matches}
use trollbot.Wildcard.Total.{IsFlag, matchwilds-IsFlag}
use trollbot.Wildcard.Compare.{is_fixed, troll_matchwilds_fixed, troll_matchwilds-matchwilds}

abbrev mask : Bytes
mask = codes "#c *!?e@%.org"

abbrev who : Bytes
who = codes "#c nick!me@host.org"

runs :
    (troll_matchwilds (some who) (some mask) ≡ some 0)
    × (troll_matchwilds (some (codes "aab")) (some (codes "*ab")) ≡ some 1)
    × (matchwilds (some (codes "aab")) (some (codes "*ab")) ≡ some 0)
    × (troll_matchwilds (some (codes "a b")) (some (codes "%b")) ≡ some 1)
    × (troll_matchwilds (some (codes "a  b")) (some (codes "a~b")) ≡ some 0)
    × (troll_matchwilds (some (codes "a?")) (some (codes "a\\?")) ≡ some 0)
    × (troll_matchwilds none (some mask) ≡ some 1)
unfolding troll_matchwilds troll_loop matchwilds match_loop round ladder skip_to skip_word
    skip_spaces isspace
runs = (refl, refl, refl, refl, refl, refl, refl)

matchwilds-Matches_example : Matches (codes "*ab") (codes "aab")
matchwilds-Matches_example = matchwilds-Matches (codes "*ab") (codes "aab") runs.2

matchwilds-IsFlag_example : IsFlag (matchwilds (some (codes "aabab")) (some (codes "*ab?*b")))
matchwilds-IsFlag_example = matchwilds-IsFlag (some (codes "aabab")) (some (codes "*ab?*b"))

fixed : is_fixed (codes "a?\\*") ≡ true
unfolding is_fixed
fixed = refl

troll_matchwilds_fixed_example :
    (troll_matchwilds (some (codes "ab*")) (some (codes "a?\\*")) ≡ some 0)
    ↔ Matches (codes "a?\\*") (codes "ab*")
troll_matchwilds_fixed_example = troll_matchwilds_fixed (codes "ab*") (codes "a?\\*") fixed

troll_matchwilds-matchwilds_example : matchwilds (some who) (some mask) ≡ some 0
troll_matchwilds-matchwilds_example = troll_matchwilds-matchwilds who mask runs.0

plain_a : is_special b'a' ≡ false
unfolding is_special
plain_a = refl

plain_b : is_special b'b' ≡ false
unfolding is_special
plain_b = refl
