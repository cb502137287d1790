-- ===== src/Tests/Text.antt =====
-- The string routines at concrete texts.
use trollbot.Prelude.{◌≡◌, refl, [], ◌∷◌, ◌++◌, some, true, ◌+◌, codes}
use trollbot.Text.{
  tolower, tstrcasecmp, is_blank, skip_blanks, count_breaks, take_word, drop_word, copy_words,
  tssv_split,
}
use trollbot.Text.Split.{IsRun, nil, cons, Laid, last, more, trailing, array_of, tssv_split-Laid}

tstrcasecmp_cases :
    (tstrcasecmp (codes "Nick[A]") (codes "nICK[a]") ≡ 0)
    × (tstrcasecmp (codes "ab") (codes "abc") ≡ 1)
unfolding tstrcasecmp tolower
tstrcasecmp_cases = (refl, refl)

tssv_split_two : tssv_split (codes " ab\tc ") ≡ some (array_of (codes "ab" ∷ codes "c" ∷ [] ∷ []))
unfolding tssv_split skip_blanks is_blank count_breaks copy_words take_word drop_word
tssv_split_two = refl

space : IsRun true (codes " ")
unfolding is_blank
space = cons b' ' refl nil

ab_c : Laid (codes "ab\tc") (codes "ab" ∷ codes "c" ∷ [])
unfolding is_blank
ab_c = more b'a' b'\t' refl (cons b'b' refl nil) refl nil (last b'c' refl nil)

tssv_split-Laid_example :
    (tssv_split (codes " " ++ (codes "ab\tc" ++ codes " "))
      ≡ some (array_of ((codes "ab" ∷ codes "c" ∷ []) ++ trailing (codes " "))))
    × ((array_of ((codes "ab" ∷ codes "c" ∷ []) ++ trailing (codes " "))).written
        ≡ (array_of ((codes "ab" ∷ codes "c" ∷ []) ++ trailing (codes " "))).allocated + 7)
tssv_split-Laid_example = tssv_split-Laid (codes " ") (codes "ab\tc") (codes " ") _ space ab_c space
