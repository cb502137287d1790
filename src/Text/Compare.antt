-- ===== src/Text/Compare.antt =====
-- `tstrcasecmp` compares texts up to the case of ASCII letters, `tstrncasecmp` in whole.
use trollbot.Prelude.{ℕ, zero, suc, ◌≤◌, ◌≡◌, ◌↔◌, true, [], ◌∷◌, map, arith, length, Bytes}
use trollbot.Text.{tolower, str_eq, tstrcasecmp, tstrncasecmp}

pub str_eq_iff : (s t : Bytes) → (str_eq s t ≡ true) ↔ (s ≡ t)
unfolding str_eq
str_eq_iff (a ∷ s) (b ∷ t) = ground (arith, str_eq_iff s t)
str_eq_iff _ _ = ground arith

-- `tstrcasecmp` returns 0 exactly for texts that are equal once every letter is lower case.
pub tstrcasecmp_iff : (s t : Bytes) → (tstrcasecmp s t ≡ 0) ↔ (map tolower s ≡ map tolower t)
unfolding tstrcasecmp
tstrcasecmp_iff [] [] = ground arith
tstrcasecmp_iff [] (b ∷ t) = ground arith
tstrcasecmp_iff (a ∷ s) [] = ground arith
tstrcasecmp_iff (a ∷ s) (b ∷ t) = ground (arith, tstrcasecmp_iff s t)

-- `tstrncasecmp` returns 0 exactly where `tstrcasecmp` does and the first text has at most
-- `check_size` bytes: the count does not end the comparison, it makes longer texts differ.
pub tstrncasecmp_iff :
    (s t : Bytes) (n : ℕ) → (tstrncasecmp s t n ≡ 0) ↔ ((tstrcasecmp s t ≡ 0) × (length s ≤ n))
unfolding tstrncasecmp tstrcasecmp
tstrncasecmp_iff [] [] n = ground arith
tstrncasecmp_iff [] (b ∷ t) n = ground arith
tstrncasecmp_iff (a ∷ s) t zero = ground arith
tstrncasecmp_iff (a ∷ s) [] (suc n) = ground arith
tstrncasecmp_iff (a ∷ s) (b ∷ t) (suc n) = ground (arith, tstrncasecmp_iff s t n)
