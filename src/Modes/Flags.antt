-- ===== src/Modes/Flags.antt =====
-- What `+o`, `+v`, `-o` and `-v` do to the modes of one user.
use trollbot.Prelude.{
  ◌>>=◌, ℕ, ◌+◌, ◌-◌, ◌≡◌, ◌≢◌, ◌↔◌, refl, sym, ap, subst, ◌∙◌, Bool, true, false, ◌||◌, List, [],
  ◌∷◌, ◌++◌, Option, none, some, arith, ltb, ◌==◌, All, length, length-append, suc-add,
  append_assoc, Bytes, if_cases, ==_refl,
}
use trollbot.Text.{has_byte}
use trollbot.Modes.{
  text_of, resize, clear, poke, tcrealloc0, grow_modes, replace_first, give, revoke,
}

-- A C string has no NUL in it.
abbrev pub NoNul : Bytes → Type 0
NoNul = All (λ c. c ≢ 0)

has_byte-append : (c : ℕ) (s t : Bytes) → has_byte c (s ++ t) ≡ (has_byte c s || has_byte c t)
unfolding has_byte
has_byte-append c [] t = refl
has_byte-append c (a ∷ s) t = ground (arith, has_byte-append c s t)

resize-append :
    (junk : ℕ) (m : Bytes) → resize junk (length m + 2) (m ++ 0 ∷ []) ≡ m ++ 0 ∷ junk ∷ []
unfolding resize
resize-append junk [] = refl
resize-append junk (c ∷ m) = rw suc-add (ap (◌∷◌ c) (resize-append junk m))

clear_at : (m : Bytes) (x y z : ℕ) → clear (length m) 2 (m ++ x ∷ y ∷ z ∷ []) ≡ m ++ 0 ∷ 0 ∷ z ∷ []
unfolding clear
clear_at [] x y z = refl
clear_at (c ∷ m) x y z = ap (◌∷◌ c) (clear_at m x y z)

text_of_at : (m s : Bytes) → NoNul m → text_of (m ++ 0 ∷ s) ≡ m
unfolding text_of
text_of_at [] s n = refl
text_of_at (c ∷ m) s n = ground (arith, text_of_at m s n.1)

poke_at : (m s : Bytes) (x c : ℕ) → poke (length m) c (m ++ x ∷ s) ≡ m ++ c ∷ s
unfolding poke
poke_at [] s x c = refl
poke_at (b ∷ m) s x c = ap (◌∷◌ b) (poke_at m s x c)

text_of_end :
    (m : Bytes) (c : ℕ) (s : List ℕ) → NoNul m → c ≢ 0 → text_of (m ++ c ∷ 0 ∷ s) ≡ m ++ c ∷ []
unfolding text_of
text_of_end [] c s n nz = ground arith
text_of_end (b ∷ m) c s n nz = ground (arith, text_of_end m c s n.1 nz)

tcrealloc0-cut :
    (junk : ℕ) (m : Bytes) (x : ℕ)
    → tcrealloc0 junk ((m ++ x ∷ []) ++ 0 ∷ []) (length (m ++ x ∷ []) + 2) (length (m ++ x ∷ []))
      ≡ some (m ++ 0 ∷ 0 ∷ junk ∷ [])
unfolding tcrealloc0
tcrealloc0-cut junk m x =
    let n = length (m ++ x ∷ []) in
    let count : n ≡ length m + 1 = omega (arith, length-append m (x ∷ [])) in
    let grows : ltb n (n + 2) ≡ true = ground arith in
    let some_text : (n == 0) ≡ false = ground (arith, count) in
    let from : n - 1 ≡ length m = omega (arith, count) in
    let bytes : n + 2 - n ≡ 2 = omega arith in
    rw (
      grows,
      some_text,
      from,
      bytes,
      resize-append junk (m ++ x ∷ []),
      append_assoc m (x ∷ []) (0 ∷ junk ∷ []),
      clear_at m x 0 junk,
    )

-- Adding a mode where the modes have no space left overwrites the last one.
pub grow_modes_lem :
    (junk c : ℕ) (m : Bytes) (x : ℕ)
    → NoNul m
    → c ≢ 0
    → grow_modes junk c (m ++ x ∷ []) ≡ some (m ++ c ∷ [])
unfolding grow_modes
grow_modes_lem junk c m x n nz =
    rw (tcrealloc0-cut junk m x, text_of_at m (0 ∷ junk ∷ []) n, poke_at m (0 ∷ junk ∷ []) 0 c)
      (ap some (text_of_end m c (junk ∷ []) n nz))

has_replace_first :
    (a b : ℕ) (s : Bytes) → has_byte a s ≡ true → has_byte b (replace_first a b s) ≡ true
unfolding has_byte replace_first
has_replace_first a b [] h = absurd (ground arith)
has_replace_first a b (c ∷ s) h = ground (arith, has_replace_first a b s, ==_refl b)

has_replace_other :
    (a b d : ℕ) (s : Bytes) → d ≢ a → d ≢ b → has_byte d (replace_first a b s) ≡ has_byte d s
unfolding has_byte replace_first
has_replace_other a b d [] p q = refl
has_replace_other a b d (c ∷ s) p q = ground (arith, has_replace_other a b d s p q)

-- The modes of a user: NULL, or a text with at least one byte.
abbrev pub IsModes : Option Bytes → Type 0
IsModes none = Unit
IsModes (some []) = ⊥
IsModes (some (c ∷ m)) = NoNul (c ∷ m)

abbrev pub HasMode : ℕ → Option Bytes → Type 0
HasMode c none = ⊥
HasMode c (some m) = has_byte c m ≡ true

record Last (m : Bytes) : Type 0 where
  init : Bytes
  end : ℕ
  is : m ≡ init ++ end ∷ []
  no_nul : NoNul init

NoNul-Last : (c : ℕ) (m : Bytes) → NoNul (c ∷ m) → Last (c ∷ m)
NoNul-Last c [] n = record { init = []; end = c; is = refl; no_nul = tt }
NoNul-Last c (d ∷ m) n =
    let l = NoNul-Last d m n.1 in
    record { init = c ∷ l.init; end = l.end; is = ap (◌∷◌ c) l.is; no_nul = (n.0, l.no_nul) }

IsModes-append : (m : Bytes) (c : ℕ) → NoNul m → c ≢ 0 → IsModes (some (m ++ c ∷ []))
IsModes-append [] c n nz = (nz, tt)
IsModes-append (b ∷ m) c n nz = (n.0, all m n.1)
  where
    all : (m : Bytes) → NoNul m → NoNul (m ++ c ∷ [])
    all [] n = (nz, tt)
    all (b ∷ m) n = (n.0, all m n.1)

NoNul-replace_first : (a b : ℕ) (m : Bytes) → b ≢ 0 → NoNul m → NoNul (replace_first a b m)
unfolding replace_first
NoNul-replace_first a b [] nz n = tt
NoNul-replace_first a b (c ∷ m) nz n =
    if_cases NoNul (c == a) (λ p. (nz, n.1)) λ p. (n.0, NoNul-replace_first a b m nz n.1)

IsModes-replace_first :
    (a b : ℕ) (m : Bytes) → b ≢ 0 → IsModes (some m) → IsModes (some (replace_first a b m))
unfolding replace_first
IsModes-replace_first a b (c ∷ m) nz n =
    if_cases (λ s. IsModes (some s)) (c == a) (λ p. (nz, n.1))
      λ p. (n.0, NoNul-replace_first a b m nz n.1)
IsModes-replace_first a b [] nz n = n

-- A mode is given, and the modes are a text again.
abbrev pub Given : ℕ → Option (Option Bytes) → Type 0
Given c none = ⊥
Given c (some m) = IsModes m × HasMode c m

grown-Given :
    (junk c : ℕ) (s : Bytes)
    → c ≢ 0
    → Last s
    → Given c (grow_modes junk c s >>= λ m'. some (some m'))
grown-Given junk c s nz l =
    subst (λ t. Given c (grow_modes junk c t >>= λ m'. some (some m'))) (sym l.is)
      (rw (grow_modes_lem junk c l.init l.end l.no_nul nz) (
        IsModes-append l.init c l.no_nul nz,
        has_byte-append c l.init (c ∷ []) ∙ found (has_byte c l.init),
      ))
  where
    found : (b : Bool) → (b || has_byte c (c ∷ [])) ≡ true
    found b = unfold has_byte in ground (arith, ==_refl c)

-- `+o` or `+v` on a user with well-formed modes makes no fault, gives the mode, and leaves
-- well-formed modes.
pub give-Given :
    (junk c : ℕ) (modes : Option Bytes) → c ≢ 0 → IsModes modes → Given c (give junk c modes)
unfolding give has_byte
give-Given junk c none nz n = ((nz, tt), ground (arith, ==_refl c))
give-Given junk c (some []) nz n = absurd n
give-Given junk c (some (b ∷ m)) nz n =
    if_cases (Given c) (has_byte c (b ∷ m)) (λ h. (n, h))
      λ h.
        if_cases (Given c) (has_byte b' ' (b ∷ m))
          (λ sp. (IsModes-replace_first b' ' c (b ∷ m) nz n, has_replace_first b' ' c (b ∷ m) sp))
          λ sp. grown-Given junk c (b ∷ m) nz (NoNul-Last b m n)

-- `-o` or `-v` leaves well-formed modes, and every other mode as it was.
pub revoke-IsModes :
    (c d : ℕ) (modes : Option Bytes)
    → IsModes modes
    → d ≢ c
    → d ≢ b' '
    → IsModes (revoke c modes) × (HasMode d modes ↔ HasMode d (revoke c modes))
unfolding revoke
revoke-IsModes c d none n p q = (tt, ((λ x. x), λ x. x))
revoke-IsModes c d (some m) n p q = (
  IsModes-replace_first c b' ' m (omega arith) n,
  ((λ x. has_replace_other c b' ' d m p q ∙ x), λ x. sym (has_replace_other c b' ' d m p q) ∙ x),
)

-- Where the modes of a user, of which there is at least one, hold no space and not yet the mode
-- `c`, giving `c` puts it in the place of the last mode, which is lost.
pub give_overwrites :
    (junk c : ℕ) (m : Bytes) (x : ℕ)
    → NoNul m
    → c ≢ 0
    → has_byte c (m ++ x ∷ []) ≡ false
    → has_byte b' ' (m ++ x ∷ []) ≡ false
    → give junk c (some (m ++ x ∷ [])) ≡ some (some (m ++ c ∷ []))
unfolding give
give_overwrites junk c m x n nz h sp = rw (h, sp, grow_modes_lem junk c m x n nz)
