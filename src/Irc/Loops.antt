-- ===== src/Irc/Loops.antt =====
-- What the two loops of the parser do on texts made of words.
use trollbot.Prelude.{
  appends, ℕ, ◌≡◌, ◌≢◌, refl, sym, ap, ◌∙◌, Bool, true, false, ◌||◌, not, List, [], ◌∷◌, ◌++◌,
  Option, none, some, arith, ◌==◌, All, Bytes, append_assoc, append-nil,
}
use trollbot.Text.{has_byte}
use trollbot.Irc.{Fields, begin, push, next_entry, ends_line, rest_loop, copy_until}

-- A byte that may stand in a word.
unfoldable pub is_plain : ℕ → Bool
unfolding ends_line
is_plain c = not (c == b' ' || ends_line c)

abbrev pub IsPlain : Bytes → Type 0
IsPlain = All (λ c. is_plain c ≡ true)

-- At least one byte, all of them plain.
abbrev pub IsWord : Bytes → Type 0
IsWord [] = ⊥
IsWord (c ∷ w) = IsPlain (c ∷ w)

-- A word that does not begin with `:`.
abbrev pub IsParam : Bytes → Type 0
IsParam [] = ⊥
IsParam (c ∷ w) = (c ≢ b':') × IsPlain (c ∷ w)

-- Words with a space before each.
unfoldable pub words_after : List Bytes → Bytes
words_after [] = []
words_after (w ∷ ws) = b' ' ∷ (w ++ words_after ws)

-- Words with a space between each two.
unfoldable pub words : List Bytes → Bytes
unfolding words_after
words [] = []
words (w ∷ ws) = w ++ words_after ws

abbrev pub extend : Bytes → Fields → Fields
extend w f = record { done = f.done; current = f.current ++ w; text = f.text ++ w }

-- The fields after more words.
abbrev pub after : List Bytes → Fields → Fields
after [] f = f
after (w ∷ ws) f = after ws (extend w (next_entry f))

pub extend-push : (c : ℕ) (w : Bytes) (f : Fields) → extend w (push c f) ≡ extend (c ∷ w) f
extend-push c w f = simp (appends)

pub extend-nil : (f : Fields) → extend [] f ≡ f
extend-nil f = simp (appends)

pub after-done :
    (ws : List Bytes) (f : Fields)
    → (after ws f).done ++ (after ws f).current ∷ [] ≡ f.done ++ f.current ∷ ws
after-done [] f = refl
after-done (w ∷ ws) f =
    after-done ws (extend w (next_entry f)) ∙ append_assoc f.done (f.current ∷ []) (w ∷ ws)

pub after-text : (ws : List Bytes) (f : Fields) → (after ws f).text ≡ f.text ++ words_after ws
unfolding words_after
after-text [] f = sym (append-nil f.text)
after-text (w ∷ ws) f = after-text ws (extend w (next_entry f)) ∙ simp (appends)

pub copy_until-stop :
    (stop : ℕ) (w s : Bytes)
    → has_byte stop w ≡ false
    → copy_until stop (w ++ stop ∷ s) ≡ some (w, s)
unfolding copy_until has_byte
copy_until-stop stop [] s h = ground arith
copy_until-stop stop (c ∷ w) s h =
    let miss : (c == stop) ≡ false = ground arith in
    let later : has_byte stop w ≡ false = ground arith in rw (miss, copy_until-stop stop w s later)

-- `rest_loop`
rest_loop-plain :
    (f : Option Fields) (c : ℕ) (s : Bytes)
    → is_plain c ≡ true
    → rest_loop f (c ∷ s) ≡ rest_loop (some (push c (begin f))) s
unfolding rest_loop is_plain
rest_loop-plain f c [] p =
    let go_on : ends_line c ≡ false = ground arith in
    let no_space : (c == b' ') ≡ false = ground arith in rw (go_on, no_space)
rest_loop-plain f c (d ∷ s) p =
    let go_on : ends_line c ≡ false = ground arith in
    let no_space : (c == b' ') ≡ false = ground arith in rw (rest_loop, go_on, no_space)

rest_loop-word :
    (f : Fields) (w s : Bytes)
    → IsPlain w
    → rest_loop (some f) (w ++ s) ≡ rest_loop (some (extend w f)) s
rest_loop-word f [] s p = rw (extend-nil f)
rest_loop-word f (c ∷ w) s p =
    rest_loop-plain (some f) c (w ++ s) p.0
    ∙ rest_loop-word (push c f) w s p.1
    ∙ ap (λ g. rest_loop (some g) s) (extend-push c w f)

pub rest_loop-first :
    (w s : Bytes) → IsWord w → rest_loop none (w ++ s) ≡ rest_loop (some (extend w (begin none))) s
rest_loop-first (c ∷ w) s p =
    rest_loop-plain none c (w ++ s) p.0 ∙ rest_loop-word (push c (begin none)) w s p.1
rest_loop-first [] s p = absurd p

rest_loop-next :
    (f : Fields) (d : ℕ) (s : Bytes)
    → is_plain d ≡ true
    → rest_loop (some f) (b' ' ∷ d ∷ s) ≡ rest_loop (some (push d (next_entry f))) s
unfolding rest_loop is_plain ends_line
rest_loop-next f d s p =
    let go_on : (d == b'\r' || d == b'\n') ≡ false = ground arith in rw (rest_loop, go_on)

pub rest_loop-after :
    (ws : List Bytes) (f : Fields) (s : Bytes)
    → All IsWord ws
    → rest_loop (some f) (words_after ws ++ s) ≡ rest_loop (some (after ws f)) s
unfolding words_after
rest_loop-after [] f s h = refl
rest_loop-after ((c ∷ w) ∷ ws) f s h =
    ap (λ t. rest_loop (some f) (b' ' ∷ c ∷ t)) (append_assoc w (words_after ws) s)
    ∙ rest_loop-next f c (w ++ (words_after ws ++ s)) h.0.0
    ∙ rest_loop-word (push c (next_entry f)) w (words_after ws ++ s) h.0.1
    ∙ ap (λ g. rest_loop (some g) (words_after ws ++ s)) (extend-push c w (next_entry f))
    ∙ rest_loop-after ws (extend (c ∷ w) (next_entry f)) s h.1
rest_loop-after ([] ∷ ws) f s h = absurd h.0

pub rest_loop-end : (f : Option Fields) (s : Bytes) → rest_loop f (b'\r' ∷ s) ≡ f
unfolding rest_loop ends_line
rest_loop-end f [] = refl
rest_loop-end f (d ∷ s) = refl
