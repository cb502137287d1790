-- ===== src/Irc/Params.antt =====
-- What the loop over the command parameters does on texts made of words.
use trollbot.Prelude.{
  ℕ, ◌≡◌, ◌≢◌, refl, ap, ◌∙◌, Bool, true, false, ◌&&◌, ◌||◌, List, [], ◌∷◌, ◌++◌, Option, none,
  some, arith, ◌==◌, All, Bytes, append_assoc,
}
use trollbot.Irc.{Fields, begin, push, space, next_entry, ends_line, params_loop}
use trollbot.Irc.Loops.{
  is_plain, IsPlain, IsParam, words_after, extend, extend-push, extend-nil, after,
}

params_loop-plain :
    (b : Bool) (f : Option Fields) (c : ℕ) (s : Bytes)
    → is_plain c ≡ true
    → (c == b':' && b) ≡ false
    → params_loop b f (c ∷ s) ≡ params_loop false (some (push c (begin f))) s
unfolding params_loop is_plain
params_loop-plain b f c [] p q =
    let go_on : (ends_line c || (c == b':' && b)) ≡ false = ground arith in
    let no_space : (c == b' ') ≡ false = ground arith in rw (go_on, no_space)
params_loop-plain b f c (d ∷ s) p q =
    let go_on : (ends_line c || (c == b':' && b)) ≡ false = ground arith in
    let no_space : (c == b' ') ≡ false = ground arith in rw (params_loop, go_on, no_space)

params_loop-word :
    (f : Fields) (w s : Bytes)
    → IsPlain w
    → params_loop false (some f) (w ++ s) ≡ params_loop false (some (extend w f)) s
params_loop-word f [] s p = rw (extend-nil f)
params_loop-word f (c ∷ w) s p =
    params_loop-plain false (some f) c (w ++ s) p.0 (ground arith)
    ∙ params_loop-word (push c f) w s p.1
    ∙ ap (λ g. params_loop false (some g) s) (extend-push c w f)

pub params_loop-first :
    (w s : Bytes)
    → IsParam w
    → params_loop true none (w ++ s) ≡ params_loop false (some (extend w (begin none))) s
params_loop-first (c ∷ w) s p =
    params_loop-plain true none c (w ++ s) p.1.0 (ground (arith, p.0))
    ∙ params_loop-word (push c (begin none)) w s p.1.1
params_loop-first [] s p = absurd p

params_loop-next :
    (f : Fields) (d : ℕ) (s : Bytes)
    → is_plain d ≡ true
    → d ≢ b':'
    → params_loop false (some f) (b' ' ∷ d ∷ s) ≡ params_loop false (some (push d (next_entry f))) s
unfolding params_loop is_plain ends_line
params_loop-next f d s p q =
    let go_on : (d == b':' || (d == b'\r' || d == b'\n')) ≡ false = ground arith in
    let no_space : (d == b' ') ≡ false = ground arith in rw (params_loop, go_on, no_space)

pub params_loop-after :
    (ws : List Bytes) (f : Fields) (s : Bytes)
    → All IsParam ws
    → params_loop false (some f) (words_after ws ++ s) ≡ params_loop false (some (after ws f)) s
unfolding words_after
params_loop-after [] f s h = refl
params_loop-after ((c ∷ w) ∷ ws) f s h =
    ap (λ t. params_loop false (some f) (b' ' ∷ c ∷ t)) (append_assoc w (words_after ws) s)
    ∙ params_loop-next f c (w ++ (words_after ws ++ s)) h.0.1.0 h.0.0
    ∙ params_loop-word (push c (next_entry f)) w (words_after ws ++ s) h.0.1.1
    ∙ ap (λ g. params_loop false (some g) (words_after ws ++ s)) (extend-push c w (next_entry f))
    ∙ params_loop-after ws (extend (c ∷ w) (next_entry f)) s h.1
params_loop-after ([] ∷ ws) f s h = absurd h.0

pub params_loop-end :
    (b : Bool) (f : Option Fields) (s : Bytes) → params_loop b f (b'\r' ∷ s) ≡ some (f, b'\r' ∷ s)
unfolding params_loop ends_line
params_loop-end b f [] = refl
params_loop-end b f (d ∷ s) = refl

-- A `:` behind the command, and one behind a space.
pub params_loop-colon : (s : Bytes) → params_loop true none (b':' ∷ s) ≡ some (none, b':' ∷ s)
unfolding params_loop ends_line
params_loop-colon [] = refl
params_loop-colon (d ∷ s) = refl

pub params_loop-space_colon :
    (f : Fields) (s : Bytes)
    → params_loop false (some f) (b' ' ∷ b':' ∷ s) ≡ some (some (space f), b':' ∷ s)
unfolding params_loop ends_line
params_loop-space_colon f s = refl
