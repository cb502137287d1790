-- ===== src/Text/Split.antt =====
-- `tssv_split` on texts that are laid out as words with runs of separators between them.
use trollbot.Prelude.{
  ℕ, suc, ◌+◌, ◌≡◌, refl, sym, ap, ◌∙◌, Bool, true, false, not, ◌&&◌, List, [], ◌∷◌, ◌++◌, none,
  some, arith, if◌then◌else◌, length, length-append, suc-add, ◌*◌, Bytes, append_assoc, append-nil,
}
use trollbot.Text.{
  is_blank, skip_blanks, count_breaks, take_word, drop_word, copy_words, PointerArray, split_into,
  pointer_size, split_text, tssv_split,
}

-- Bytes that are all separators, or none of them one.
pub data IsRun (b : Bool) : Bytes → Type 0 where
  nil : IsRun b []
  cons : {s : Bytes} (c : ℕ) → is_blank c ≡ b → IsRun b s → IsRun b (c ∷ s)

-- A text that begins and ends with a word, and its words.
pub data Laid : Bytes → List Bytes → Type 0 where
  last : {w : Bytes} (c : ℕ) → is_blank c ≡ false → IsRun false w → Laid (c ∷ w) ((c ∷ w) ∷ [])
  more :
      {w g s : Bytes} {ws : List Bytes} (c d : ℕ)
      → is_blank c ≡ false
      → IsRun false w
      → is_blank d ≡ true
      → IsRun true g
      → Laid s ws
      → Laid (c ∷ (w ++ (d ∷ (g ++ s)))) ((c ∷ w) ∷ ws)

skip_blanks-gap : {g : Bytes} (s : Bytes) → IsRun true g → skip_blanks (g ++ s) ≡ skip_blanks s
unfolding skip_blanks
skip_blanks-gap s nil = refl
skip_blanks-gap s (cons c e r) = rw e (skip_blanks-gap s r)

skip_blanks-run : {g : Bytes} → IsRun true g → skip_blanks g ≡ []
unfolding skip_blanks
skip_blanks-run nil = refl
skip_blanks-run (cons c e r) = rw e (skip_blanks-run r)

skip_blanks-Laid :
    {s : Bytes} {ws : List Bytes} (t : Bytes) → Laid s ws → skip_blanks (s ++ t) ≡ s ++ t
unfolding skip_blanks
skip_blanks-Laid t (last c e r) = rw e
skip_blanks-Laid t (more c d e r f g l) = rw e

-- A text at which a word ends: its end, or a separator.
abbrev EndsWord : Bytes → Type 0
EndsWord [] = Unit
EndsWord (c ∷ s) = is_blank c ≡ true

EndsWord-run : {g : Bytes} → IsRun true g → EndsWord g
EndsWord-run nil = tt
EndsWord-run (cons c e r) = e

take_word-append : {w : Bytes} (s : Bytes) → IsRun false w → EndsWord s → take_word (w ++ s) ≡ w
unfolding take_word
take_word-append [] nil h = refl
take_word-append (c ∷ s) nil h = rw h
take_word-append s (cons c e r) h = rw (e, take_word-append s r h)

drop_word-append : {w : Bytes} (s : Bytes) → IsRun false w → EndsWord s → drop_word (w ++ s) ≡ s
unfolding drop_word
drop_word-append [] nil h = refl
drop_word-append (c ∷ s) nil h = rw h
drop_word-append s (cons c e r) h = rw e (drop_word-append s r h)

copy_words-word :
    {w : Bytes} (n : ℕ) (s : Bytes)
    → IsRun false w
    → EndsWord s
    → copy_words (suc n) (w ++ s) ≡ w ∷ copy_words n (skip_blanks s)
unfolding copy_words
copy_words-word n s r h = rw (take_word-append s r h, drop_word-append s r h)

-- A byte of a word, and a separator in front of a run or in it.
count_breaks_byte :
    (b : Bool) (n c : ℕ) (s : Bytes)
    → is_blank c ≡ false
    → count_breaks b n (c ∷ s) ≡ count_breaks false n s
unfolding count_breaks
count_breaks_byte b n c s e = ap (λ x. count_breaks x (if x && not b then n + 1 else n) s) e

count_breaks_break :
    (b : Bool) (n c : ℕ) (s : Bytes)
    → is_blank c ≡ true
    → count_breaks b n (c ∷ s) ≡ count_breaks true (if not b then n + 1 else n) s
unfolding count_breaks
count_breaks_break b n c s e = ap (λ x. count_breaks x (if x && not b then n + 1 else n) s) e

count_breaks-word :
    {w : Bytes} (n : ℕ) (s : Bytes)
    → IsRun false w
    → count_breaks false n (w ++ s) ≡ count_breaks false n s
count_breaks-word n s nil = refl
count_breaks-word n s (cons {s = w} c e r) =
    count_breaks_byte false n c (w ++ s) e ∙ count_breaks-word n s r

count_breaks-gap :
    {g : Bytes} (n : ℕ) (s : Bytes)
    → IsRun true g
    → count_breaks true n (g ++ s) ≡ count_breaks true n s
count_breaks-gap n s nil = refl
count_breaks-gap n s (cons {s = g} c e r) =
    count_breaks_break true n c (g ++ s) e ∙ count_breaks-gap n s r

-- The entries that separators behind the last word add: one, and it is empty.
abbrev pub trailing : Bytes → List Bytes
trailing [] = []
trailing (c ∷ g) = [] ∷ []

count_breaks_tail :
    {g : Bytes} (n : ℕ) → IsRun true g → count_breaks false n g ≡ n + length (trailing g)
unfolding count_breaks
count_breaks_tail n nil = omega arith
count_breaks_tail n (cons {s} c e r) =
    count_breaks_break false n c s e
    ∙ ap (count_breaks true (n + 1)) (sym (append-nil s))
    ∙ count_breaks-gap (n + 1) [] r

count_breaks-Laid :
    {s g : Bytes} {ws : List Bytes} (b : Bool) (n : ℕ)
    → Laid s ws
    → IsRun true g
    → count_breaks b n (s ++ g) + 1 ≡ n + (length ws + length (trailing g))
count_breaks-Laid {g} b n (last {w} c e r) t =
    omega
      (arith, count_breaks_byte b n c (w ++ g) e, count_breaks-word n g r, count_breaks_tail n t)
count_breaks-Laid {g} b n (more {w} {g = k} {s} c d e r f k_run l) t =
    rw (append_assoc w (d ∷ (k ++ s)) g, append_assoc k s g)
      (omega (
        arith,
        count_breaks_byte b n c (w ++ (d ∷ (k ++ (s ++ g)))) e,
        count_breaks-word n (d ∷ (k ++ (s ++ g))) r,
        count_breaks_break false n d (k ++ (s ++ g)) f,
        count_breaks-gap (n + 1) (s ++ g) k_run,
        count_breaks-Laid true (n + 1) l t,
      ))

one-add : (n : ℕ) → 1 + n ≡ suc n
one-add n = omega arith

copy_words_tail : {g : Bytes} → IsRun true g → copy_words (length (trailing g)) [] ≡ trailing g
unfolding copy_words take_word
copy_words_tail nil = refl
copy_words_tail (cons c e r) = refl

copy_words-Laid :
    {s g : Bytes} {ws : List Bytes}
    → Laid s ws
    → IsRun true g
    → copy_words (length ws + length (trailing g)) (s ++ g) ≡ ws ++ trailing g
copy_words-Laid {g} (last {w} c e r) t =
    rw
      (
        one-add (length (trailing g)),
        copy_words-word _ g (cons c e r) (EndsWord-run t),
        skip_blanks-run t,
      )
      (ap (◌∷◌ (c ∷ w)) (copy_words_tail t))
copy_words-Laid {g} (more {w} {g = k} {s} {ws} c d e r f k_run l) t =
    rw
      (
        suc-add,
        append_assoc w (d ∷ (k ++ s)) g,
        append_assoc k s g,
        copy_words-word _ (d ∷ (k ++ (s ++ g))) (cons c e r) f,
        skip_blanks-gap (s ++ g) (cons d f k_run),
        skip_blanks-Laid g l,
      )
      (ap (◌∷◌ (c ∷ w)) (copy_words-Laid l t))

split_text_word :
    {s : Bytes} {ws : List Bytes} (g : Bytes)
    → Laid s ws
    → split_text (s ++ g) ≡ some (split_into (count_breaks false 0 (s ++ g) + 1) (s ++ g))
unfolding split_text
split_text_word g (last c e r) = refl
split_text_word g (more c d e r f k l) = refl

-- The array of these entries.
abbrev pub array_of : List Bytes → PointerArray
array_of ws = record {
  entries = ws;
  allocated = pointer_size * length ws + 1;
  written = pointer_size * (length ws + 1);
}

split_text-Laid :
    {s g : Bytes} {ws : List Bytes}
    → Laid s ws
    → IsRun true g
    → split_text (s ++ g) ≡ some (array_of (ws ++ trailing g))
split_text-Laid {s} {g} {ws} l t =
    let sum : length ws + length (trailing g) ≡ length (ws ++ trailing g) =
      sym (length-append ws (trailing g)) in
    let count : count_breaks false 0 (s ++ g) + 1 ≡ length ws + length (trailing g) =
      omega (arith, count_breaks-Laid false 0 l t) in
    split_text_word g l
    ∙ ap (λ n. some (split_into n (s ++ g))) count
    ∙ ap some (rw (copy_words-Laid l t, sum) refl)

-- A text of separators only has no entries.
pub tssv_split_blank : (s : Bytes) → IsRun true s → tssv_split s ≡ none
unfolding tssv_split
tssv_split_blank s r = rw (skip_blanks-run r)

-- `tssv_split` returns the words of a text, whatever runs of separators stand before and between
-- them; separators behind the last word add one empty entry. With pointers of 8 bytes it allocates
-- one byte more than the entries take, and writes the pointer NULL behind them: 7 bytes behind the
-- allocation, for every such text.
pub tssv_split-Laid :
    (lead s g : Bytes) (ws : List Bytes)
    → IsRun true lead
    → Laid s ws
    → IsRun true g
    → (tssv_split (lead ++ (s ++ g)) ≡ some (array_of (ws ++ trailing g)))
      × ((array_of (ws ++ trailing g)).written ≡ (array_of (ws ++ trailing g)).allocated + 7)
unfolding tssv_split
tssv_split-Laid lead s g ws r l t =
    (rw (skip_blanks-gap (s ++ g) r, skip_blanks-Laid g l) (split_text-Laid l t), omega arith)
