-- ===== src/Tconfig/Fuel.antt =====
-- The parser always has an answer: each round takes at least one byte.
use trollbot.Prelude.{
  ◌>>=◌, ℕ, zero, suc, ◌+◌, ◌≤◌, ◌<◌, ◌≢◌, ◌&&◌, ◌||◌, [], ◌∷◌, Option, none, some, arith, ◌==◌,
  if◌then◌else◌, if_cases, length, Bytes,
}
use trollbot.Tconfig.{
  Cursor, Next, go, stops, out_of_fuel, before, read_quoted, read_key, read_value, skip_to_value,
  quoted_or, read_entry, skip_comment, skip_line, comment, skip_newline, left_or_exit, inserted,
  leave, parse_step, parse_after, parse_loop, file_to_tconfig, fresh,
}

-- What is left is shorter than `n`.
abbrev Within : ℕ → Option (Bytes × Bytes) → Type 0
Within n none = Unit
Within n (some r) = length r.1 < n

-- The next round has a text of at most `n` bytes.
abbrev pub Leaves : ℕ → Next → Type 0
Leaves n (go c s) = length s ≤ n
Leaves n _ = Unit

before-Within : (c n : ℕ) (m : Option (Bytes × Bytes)) → Within n m → Within (suc n) (before c m)
before-Within c n none h = tt
before-Within c n (some r) h = omega arith

read_quoted-Within : (s : Bytes) → Within (length s) (read_quoted s)
unfolding read_quoted
read_quoted-Within [] = tt
read_quoted-Within (c ∷ s) =
    if_cases (Within (suc (length s))) (c == b'\n' || c == b'\r') (λ p. tt)
      λ p.
        if_cases (Within (suc (length s))) (c == b'"') (λ q. omega arith)
          λ q. before-Within c (length s) (read_quoted s) (read_quoted-Within s)

read_value-Within : (s : Bytes) → Within (length s) (read_value s)
unfolding read_value
read_value-Within [] = tt
read_value-Within (c ∷ s) =
    if_cases (Within (suc (length s))) (c == b' ' || c == b'\t' || (c == b'\r' || c == b'\n'))
      (λ p. omega arith) λ p. before-Within c (length s) (read_value s) (read_value-Within s)

read_key-Within : (s : Bytes) → Within (suc (length s)) (read_key s)
unfolding read_key
read_key-Within [] = tt
read_key-Within (c ∷ s) =
    if_cases (Within (suc (suc (length s)))) (c == b' ' || c == b'\t') (λ p. omega arith)
      λ p. before-Within c (suc (length s)) (read_key s) (read_key-Within s)

weaken-Within : (m n : ℕ) (r : Option (Bytes × Bytes)) → m ≤ n → Within m r → Within n r
weaken-Within m n none l h = tt
weaken-Within m n (some r) l h = omega arith

quoted_or-Within :
    (read : Bytes → Option (Bytes × Bytes)) (n : ℕ) (s : Bytes)
    → length s ≤ n
    → Within n (read s)
    → Within n (quoted_or read s)
quoted_or-Within read n [] l h = h
quoted_or-Within read n (c ∷ s) l h =
    if_cases (Within n) (c == b'"')
      (λ p. weaken-Within (length s) n (read_quoted s) (omega arith) (read_quoted-Within s)) λ p. h

abbrev Short : ℕ → Option Bytes → Type 0
Short n none = Unit
Short n (some s) = length s ≤ n

weaken-Short : (m n : ℕ) (r : Option Bytes) → m ≤ n → Short m r → Short n r
weaken-Short m n none l h = tt
weaken-Short m n (some s) l h = omega arith

skip_to_value-Short : (s : Bytes) → Short (length s) (skip_to_value s)
unfolding skip_to_value
skip_to_value-Short [] = tt
skip_to_value-Short (c ∷ s) =
    if_cases (Short (suc (length s))) (c == b'\r' || c == b'\n') (λ p. tt)
      λ p.
        if_cases (Short (suc (length s))) (c == b' ' || c == b'\t')
          (λ q.
            weaken-Short (length s) (suc (length s)) (skip_to_value s) (omega arith)
              (skip_to_value-Short s))
          λ q. omega arith

-- A key, the blanks and a value take at least one byte together.
inserted-Leaves :
    (c : Cursor) (s : Bytes) (n : ℕ) → length s ≤ suc n → Leaves n (inserted c (read_entry s))
unfolding read_entry
inserted-Leaves c s n l =
    by_key (quoted_or read_key s)
      (quoted_or-Within read_key (suc (length s)) s (omega arith) (read_key-Within s))
  where
    by_value :
        (k : Bytes × Bytes) (m : ℕ) (v : Option (Bytes × Bytes))
        → m ≤ suc n
        → Within m v
        → Leaves n (inserted c (do value ← v; some ((k.0, value.0), value.1)))
    by_value k m none l h = tt
    by_value k m (some v) l h = omega arith

    by_from :
        (k : Bytes × Bytes) (from : Option Bytes)
        → Short (suc n) from
        → Leaves n (
            inserted c
              (do t ← from; value ← quoted_or read_value t; some ((k.0, value.0), value.1)))
    by_from k none h = tt
    by_from k (some t) h =
        by_value k (length t) (quoted_or read_value t) h
          (quoted_or-Within read_value (length t) t (omega arith) (read_value-Within t))

    by_key :
        (key : Option (Bytes × Bytes))
        → Within (suc (length s)) key
        → Leaves n (
            inserted c (do
              k ← key
              from ← skip_to_value k.1
              value ← quoted_or read_value from
              some ((k.0, value.0), value.1)))
    by_key none h = tt
    by_key (some k) h = by_from k (skip_to_value k.1) (
        weaken-Short (length k.1) (suc n) (skip_to_value k.1) (omega arith)
          (skip_to_value-Short k.1))

weaken-Leaves : (m n : ℕ) (r : Next) → m ≤ n → Leaves m r → Leaves n r
weaken-Leaves m n (go c s) l h = omega arith
weaken-Leaves m n (stops c) l h = tt
weaken-Leaves m n Next.exits l h = tt
weaken-Leaves m n Next.reads_on l h = tt

skip_comment-Leaves : (c : Cursor) (s : Bytes) → Leaves (length s) (skip_comment c s)
unfolding skip_comment
skip_comment-Leaves c [] = tt
skip_comment-Leaves c (a ∷ []) = tt
skip_comment-Leaves c (a ∷ b ∷ s) =
    if_cases (Leaves (suc (suc (length s)))) (a == b'*' && b == b'/') (λ p. omega arith)
      λ p.
        if_cases (Leaves (suc (suc (length s)))) (a == b'\r' && b == b'\n')
          (λ q.
            weaken-Leaves (length s) _ (skip_comment c s) (omega arith) (skip_comment-Leaves c s))
          λ q.
            weaken-Leaves (suc (length s)) _ (skip_comment c (b ∷ s)) (omega arith)
              (skip_comment-Leaves c (b ∷ s))

skip_line-Leaves : (c : Cursor) (s : Bytes) → Leaves (length s) (skip_line c s)
unfolding skip_line
skip_line-Leaves c [] = tt
skip_line-Leaves c (a ∷ s) =
    if_cases (Leaves (suc (length s))) (a == b'\r') (λ p. by_next s)
      λ p.
        if_cases (Leaves (suc (length s))) (a == b'\n') (λ q. omega arith)
          λ q. weaken-Leaves (length s) _ (skip_line c s) (omega arith) (skip_line-Leaves c s)
  where
    by_next :
        (s : Bytes)
        → Leaves
            (suc (length s))
            (elim s [ [] ↦ stops c | b ∷ t ↦ if b == b'\n' then go c (b ∷ t) else go c t ])
    by_next [] = tt
    by_next (b ∷ t) =
        if_cases (Leaves (suc (suc (length t)))) (b == b'\n') (λ q. omega arith) λ q. omega arith

comment-Leaves : (c : Cursor) (s : Bytes) → Leaves (length s) (comment c s)
comment-Leaves c [] = tt
comment-Leaves c (a ∷ s) =
    if_cases (Leaves (suc (length s))) (a == b'*')
      (λ p. weaken-Leaves (length s) _ (skip_comment c s) (omega arith) (skip_comment-Leaves c s))
      λ p.
        if_cases (Leaves (suc (length s))) (a == b'/')
          (λ q. weaken-Leaves (length s) _ (skip_line c s) (omega arith) (skip_line-Leaves c s))
          λ q. tt

skip_newline-length : (s : Bytes) → length (skip_newline s) ≤ length s
skip_newline-length [] = omega arith
skip_newline-length (a ∷ s) =
    if_cases (λ t. length t ≤ suc (length s)) (a == b'\n') (λ p. omega arith) λ p. omega arith

left_or_exit-Leaves : (c : Option Cursor) (s : Bytes) → Leaves (length s) (left_or_exit c s)
left_or_exit-Leaves none s = tt
left_or_exit-Leaves (some c) s = omega arith

-- Each round takes at least one byte.
pub parse_step-Leaves : (c : Cursor) (a : ℕ) (s : Bytes) → Leaves (length s) (parse_step c a s)
unfolding parse_step
parse_step-Leaves c a s =
    if_cases P (a == b'{') (λ p. omega arith)
      λ p.
        if_cases P (a == b'}') (λ p. left_or_exit-Leaves (leave c) s)
          λ p.
            if_cases P (a == b'/') (λ p. comment-Leaves c s)
              λ p.
                if_cases P (a == b'\r') (λ p. skip_newline-length s)
                  λ p.
                    if_cases P (a == b'\n' || a == b'\t' || a == b' ') (λ p. omega arith)
                      λ p. inserted-Leaves c (a ∷ s) (length s) (omega arith)
  where
    P : Next → Type 0
    P = Leaves (length s)

parse_loop-fuel : (f : ℕ) (c : Cursor) (s : Bytes) → length s < f → parse_loop f c s ≢ out_of_fuel
unfolding parse_loop
parse_loop-fuel zero c s l = absurd (omega arith)
parse_loop-fuel (suc f) c [] l = λ e. cc
parse_loop-fuel (suc f) c (a ∷ s) l =
    by_next (parse_step c a s) (parse_step-Leaves c a s) (λ d t m. parse_loop-fuel f d t m)
  where
    by_next :
        (r : Next)
        → Leaves (length s) r
        → ((d : Cursor) (t : Bytes) → length t < f → parse_loop f d t ≢ out_of_fuel)
        → parse_after (parse_loop f) r ≢ out_of_fuel
    by_next (go d t) h k = k d t (omega arith)
    by_next (stops d) h k = λ e. cc
    by_next Next.exits h k = λ e. cc
    by_next Next.reads_on h k = λ e. cc

-- On every text the parser comes to an end: it gives a tree, leaves the program with an error, or
-- reads behind the text.
pub file_to_tconfig-fuel : (text : Bytes) → file_to_tconfig text ≢ out_of_fuel
unfolding file_to_tconfig
file_to_tconfig-fuel text = parse_loop-fuel (length text + 1) (fresh []) text (omega arith)
