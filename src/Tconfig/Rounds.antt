-- ===== src/Tconfig/Rounds.antt =====
-- Rounds of the parser over what the writer writes on one line.
use trollbot.Prelude.{
  ℕ, zero, suc, ◌<◌, ◌≡◌, refl, sym, ap, ◌∙◌, subst, true, false, ◌||◌, [], ◌∷◌, ◌++◌, some, arith,
  ◌==◌, if_cases, length, Bytes, Bool-cases, inl, inr,
}
use trollbot.Text.{has_byte}
use trollbot.Tconfig.{
  Cursor, siblings, enter, leave, insert, go, tree, read_entry, left_or_exit, inserted, parse_step,
  parse_loop, parse_after, rewind,
}
use trollbot.Tconfig.Write.{indent, quote, write_label}
use trollbot.Tconfig.Fuel.{Leaves, parse_step-Leaves}
use trollbot.Tconfig.Words.{
  is_text_byte, IsText, begins_key, IsKey, has_blank, line_rest, read_entry-quote,
}

-- Rounds of the parser from one cursor and text to another.
pub data Rounds : Cursor → Bytes → Cursor → Bytes → Type 0 where
  here : {c : Cursor} {s : Bytes} → Rounds c s c s
  round :
      {c d e : Cursor} {a : ℕ} {s t u : Bytes}
      → parse_step c a s ≡ go d t
      → Rounds d t e u
      → Rounds c (a ∷ s) e u

pub after : {c d e : Cursor} {s t u : Bytes} → Rounds c s d t → Rounds d t e u → Rounds c s e u
after here q = q
after (round h p) q = round h (after p q)

pub parse_loop-Rounds :
    (f : ℕ) {c d : Cursor} {s t : Bytes}
    → Rounds c s d t
    → t ≡ []
    → length s < f
    → parse_loop f c s ≡ tree (rewind d.up (siblings d))
unfolding parse_loop
parse_loop-Rounds zero r e l = absurd (omega arith)
parse_loop-Rounds (suc f) here e l = rw e
parse_loop-Rounds (suc f) (round {c} {d} {a} {s} {t} h r) e l =
    ap (parse_after (parse_loop f)) h
    ∙ parse_loop-Rounds f r e
        (let short = subst (Leaves (length s)) h (parse_step-Leaves c a s) in omega arith)

pub newline-Rounds : (c : Cursor) (s : Bytes) → Rounds c (b'\n' ∷ s) c s
unfolding parse_step
newline-Rounds c s = round refl here

pub line_rest-Rounds : (c : Cursor) (v s : Bytes) → Rounds c (line_rest v s) c s
line_rest-Rounds c v s =
    if_cases (λ t. Rounds c t c s) (has_blank v) (λ b. newline-Rounds c s) λ b. here

-- A byte at which an entry begins.
pub parse_step-entry :
    (c : Cursor) (a : ℕ) (s : Bytes)
    → begins_key a ≡ true
    → (a == b'\n' || a == b'\r') ≡ false
    → (a == b' ' || a == b'\t') ≡ false
    → parse_step c a s ≡ inserted c (read_entry (a ∷ s))
unfolding parse_step begins_key
parse_step-entry c a s k n b =
    let p : (a == b'{') ≡ false = ground arith in
    let q : (a == b'}') ≡ false = ground arith in
    let r : (a == b'/') ≡ false = ground arith in
    let t : (a == b'\r') ≡ false = ground arith in
    let u : (a == b'\n' || a == b'\t' || a == b' ') ≡ false = ground arith in rw (p, q, r, t, u)

pub entry-begins :
    (c : Cursor) (k v s : Bytes) (a : ℕ) (r : Bytes)
    → begins_key a ≡ true
    → (a == b'\n' || a == b'\r') ≡ false
    → (a == b' ' || a == b'\t') ≡ false
    → read_entry (a ∷ r) ≡ some ((k, v), line_rest v s)
    → Rounds c (a ∷ r) (insert (k, v) c) s
entry-begins c k v s a r p q b e =
    round (parse_step-entry c a r p q b ∙ ap (inserted c) e)
      (line_rest-Rounds (insert (k, v) c) v s)

-- A key and its value are put where `insert` puts them, and the whole line is read.
pub entry-Rounds :
    (c : Cursor) (k v s : Bytes)
    → IsKey k
    → IsText v
    → Rounds c (quote k (b'\t' ∷ quote v (b'\n' ∷ s))) (insert (k, v) c) s
unfolding quote begins_key
entry-Rounds c [] v s h t = absurd h
entry-Rounds c (a ∷ k) v s h t =
    let e = read_entry-quote (a ∷ k) v s h.1 t in
    let x = b'\t' ∷ quote v (b'\n' ∷ s) in
    elim (Bool-cases (has_blank (a ∷ k))) [
      | inl b ↦
          let q : quote (a ∷ k) x ≡ b'"' ∷ ((a ∷ k) ++ b'"' ∷ x) = rw b in
          subst (λ t. Rounds c t (insert (a ∷ k, v) c) s) (sym q)
            (entry-begins c (a ∷ k) v s b'"' _ refl refl refl (ap read_entry (sym q) ∙ e))
      | inr b ↦
          let q : quote (a ∷ k) x ≡ a ∷ (k ++ x) = rw b in
          let line : (a == b'\n' || a == b'\r') ≡ false = unfold is_text_byte in ground arith in
          let blank : (a == b' ' || a == b'\t') ≡ false = unfold has_byte in ground arith in
          subst (λ t. Rounds c t (insert (a ∷ k, v) c) s) (sym q)
            (entry-begins c (a ∷ k) v s a _ h.0 line blank (ap read_entry (sym q) ∙ e))
    ]

pub indent-Rounds : (c : Cursor) (d : ℕ) (s : Bytes) → Rounds c (indent d s) c s
unfolding indent parse_step
indent-Rounds c zero s = here
indent-Rounds c (suc d) s = round refl (round refl (indent-Rounds c d s))

pub label-Rounds :
    (c : Cursor) (d : ℕ) (kv : Bytes × Bytes) (s : Bytes)
    → IsKey kv.0
    → IsText kv.1
    → Rounds c (write_label d kv s) (insert kv c) s
label-Rounds c d kv s h t = after (indent-Rounds c d _) (entry-Rounds c kv.0 kv.1 s h t)

pub enter-Rounds : (c : Cursor) (s : Bytes) → Rounds c (b'{' ∷ b'\n' ∷ s) (enter c) s
unfolding parse_step
enter-Rounds c s = round refl (newline-Rounds (enter c) s)

pub leave-Rounds :
    (c d : Cursor) (s : Bytes) → leave c ≡ some d → Rounds c (b'}' ∷ b'\n' ∷ b'\n' ∷ s) d s
unfolding parse_step
leave-Rounds c d s e =
    round (ap (λ x. left_or_exit x (b'\n' ∷ b'\n' ∷ s)) e)
      (after (newline-Rounds d (b'\n' ∷ s)) (newline-Rounds d s))
