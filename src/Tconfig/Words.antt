-- ===== src/Tconfig/Words.antt =====
-- Keys and values as the writer quotes them, and what the parser reads of them.
use trollbot.Prelude.{
  ℕ, ◌≡◌, refl, Bool, true, false, ◌||◌, not, [], ◌∷◌, ◌++◌, some, arith, ◌==◌, if◌then◌else◌,
  Bytes, All, Bool-cases, inl, inr,
}
use trollbot.Text.{has_byte}
use trollbot.Tconfig.{read_quoted, read_key, read_value, skip_to_value, quoted_or, read_entry}
use trollbot.Tconfig.Write.{quote}

-- A text that the parser reads as one word: no quote, no end of line, and at least one byte.
unfoldable pub is_text_byte : ℕ → Bool
is_text_byte c = not (c == b'"' || c == b'\n' || c == b'\r')

abbrev pub IsText : Bytes → Type 0
IsText [] = ⊥
IsText (c ∷ s) = All (λ c. is_text_byte c ≡ true) (c ∷ s)

-- A key: it does not begin like a block or a comment.
unfoldable pub begins_key : ℕ → Bool
begins_key c = not (c == b'{' || c == b'}' || c == b'/')

abbrev pub IsKey : Bytes → Type 0
IsKey [] = ⊥
IsKey (c ∷ s) = (begins_key c ≡ true) × IsText (c ∷ s)

pub read_quoted-text :
    (w s : Bytes) → All (λ c. is_text_byte c ≡ true) w → read_quoted (w ++ b'"' ∷ s) ≡ some (w, s)
unfolding read_quoted is_text_byte
read_quoted-text [] s h = refl
read_quoted-text (c ∷ w) s h =
    let line : (c == b'\n' || c == b'\r') ≡ false = ground arith in
    let mark : (c == b'"') ≡ false = ground arith in rw (line, mark, read_quoted-text w s h.1)

pub read_key-text :
    (w s : Bytes)
    → (has_byte b' ' w || has_byte b'\t' w) ≡ false
    → read_key (w ++ b'\t' ∷ s) ≡ some (w, b'\t' ∷ s)
unfolding read_key has_byte
read_key-text [] s h = refl
read_key-text (c ∷ w) s h =
    let blank : (c == b' ' || c == b'\t') ≡ false = ground arith in
    let later : (has_byte b' ' w || has_byte b'\t' w) ≡ false = ground arith in
    rw (blank, read_key-text w s later)

pub read_value-text :
    (w s : Bytes)
    → (has_byte b' ' w || has_byte b'\t' w) ≡ false
    → All (λ c. is_text_byte c ≡ true) w
    → read_value (w ++ b'\n' ∷ s) ≡ some (w, s)
unfolding read_value has_byte is_text_byte
read_value-text [] s h t = refl
read_value-text (c ∷ w) s h t =
    let blank : (c == b' ' || c == b'\t' || (c == b'\r' || c == b'\n')) ≡ false = ground arith in
    let later : (has_byte b' ' w || has_byte b'\t' w) ≡ false = ground arith in
    rw (blank, read_value-text w s later t.1)

abbrev pub has_blank : Bytes → Bool
has_blank w = has_byte b' ' w || has_byte b'\t' w

-- What the parser leaves of the end of the line behind a value: in quotes, all of it.
abbrev pub line_rest : Bytes → Bytes → Bytes
line_rest v s = if has_blank v then b'\n' ∷ s else s

pub key_read :
    (k s : Bytes) → IsText k → quoted_or read_key (quote k (b'\t' ∷ s)) ≡ some (k, b'\t' ∷ s)
unfolding quote
key_read [] s h = absurd h
key_read (c ∷ k) s h = elim (Bool-cases (has_blank (c ∷ k))) [
  | inl b ↦ rw b (read_quoted-text (c ∷ k) (b'\t' ∷ s) h)
  | inr b ↦
      let mark : (c == b'"') ≡ false = unfold is_text_byte in ground arith in
      rw (b, mark) (read_key-text (c ∷ k) s b)
]

pub value_read :
    (v s : Bytes) → IsText v → quoted_or read_value (quote v (b'\n' ∷ s)) ≡ some (v, line_rest v s)
unfolding quote
value_read [] s h = absurd h
value_read (c ∷ v) s h = elim (Bool-cases (has_blank (c ∷ v))) [
  | inl b ↦ rw b (read_quoted-text (c ∷ v) (b'\n' ∷ s) h)
  | inr b ↦
      let mark : (c == b'"') ≡ false = unfold is_text_byte in ground arith in
      rw (b, mark) (read_value-text (c ∷ v) s b h)
]

pub value_found : (v s : Bytes) → IsText v → skip_to_value (b'\t' ∷ quote v s) ≡ some (quote v s)
unfolding quote skip_to_value
value_found [] s h = absurd h
value_found (c ∷ v) s h = elim (Bool-cases (has_blank (c ∷ v))) [
  | inl b ↦ rw b
  | inr b ↦
      let blank : (c == b' ' || c == b'\t') ≡ false = unfold has_byte in ground arith in
      let line : (c == b'\r' || c == b'\n') ≡ false = unfold is_text_byte in ground arith in
      rw (b, line, blank)
]

pub read_entry-quote :
    (k v s : Bytes)
    → IsText k
    → IsText v
    → read_entry (quote k (b'\t' ∷ quote v (b'\n' ∷ s))) ≡ some ((k, v), line_rest v s)
unfolding read_entry
read_entry-quote k v s h t =
    rw (key_read k (quote v (b'\n' ∷ s)) h, value_found v (b'\n' ∷ s) t, value_read v s t)
