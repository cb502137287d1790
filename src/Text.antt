-- ===== src/Text.antt =====
-- The string routines of src/util.c (`tstrcasecmp`, `tstrncasecmp`, `tssv_split`) and what they
-- use of <ctype.h> and <string.h>, in the C locale. A `char *` is the list of the bytes before
-- the NUL; a NULL pointer is `none` where the code tests for it.
pub mod Compare
pub mod Split
pub mod Number
use trollbot.Prelude.{
  ℕ, zero, suc, ◌+◌, ◌*◌, Bool, true, false, ◌&&◌, ◌||◌, not, List, [], ◌∷◌, ◌++◌, Option, none,
  some, leb, ◌==◌, if◌then◌else◌, Bytes,
}

-- `isspace`: space, and the five control bytes from `\t` to `\r`.
unfoldable pub isspace : ℕ → Bool
isspace c = c == b' ' || (leb 9 c && leb c 13)

-- `tolower`.
unfoldable pub tolower : ℕ → ℕ
tolower c = if leb b'A' c && leb c b'Z' then c + 32 else c

-- `!strcmp(a, b)`.
unfoldable pub str_eq : Bytes → Bytes → Bool
str_eq [] [] = true
str_eq (a ∷ s) (b ∷ t) = a == b && str_eq s t
str_eq _ _ = false

-- `strchr(s, c) != NULL`, for a byte other than NUL.
unfoldable pub has_byte : ℕ → Bytes → Bool
has_byte c [] = false
has_byte c (a ∷ s) = a == c || has_byte c s

-- `tstrcasecmp`: 0 for texts that are equal up to case, else 1.
unfoldable pub tstrcasecmp : Bytes → Bytes → ℕ
tstrcasecmp [] [] = 0
tstrcasecmp [] (b ∷ t) = 1
tstrcasecmp (a ∷ s) [] = 1
tstrcasecmp (a ∷ s) (b ∷ t) = if not (tolower a == tolower b) then 1 else tstrcasecmp s t

-- `tstrncasecmp`. Behind the loop the code tests what is left of both texts, also when it was the
-- count that ended the loop.
unfoldable pub tstrncasecmp : Bytes → Bytes → ℕ → ℕ
tstrncasecmp [] [] n = 0
tstrncasecmp [] (b ∷ t) n = 1
tstrncasecmp (a ∷ s) t zero = 1
tstrncasecmp (a ∷ s) [] (suc n) = 1
tstrncasecmp (a ∷ s) (b ∷ t) (suc n) =
    if not (tolower a == tolower b) then 1 else tstrncasecmp s t n

-- A separator of `tssv_split`.
unfoldable pub is_blank : ℕ → Bool
is_blank c = c == b' ' || c == b'\t'

-- `while (*sch is a separator) sch++`.
unfoldable pub skip_blanks : Bytes → Bytes
skip_blanks [] = []
skip_blanks (c ∷ s) = if is_blank c then skip_blanks s else c ∷ s

-- The first loop of `tssv_split`: `list_size` when it ends. The flag says that the loop stands in
-- the run of separators that it skips.
unfoldable pub count_breaks : Bool → ℕ → Bytes → ℕ
count_breaks skipping n [] = n
count_breaks skipping n (c ∷ s) =
    count_breaks (is_blank c) (if is_blank c && not skipping then n + 1 else n) s

-- The bytes that the copying loop takes for one entry, and the text behind them.
unfoldable pub take_word : Bytes → Bytes
take_word [] = []
take_word (c ∷ s) = if is_blank c then [] else c ∷ take_word s

unfoldable pub drop_word : Bytes → Bytes
drop_word [] = []
drop_word (c ∷ s) = if is_blank c then c ∷ s else drop_word s

-- The `for` loop: `list_size` entries.
unfoldable pub copy_words : ℕ → Bytes → List Bytes
copy_words zero s = []
copy_words (suc n) s = take_word s ∷ copy_words n (skip_blanks (drop_word s))

-- `sizeof(char *)`
abbrev pub pointer_size : ℕ
pointer_size = 8

-- What `tssv_split` makes: the entries before the NULL, the bytes that are allocated for the array,
-- and the bytes of it that are written, with the NULL. What is written behind the allocation is not
-- a fault here.
pub record PointerArray : Type 0 where
  pub entries : List Bytes
  pub allocated : ℕ
  pub written : ℕ

-- `list_size` entries, of a text that begins with a word.
abbrev pub split_into : ℕ → Bytes → PointerArray
split_into list_size s = record {
  entries = copy_words list_size s;
  allocated = pointer_size * list_size + 1;
  written = pointer_size * (list_size + 1);
}

split_text : Bytes → Option PointerArray
split_text [] = none
split_text (c ∷ s) = some (split_into (count_breaks false 0 (c ∷ s) + 1) (c ∷ s))

-- `tssv_split`: `none` for the NULL of a text with separators only.
unfoldable pub tssv_split : Bytes → Option PointerArray
unfolding split_text
tssv_split s = split_text (skip_blanks s)
