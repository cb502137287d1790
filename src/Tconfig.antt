-- ===== src/Tconfig.antt =====
-- Configuration trees: the parser `file_to_tconfig` and the writer `tconfig_to_file` of
-- src/tconfig.c, on the text of the file up to its first NUL. Line numbers, which only the error
-- messages use, are left out.
pub mod Fuel
pub mod Level
pub mod Write
pub mod Words
pub mod Rounds
pub mod RoundTrip
pub mod Merge
use trollbot.Prelude.{
  ◌>>=◌, ℕ, zero, suc, ◌+◌, ◌*◌, Bool, true, false, ◌&&◌, ◌||◌, List, [], ◌∷◌, ◌++◌, Option, none,
  some, ◌==◌, if◌then◌else◌, length, Bytes,
}
use trollbot.Text.{str_eq, has_byte}

-- `key` and `value`, which are NULL together.
abbrev pub Label : Type 0
Label = Option (Bytes × Bytes)

-- `struct tconfig_block` with what its `child` and `next` lead to. `prev` and `parent` are where
-- the cursor comes from.
pub data Blocks : Type 0 where
  null : Blocks
  block : Label → (child next : Blocks) → Blocks

-- The blocks of one level, and behind the last of them others.
unfoldable pub join : Blocks → Blocks → Blocks
join null s = s
join (block l c n) s = block l c (join n s)

-- A block that is left for its child: what stands before it, and behind it.
pub record Frame : Type 0 where
  pub left : Blocks
  pub label : Label
  pub right : Blocks

-- The pointer `block` of the parser, in its tree.
pub record Cursor : Type 0 where
  pub left : Blocks
  pub label : Label
  pub child : Blocks
  pub right : Blocks
  pub up : List Frame

abbrev pub cursor : Blocks → Label → Blocks → Blocks → List Frame → Cursor
cursor left label child right up = record {
  left = left;
  label = label;
  child = child;
  right = right;
  up = up;
}

-- The level of the cursor, from its first block on.
unfoldable pub siblings : Cursor → Blocks
unfolding join
siblings c = join c.left (block c.label c.child c.right)

-- A new block without a key, at the start of the file or behind a `{`.
abbrev pub fresh : List Frame → Cursor
fresh up = cursor null none null null up

-- `{`
unfoldable pub enter : Cursor → Cursor
enter c =
    let f : Frame = record { left = c.left; label = c.label; right = c.right } in
    elim c.child [ null ↦ fresh (f ∷ c.up) | block l ch n ↦ cursor null l ch n (f ∷ c.up) ]

-- `}`; `none` for a mismatched one.
abbrev pub close_in : Blocks → List Frame → Option Cursor
close_in level [] = none
close_in level (f ∷ up) = some (cursor f.left f.label level f.right up)

unfoldable pub leave : Cursor → Option Cursor
unfolding siblings
leave c = close_in (siblings c) c.up

-- `!strcmp(search->key, tmp->key) && !strcmp(search->value, tmp->value)`
unfoldable pub same_label : (label kv : Bytes × Bytes) → Bool
unfolding str_eq
same_label l kv = str_eq l.0 kv.0 && str_eq l.1 kv.1

abbrev pub is_labelled : Bytes × Bytes → Label → Bool
is_labelled kv none = false
is_labelled kv (some l) = same_label l kv

-- Where no block has the key and the value: into the last block, if it has no key, or behind it.
abbrev pub put : Bytes × Bytes → Blocks → Label → Blocks → List Frame → Cursor
put kv left none child up = cursor left (some kv) child null up
put kv left (some l) child up =
    cursor (join left (block (some l) child null)) (some kv) null null up

-- The search from the first block on.
unfoldable pub search : Bytes × Bytes → Blocks → Label → Blocks → Blocks → List Frame → Cursor
unfolding join same_label
search kv left label child null up =
    if is_labelled kv label then cursor left label child null up else put kv left label child up
search kv left label child (block l c n) up =
    if is_labelled kv label
    then cursor left label child (block l c n) up
    else search kv (join left (block label child null)) l c n up

unfoldable pub insert : Bytes × Bytes → Cursor → Cursor
unfolding siblings search
insert kv c = elim (siblings c) [ null ↦ c | block l ch n ↦ search kv null l ch n c.up ]

abbrev before : ℕ → Option (Bytes × Bytes) → Option (Bytes × Bytes)
before c none = none
before c (some r) = some (c ∷ r.0, r.1)

-- A text in quotes, and what follows them; `none` for "Unmatched".
unfoldable pub read_quoted : Bytes → Option (Bytes × Bytes)
read_quoted [] = none
read_quoted (c ∷ s) =
    let rest = before c (read_quoted s) in
    if c == b'\n' || c == b'\r' then none else if c == b'"' then some ([], s) else rest

-- A key without quotes, and the text from the blank behind it.
unfoldable pub read_key : Bytes → Option (Bytes × Bytes)
read_key [] = none
read_key (c ∷ s) =
    let rest = before c (read_key s) in if c == b' ' || c == b'\t' then some ([], c ∷ s) else rest

-- A value without quotes, and the text behind the blank or the end of line that ends it.
unfoldable pub read_value : Bytes → Option (Bytes × Bytes)
read_value [] = none
read_value (c ∷ s) =
    let rest = before c (read_value s) in
    if c == b' ' || c == b'\t' || (c == b'\r' || c == b'\n') then some ([], s) else rest

-- From the key to the value, on the same line.
unfoldable pub skip_to_value : Bytes → Option Bytes
skip_to_value [] = none
skip_to_value (c ∷ s) =
    let rest = skip_to_value s in
    if c == b'\r' || c == b'\n'
    then none
    else if c == b' ' || c == b'\t'
    then rest
    else some (c ∷ s)

abbrev pub quoted_or : (Bytes → Option (Bytes × Bytes)) → Bytes → Option (Bytes × Bytes)
quoted_or read [] = read []
quoted_or read (c ∷ s) = if c == b'"' then read_quoted s else read (c ∷ s)

-- A key and its value, and the text behind them.
unfoldable pub read_entry : Bytes → Option ((Bytes × Bytes) × Bytes)
unfolding read_quoted read_key read_value skip_to_value
read_entry s = do
  key ← quoted_or read_key s
  from ← skip_to_value key.1
  value ← quoted_or read_value from
  some ((key.0, value.0), value.1)

-- What one round of the loop does. `stops`: the function returns the tree. `exits`: it prints an
-- error and ends the program. `reads_on`: it reads behind the NUL.
pub data Next : Type 0 where
  go : Cursor → Bytes → Next
  stops : Cursor → Next
  exits : Next
  reads_on : Next

-- Behind `/*`.
unfoldable pub skip_comment : Cursor → Bytes → Next
skip_comment c [] = reads_on
skip_comment c (a ∷ []) = exits
skip_comment c (a ∷ b ∷ s) =
    let two = skip_comment c s in
    let one = skip_comment c (b ∷ s) in
    if a == b'*' && b == b'/' then go c s else if a == b'\r' && b == b'\n' then two else one

-- Behind `//`. A `\r` without `\n` takes the byte behind it away.
unfoldable pub skip_line : Cursor → Bytes → Next
skip_line c [] = stops c
skip_line c (a ∷ s) =
    let rest = skip_line c s in
    if a == b'\r'
    then elim s [ [] ↦ stops c | b ∷ t ↦ if b == b'\n' then go c (b ∷ t) else go c t ]
    else if a == b'\n'
    then go c s
    else rest

abbrev pub comment : Cursor → Bytes → Next
comment c [] = exits
comment c (a ∷ s) =
    if a == b'*' then skip_comment c s else if a == b'/' then skip_line c s else exits

abbrev pub skip_newline : Bytes → Bytes
skip_newline [] = []
skip_newline (a ∷ s) = if a == b'\n' then s else a ∷ s

abbrev pub left_or_exit : Option Cursor → Bytes → Next
left_or_exit none s = exits
left_or_exit (some c) s = go c s

abbrev pub inserted : Cursor → Option ((Bytes × Bytes) × Bytes) → Next
inserted c none = exits
inserted c (some e) = go (insert e.0 c) e.1

-- The `switch`.
unfoldable pub parse_step : Cursor → ℕ → Bytes → Next
unfolding enter leave skip_comment skip_line insert read_entry
parse_step c a s =
    if a == b'{'
    then go (enter c) s
    else if a == b'}'
    then left_or_exit (leave c) s
    else if a == b'/'
    then comment c s
    else if a == b'\r'
    then go c (skip_newline s)
    else if a == b'\n' || a == b'\t' || a == b' '
    then go c s
    else inserted c (read_entry (a ∷ s))

-- Back to the first block of the file.
unfoldable pub rewind : List Frame → Blocks → Blocks
unfolding join
rewind [] level = level
rewind (f ∷ up) level = rewind up (join f.left (block f.label level f.right))

pub data Parsed : Type 0 where
  tree : Blocks → Parsed
  exits : Parsed
  reads_on : Parsed
  out_of_fuel : Parsed

abbrev pub parse_after : (Cursor → Bytes → Parsed) → Next → Parsed
parse_after loop (Next.go c s) = loop c s
parse_after loop (Next.stops c) = tree (rewind c.up (siblings c))
parse_after loop Next.exits = exits
parse_after loop Next.reads_on = reads_on

unfoldable pub parse_loop : ℕ → Cursor → Bytes → Parsed
unfolding parse_step rewind siblings
parse_loop zero c s = out_of_fuel
parse_loop (suc f) c [] = tree (rewind c.up (siblings c))
parse_loop (suc f) c (a ∷ s) = parse_after (parse_loop f) (parse_step c a s)

-- `file_to_tconfig`, for a file that can be read and has this text.
unfoldable pub file_to_tconfig : Bytes → Parsed
unfolding parse_loop
file_to_tconfig text = parse_loop (length text + 1) (fresh []) text
