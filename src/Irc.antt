-- ===== src/Irc.antt =====
-- The IRC line parser: `parse_irc_line` of src/irc.c up to the call of `trigger_match`. A text in
-- the buffer is the list of the bytes before its NUL. `none` is a fault: a read behind the NUL, or
-- through NULL.
pub mod Loops
pub mod Params
pub mod Format
pub mod RoundTrip
use trollbot.Prelude.{
  ◌>>=◌, ℕ, Bool, true, false, ◌&&◌, ◌||◌, List, [], ◌∷◌, ◌++◌, Option, none, some, ◌==◌,
  if◌then◌else◌, Bytes, codes, get_elem?,
}
use trollbot.Text.{str_eq, has_byte}

-- `struct irc_prefix`
pub record IrcPrefix : Type 0 where
  pub servername : Option Bytes
  pub nick : Option Bytes
  pub user : Option Bytes
  pub host : Option Bytes

-- `struct irc_data`, less `line`, which is never set.
pub record IrcData : Type 0 where
  pub prefix : Option IrcPrefix
  pub command : Bytes
  pub c_params : Option (List Bytes)
  pub c_params_str : Option Bytes
  pub rest : Option (List Bytes)
  pub rest_str : Option Bytes

abbrev cut_before : ℕ → Option (Bytes × Bytes) → Option (Bytes × Bytes)
cut_before c none = none
cut_before c (some r) = some (c ∷ r.0, r.1)

-- A loop `for (; p[i] != stop; i++)` that copies: what it copies, and the text behind the stop. It
-- reads on behind the NUL if there is none.
unfoldable pub copy_until : ℕ → Bytes → Option (Bytes × Bytes)
copy_until stop [] = none
copy_until stop (c ∷ s) = if c == stop then some ([], s) else cut_before c (copy_until stop s)

-- The prefix without a `!`: a server, or the bot itself.
unfoldable pub server_prefix : (nick name : Bytes) → IrcPrefix
unfolding str_eq
server_prefix nick name =
    if str_eq name nick
    then record { servername = none; nick = some name; user = none; host = none }
    else record { servername = some name; nick = none; user = none; host = none }

-- The prefix with a `!`; `tmp` stands behind the `:`.
unfoldable pub user_prefix : Bytes → Option IrcPrefix
unfolding copy_until
user_prefix tmp = do
  nick ← copy_until b'!' tmp
  user ← copy_until b'@' nick.1
  some (record { servername = none; nick = some nick.0; user = some user.0; host = some user.1 })

-- The prefix in `tmp`, behind the `:`.
unfoldable pub prefix_of : (nick tmp : Bytes) → Option IrcPrefix
unfolding server_prefix user_prefix has_byte
prefix_of nick tmp = if has_byte b'!' tmp then user_prefix tmp else some (server_prefix nick tmp)

-- The prefix, if there is one, and the text behind it.
unfoldable pub parse_prefix : (nick buffer : Bytes) → Option (Option IrcPrefix × Bytes)
unfolding prefix_of copy_until
parse_prefix nick [] = some (none, [])
parse_prefix nick (c ∷ s) = elim (c == b':') [
  | false ↦ some (none, c ∷ s)
  | true ↦ (do tmp ← copy_until b' ' s; p ← prefix_of nick tmp.0; some (some p, tmp.1))
]

-- `c_params` or `rest`, as the loops fill it: the entries before `bufindex`, the one at `bufindex`,
-- and `c_params_str` or `rest_str`.
pub record Fields : Type 0 where
  pub done : List Bytes
  pub current : Bytes
  pub text : Bytes

-- The allocation in the first round.
abbrev pub begin : Option Fields → Fields
begin none = record { done = []; current = []; text = [] }
begin (some f) = f

-- `c_params[bufindex][j] = c; c_params_str[i] = c`
abbrev pub push : ℕ → Fields → Fields
push c f = record { done = f.done; current = f.current ++ c ∷ []; text = f.text ++ c ∷ [] }

-- `c_params_str[i] = ' '`
abbrev pub space : Fields → Fields
space f = record f { text = f.text ++ b' ' ∷ [] }

-- A new entry, behind the space.
abbrev pub next_entry : Fields → Fields
next_entry f = record { done = f.done ++ f.current ∷ []; current = []; text = f.text ++ b' ' ∷ [] }

-- `\r` or `\n`
unfoldable pub ends_line : ℕ → Bool
ends_line c = c == b'\r' || c == b'\n'

-- The loop over the command parameters: the fields, and the text at which it ends. `spaced` says
-- that a space stands before the text.
unfoldable pub params_loop :
    (spaced : Bool) → Option Fields → Bytes → Option (Option Fields × Bytes)
unfolding ends_line
params_loop spaced f [] = some (f, [])
params_loop spaced f (c ∷ []) =
    if ends_line c || (c == b':' && spaced)
    then some (f, c ∷ [])
    else if c == b' '
    then none
    else some (some (push c (begin f)), [])
params_loop spaced f (c ∷ d ∷ s) = elim (ends_line c || (c == b':' && spaced)) [
  | true ↦ some (f, c ∷ d ∷ s)
  | false ↦ elim (c == b' ') [
    | false ↦ params_loop false (some (push c (begin f))) (d ∷ s)
    | true ↦ elim (d == b':' || ends_line d) [
      | true ↦ some (some (space (begin f)), d ∷ s)
      | false ↦ params_loop (d == b' ') (some (push d (next_entry (begin f)))) s
    ]
  ]
]

-- The loop over what follows the `:`.
unfoldable pub rest_loop : Option Fields → Bytes → Option Fields
unfolding ends_line
rest_loop f [] = f
rest_loop f (c ∷ []) =
    if ends_line c then f else if c == b' ' then some (space (begin f)) else some (push c (begin f))
rest_loop f (c ∷ d ∷ s) = elim (ends_line c) [
  | true ↦ f
  | false ↦ elim (c == b' ') [
    | false ↦ rest_loop (some (push c (begin f))) (d ∷ s)
    | true ↦ elim (ends_line d) [
      | true ↦ some (space (begin f))
      | false ↦ rest_loop (some (push d (next_entry (begin f)))) s
    ]
  ]
]

abbrev pub entries : Option Fields → Option (List Bytes)
entries none = none
entries (some f) = some (f.done ++ f.current ∷ [])

abbrev pub text_of : Option Fields → Option Bytes
text_of none = none
text_of (some f) = some f.text

-- `if (buffer[m] != '\0') m += 1`
abbrev pub skip_one : Bytes → Bytes
skip_one [] = []
skip_one (c ∷ s) = s

abbrev pub irc_data : Option IrcPrefix → Bytes → (params rest : Option Fields) → IrcData
irc_data prefix command params rest = record {
  prefix = prefix;
  command = command;
  c_params = entries params;
  c_params_str = text_of params;
  rest = entries rest;
  rest_str = text_of rest;
}

-- The parsing part of `parse_irc_line(net, buffer)`, where `nick` is `net->nick`.
unfoldable pub parse_irc_data : (nick buffer : Bytes) → Option IrcData
unfolding parse_prefix copy_until params_loop rest_loop
parse_irc_data nick buffer = do
  prefix ← parse_prefix nick buffer
  command ← copy_until b' ' prefix.1
  params ← params_loop true none command.1
  some (irc_data prefix.0 command.0 params.0 (rest_loop none (skip_one params.1)))
