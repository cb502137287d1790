-- ===== src/Irc/Format.antt =====
-- A message of a server written as a line, and what the parser makes of the line.
use trollbot.Prelude.{ℕ, ◌≡◌, ◌≢◌, false, List, [], ◌∷◌, ◌++◌, Option, none, some, All, Bytes}
use trollbot.Text.{has_byte, str_eq}
use trollbot.Irc.{IrcPrefix, IrcData}
use trollbot.Irc.Loops.{IsWord, IsParam, words, words_after}

-- Who a message comes from.
pub data Origin : Type 0 where
  unnamed : Origin
  server : Bytes → Origin
  person : (nick user host : Bytes) → Origin

-- The words behind the command, and those behind the `:`.
pub record Message : Type 0 where
  pub origin : Origin
  pub command : Bytes
  pub params : List Bytes
  pub trailing : List Bytes

abbrev pub Lacks : ℕ → Bytes → Type 0
Lacks c s = has_byte c s ≡ false

-- `nick` is the bot's own, which no server has.
abbrev pub IsOrigin : (nick : Bytes) → Origin → Type 0
IsOrigin nick unnamed = Unit
IsOrigin nick (server s) = Lacks b' ' s × Lacks b'!' s × (str_eq s nick ≡ false)
IsOrigin nick (person n u h) =
    Lacks b' ' (n ++ b'!' ∷ (u ++ b'@' ∷ h)) × Lacks b'!' n × Lacks b'@' u

pub record IsMessage (nick : Bytes) (m : Message) : Type 0 where
  pub origin : IsOrigin nick m.origin
  pub no_colon : (c : ℕ) (s : Bytes) → m.command ≡ c ∷ s → c ≢ b':'
  pub command : Lacks b' ' m.command
  pub params : All IsParam m.params
  pub trailing : All IsWord m.trailing

unfoldable pub origin_text : Origin → Bytes → Bytes
origin_text unnamed s = s
origin_text (server name) s = b':' ∷ (name ++ b' ' ∷ s)
origin_text (person n u h) s = b':' ∷ ((n ++ b'!' ∷ (u ++ b'@' ∷ h)) ++ b' ' ∷ s)

abbrev pub line_end : Bytes
line_end = b'\r' ∷ b'\n' ∷ []

-- `lead` stands before the `:`.
abbrev pub trailing_text : (lead : Bytes) → List Bytes → Bytes
trailing_text lead [] = line_end
trailing_text lead (t ∷ ts) = lead ++ b':' ∷ (words (t ∷ ts) ++ line_end)

abbrev pub params_text : List Bytes → List Bytes → Bytes
params_text [] ts = trailing_text [] ts
params_text (p ∷ ps) ts = words (p ∷ ps) ++ trailing_text (b' ' ∷ []) ts

-- The line, with its `\r\n`.
unfoldable pub format : Message → Bytes
unfolding origin_text words words_after
format m = origin_text m.origin (m.command ++ b' ' ∷ params_text m.params m.trailing)

abbrev pub origin_prefix : Origin → Option IrcPrefix
origin_prefix unnamed = none
origin_prefix (server s) =
    some (record { servername = some s; nick = none; user = none; host = none })
origin_prefix (person n u h) =
    some (record { servername = none; nick = some n; user = some u; host = some h })

abbrev pub some_words : List Bytes → Option (List Bytes)
some_words [] = none
some_words (w ∷ ws) = some (w ∷ ws)

abbrev pub some_text : List Bytes → Option Bytes
some_text [] = none
some_text (w ∷ ws) = some (words (w ∷ ws))

-- `c_params_str` keeps the space before the `:`.
abbrev pub params_str : List Bytes → List Bytes → Option Bytes
params_str [] ts = none
params_str (p ∷ ps) [] = some (words (p ∷ ps))
params_str (p ∷ ps) (t ∷ ts) = some (words (p ∷ ps) ++ b' ' ∷ [])

abbrev pub message_data : Message → IrcData
message_data m = record {
  prefix = origin_prefix m.origin;
  command = m.command;
  c_params = some_words m.params;
  c_params_str = params_str m.params m.trailing;
  rest = some_words m.trailing;
  rest_str = some_text m.trailing;
}
