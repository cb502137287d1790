-- ===== src/Irc/RoundTrip.antt =====
-- The parser reads a line as the message that it was written from.
use trollbot.Prelude.{
  ◌>>=◌, ℕ, ◌≡◌, ◌≢◌, refl, ap, ◌∙◌, true, false, List, [], ◌∷◌, ◌++◌, Option, none, some, arith,
  ◌==◌, All, Bytes, append_assoc,
}
use trollbot.Text.{has_byte}
use trollbot.Irc.{
  IrcPrefix, IrcData, Fields, begin, entries, irc_data, params_loop, rest_loop, ends_line, skip_one,
  server_prefix, user_prefix, prefix_of, parse_prefix, parse_irc_data,
}
use trollbot.Irc.Loops.{
  IsWord, IsParam, words, words_after, extend, after, after-done, after-text, copy_until-stop,
  rest_loop-first, rest_loop-after, rest_loop-end,
}
use trollbot.Irc.Params.{
  params_loop-first, params_loop-after, params_loop-end, params_loop-colon, params_loop-space_colon,
}
use trollbot.Irc.Format.{
  Origin, unnamed, server, person, Message, IsOrigin, IsMessage, line_end, params_text, origin_text,
  format, origin_prefix, some_words, some_text, params_str, message_data,
}

-- The fields of words that were read one by one.
abbrev fields_of : Bytes → List Bytes → Fields
fields_of w ws = after ws (extend w (begin none))

entries-fields_of : (w : Bytes) (ws : List Bytes) → entries (some (fields_of w ws)) ≡ some (w ∷ ws)
entries-fields_of w ws = ap some (after-done ws (extend w (begin none)))

text-fields_of : (w : Bytes) (ws : List Bytes) → (fields_of w ws).text ≡ words (w ∷ ws)
unfolding words
text-fields_of w ws = after-text ws (extend w (begin none))

rest_loop-words :
    (t : Bytes) (ts : List Bytes)
    → All IsWord (t ∷ ts)
    → rest_loop none (words (t ∷ ts) ++ line_end) ≡ some (fields_of t ts)
unfolding words
rest_loop-words t ts h =
    ap (rest_loop none) (append_assoc t (words_after ts) line_end)
    ∙ rest_loop-first t (words_after ts ++ line_end) h.0
    ∙ rest_loop-after ts (extend t (begin none)) line_end h.1
    ∙ rest_loop-end (some (fields_of t ts)) (b'\n' ∷ [])

params_loop-words :
    (p : Bytes) (ps : List Bytes) (s : Bytes)
    → All IsParam (p ∷ ps)
    → params_loop true none (words (p ∷ ps) ++ s) ≡ params_loop false (some (fields_of p ps)) s
unfolding words
params_loop-words p ps s h =
    ap (params_loop true none) (append_assoc p (words_after ps) s)
    ∙ params_loop-first p (words_after ps ++ s) h.0
    ∙ params_loop-after ps (extend p (begin none)) s h.1

-- What follows the command.
abbrev finish : Option IrcPrefix → Bytes → Option (Option Fields × Bytes) → Option IrcData
finish pre command r =
    r >>= λ params. some (irc_data pre command params.0 (rest_loop none (skip_one params.1)))

abbrev data_of : Option IrcPrefix → Bytes → (params trailing : List Bytes) → IrcData
data_of pre command ps ts = record {
  prefix = pre;
  command = command;
  c_params = some_words ps;
  c_params_str = params_str ps ts;
  rest = some_words ts;
  rest_str = some_text ts;
}

finish-params :
    (pre : Option IrcPrefix) (command : Bytes) (ps ts : List Bytes)
    → All IsParam ps
    → All IsWord ts
    → finish pre command (params_loop true none (params_text ps ts))
      ≡ some (data_of pre command ps ts)
finish-params pre command [] [] p t =
    unfold rest_loop ends_line in ap (finish pre command) (params_loop-end true none (b'\n' ∷ []))
finish-params pre command [] (w ∷ ws) p t =
    ap (finish pre command) (params_loop-colon (words (w ∷ ws) ++ line_end))
    ∙ rw (rest_loop-words w ws t, entries-fields_of w ws, text-fields_of w ws)
finish-params pre command (v ∷ vs) [] p t =
    ap (finish pre command)
      (params_loop-words v vs line_end p ∙ params_loop-end false _ (b'\n' ∷ []))
    ∙ unfold rest_loop ends_line in rw (entries-fields_of v vs, text-fields_of v vs)
finish-params pre command (v ∷ vs) (w ∷ ws) p t =
    ap (finish pre command) (
      params_loop-words v vs _ p
      ∙ params_loop-space_colon (fields_of v vs) (words (w ∷ ws) ++ line_end))
    ∙ rw (
      rest_loop-words w ws t,
      entries-fields_of w ws,
      text-fields_of w ws,
      entries-fields_of v vs,
      text-fields_of v vs,
    )

prefix_of-server :
    (nick s : Bytes) → IsOrigin nick (server s) → prefix_of nick s ≡ origin_prefix (server s)
unfolding prefix_of server_prefix
prefix_of-server nick s h = rw (h.1, h.2)

has_bang : (n s : Bytes) → has_byte b'!' (n ++ b'!' ∷ s) ≡ true
unfolding has_byte
has_bang [] s = refl
has_bang (c ∷ n) s = ground (arith, has_bang n s)

prefix_of-person :
    (nick n u h : Bytes)
    → IsOrigin nick (person n u h)
    → prefix_of nick (n ++ b'!' ∷ (u ++ b'@' ∷ h)) ≡ origin_prefix (person n u h)
unfolding prefix_of user_prefix
prefix_of-person nick n u h o = rw (
  has_bang n (u ++ b'@' ∷ h),
  copy_until-stop b'!' n (u ++ b'@' ∷ h) o.1,
  copy_until-stop b'@' u h o.2,
)

parse_prefix-unnamed :
    (nick command s : Bytes)
    → ((c : ℕ) (t : Bytes) → command ≡ c ∷ t → c ≢ b':')
    → parse_prefix nick (command ++ b' ' ∷ s) ≡ some (none, command ++ b' ' ∷ s)
unfolding parse_prefix
parse_prefix-unnamed nick [] s h = refl
parse_prefix-unnamed nick (c ∷ t) s h =
    let ne = h c t refl in let no : (c == b':') ≡ false = ground arith in rw (parse_prefix, no)

parse_prefix-origin :
    (nick : Bytes) (o : Origin) (command s : Bytes)
    → IsOrigin nick o
    → ((c : ℕ) (t : Bytes) → command ≡ c ∷ t → c ≢ b':')
    → parse_prefix nick (origin_text o (command ++ b' ' ∷ s))
      ≡ some (origin_prefix o, command ++ b' ' ∷ s)
unfolding origin_text parse_prefix
parse_prefix-origin nick unnamed command s i h = parse_prefix-unnamed nick command s h
parse_prefix-origin nick (server name) command s i h =
    rw (copy_until-stop b' ' name (command ++ b' ' ∷ s) i.0, prefix_of-server nick name i)
parse_prefix-origin nick (person n u host) command s i h = rw (
  copy_until-stop b' ' (n ++ b'!' ∷ (u ++ b'@' ∷ host)) (command ++ b' ' ∷ s) i.0,
  prefix_of-person nick n u host i,
)

-- A well-formed message is read back from its line without a fault: its sender, its command, the
-- parameters and the words behind the `:`, each word an entry. `c_params_str` keeps the space
-- before the `:`.
pub parse_irc_data-format :
    (nick : Bytes) (m : Message)
    → IsMessage nick m
    → parse_irc_data nick (format m) ≡ some (message_data m)
unfolding parse_irc_data format
parse_irc_data-format nick m h =
    rw
      (
        parse_prefix-origin nick m.origin m.command (params_text m.params m.trailing) h.origin
            h.no_colon,
        copy_until-stop b' ' m.command (params_text m.params m.trailing) h.command,
      )
      (finish-params (origin_prefix m.origin) m.command m.params m.trailing h.params h.trailing)
