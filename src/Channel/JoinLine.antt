-- ===== src/Channel/JoinLine.antt =====
-- `join_channels` of src/channel.c: the JOIN line for all channels, in a buffer of `BUFFER_SIZE`
-- bytes.
use trollbot.Prelude.{
  ℕ, ◌+◌, ◌-◌, ◌≤◌, ◌<◌, ◌≡◌, refl, ap, inl, inr, Bool-cases, true, false, List, [], ◌∷◌, ◌++◌,
  arith, ltb, if◌then◌else◌, length, length-append, append_assoc, append-nil, Bytes, codes, ◌∙◌,
}
use trollbot.Channel.{Channel}

abbrev pub buffer_size : ℕ
buffer_size = 1024

-- `overflow`: `strcat` writes behind the buffer. `silent`: the function returns and sends nothing.
pub data JoinOutcome : Type 0 where
  sent : Bytes → JoinOutcome
  silent overflow : JoinOutcome

-- `joinstr[strlen(joinstr)-1] = '\0'`
unfoldable pub drop_last : Bytes → Bytes
drop_last [] = []
drop_last (c ∷ []) = []
drop_last (c ∷ d ∷ s) = c ∷ drop_last (d ∷ s)

-- The loop, with `numbytes` and `joinstr`.
unfoldable pub join_loop : ℕ → Bytes → List Channel → JoinOutcome
unfolding drop_last
join_loop numbytes joinstr [] = sent (codes "JOIN " ++ (drop_last joinstr ++ codes "\n"))
join_loop numbytes joinstr (c ∷ cs) =
    let rest = join_loop (numbytes + length c.name) (joinstr ++ (c.name ++ b',' ∷ [])) cs in
    if ltb (buffer_size - 3) (numbytes + length c.name)
    then silent
    else if ltb buffer_size (length joinstr + (length c.name + 2))
    then overflow
    else rest

unfoldable pub join_channels : List Channel → JoinOutcome
unfolding join_loop
join_channels [] = silent
join_channels (c ∷ cs) = join_loop 5 [] (c ∷ cs)

-- The bytes of all names, and with a comma behind each.
unfoldable pub names_length : List Channel → ℕ
names_length [] = 0
names_length (c ∷ cs) = length c.name + names_length cs

unfoldable pub with_commas : List Channel → Bytes
with_commas [] = []
with_commas (c ∷ cs) = (c.name ++ b',' ∷ []) ++ with_commas cs

-- The names with a comma between each two.
unfoldable pub comma_list : List Channel → Bytes
comma_list [] = []
comma_list (c ∷ []) = c.name
comma_list (c ∷ d ∷ cs) = c.name ++ (b',' ∷ comma_list (d ∷ cs))

drop_last-comma : (s : Bytes) → drop_last (s ++ b',' ∷ []) ≡ s
unfolding drop_last
drop_last-comma [] = refl
drop_last-comma (c ∷ []) = refl
drop_last-comma (c ∷ d ∷ s) = ap (◌∷◌ c) (drop_last-comma (d ∷ s))

with_commas-comma_list :
    (c : Channel) (cs : List Channel) → with_commas (c ∷ cs) ≡ comma_list (c ∷ cs) ++ b',' ∷ []
unfolding with_commas comma_list
with_commas-comma_list c [] = append-nil _
with_commas-comma_list c (d ∷ cs) = rw (with_commas-comma_list d cs, append_assoc, append_assoc)

join_loop-with_commas :
    (n : ℕ) (s : Bytes) (cs : List Channel)
    → n + names_length cs ≤ buffer_size - 3
    → length s < buffer_size
    → join_loop n s cs ≡ (
        if ltb (length (s ++ with_commas cs)) buffer_size
        then sent (codes "JOIN " ++ (drop_last (s ++ with_commas cs) ++ codes "\n"))
        else overflow)
unfolding join_loop with_commas names_length
join_loop-with_commas n s [] h l =
    let fits : ltb (length s) buffer_size ≡ true = ground arith in rw append-nil (rw fits)
join_loop-with_commas n s (c ∷ cs) h l =
    let short : ltb (buffer_size - 3) (n + length c.name) ≡ false = ground arith in
    let s' = s ++ (c.name ++ b',' ∷ []) in
    let len : length s' ≡ length s + (length c.name + 1) =
      omega (arith, length-append s (c.name ++ b',' ∷ []), length-append c.name (b',' ∷ [])) in
    rw (short, ← append_assoc s (c.name ++ b',' ∷ []) (with_commas cs))
      (elim (Bool-cases (ltb buffer_size (length s + (length c.name + 2)))) [
        | inl over ↦
            let long : ltb (length (s' ++ with_commas cs)) buffer_size ≡ false =
              ground (arith, len, length-append s' (with_commas cs)) in
            rw (over, long)
        | inr fits ↦
            rw fits
              (join_loop-with_commas (n + length c.name) s' cs (omega arith) (ground (arith, len)))
      ])

-- When there is a channel, and the names have at most 1016 bytes together: if the names with a
-- comma behind each fit into 1023 bytes, the server gets one JOIN line with the names, a comma
-- between each two; if they do not, `strcat` writes behind the buffer, since the guard counts the
-- names but not the commas.
pub join_channels-comma_list :
    (c : Channel) (cs : List Channel)
    → names_length (c ∷ cs) ≤ 1016
    → join_channels (c ∷ cs) ≡ (
        if ltb (length (with_commas (c ∷ cs))) buffer_size
        then sent (codes "JOIN " ++ (comma_list (c ∷ cs) ++ codes "\n"))
        else overflow)
unfolding join_channels
join_channels-comma_list c cs h =
    join_loop-with_commas 5 [] (c ∷ cs) (omega arith) (omega arith)
    ∙ ap
        (λ s.
          if ltb (length (with_commas (c ∷ cs))) buffer_size
          then sent (codes "JOIN " ++ (s ++ codes "\n"))
          else overflow)
        (ap drop_last (with_commas-comma_list c cs) ∙ drop_last-comma (comma_list (c ∷ cs)))
