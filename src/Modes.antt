-- ===== src/Modes.antt =====
-- MODE lines: `troll_trig_update_mode` of src/troll_lib.c, with the buffer that `tcrealloc0` of
-- src/util.c gives back when a mode is added to a user. `none` is a fault: a read or write through
-- NULL or outside a buffer.
pub mod Flags
pub mod Loop
pub mod Kept
pub mod Total
pub mod Nicks
use trollbot.Prelude.{
  pos, ℕ, zero, suc, ◌+◌, ◌-◌, Bool, true, false, ◌&&◌, ◌||◌, List, [], ◌∷◌, ◌++◌, Option, none,
  some, ltb, ◌==◌, if◌then◌else◌, length, get_elem?, Bytes, ◌>>=◌,
}
use trollbot.Text.{has_byte}
use trollbot.Linked.{Linked, put_from, step_back, append_linked}
use trollbot.Channel.{ChannelUser, ChannelBan, channel_ban_new, Channel, has_nick, same_text}

-- The C string in a buffer.
unfoldable pub text_of : List ℕ → Bytes
text_of [] = []
text_of (c ∷ s) = if c == 0 then [] else c ∷ text_of s

-- `realloc`: the new bytes hold anything.
unfoldable pub resize : ℕ → ℕ → List ℕ → List ℕ
resize junk zero buf = []
resize junk (suc n) [] = junk ∷ resize junk n []
resize junk (suc n) (b ∷ buf) = b ∷ resize junk n buf

-- `memset(&buf[i], 0, n)`
unfoldable pub clear : ℕ → ℕ → List ℕ → List ℕ
clear i n [] = []
clear zero zero (b ∷ buf) = b ∷ buf
clear zero (suc n) (b ∷ buf) = 0 ∷ clear zero n buf
clear (suc i) n (b ∷ buf) = b ∷ clear i n buf

-- `buf[i] = c`
unfoldable pub poke : ℕ → ℕ → List ℕ → List ℕ
poke i c [] = []
poke zero c (b ∷ buf) = c ∷ buf
poke (suc i) c (b ∷ buf) = b ∷ poke i c buf

-- `tcrealloc0(ptr, size, &bufsize)`: the `memset` begins one byte before `bufsize`.
unfoldable pub tcrealloc0 : (junk : ℕ) → List ℕ → (size bufsize : ℕ) → Option (List ℕ)
unfolding resize clear
tcrealloc0 junk buf size bufsize =
    if ltb bufsize size
    then (if bufsize == 0
        then none
        else some (clear (bufsize - 1) (size - bufsize) (resize junk size buf)))
    else some (resize junk size buf)

-- "No Spaces, resize": `oldmodesize` is the length of the text.
unfoldable pub grow_modes : (junk c : ℕ) → Bytes → Option Bytes
unfolding tcrealloc0 text_of poke
grow_modes junk c m = do
  buf ← tcrealloc0 junk (m ++ 0 ∷ []) (length m + 2) (length m)
  some (text_of (poke (length (text_of buf)) c buf))

-- `*strchr(s, a) = b`, if there is one.
unfoldable pub replace_first : (a b : ℕ) → Bytes → Bytes
replace_first a b [] = []
replace_first a b (c ∷ s) = if c == a then b ∷ s else c ∷ replace_first a b s

-- `+o` and `+v` on the modes of a user.
unfoldable pub give : (junk c : ℕ) → Option Bytes → Option (Option Bytes)
unfolding grow_modes replace_first has_byte
give junk c none = some (some (c ∷ []))
give junk c (some m) =
    if has_byte c m
    then some (some m)
    else if has_byte b' ' m
    then some (some (replace_first b' ' c m))
    else (do m' ← grow_modes junk c m; some (some m'))

-- `-o` and `-v`.
unfoldable pub revoke : ℕ → Option Bytes → Option Bytes
unfolding replace_first
revoke c none = none
revoke c (some m) = some (replace_first c b' ' m)

unfoldable pub change_modes : (junk : ℕ) (plus : Bool) (c : ℕ) → ChannelUser → Option ChannelUser
unfolding give revoke
change_modes junk true c u = do m ← give junk c u.modes; some (record u { modes = m })
change_modes junk false c u = some (record u { modes = revoke c u.modes })

pub change_named :
    (ChannelUser → Option ChannelUser) → Bytes → List ChannelUser → Option (List ChannelUser)
change_named f nick [] = some []
change_named f nick (u ∷ us) = elim (has_nick nick u) [
  | true ↦ (do u' ← f u; some (u' ∷ us))
  | false ↦ (do us' ← change_named f nick us; some (u ∷ us'))
]

-- The user of the parameter, found and changed. A NULL parameter is read if there is a user at all.
unfoldable pub change_user :
    (ChannelUser → Option ChannelUser) → Option Bytes → List ChannelUser → Option (List ChannelUser)
unfolding change_named
change_user f (some nick) us = change_named f nick us
change_user f none [] = some []
change_user f none (u ∷ us) = none

-- `!tstrcasecmp(cban->mask, param)`
unfoldable pub same_mask : Option Bytes → Option Bytes → Option Bool
same_mask (some mask) (some param) = some (same_text mask param)
same_mask none _ = none
same_mask _ _ = none

-- The search of `-b`, and `channel_ban_del` of the first ban that it finds; `behind` is what `prev`
-- leads to from the ban at hand.
unfoldable pub unban :
    (param : Option Bytes) (all : Linked ChannelBan) (behind bans : List ChannelBan)
    → Option (Linked ChannelBan)
unfolding same_mask
unban param all behind [] = some all
unban param all behind (b ∷ bans) = elim (same_mask b.mask param) [
  | none ↦ none
  | some hit ↦ elim hit [
    | true ↦ some (step_back behind bans)
    | false ↦ unban param all (b ∷ behind) bans
  ]
]

-- What the loop over the mode characters keeps.
pub record ModeState : Type 0 where
  pub plus : Bool
  pub arg_index : ℕ
  pub users : List ChannelUser
  pub bans : Linked ChannelBan

-- What the loop reads: `data->c_params`, the nick of the sender, NULL for a server, the time, and
-- the byte that `realloc` leaves.
pub record ModeLine : Type 0 where
  pub c_params : List Bytes
  pub sender : Option Bytes
  pub now : ℕ
  pub junk : ℕ

-- `data->c_params[arg_index+2]`
abbrev pub parameter : ModeLine → ModeState → Option Bytes
parameter l s = get_elem? l.c_params (s.arg_index + 2)

abbrev pub new_ban : ModeLine → ModeState → ChannelBan
new_ban l s = record channel_ban_new {
  chan = get_elem? l.c_params 0;
  mask = parameter l s;
  who = l.sender;
  time = pos l.now;
}

unfoldable pub mode_user : ModeLine → ModeState → ℕ → Option ModeState
unfolding change_user change_modes
mode_user l s c = do
  us ← change_user (change_modes l.junk s.plus c) (parameter l s) s.users
  some (record s { users = us; arg_index = s.arg_index + 1 })

pub mode_ban_by : ModeLine → ModeState → Bool → Option ModeState
mode_ban_by l s true =
    some (record s { bans = append_linked s.bans (new_ban l s); arg_index = s.arg_index + 1 })
mode_ban_by l s false = do
  bans ← unban (parameter l s) s.bans s.bans.behind s.bans.from
  some (record s { bans = bans; arg_index = s.arg_index + 1 })

unfoldable pub mode_ban : ModeLine → ModeState → Option ModeState
unfolding mode_ban_by unban
mode_ban l s = mode_ban_by l s s.plus

-- The `switch`. `k`, `e`, `I`, `c` and `j` do what the default does: nothing.
unfoldable pub mode_step : ModeLine → ModeState → ℕ → Option ModeState
unfolding mode_user mode_ban
mode_step l s c =
    if c == b'+'
    then some (record s { plus = true })
    else if c == b'-'
    then some (record s { plus = false })
    else if c == b'o' || c == b'v'
    then mode_user l s c
    else if c == b'b'
    then mode_ban l s
    else some s

unfoldable pub mode_loop : ModeLine → ModeState → Bytes → Option ModeState
unfolding mode_step
mode_loop l s [] = some s
mode_loop l s (c ∷ modes) = do s' ← mode_step l s c; mode_loop l s' modes

change_channel : ModeLine → Bytes → Channel → Option Channel
change_channel l modes c = do
  s ←
      mode_loop l
        (record { plus = true; arg_index = 0; users = c.user_list.from; bans = c.banlist }) modes
  some (record c { user_list = put_from c.user_list s.users; banlist = s.bans })

mode_channels : ModeLine → (room : Bytes) → Option Bytes → List Channel → Option (List Channel)
mode_channels l room modes [] = some []
mode_channels l room modes (c ∷ cs) = elim (same_text c.name room) [
  | true ↦ (do m ← modes; c' ← change_channel l m c; some (c' ∷ cs))
  | false ↦ (do cs' ← mode_channels l room modes cs; some (c ∷ cs'))
]

-- `troll_trig_update_mode`: the modes are `c_params[1]`, of the channel `c_params[0]`.
unfoldable pub troll_trig_update_mode :
    ModeLine → (room : Bytes) → List Channel → Option (List Channel)
unfolding mode_channels change_channel mode_loop
troll_trig_update_mode l room chans = mode_channels l room (get_elem? l.c_params 1) chans
