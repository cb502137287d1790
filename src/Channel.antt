-- ===== src/Channel.antt =====
-- Who is in which channel: the state of src/channel.c, and the handlers that keep it, of
-- src/irc_proto.c (`new_join`, `new_part`, `new_quit`, `new_kick`, `channel_set_topic`),
-- src/troll_lib.c (`troll_trig_update_nick`, `troll_trig_channel_redirect`,
-- `troll_trig_update_topic`, `troll_parse_who`) and src/channel.c (`channel_list_populate`,
-- `join_channels`). The users and the bans of a channel are `Linked`, since deleting leaves the
-- pointer behind the first node; Dlist shows that the pointer operations do this. A handler takes
-- the fields of the message that it reads, which its trigger's message has.
pub mod Members
pub mod JoinLine
pub mod Forget
pub mod Network
use trollbot.Prelude.{
  ℤ, pos, ℕ, zero, suc, ◌+◌, ◌-◌, Bool, true, false, ◌&&◌, ◌||◌, not, List, [], ◌∷◌, ◌++◌, map,
  Option, none, some, ltb, ◌==◌, if◌then◌else◌, length, Bytes, codes,
}
use trollbot.Text.{str_eq, tstrcasecmp}
use trollbot.Linked.{Linked, linked, put_from, del_found}

-- `struct channel_user`; `realname` and `urec` are never written here.
pub record ChannelUser : Type 0 where
  pub nick : Bytes
  pub ident : Option Bytes
  pub host : Option Bytes
  pub modes : Option Bytes
  pub jointime : ℕ

-- `struct channel_ban`, less `type`.
pub record ChannelBan : Type 0 where
  pub chan : Option Bytes
  pub mask : Option Bytes
  pub who : Option Bytes
  pub comment : Option Bytes
  pub time : ℤ
  pub is_sticky : Bool
  pub is_perm : Bool
  pub lifetime : ℤ
  pub expire_time : ℤ

-- `channel_ban_new`
abbrev pub channel_ban_new : ChannelBan
channel_ban_new = record {
  chan = none;
  mask = none;
  who = none;
  comment = none;
  time = pos 0;
  is_sticky = false;
  is_perm = false;
  lifetime = pos 0;
  expire_time = pos 0;
}

-- `struct channel`, less `egg_vars`, `status` and `tcfg`.
pub record Channel : Type 0 where
  pub name : Bytes
  pub topic : Option Bytes
  pub chanmode : Option Bytes
  pub user_list : Linked ChannelUser
  pub banlist : Linked ChannelBan

-- `!tstrcasecmp(a, b)`
abbrev pub same_text : Bytes → Bytes → Bool
same_text a b = tstrcasecmp a b == 0

-- `new_channel_user`, with the nick that its caller sets.
abbrev pub new_channel_user : Bytes → ChannelUser
new_channel_user nick = record {
  nick = nick;
  ident = none;
  host = none;
  modes = none;
  jointime = 0;
}

module _ {A : Type 0} (found : A → Bool) where
  -- The first element that a search finds, changed in place.
  unfoldable pub update_first : (A → A) → List A → List A
  update_first f [] = []
  update_first f (x ∷ xs) = if found x then f x ∷ xs else x ∷ update_first f xs

  unfoldable pub find_first : List A → Option A
  find_first [] = none
  find_first (x ∷ xs) = if found x then some x else find_first xs

abbrev pub has_nick : Bytes → ChannelUser → Bool
has_nick nick u = same_text u.nick nick

-- `channel_channel_user_find(chan, find)`
unfoldable pub channel_channel_user_find : List ChannelUser → Bytes → Option ChannelUser
unfolding find_first
channel_channel_user_find users nick = find_first (has_nick nick) users

-- `chan->user_list = channel_user_del(chan->user_list, channel_channel_user_find(chan, nick))`
unfoldable pub forget_user : Bytes → Linked ChannelUser → Linked ChannelUser
unfolding del_found
forget_user nick l = elim (del_found (has_nick nick) l.behind l.from) [ none ↦ l | some m ↦ m ]

abbrev pub without : Bytes → Channel → Channel
without nick c = record c { user_list = forget_user nick c.user_list }

-- The code of `new_join`, `troll_parse_who` and `channel_list_populate` for one user: the user is
-- found and changed by `f`, or else `new` is added behind the others.
unfoldable pub upsert :
    (nick : Bytes)
    → (ChannelUser → ChannelUser)
    → (new : ChannelUser) → List ChannelUser
    → List ChannelUser
upsert nick f new [] = f new ∷ []
upsert nick f new (u ∷ us) = if has_nick nick u then f u ∷ us else u ∷ upsert nick f new us

abbrev pub with_origin : (user host : Bytes) → ChannelUser → ChannelUser
with_origin user host u = record u { ident = some user; host = some host }

-- A user who joins gets the host and the ident of the message.
unfoldable pub join_user : (nick user host : Bytes) → List ChannelUser → List ChannelUser
unfolding upsert
join_user nick user host = upsert nick (with_origin user host) (new_channel_user nick)

-- A change of the users that the pointer reads.
abbrev pub with_users : (List ChannelUser → List ChannelUser) → Channel → Channel
with_users f c = record c { user_list = put_from c.user_list (f c.user_list.from) }

-- What the bot sends when it is the one who joined.
abbrev pub ask_channel : Bytes → List Bytes
ask_channel name =
    (codes "MODE " ++ name)
    ∷ (codes "MODE " ++ (name ++ codes " b"))
    ∷ (codes "MODE " ++ (name ++ codes " e"))
    ∷ (codes "MODE " ++ (name ++ codes " I"))
    ∷ (codes "WHO " ++ name)
    ∷ []

-- `new_join`: the channels, and what is sent.
unfoldable pub new_join :
    (botnick nick user host room : Bytes) → List Channel → List Channel × List Bytes
unfolding join_user
new_join botnick nick user host room [] = ([], [])
new_join botnick nick user host room (c ∷ cs) =
    let rest = new_join botnick nick user host room cs in
    if same_text room c.name
    then (
      with_users (join_user nick user host) c ∷ cs,
      if same_text botnick nick then ask_channel c.name else [],
    )
    else (c ∷ rest.0, rest.1)

-- `new_part`. An empty user list is left as it is, as `forget_user` leaves it.
unfoldable pub new_part : (nick room : Bytes) → List Channel → List Channel
unfolding update_first forget_user
new_part nick room chans = update_first (λ c. same_text room c.name) (without nick) chans

-- `new_quit`: in every channel.
unfoldable pub new_quit : Bytes → List Channel → List Channel
unfolding forget_user
new_quit nick [] = []
new_quit nick (c ∷ cs) = without nick c ∷ new_quit nick cs

-- `new_kick`: the channels, and the rejoin if it was the bot. The bot's nick is compared by
-- `strcmp`.
unfoldable pub new_kick : (bot room kicked : Bytes) → List Channel → List Channel × List Bytes
unfolding update_first forget_user str_eq
new_kick bot room kicked chans = (
  update_first (λ c. same_text c.name room) (without kicked) chans,
  if str_eq kicked bot then (codes "JOIN " ++ room) ∷ [] else [],
)

-- `troll_trig_update_nick`: the first user of that nick, in every channel.
unfoldable pub troll_trig_update_nick : (nick new : Bytes) → List Channel → List Channel
unfolding update_first
troll_trig_update_nick nick new [] = []
troll_trig_update_nick nick new (c ∷ cs) =
    with_users (update_first (has_nick nick) (λ u. record u { nick = new })) c
    ∷ troll_trig_update_nick nick new cs

-- `troll_trig_channel_redirect`
unfoldable pub troll_trig_channel_redirect : (old new : Bytes) → List Channel → List Channel
unfolding update_first
troll_trig_channel_redirect old new =
    update_first (λ c. same_text c.name old) (λ c. record c { name = new })

-- `troll_trig_update_topic`; `tstrdup` of NULL is NULL.
unfoldable pub troll_trig_update_topic :
    (room : Bytes) (rest_str : Option Bytes) → List Channel → List Channel
unfolding update_first
troll_trig_update_topic room rest_str =
    update_first (λ c. same_text room c.name) (λ c. record c { topic = rest_str })

-- `channel_set_topic`: of the 332 reply.
unfoldable pub channel_set_topic :
    (room : Bytes) (rest_str : Option Bytes) → List Channel → List Channel
unfolding update_first
channel_set_topic room rest_str =
    update_first (λ c. same_text c.name room) (λ c. record c { topic = rest_str })

abbrev pub who_channel_user : (nick ident host : Bytes) → ℕ → ChannelUser
who_channel_user nick ident host now = record (with_origin ident host (new_channel_user nick)) {
  jointime = now;
}

-- A user of a WHO reply; one who is known stays as he is.
unfoldable pub who_user : (nick ident host : Bytes) (now : ℕ) → List ChannelUser → List ChannelUser
unfolding upsert
who_user nick ident host now = upsert nick (λ u. u) (who_channel_user nick ident host now)

-- `troll_parse_who`
unfoldable pub troll_parse_who :
    (room nick ident host : Bytes) (now : ℕ) → List Channel → List Channel
unfolding update_first who_user
troll_parse_who room nick ident host now =
    update_first (λ c. same_text c.name room) (with_users (who_user nick ident host now))

-- The loop over the `@` and `+` in front of a name of a NAMES reply: its modes, and the nick.
unfoldable pub name_modes : Bytes → Bytes
name_modes [] = []
name_modes (c ∷ s) =
    if c == b'@' then b'o' ∷ name_modes s else if c == b'+' then b'v' ∷ name_modes s else []

unfoldable pub name_nick : Bytes → Bytes
name_nick [] = []
name_nick (c ∷ s) = if c == b'@' || c == b'+' then name_nick s else c ∷ s

-- `modes` of a user: NULL if there are none.
abbrev pub opt_modes : Bytes → Option Bytes
opt_modes [] = none
opt_modes (c ∷ s) = some (c ∷ s)

abbrev pub with_modes : Option Bytes → ChannelUser → ChannelUser
with_modes modes u = record u { modes = modes }

unfoldable pub name_user : (nick : Bytes) → Option Bytes → List ChannelUser → List ChannelUser
unfolding upsert
name_user nick modes = upsert nick (with_modes modes) (new_channel_user nick)

-- The loop over the names.
unfoldable pub name_users : List Bytes → List ChannelUser → List ChannelUser
unfolding name_user name_modes name_nick
name_users [] users = users
name_users (s ∷ names) users =
    name_users names (name_user (name_nick s) (opt_modes (name_modes s)) users)

abbrev pub new_channel : Bytes → Channel
new_channel name = record {
  name = name;
  topic = none;
  chanmode = none;
  user_list = linked [] [];
  banlist = linked [] [];
}

pub populate : (room : Bytes) (names : List Bytes) → List Channel → List Channel
populate room names [] = with_users (name_users names) (new_channel room) ∷ []
populate room names (c ∷ cs) =
    if same_text c.name room
    then with_users (name_users names) c ∷ cs
    else c ∷ populate room names cs

-- `channel_list_populate`. With no channel at all it reads through NULL.
unfoldable pub channel_list_populate :
    (room : Bytes) (names : List Bytes) → List Channel → Option (List Channel)
unfolding populate name_users
channel_list_populate room names [] = none
channel_list_populate room names (c ∷ cs) = some (populate room names (c ∷ cs))
