-- ===== src/Channel/Network.antt =====
-- All channels of a network, from one message to the next.
use trollbot.Prelude.{ℤ, ℕ, ◌≡◌, ◌≢◌, Bool, List, map, Option, some, All, Bytes}
use trollbot.Text.{tolower}
use trollbot.Channel.{
  ChannelUser, Channel, has_nick, update_first, new_join, new_part, new_quit, new_kick,
  troll_trig_update_nick, troll_trig_channel_redirect, channel_set_topic, troll_trig_update_topic,
  troll_parse_who, channel_list_populate, name_nick,
}
use trollbot.Channel.Members.{key, AllApart, WithoutNick}
use trollbot.Modes.{ModeLine, troll_trig_update_mode}
use trollbot.Bans.{channel_banlist_add, channel_set_modes}
use trollbot.Bans.Eggdrop.{egg_newchanban, egg_stick, egg_unstick}

abbrev pub HasDistinctNicks : Channel → Type 0
HasDistinctNicks c = AllApart c.user_list.behind c.user_list.from

-- In every channel the nicks are distinct, of all the users that its list is linked to.
abbrev pub AllDistinct : List Channel → Type 0
AllDistinct = All HasDistinctNicks

-- No user of any channel has the nick `new`.
abbrev pub Unused : Bytes → List Channel → Type 0
Unused new =
    All (λ c.
      WithoutNick new c.user_list.behind × All (λ u. key u ≢ map tolower new) c.user_list.from)

-- In no channel the nick is one of a user before the pointer, whom a deletion of the third user or
-- a later one has hidden.
abbrev pub Unhidden : Bytes → List Channel → Type 0
Unhidden nick = All (λ c. WithoutNick nick c.user_list.behind)

-- What a message of the server may do to the channels, or a script through the eggdrop library.
pub data Step (botnick bot : Bytes) : List Channel → List Channel → Type 0 where
  join :
      (nick user host room : Bytes) (chans : List Channel)
      → Unhidden nick chans
      → Step botnick bot chans (new_join botnick nick user host room chans).0
  part :
      (nick room : Bytes) (chans : List Channel) → Step botnick bot chans (new_part nick room chans)
  quit : (nick : Bytes) (chans : List Channel) → Step botnick bot chans (new_quit nick chans)
  kick :
      (room kicked : Bytes) (chans : List Channel)
      → Step botnick bot chans (new_kick bot room kicked chans).0
  change_nick :
      (nick new : Bytes) (chans : List Channel)
      → Unused new chans
      → Step botnick bot chans (troll_trig_update_nick nick new chans)
  redirect :
      (old new : Bytes) (chans : List Channel)
      → Step botnick bot chans (troll_trig_channel_redirect old new chans)
  topic :
      (room : Bytes) (text : Option Bytes) (chans : List Channel)
      → Step botnick bot chans (troll_trig_update_topic room text chans)
  who :
      (room nick ident host : Bytes) (now : ℕ) (chans : List Channel)
      → Unhidden nick chans
      → Step botnick bot chans (troll_parse_who room nick ident host now chans)
  topic_reply :
      (room : Bytes) (text : Option Bytes) (chans : List Channel)
      → Step botnick bot chans (channel_set_topic room text chans)
  mode :
      (l : ModeLine) (room : Bytes) (chans : List Channel) {after : List Channel}
      → troll_trig_update_mode l room chans ≡ some after
      → Step botnick bot chans after
  modes_reply :
      (room modes : Bytes) (chans : List Channel) {after : List Channel}
      → channel_set_modes room modes chans ≡ some after
      → Step botnick bot chans after
  ban_reply :
      (room mask setter time : Bytes) (chans : List Channel) {after : List Channel}
      → channel_banlist_add room mask setter time chans ≡ some after
      → Step botnick bot chans after
  new_ban :
      (room ban setter comment : Option Bytes) (lifetime : ℤ) (now : ℕ) (chans : List Channel)
      {after : List Channel × List Bytes}
      → egg_newchanban room ban setter comment lifetime now chans ≡ some after
      → Step botnick bot chans after.0
  stick :
      (ban : Bytes) (room : Option Bytes) (chans : List Channel) {after : List Channel × Bool}
      → egg_stick ban room chans ≡ some after
      → Step botnick bot chans after.0
  unstick :
      (ban : Bytes) (room : Option Bytes) (chans : List Channel) {after : List Channel × Bool}
      → egg_unstick ban room chans ≡ some after
      → Step botnick bot chans after.0
  names :
      (room : Bytes) (list : List Bytes) (chans : List Channel) {after : List Channel}
      → All (λ s. Unhidden (name_nick s) chans) list
      → channel_list_populate room list chans ≡ some after
      → Step botnick bot chans after

pub data Reach (botnick bot : Bytes) (chans : List Channel) : List Channel → Type 0 where
  here : Reach botnick bot chans chans
  next :
      {mid last : List Channel}
      → Reach botnick bot chans mid
      → Step botnick bot mid last
      → Reach botnick bot chans last

abbrev renamed : (nick new : Bytes) → List ChannelUser → List ChannelUser
renamed nick new = update_first (has_nick nick) (λ u. record u { nick = new })
