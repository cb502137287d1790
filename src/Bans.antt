-- ===== src/Bans.antt =====
-- The ban lists of the channels: `channel_banlist_add` and `channel_set_modes` of src/irc_proto.c
-- and `channel_channel_ban_find` of src/channel.c. `none` is a fault: a ban without a mask is
-- compared. A ban list is what its pointer reads forwards.
pub mod Eggdrop
pub mod Distinct
pub mod Nicks
pub mod Sticky
pub mod New
use trollbot.Prelude.{
  ◌>>=◌, ℤ, pos, negsuc, add_int, negate, is_minus_one, ℕ, zero, suc, ◌+◌, ◌-◌, ◌*◌, Bool, true,
  false, ◌&&◌, ◌||◌, not, List, [], ◌∷◌, ◌++◌, Option, none, some, leb, ◌==◌, if◌then◌else◌, length,
  Bytes, codes,
}
use trollbot.Text.{isspace, str_eq}
use trollbot.Text.Number.{atoi}
use trollbot.Linked.{put_from}
use trollbot.Channel.{ChannelBan, Channel, channel_ban_new, same_text, find_first}

abbrev pub behind_ban_first : ChannelBan → Option (List ChannelBan) → Option (List ChannelBan)
behind_ban_first b none = none
behind_ban_first b (some bs) = some (b ∷ bs)

module _ (test : ChannelBan → Option Bool) where
  -- The first ban of the list that passes a test of its mask.
  unfoldable pub find_ban : List ChannelBan → Option (Option ChannelBan)
  find_ban [] = some none
  find_ban (b ∷ bs) =
      let rest = find_ban bs in test b >>= λ hit. if hit then some (some b) else rest

  -- The same, changed in place; `none` if there is none.
  unfoldable pub change_ban :
      (ChannelBan → ChannelBan) → List ChannelBan → Option (Option (List ChannelBan))
  change_ban f [] = some none
  change_ban f (b ∷ bs) =
      let rest = change_ban f bs in
      test b >>= λ hit.
      if hit then some (some (f b ∷ bs)) else (rest >>= λ r. some (behind_ban_first b r))

-- `!tstrcasecmp(cban->mask, find)`
abbrev pub ban_mask_is : Bytes → ChannelBan → Option Bool
ban_mask_is find b = b.mask >>= λ m. some (same_text m find)

-- `!strcmp(ban->mask, mask)`
abbrev pub mask_equals : Bytes → ChannelBan → Option Bool
mask_equals mask b = b.mask >>= λ m. some (str_eq m mask)

-- `channel_channel_ban_find(chan, find)`
unfoldable pub channel_channel_ban_find : List ChannelBan → Bytes → Option (Option ChannelBan)
unfolding find_ban
channel_channel_ban_find bans find = find_ban (ban_mask_is find) bans

-- `channel_banlist_add` on the list of the channel.
abbrev pub listed_ban : (chan mask who time : Bytes) → ChannelBan
listed_ban chan mask who time = record channel_ban_new {
  chan = some chan;
  mask = some mask;
  who = some who;
  time = atoi time;
}

abbrev pub unless_found : List ChannelBan → ChannelBan → Option ChannelBan → List ChannelBan
unless_found bans new none = bans ++ new ∷ []
unless_found bans new (some b) = bans

unfoldable pub list_ban : (chan mask who time : Bytes) → List ChannelBan → Option (List ChannelBan)
unfolding find_ban atoi
list_ban chan mask who time bans = do
  old ← find_ban (mask_equals mask) bans
  some (unless_found bans (listed_ban chan mask who time) old)

-- The first channel of that name, changed by a step that may fault.
unfoldable pub in_channel :
    (Channel → Option Channel) → (name : Bytes) → List Channel → Option (List Channel)
in_channel f name [] = some []
in_channel f name (c ∷ cs) =
    let rest = in_channel f name cs in
    if same_text c.name name then (f c >>= λ d. some (d ∷ cs)) else (rest >>= λ ds. some (c ∷ ds))

-- `channel_banlist_add`: the parameters of the 367 reply behind the nick.
unfoldable pub channel_banlist_add :
    (chan mask who time : Bytes) → List Channel → Option (List Channel)
unfolding in_channel list_ban
channel_banlist_add chan mask who time =
    in_channel
      (λ c. list_ban chan mask who time c.banlist.from >>= λ bs.
        some (record c { banlist = put_from c.banlist bs }))
      chan

abbrev pub opt_text : Bytes → Option Bytes
opt_text [] = none
opt_text (c ∷ s) = some (c ∷ s)

-- `channel_set_modes`: of the 324 reply.
unfoldable pub channel_set_modes : (chan modes : Bytes) → List Channel → Option (List Channel)
unfolding in_channel
channel_set_modes chan modes = in_channel (λ c. some (record c { chanmode = opt_text modes })) chan
