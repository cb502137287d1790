-- ===== src/Bans/Eggdrop.antt =====
-- The bans as the eggdrop library sees and changes them: `egg_newchanban`, `egg_stick`,
-- `egg_unstick`, `egg_isban`, `egg_ispermban`, `egg_isbansticky` and `egg_ischanban` of
-- src/egg_lib.c.
use trollbot.Prelude.{
  ◌>>=◌, ℤ, pos, add_int, is_minus_one, ℕ, Bool, true, false, ◌||◌, List, [], ◌∷◌, ◌++◌, Option,
  none, some, if◌then◌else◌, Bytes, codes,
}
use trollbot.Linked.{put_from}
use trollbot.Channel.{ChannelBan, Channel, channel_ban_new, same_text, find_first}
use trollbot.Bans.{change_ban, ban_mask_is, channel_channel_ban_find}

-- `s == NULL || strlen(s) == 0`
abbrev pub is_empty : Option Bytes → Bool
is_empty none = true
is_empty (some []) = true
is_empty (some (c ∷ s)) = false

-- The new ban of `egg_newchanban`. The test is for the lifetime of the ban, which is 0, not for the
-- one that is given.
abbrev pub made_ban : (chan mask who comment : Bytes) (lifetime : ℤ) (now : ℕ) → ChannelBan
made_ban chan mask who comment lifetime now =
    let life = if is_minus_one channel_ban_new.lifetime then pos 60 else lifetime in
    record channel_ban_new {
      chan = some chan;
      mask = some mask;
      who = some who;
      comment = some comment;
      lifetime = life;
      expire_time = add_int now life;
    }

abbrev pub ban_line : (chan mask : Bytes) → Bytes
ban_line chan mask = codes "MODE " ++ (chan ++ (codes " +b " ++ mask))

abbrev pub unless_banned :
    List ChannelBan → ChannelBan → Bytes → Option ChannelBan → List ChannelBan × List Bytes
unless_banned bans new line none = (bans ++ new ∷ [], line ∷ [])
unless_banned bans new line (some b) = (bans, [])

-- The bans of the channel, and what is sent.
unfoldable pub add_ban :
    (chan mask who comment : Bytes) (lifetime : ℤ) (now : ℕ)
    → List ChannelBan
    → Option (List ChannelBan × List Bytes)
unfolding channel_channel_ban_find
add_ban chan mask who comment lifetime now bans = do
  old ← channel_channel_ban_find bans mask
  some (unless_banned bans (made_ban chan mask who comment lifetime now) (ban_line chan mask) old)

unfoldable pub ban_channel :
    (chan mask who comment : Bytes) (lifetime : ℤ) (now : ℕ)
    → List Channel
    → Option (List Channel × List Bytes)
unfolding add_ban
ban_channel chan mask who comment lifetime now [] = some ([], [])
ban_channel chan mask who comment lifetime now (c ∷ cs) =
    let rest = ban_channel chan mask who comment lifetime now cs in
    if same_text c.name chan
    then (add_ban chan mask who comment lifetime now c.banlist.from >>= λ r.
        some (record c { banlist = put_from c.banlist r.0 } ∷ cs, r.1))
    else (rest >>= λ r. some (c ∷ r.0, r.1))

-- What a text is where it is not NULL.
abbrev pub text_or_empty : Option Bytes → Bytes
text_or_empty none = []
text_or_empty (some s) = s

-- `egg_newchanban`: the channels, and what is sent. `options` is not used.
unfoldable pub egg_newchanban :
    (channel ban who comment : Option Bytes) (lifetime : ℤ) (now : ℕ)
    → List Channel
    → Option (List Channel × List Bytes)
unfolding ban_channel
egg_newchanban channel ban who comment lifetime now chans =
    if is_empty channel || is_empty ban || is_empty who || is_empty comment
    then some (chans, [])
    else ban_channel (text_or_empty channel) (text_or_empty ban) (text_or_empty who)
        (text_or_empty comment) lifetime now chans

-- `network_channel_find`
unfoldable pub network_channel_find : List Channel → Bytes → Option Channel
unfolding find_first
network_channel_find chans name = find_first (λ c. same_text c.name name) chans

-- What a query of a ban of a channel returns: 0 without a channel or a ban.
abbrev pub of_ban : (ChannelBan → Bool) → Option ChannelBan → Bool
of_ban f none = false
of_ban f (some b) = f b

abbrev pub of_channel : (ChannelBan → Bool) → Bytes → Option Channel → Option Bool
of_channel f ban none = some false
of_channel f ban (some c) = channel_channel_ban_find c.banlist.from ban >>= λ b. some (of_ban f b)

unfoldable pub query_ban :
    (ChannelBan → Bool) → (ban : Bytes) (channel : Option Bytes) → List Channel → Option Bool
unfolding network_channel_find channel_channel_ban_find
query_ban f ban channel chans =
    if is_empty channel
    then some false
    else of_channel f ban (network_channel_find chans (text_or_empty channel))

unfoldable pub egg_isban : (ban : Bytes) (channel : Option Bytes) → List Channel → Option Bool
unfolding query_ban
egg_isban = query_ban (λ b. true)

unfoldable pub egg_ispermban : (ban : Bytes) (channel : Option Bytes) → List Channel → Option Bool
unfolding query_ban
egg_ispermban = query_ban (λ b. b.is_perm)

unfoldable pub egg_isbansticky : (ban : Bytes) (channel : Option Bytes) → List Channel → Option Bool
unfolding query_ban
egg_isbansticky = query_ban (λ b. b.is_sticky)

-- `egg_ischanban` has no test of the channel's name.
unfoldable pub egg_ischanban : (ban channel : Bytes) → List Channel → Option Bool
unfolding network_channel_find channel_channel_ban_find
egg_ischanban ban channel chans = of_channel (λ b. true) ban (network_channel_find chans channel)

-- The ban of a channel, changed in place: the channels, and whether there was one.
abbrev pub changed : Channel → List Channel → Option (List ChannelBan) → List Channel × Bool
changed c cs none = (c ∷ cs, false)
changed c cs (some bs) = (record c { banlist = put_from c.banlist bs } ∷ cs, true)

unfoldable pub change_in :
    (ChannelBan → ChannelBan) → (ban channel : Bytes) → List Channel → Option (List Channel × Bool)
unfolding change_ban
change_in f ban channel [] = some ([], false)
change_in f ban channel (c ∷ cs) =
    let rest = change_in f ban channel cs in
    if same_text c.name channel
    then (change_ban (ban_mask_is ban) f c.banlist.from >>= λ r. some (changed c cs r))
    else (rest >>= λ r. some (c ∷ r.0, r.1))

abbrev pub with_sticky : Bool → ChannelBan → ChannelBan
with_sticky sticky b = record b { is_sticky = sticky }

unfoldable pub set_sticky :
    (sticky : Bool) (ban : Bytes) (channel : Option Bytes)
    → List Channel
    → Option (List Channel × Bool)
unfolding change_in
set_sticky sticky ban channel chans =
    if is_empty channel
    then some (chans, false)
    else change_in (with_sticky sticky) ban (text_or_empty channel) chans

-- `egg_stick` and `egg_unstick`
unfoldable pub egg_stick :
    (ban : Bytes) (channel : Option Bytes) → List Channel → Option (List Channel × Bool)
unfolding set_sticky
egg_stick = set_sticky true

unfoldable pub egg_unstick :
    (ban : Bytes) (channel : Option Bytes) → List Channel → Option (List Channel × Bool)
unfolding set_sticky
egg_unstick = set_sticky false
