-- ===== src/Bans/Nicks.antt =====
-- What sets bans and channel modes leaves the nicks of every user alone.
use trollbot.Prelude.{
  ◌>>=◌, Yields, Yields-bind, Yields-step, ℤ, ℕ, ◌≡◌, refl, ap, Bool, ◌||◌, List, [], ◌∷◌, Option,
  none, some, Bytes, if_cases,
}
use trollbot.Linked.{put_from}
use trollbot.Channel.{ChannelUser, ChannelBan, Channel, same_text}
use trollbot.Channel.Members.{nicks, all_nicks}
use trollbot.Bans.{
  in_channel, channel_banlist_add, channel_set_modes, list_ban, change_ban, ban_mask_is, opt_text,
}
use trollbot.Bans.Eggdrop.{
  ban_channel, egg_newchanban, change_in, changed, set_sticky, is_empty, text_or_empty, add_ban,
}

abbrev Stay : List Channel → List Channel → Type 0
Stay chans after = all_nicks after ≡ all_nicks chans

-- A channel with the same users before its pointer, and the same nicks behind it.
abbrev Kept : Channel → Channel → Type 0
Kept c d =
    Path (List ChannelUser × List Bytes) (d.user_list.behind, nicks d.user_list.from)
      (c.user_list.behind, nicks c.user_list.from)

in_channel-Stay :
    (f : Channel → Option Channel) (name : Bytes) (chans : List Channel)
    → ((c : Channel) → Yields (Kept c) (f c))
    → Yields (Stay chans) (in_channel f name chans)
unfolding in_channel
in_channel-Stay f name [] k = refl
in_channel-Stay f name (c ∷ cs) k =
    if_cases (Yields (Stay (c ∷ cs))) (same_text c.name name)
      (λ p. Yields-bind (Kept c) _ (f c) _ (k c) λ d e. ap (λ x. x ∷ all_nicks cs) e)
      λ p.
        Yields-bind (Stay cs) _ (in_channel f name cs) _ (in_channel-Stay f name cs k)
          λ ds e. ap (◌∷◌ (c.user_list.behind, nicks c.user_list.from)) e

pub channel_banlist_add-Stay :
    (chan mask who time : Bytes) (chans : List Channel)
    → Yields (Stay chans) (channel_banlist_add chan mask who time chans)
unfolding channel_banlist_add
channel_banlist_add-Stay chan mask who time chans =
    in_channel-Stay
      (λ c. list_ban chan mask who time c.banlist.from >>= λ bs.
        some (record c { banlist = put_from c.banlist bs }))
      chan chans λ c. Yields-step _ (list_ban chan mask who time c.banlist.from) _ λ bs. refl

pub channel_set_modes-Stay :
    (chan modes : Bytes) (chans : List Channel)
    → Yields (Stay chans) (channel_set_modes chan modes chans)
unfolding channel_set_modes
channel_set_modes-Stay chan modes chans =
    in_channel-Stay (λ c. some (record c { chanmode = opt_text modes })) chan chans λ c. refl

ban_channel-Stay :
    (chan mask who comment : Bytes) (lifetime : ℤ) (now : ℕ) (chans : List Channel)
    → Yields (λ r. Stay chans r.0) (ban_channel chan mask who comment lifetime now chans)
unfolding ban_channel
ban_channel-Stay chan mask who comment lifetime now [] = refl
ban_channel-Stay chan mask who comment lifetime now (c ∷ cs) =
    if_cases (Yields (λ r. Stay (c ∷ cs) r.0)) (same_text c.name chan)
      (λ p. Yields-step _ (add_ban chan mask who comment lifetime now c.banlist.from) _ λ r. refl)
      λ p.
        Yields-bind (λ r. Stay cs r.0) _ (ban_channel chan mask who comment lifetime now cs) _
          (ban_channel-Stay chan mask who comment lifetime now cs)
          λ r e. ap (◌∷◌ (c.user_list.behind, nicks c.user_list.from)) e

pub egg_newchanban-Stay :
    (channel ban who comment : Option Bytes) (lifetime : ℤ) (now : ℕ) (chans : List Channel)
    → Yields (λ r. Stay chans r.0) (egg_newchanban channel ban who comment lifetime now chans)
unfolding egg_newchanban
egg_newchanban-Stay channel ban who comment lifetime now chans =
    if_cases (Yields (λ r. Stay chans r.0))
      (is_empty channel || is_empty ban || is_empty who || is_empty comment) (λ p. refl)
      λ p.
        ban_channel-Stay (text_or_empty channel) (text_or_empty ban) (text_or_empty who)
          (text_or_empty comment) lifetime now chans

changed-Stay :
    (c : Channel) (cs : List Channel) (r : Option (List ChannelBan))
    → Stay (c ∷ cs) (changed c cs r).0
changed-Stay c cs none = refl
changed-Stay c cs (some bs) = refl

change_in-Stay :
    (f : ChannelBan → ChannelBan) (ban channel : Bytes) (chans : List Channel)
    → Yields (λ r. Stay chans r.0) (change_in f ban channel chans)
unfolding change_in
change_in-Stay f ban channel [] = refl
change_in-Stay f ban channel (c ∷ cs) =
    if_cases (Yields (λ r. Stay (c ∷ cs) r.0)) (same_text c.name channel)
      (λ p.
        Yields-step _ (change_ban (ban_mask_is ban) f c.banlist.from) _ λ r. changed-Stay c cs r)
      λ p.
        Yields-bind (λ r. Stay cs r.0) _ (change_in f ban channel cs) _
          (change_in-Stay f ban channel cs)
          λ r e. ap (◌∷◌ (c.user_list.behind, nicks c.user_list.from)) e

-- `egg_stick` and `egg_unstick`.
pub set_sticky-Stay :
    (sticky : Bool) (ban : Bytes) (channel : Option Bytes) (chans : List Channel)
    → Yields (λ r. Stay chans r.0) (set_sticky sticky ban channel chans)
unfolding set_sticky
set_sticky-Stay sticky ban channel chans =
    if_cases (Yields (λ r. Stay chans r.0)) (is_empty channel) (λ p. refl)
      λ p. change_in-Stay _ ban (text_or_empty channel) chans
