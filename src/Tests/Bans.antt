-- ===== src/Tests/Bans.antt =====
-- The ban list of a channel, and who is on it.
use trollbot.Prelude.{
  pos, negsuc, ◌≡◌, refl, List, [], ◌∷◌, none, some, Gives, true, false, Bytes, codes,
}
use trollbot.Text.{str_eq, tstrcasecmp, tolower, isspace}
use trollbot.Channel.{
  ChannelBan, Channel, channel_ban_new, new_channel, find_first, new_join, same_text,
}
use trollbot.Linked.{linked}
use trollbot.Text.Number.{atoi, digits}
use trollbot.Bans.{find_ban, list_ban, channel_set_modes, in_channel}
use trollbot.Bans.Eggdrop.{egg_stick, egg_unstick, made_ban, egg_newchanban}
use trollbot.Bans.Distinct.{
  BanReply, list_bans, with_replies, has_mask, IsBanSet, DistinctBans, list_bans-IsBanSet,
}
use trollbot.Bans.Sticky.{Stuck, Masked, AllMasked, egg_stick-Stuck}
use trollbot.Bans.New.{NewIn, egg_newchanban-NewIn}
use trollbot.Egg.Ops.{egg_isop, egg_isvoice, egg_onchan}
use trollbot.Egg.Ops.Moves.{egg_isop-onchan}

abbrev ban : Bytes → ChannelBan
ban mask = record channel_ban_new { mask = some mask }

abbrev chan : Channel
chan = record (new_channel (codes "#c")) {
  banlist = linked [] (ban (codes "*!x@*") ∷ ban (codes "*!y@*") ∷ []);
}

abbrev reply : Bytes → BanReply
reply mask = record { mask = mask; who = codes "op"; time = codes "12" }

abbrev replies : List BanReply
replies = reply (codes "*!y@*") ∷ reply (codes "*!z@*") ∷ reply (codes "*!z@*") ∷ []

bans-DistinctBans : DistinctBans chan.banlist.from
unfolding has_mask str_eq
bans-DistinctBans = (refl, (refl, tt))

bans-Masked : Masked chan.banlist.from
bans-Masked = (tt, (tt, tt))

list_bans-IsBanSet_example :
    Gives
      (λ new. IsBanSet new (with_replies replies (has_mask chan.banlist.from)))
      (list_bans (codes "#c") replies chan.banlist.from)
list_bans-IsBanSet_example =
    list_bans-IsBanSet (codes "#c") replies chan.banlist.from bans-Masked bans-DistinctBans

listed :
    list_ban (codes "#c") (codes "m") (codes "op") (codes " -12x") []
    ≡ some (
        record channel_ban_new {
          chan = some (codes "#c");
          mask = some (codes "m");
          who = some (codes "op");
          time = negsuc 11;
        }
        ∷ [])
unfolding list_ban find_ban atoi digits isspace
listed = refl

chan-AllMasked : AllMasked (chan ∷ [])
chan-AllMasked = (bans-Masked, tt)

egg_stick-Stuck_example :
    Gives
      (Stuck true (codes "*!Y@*") (some (codes "#C")) (chan ∷ []))
      (egg_stick (codes "*!Y@*") (some (codes "#C")) (chan ∷ []))
    × Gives
        (Stuck false (codes "*!Y@*") (some (codes "#C")) (chan ∷ []))
        (egg_unstick (codes "*!Y@*") (some (codes "#C")) (chan ∷ []))
egg_stick-Stuck_example =
    egg_stick-Stuck (codes "*!Y@*") (some (codes "#C")) (chan ∷ []) chan-AllMasked

egg_newchanban-NewIn_example :
    Gives
      (NewIn (codes "#c") (codes "*!z@*") (codes "op") (codes "out") (negsuc 0) 100 (chan ∷ []))
      (egg_newchanban
        (some (codes "#c"))
        (some (codes "*!z@*"))
        (some (codes "op"))
        (some (codes "out"))
        (negsuc 0)
        100
        (chan ∷ []))
egg_newchanban-NewIn_example =
    egg_newchanban-NewIn (codes "#c") (codes "*!z@*") (codes "op") (codes "out") (negsuc 0) 100
      (chan ∷ []) refl chan-AllMasked

-- The lifetime -1 is taken as it is.
minus_one :
    (made_ban (codes "#c") (codes "m") (codes "op") (codes "out") (negsuc 0) 100).expire_time
    ≡ pos 99
minus_one = refl

abbrev state : List Channel
state =
    (new_join (codes "bot") (codes "al") (codes "a") (codes "h") (codes "#c")
      (new_channel (codes "#c") ∷ [])).0

egg_isop-onchan_example :
    (egg_isop (codes "al") none state ≡ true → egg_onchan (codes "al") none state ≡ true)
    × (egg_isvoice (codes "al") none state ≡ true → egg_onchan (codes "al") none state ≡ true)
egg_isop-onchan_example = egg_isop-onchan (codes "al") none state

room_there : find_first (λ c. same_text (codes "#C") c.name) (chan ∷ []) ≡ some chan
unfolding find_first tstrcasecmp tolower
room_there = refl

modes_set :
    channel_set_modes (codes "#C") (codes "+nt") (chan ∷ [])
    ≡ some (record chan { chanmode = some (codes "+nt") } ∷ [])
unfolding channel_set_modes in_channel tstrcasecmp tolower
modes_set = refl
