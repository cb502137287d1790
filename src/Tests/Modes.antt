-- ===== src/Tests/Modes.antt =====
-- MODE lines at a channel with two users.
use trollbot.Prelude.{Gives, ◌≡◌, refl, false, true, List, [], ◌∷◌, some, arith, Bytes, codes}
use trollbot.Text.{has_byte, tstrcasecmp, tolower}
use trollbot.Channel.{ChannelUser, ChannelBan, channel_ban_new, new_channel_user}
use trollbot.Linked.{linked}
use trollbot.Modes.{
  ModeState, ModeLine, mode_loop, mode_step, mode_ban, unban, same_mask, give, grow_modes,
  tcrealloc0, resize, clear, poke, text_of,
}
use trollbot.Modes.Loop.{needed, relevant, takes_parameter, mode_loop-relevant}
use trollbot.Modes.Total.{IsReady, After, mode_loop-After}

abbrev users : List ChannelUser
users =
    new_channel_user (codes "al")
    ∷ record (new_channel_user (codes "bo")) { modes = some (codes "v") }
    ∷ []

-- `MODE #c +kob key al *!*@h`
abbrev line : ModeLine
line = record {
  c_params = codes "#c" ∷ codes "+kob" ∷ codes "al" ∷ codes "*!*@h" ∷ [];
  sender = some (codes "op");
  now = 9;
  junk = 77;
}

abbrev before : ModeState
before = record { plus = true; arg_index = 0; users = users; bans = linked [] [] }

-- The mode of a user who has one already is overwritten.
overwritten : give 77 b'o' (some (codes "v")) ≡ some (some (codes "o"))
unfolding give grow_modes tcrealloc0 resize clear poke text_of has_byte
overwritten = refl

ready : IsReady before
ready = record { users = (tt, (((λ e. omega arith), tt), tt)); masks = (tt, tt) }

two_needed : needed (codes "+kob") ≡ 2
unfolding needed takes_parameter
two_needed = refl

no_o : has_byte b'o' (codes "xv") ≡ false
unfolding has_byte
no_o = refl

no_space : has_byte b' ' (codes "xv") ≡ false
unfolding has_byte
no_space = refl

mode_loop-relevant_example :
    mode_loop line before (codes "+kob") ≡ mode_loop line before (relevant (codes "+kob"))
mode_loop-relevant_example = mode_loop-relevant line before (codes "+kob")

mode_loop-After_example :
    Gives (After (needed (codes "+kob")) before) (mode_loop line before (codes "+kob"))
mode_loop-After_example =
    mode_loop-After line before (codes "+kob") ready (omega (arith, two_needed))

abbrev banned : Bytes → ChannelBan
banned mask = record channel_ban_new { mask = some mask }

-- `MODE #c -bb c b` of four bans: the first is hidden by the one, and back by the other.
unbanned :
    mode_loop
      (record line { c_params = codes "#c" ∷ codes "-bb" ∷ codes "c" ∷ codes "b" ∷ [] })
      (record before {
        bans = linked [] (
            banned (codes "a") ∷ banned (codes "b") ∷ banned (codes "c") ∷ banned (codes "d") ∷ []);
      })
      (codes "-bb")
    ≡ some (record before {
      plus = false;
      arg_index = 2;
      bans = linked [] (banned (codes "a") ∷ banned (codes "d") ∷ []);
    })
unfolding mode_loop mode_step mode_ban unban same_mask tstrcasecmp tolower
unbanned = refl
