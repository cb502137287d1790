-- ===== src/Egg/Ops.antt =====
-- Who is on which channel, as the eggdrop library tells it: `egg_onchan`, `egg_isop`,
-- `egg_isvoice`, `egg_botisop`, `egg_botisvoice` and `egg_botonchan` of src/egg_lib.c.
pub mod Moves
use trollbot.Prelude.{
  ℕ, Bool, true, false, ◌||◌, List, [], ◌∷◌, Option, none, some, if◌then◌else◌, Bytes,
}
use trollbot.Text.{has_byte}
use trollbot.Channel.{ChannelUser, Channel, same_text, find_first, channel_channel_user_find}
use trollbot.Bans.Eggdrop.{is_empty, text_or_empty, network_channel_find}

abbrev pub on_list : Option ChannelUser → Bool
on_list none = false
on_list (some u) = true

-- `strchr(cuser->modes, mode) != NULL`, for a user who is found and has modes.
abbrev pub modes_have : ℕ → Option Bytes → Bool
modes_have mode none = false
modes_have mode (some modes) = has_byte mode modes

abbrev pub has_mode : ℕ → Option ChannelUser → Bool
has_mode mode none = false
has_mode mode (some u) = modes_have mode u.modes

-- The loop over all channels.
unfoldable pub on_any : (Option ChannelUser → Bool) → (nickname : Bytes) → List Channel → Bool
unfolding channel_channel_user_find
on_any q nickname [] = false
on_any q nickname (c ∷ cs) =
    q (channel_channel_user_find c.user_list.from nickname) || on_any q nickname cs

abbrev pub on_found : (Option ChannelUser → Bool) → (nickname : Bytes) → Option Channel → Bool
on_found q nickname none = false
on_found q nickname (some c) = q (channel_channel_user_find c.user_list.from nickname)

-- The body that `egg_isop` and `egg_isvoice` repeat.
unfoldable pub is_mode : ℕ → (nickname : Bytes) (channel : Option Bytes) → List Channel → Bool
unfolding on_any network_channel_find has_byte channel_channel_user_find
is_mode mode nickname channel chans =
    if is_empty channel
    then on_any (has_mode mode) nickname chans
    else on_found (has_mode mode) nickname (network_channel_find chans (text_or_empty channel))

unfoldable pub egg_isop : (nickname : Bytes) (channel : Option Bytes) → List Channel → Bool
unfolding is_mode
egg_isop = is_mode b'o'

unfoldable pub egg_isvoice : (nickname : Bytes) (channel : Option Bytes) → List Channel → Bool
unfolding is_mode
egg_isvoice = is_mode b'v'

-- `egg_onchan` compares the names the other way round.
unfoldable pub egg_onchan : (nickname : Bytes) (channel : Option Bytes) → List Channel → Bool
unfolding on_any find_first channel_channel_user_find
egg_onchan nickname channel chans =
    if is_empty channel
    then on_any on_list nickname chans
    else on_found on_list nickname
        (find_first (λ c. same_text (text_or_empty channel) c.name) chans)

-- `egg_botisop`, `egg_botisvoice` and `egg_botonchan`, where `egg_botnick` returns this nick. The
-- nickname that the last two are given is not used.
unfoldable pub egg_botisop : (botnick : Bytes) (channel : Option Bytes) → List Channel → Bool
unfolding egg_isop
egg_botisop botnick channel chans = egg_isop botnick channel chans

unfoldable pub egg_botisvoice :
    (botnick nickname : Bytes) (channel : Option Bytes) → List Channel → Bool
unfolding egg_isvoice
egg_botisvoice botnick nickname channel chans = egg_isvoice botnick channel chans

unfoldable pub egg_botonchan :
    (botnick nickname : Bytes) (channel : Option Bytes) → List Channel → Bool
unfolding egg_onchan
egg_botonchan botnick nickname channel chans = egg_onchan botnick channel chans
