-- ===== src/Tests/Channel.antt =====
-- The handlers at a channel with three users.
use trollbot.Prelude.{
  ◌≡◌, ◌↔◌, ◌≤◌, refl, List, [], ◌∷◌, ◌++◌, arith, length, if◌then◌else◌, ltb, Bytes, codes,
}
use trollbot.Text.{tolower, tstrcasecmp}
use trollbot.Channel.{
  ChannelUser, Channel, new_channel_user, new_channel, forget_user, new_join, new_part, name_modes,
  name_nick,
}
use trollbot.Linked.{linked, to_front, whole, del_found}
use trollbot.Channel.Forget.{Other, forget_user_others}
use trollbot.Channel.JoinLine.{
  sent, overflow, buffer_size, names_length, with_commas, comma_list, join_channels,
  join_channels-comma_list,
}

abbrev user : Bytes → ChannelUser
user = new_channel_user

abbrev three : List ChannelUser
three = user (codes "al") ∷ user (codes "Bo") ∷ user (codes "cy") ∷ []

-- The last of three leaves, and the first is hidden before the pointer.
forget_last :
    forget_user (codes "CY") (linked [] three)
    ≡ linked (user (codes "al") ∷ []) (user (codes "Bo") ∷ [])
unfolding forget_user del_found tstrcasecmp tolower
forget_last = refl

-- The hidden user joins again, and the one at the pointer leaves: both are in the list.
twice_there :
    forget_user
      (codes "Bo")
      (linked (user (codes "al") ∷ []) (user (codes "Bo") ∷ user (codes "al") ∷ []))
    ≡ linked [] (user (codes "al") ∷ user (codes "al") ∷ [])
unfolding forget_user del_found tstrcasecmp tolower
twice_there = refl

name_parts : (name_modes (codes "@+al") ≡ codes "ov") × (name_nick (codes "@+al") ≡ codes "al")
unfolding name_modes name_nick
name_parts = (refl, refl)

not_cy : (Other (codes "cy") (user (codes "al"))) × (Other (codes "cy") (user (codes "Bo")))
unfolding tstrcasecmp tolower
not_cy = (refl, refl)

is_cy : (tstrcasecmp (codes "cy") (codes "cy")) ≡ 0
unfolding tstrcasecmp tolower
is_cy = refl

forget_user_others_example :
    ((behind : List ChannelUser)
      → whole (
          forget_user (codes "cy") (
            linked behind ((user (codes "al") ∷ user (codes "Bo") ∷ []) ++ user (codes "cy") ∷ [])))
        ≡ to_front behind ((user (codes "al") ∷ user (codes "Bo") ∷ []) ++ []))
    × (((forget_user (codes "cy") (linked [] three)).from
          ≡ user (codes "al") ∷ user (codes "Bo") ∷ [])
        ↔ (2 ≤ 1))
forget_user_others_example =
    forget_user_others (codes "cy") (user (codes "cy")) (rw is_cy)
      (user (codes "al") ∷ user (codes "Bo") ∷ []) [] (not_cy.0, (not_cy.1, tt))

abbrev rooms : List Channel
rooms =
    record (new_channel (codes "#a")) { user_list = linked [] three }
    ∷ new_channel (codes "#bb")
    ∷ []

rooms_short : names_length rooms ≤ 1016
unfolding names_length
rooms_short = omega arith

join_channels-comma_list_example : join_channels rooms ≡ (
    if ltb (length (with_commas rooms)) buffer_size
    then sent (codes "JOIN " ++ (comma_list rooms ++ codes "\n"))
    else overflow)
join_channels-comma_list_example =
    join_channels-comma_list _ (new_channel (codes "#bb") ∷ []) rooms_short

-- `cy` leaves, which hides `al`, and `di` joins.
abbrev left : List Channel
left = new_part (codes "cy") (codes "#a") rooms

abbrev joined : List Channel
joined = (new_join (codes "bot") (codes "di") (codes "d") (codes "h") (codes "#A") left).0
