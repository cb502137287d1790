-- ===== src/Egg/Ops/Moves.antt =====
-- What JOIN, PART and QUIT do to the answers of `egg_onchan` and `egg_isop`.
use trollbot.Prelude.{
  ℕ, ◌≡◌, refl, true, false, List, [], ◌∷◌, Option, none, some, arith, Bytes, Bool-cases, inl, inr,
}
use trollbot.Text.Compare.{tstrcasecmp_iff}
use trollbot.Channel.{
  ChannelUser, Channel, same_text, find_first, channel_channel_user_find, new_join,
}
use trollbot.Channel.Members.{join_user-found}
use trollbot.Bans.Eggdrop.{is_empty, network_channel_find}
use trollbot.Egg.Ops.{
  on_list, has_mode, on_any, on_found, is_mode, egg_isop, egg_isvoice, egg_onchan,
}

same_text_sym : (a b : Bytes) → same_text a b ≡ same_text b a
same_text_sym a b = ground (arith, tstrcasecmp_iff a b, tstrcasecmp_iff b a)

found_same :
    (name : Bytes) (cs : List Channel)
    → find_first (λ c. same_text name c.name) cs ≡ network_channel_find cs name
unfolding network_channel_find find_first
found_same name [] = refl
found_same name (c ∷ cs) = rw (same_text_sym name c.name, found_same name cs)

mode-on_list : (mode : ℕ) (u : Option ChannelUser) → has_mode mode u ≡ true → on_list u ≡ true
mode-on_list mode none h = cc
mode-on_list mode (some u) h = refl

any-on_list :
    (mode : ℕ) (nick : Bytes) (cs : List Channel)
    → on_any (has_mode mode) nick cs ≡ true
    → on_any on_list nick cs ≡ true
unfolding on_any
any-on_list mode nick [] h = h
any-on_list mode nick (c ∷ cs) h = ground (
  arith,
  mode-on_list mode (channel_channel_user_find c.user_list.from nick),
  any-on_list mode nick cs,
)

found-on_list :
    (mode : ℕ) (nick : Bytes) (c : Option Channel)
    → on_found (has_mode mode) nick c ≡ true
    → on_found on_list nick c ≡ true
found-on_list mode nick none h = h
found-on_list mode nick (some c) h =
    mode-on_list mode (channel_channel_user_find c.user_list.from nick) h

is_mode-onchan :
    (mode : ℕ) (nick : Bytes) (channel : Option Bytes) (cs : List Channel)
    → is_mode mode nick channel cs ≡ true
    → egg_onchan nick channel cs ≡ true
unfolding is_mode egg_onchan
is_mode-onchan mode nick none cs h = any-on_list mode nick cs h
is_mode-onchan mode nick (some []) cs h = any-on_list mode nick cs h
is_mode-onchan mode nick (some (x ∷ s)) cs h =
    rw (found_same (x ∷ s) cs) (found-on_list mode nick (network_channel_find cs (x ∷ s)) h)

-- Who has a mode on a channel, or on any where none is named, is on it: for operators and for users
-- with voice.
pub egg_isop-onchan :
    (nick : Bytes) (channel : Option Bytes) (cs : List Channel)
    → (egg_isop nick channel cs ≡ true → egg_onchan nick channel cs ≡ true)
      × (egg_isvoice nick channel cs ≡ true → egg_onchan nick channel cs ≡ true)
unfolding egg_isop egg_isvoice
egg_isop-onchan nick channel cs =
    (is_mode-onchan b'o' nick channel cs, is_mode-onchan b'v' nick channel cs)

join_found :
    (botnick nick user host room : Bytes) (cs : List Channel) (c : Channel)
    → find_first (λ c. same_text room c.name) cs ≡ some c
    → on_found on_list nick
        (find_first (λ c. same_text room c.name) (new_join botnick nick user host room cs).0)
      ≡ true
unfolding new_join find_first
join_found botnick nick user host room [] c f = cc
join_found botnick nick user host room (x ∷ cs) c f = elim (Bool-cases (same_text room x.name)) [
  | inl e ↦ rw (e, find_first, e) (rw ((join_user-found nick user host x.user_list.from).1))
  | inr e ↦
      rw (e, find_first, e) (join_found botnick nick user host room cs c (rw (e, find_first) at f))
]

-- Who joins a channel that the network has is on it.
pub egg_onchan-new_join :
    (botnick nick user host room : Bytes) (cs : List Channel) (c : Channel)
    → is_empty (some room) ≡ false
    → find_first (λ c. same_text room c.name) cs ≡ some c
    → egg_onchan nick (some room) (new_join botnick nick user host room cs).0 ≡ true
unfolding egg_onchan
egg_onchan-new_join botnick nick user host [] cs c e f = cc
egg_onchan-new_join botnick nick user host (x ∷ s) cs c e f =
    join_found botnick nick user host (x ∷ s) cs c f
