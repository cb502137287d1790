-- ===== src/Modes/Nicks.antt =====
-- A MODE line leaves the nicks of every user alone.
use trollbot.Prelude.{
  ◌>>=◌, Yields, Yields-bind, Yields-step, Yields-weaken, ℕ, ◌≡◌, refl, ap, ◌∙◌, Bool, true, false,
  ◌||◌, List, [], ◌∷◌, get_elem?, Option, none, some, Bytes, if_cases, ◌==◌,
}
use trollbot.Channel.{ChannelUser, Channel, has_nick, same_text}
use trollbot.Channel.Members.{nicks, all_nicks}
use trollbot.Modes.{
  change_modes, change_named, change_user, unban, ModeState, ModeLine, mode_user, mode_ban,
  mode_ban_by, mode_step, mode_loop, change_channel, mode_channels, parameter,
  troll_trig_update_mode, give,
}

change_modes-nick :
    (junk : ℕ) (plus : Bool) (c : ℕ) (u : ChannelUser)
    → Yields (λ v. v.nick ≡ u.nick) (change_modes junk plus c u)
unfolding change_modes
change_modes-nick junk true c u = Yields-step _ (give junk c u.modes) _ λ m. refl
change_modes-nick junk false c u = refl

module _ (f : ChannelUser → Option ChannelUser)
    (keep : (u : ChannelUser) → Yields (λ v. v.nick ≡ u.nick) (f u)) where
  change_named-nicks :
      (nick : Bytes) (us : List ChannelUser)
      → Yields (λ vs. nicks vs ≡ nicks us) (change_named f nick us)
  unfolding change_named
  change_named-nicks nick [] = refl
  change_named-nicks nick (u ∷ us) =
      elim (has_nick nick u)
        as (λ b.
          Yields (λ vs. nicks vs ≡ nicks (u ∷ us))
            (elim b [
              | true ↦ f u >>= (λ u'. some (u' ∷ us))
              | false ↦ change_named f nick us >>= (λ us'. some (u ∷ us'))
            ])) [
              | true ↦
                  Yields-bind (λ v. v.nick ≡ u.nick) _ (f u) _ (keep u)
                    λ v e. ap (λ n. n ∷ nicks us) e
              | false ↦
                  Yields-bind (λ vs. nicks vs ≡ nicks us) _ (change_named f nick us) _
                    (change_named-nicks nick us) λ vs e. ap (◌∷◌ u.nick) e
            ]

  change_user-nicks :
      (nick : Option Bytes) (us : List ChannelUser)
      → Yields (λ vs. nicks vs ≡ nicks us) (change_user f nick us)
  unfolding change_user
  change_user-nicks (some nick) us = change_named-nicks nick us
  change_user-nicks none [] = refl
  change_user-nicks none (u ∷ us) = tt

module _ (l : ModeLine) where
  abbrev Stays : ModeState → ModeState → Type 0
  Stays s t = nicks t.users ≡ nicks s.users

  mode_user-Stays : (s : ModeState) (c : ℕ) → Yields (Stays s) (mode_user l s c)
  unfolding mode_user
  mode_user-Stays s c =
      Yields-bind (λ vs. nicks vs ≡ nicks s.users) _
        (change_user (change_modes l.junk s.plus c) (parameter l s) s.users) _
        (change_user-nicks (change_modes l.junk s.plus c) (change_modes-nick l.junk s.plus c)
          (parameter l s) s.users)
        λ us e. e

  mode_ban_by-Stays : (s : ModeState) (plus : Bool) → Yields (Stays s) (mode_ban_by l s plus)
  unfolding mode_ban_by
  mode_ban_by-Stays s true = refl
  mode_ban_by-Stays s false =
      Yields-step (Stays s) (unban (parameter l s) s.bans s.bans.behind s.bans.from) _ λ bans. refl

  mode_step-Stays : (s : ModeState) (c : ℕ) → Yields (Stays s) (mode_step l s c)
  unfolding mode_step mode_ban
  mode_step-Stays s c =
      if_cases (Yields (Stays s)) (c == b'+') (λ p. refl)
        λ p.
          if_cases (Yields (Stays s)) (c == b'-') (λ q. refl)
            λ q.
              if_cases (Yields (Stays s)) (c == b'o' || c == b'v') (λ t. mode_user-Stays s c)
                λ t.
                  if_cases (Yields (Stays s)) (c == b'b') (λ u. mode_ban_by-Stays s s.plus)
                    λ u. refl

  mode_loop-Stays : (s : ModeState) (modes : Bytes) → Yields (Stays s) (mode_loop l s modes)
  unfolding mode_loop
  mode_loop-Stays s [] = refl
  mode_loop-Stays s (c ∷ modes) =
      Yields-bind (Stays s) (Stays s) (mode_step l s c) _ (mode_step-Stays s c) λ t e.
        Yields-weaken (Stays t) (Stays s) (mode_loop l t modes) (mode_loop-Stays t modes)
          λ u f. f ∙ e

  -- The users before the pointer, and the nicks behind it, are the same.
  abbrev Same : Channel → Channel → Type 0
  Same c d =
      Path (List ChannelUser × List Bytes) (d.user_list.behind, nicks d.user_list.from)
        (c.user_list.behind, nicks c.user_list.from)

  change_channel-nicks : (modes : Bytes) (c : Channel) → Yields (Same c) (change_channel l modes c)
  unfolding change_channel
  change_channel-nicks modes c =
      Yields-bind (Stays start) _ (mode_loop l start modes) _ (mode_loop-Stays start modes)
        λ s e. ap (λ n. (c.user_list.behind, n)) e
    where
      start : ModeState
      start = record { plus = true; arg_index = 0; users = c.user_list.from; bans = c.banlist }

  mode_channels-nicks :
      (room : Bytes) (modes : Option Bytes) (chans : List Channel)
      → Yields (λ after. all_nicks after ≡ all_nicks chans) (mode_channels l room modes chans)
  unfolding mode_channels
  mode_channels-nicks room modes [] = refl
  mode_channels-nicks room modes (c ∷ cs) =
      elim (same_text c.name room)
        as (λ b.
          Yields (λ after. all_nicks after ≡ all_nicks (c ∷ cs))
            (elim b [
              | true ↦ modes >>= (λ m. change_channel l m c >>= (λ c'. some (c' ∷ cs)))
              | false ↦ mode_channels l room modes cs >>= (λ cs'. some (c ∷ cs'))
            ])) [
              | true ↦ Yields-step _ modes _ λ m.
                  Yields-bind (Same c) _ (change_channel l m c) _ (change_channel-nicks m c)
                    λ d e. ap (λ x. x ∷ all_nicks cs) e
              | false ↦
                  Yields-bind (λ after. all_nicks after ≡ all_nicks cs) _
                    (mode_channels l room modes cs) _ (mode_channels-nicks room modes cs)
                    λ after e. ap (◌∷◌ (c.user_list.behind, nicks c.user_list.from)) e
            ]

  pub troll_trig_update_mode-nicks :
      (room : Bytes) (chans : List Channel)
      → Yields (λ after. all_nicks after ≡ all_nicks chans) (troll_trig_update_mode l room chans)
  unfolding troll_trig_update_mode
  troll_trig_update_mode-nicks room chans = mode_channels-nicks room (get_elem? l.c_params 1) chans
