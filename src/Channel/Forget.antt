-- ===== src/Channel/Forget.antt =====
-- `channel_user_del` as the handlers of PART, QUIT and KICK use it: who is still found afterwards.
use trollbot.Prelude.{
  ◌≤◌, ◌≡◌, ◌≢◌, ◌↔◌, inl, inr, refl, true, false, List, [], ◌∷◌, ◌++◌, Option, none, some, arith,
  All, Bytes, Bool-cases, length,
}
use trollbot.Linked.{Linked, linked, to_front, whole, step_back, del_found}
use trollbot.Linked.Moves.{
  Missed, del_found-split, to_front-to_front, whole-step_back, step_back-from,
}
use trollbot.Channel.{ChannelUser, has_nick, find_first, channel_channel_user_find, forget_user}
use trollbot.Channel.Members.{
  key, has_nick_iff, AllApart, AllApart-on, AllApart-back, AllApart-tail,
}

module _ (nick : Bytes) where
  abbrev pub Other : ChannelUser → Type 0
  Other u = has_nick nick u ≡ false

  -- Users who all differ from `u`, where `u` has the nick, have other nicks.
  others :
      (u : ChannelUser) (us : List ChannelUser)
      → has_nick nick u ≡ true
      → All (λ v. key v ≢ key u) us
      → All Other us
  others u [] p h = tt
  others u (v ∷ us) p h =
      (ground (arith, h.0, has_nick_iff nick u, has_nick_iff nick v), others u us p h.1)

  find_none : (us : List ChannelUser) → All Other us → channel_channel_user_find us nick ≡ none
  unfolding channel_channel_user_find find_first
  find_none [] h = refl
  find_none (u ∷ us) h = rw h.0 (find_none us h.1)

  -- The users are apart, and none that the pointer reads has the nick.
  abbrev Gone : Linked ChannelUser → Type 0
  Gone l = AllApart l.behind l.from × All Other l.from

  -- The pointer goes to the user before the one who is deleted, if there is one.
  step_back-Gone :
      (u : ChannelUser) (bs us : List ChannelUser)
      → has_nick nick u ≡ true
      → AllApart bs (u ∷ us)
      → Gone (step_back bs us)
  step_back-Gone u [] us hit h = (AllApart-tail u us [] h, others u us hit h.1.0)
  step_back-Gone u (b ∷ bs) us hit h =
      let away = AllApart-on u us (b ∷ bs) h in
      (
        AllApart-back b us bs (AllApart-tail u us (b ∷ bs) h),
        ((others u (b ∷ bs) hit away.0.0).0, others u us hit h.1.0),
      )

  abbrev Searched : List ChannelUser → Option (Linked ChannelUser) → Type 0
  Searched us none = All Other us
  Searched us (some l) = Gone l

  del_found-Searched :
      (bs us : List ChannelUser) → AllApart bs us → Searched us (del_found (has_nick nick) bs us)
  unfolding del_found
  del_found-Searched bs [] h = tt
  del_found-Searched bs (u ∷ us) h = elim (Bool-cases (has_nick nick u)) [
    | inl hit ↦ rw hit (step_back-Gone u bs us hit h)
    | inr miss ↦ rw miss (
        later miss (del_found (has_nick nick) (u ∷ bs) us)
          (del_found-Searched (u ∷ bs) us (AllApart-on u us bs h)))
  ]
    where
      later : Other u → (r : Option (Linked ChannelUser)) → Searched us r → Searched (u ∷ us) r
      later m none s = (m, s)
      later m (some l) s = s

  forget_user-Gone : (l : Linked ChannelUser) → AllApart l.behind l.from → Gone (forget_user nick l)
  unfolding forget_user
  forget_user-Gone l h =
      split (del_found (has_nick nick) l.behind l.from) (del_found-Searched l.behind l.from h)
    where
      split :
          (r : Option (Linked ChannelUser))
          → Searched l.from r
          → Gone (elim r [ none ↦ l | some m ↦ m ])
      split none s = (h, s)
      split (some m) s = s

-- After a PART, QUIT or KICK no user of that nick is found, and the nicks are still distinct.
pub forget_user-not_found :
    (nick : Bytes) (l : Linked ChannelUser)
    → AllApart l.behind l.from
    → AllApart (forget_user nick l).behind (forget_user nick l).from
      × (channel_channel_user_find (forget_user nick l).from nick ≡ none)
forget_user-not_found nick l d = let g = forget_user-Gone nick l d in (g.0, find_none nick _ g.1)

module _ (nick : Bytes) (u : ChannelUser) (hit : has_nick nick u ≡ true)
    (front rear : List ChannelUser) (missed : Missed (has_nick nick) front) where
  forget_user_at :
      (behind : List ChannelUser)
      → forget_user nick (linked behind (front ++ u ∷ rear))
        ≡ step_back (to_front front behind) rear
  unfolding forget_user
  forget_user_at behind =
      rw (forget_user, del_found-split (has_nick nick) front behind u rear missed hit)

  -- Whoever leaves a channel, the first of his nick behind the pointer of its list, is taken out of
  -- all the users that the list is linked to, those before the pointer too, and nobody else is. If
  -- the pointer is at the first user, the others can all be read from it afterwards exactly if at
  -- most one stands before the one who leaves.
  pub forget_user_others :
      ((behind : List ChannelUser)
        → whole (forget_user nick (linked behind (front ++ u ∷ rear)))
          ≡ to_front behind (front ++ rear))
      × (((forget_user nick (linked [] (front ++ u ∷ rear))).from ≡ front ++ rear)
          ↔ (length front ≤ 1))
  forget_user_others = (
    (λ behind.
        rw
          (
            forget_user_at behind,
            whole-step_back (to_front front behind) rear,
            to_front-to_front front behind rear,
          )
          refl),
    rw (forget_user_at []) (step_back-from front rear),
  )
