-- ===== src/Bans/New.antt =====
-- `egg_newchanban` against `egg_isban`.
use trollbot.Prelude.{
  ℤ, ℕ, Gives, Gives-bind, ◌≡◌, ◌⊎◌, refl, ap, ◌∙◌, Bool, true, false, ◌||◌, List, [], ◌∷◌, ◌++◌,
  Option, none, some, Bytes, Bool-cases, inl, inr,
}
use trollbot.Text.Compare.{tstrcasecmp_iff}
use trollbot.Linked.{put_from}
use trollbot.Channel.{ChannelBan, Channel, same_text, find_first}
use trollbot.Bans.{find_ban, ban_mask_is, channel_channel_ban_find}
use trollbot.Bans.Eggdrop.{
  is_empty, network_channel_find, made_ban, ban_line, add_ban, ban_channel, egg_newchanban,
}
use trollbot.Bans.Sticky.{Masked, AllMasked, asked, asked_in, asked-cons, choose, decided}

-- A ban behind the others is found.
asked-append :
    (mask : Bytes) (new : ChannelBan) (bs : List ChannelBan)
    → ban_mask_is mask new ≡ some true
    → Masked bs
    → asked (λ b. true) mask (bs ++ new ∷ []) ≡ some true
asked-append mask new [] e h = asked-cons (λ b. true) mask new [] ∙ rw e
asked-append mask new (b ∷ bs) e h =
    asked-cons (λ b. true) mask b (bs ++ new ∷ [])
    ∙ choose_true (ban_mask_is mask b) (decided mask b.mask h.0) (asked-append mask new bs e h.1)
  where
    choose_true :
        (v : Option Bool)
        → (x : Bool) × (v ≡ some x)
        → {y : Option Bool} → y ≡ some true
        → choose v (some true) y ≡ some true
    choose_true none d e = cc
    choose_true (some true) d e = refl
    choose_true (some false) d e = e

find_returns :
    (mask : Bytes) (bs : List ChannelBan)
    → Masked bs
    → (r : Option ChannelBan) × (channel_channel_ban_find bs mask ≡ some r)
unfolding channel_channel_ban_find find_ban
find_returns mask [] h = (none, refl)
find_returns mask (b ∷ bs) h = go (decided mask b.mask h.0) (find_returns mask bs h.1)
  where
    go :
        (x : Bool) × (ban_mask_is mask b ≡ some x)
        → (r : Option ChannelBan) × (channel_channel_ban_find bs mask ≡ some r)
        → (r : Option ChannelBan) × (channel_channel_ban_find (b ∷ bs) mask ≡ some r)
    go (true, e) r = (some b, rw (e, find_ban) refl)
    go (false, e) r = (r.0, rw (e, find_ban) r.1)

module _ (channel mask who comment : Bytes) (lifetime : ℤ) (now : ℕ) where
  made-mask : ban_mask_is mask (made_ban channel mask who comment lifetime now) ≡ some true
  made-mask = ap some (rw ((tstrcasecmp_iff mask mask).1 refl))

  -- A ban that was there, or is added and told to the server.
  abbrev NewBan : List ChannelBan → List ChannelBan × List Bytes → Type 0
  NewBan bs r =
      ((asked (λ b. true) mask bs ≡ some true) × (r ≡ (bs, [])))
      ⊎ ((asked (λ b. true) mask bs ≡ some false)
          × (asked (λ b. true) mask r.0 ≡ some true)
          × (r.1 ≡ ban_line channel mask ∷ []))

  add_ban-found :
      (bs : List ChannelBan) (r : Option ChannelBan)
      → Masked bs
      → channel_channel_ban_find bs mask ≡ some r
      → Gives (NewBan bs) (add_ban channel mask who comment lifetime now bs)
  unfolding add_ban
  add_ban-found bs none h e =
      rw (add_ban, e)
        (inr (
          rw e refl,
          asked-append mask (made_ban channel mask who comment lifetime now) bs made-mask h,
          refl,
        ))
  add_ban-found bs (some b) h e = rw (add_ban, e) (inl (rw e refl, refl))

  add_ban-NewBan :
      (bs : List ChannelBan)
      → Masked bs
      → Gives (NewBan bs) (add_ban channel mask who comment lifetime now bs)
  add_ban-NewBan bs h = let f = find_returns mask bs h in add_ban-found bs f.0 h f.1

  -- The same in the channel of that name, if there is one.
  abbrev pub NewIn : List Channel → List Channel × List Bytes → Type 0
  NewIn cs r =
      ((network_channel_find cs channel ≡ none) × (r ≡ (cs, [])))
      ⊎ (((asked_in (λ b. true) mask channel cs ≡ some true) × (r ≡ (cs, [])))
          ⊎ ((asked_in (λ b. true) mask channel cs ≡ some false)
              × (asked_in (λ b. true) mask channel r.0 ≡ some true)
              × (r.1 ≡ ban_line channel mask ∷ [])))

  here-NewIn :
      (c : Channel) (cs : List Channel) (r : List ChannelBan × List Bytes)
      → same_text c.name channel ≡ true
      → NewBan c.banlist.from r
      → NewIn (c ∷ cs) (record c { banlist = put_from c.banlist r.0 } ∷ cs, r.1)
  unfolding network_channel_find find_first
  here-NewIn c cs r e (inl g) =
      inr (inl (rw e g.0, ap (λ x. (record c { banlist = put_from c.banlist x.0 } ∷ cs, x.1)) g.1))
  here-NewIn c cs r e (inr g) = inr (inr (rw e g.0, rw e g.1, g.2))

  later-NewIn :
      (c : Channel) (cs : List Channel) (r : List Channel × List Bytes)
      → same_text c.name channel ≡ false
      → NewIn cs r
      → NewIn (c ∷ cs) (c ∷ r.0, r.1)
  unfolding network_channel_find find_first
  later-NewIn c cs r e (inl g) = inl (rw e g.0, ap (λ x. (c ∷ x.0, x.1)) g.1)
  later-NewIn c cs r e (inr (inl g)) = inr (inl (rw e g.0, ap (λ x. (c ∷ x.0, x.1)) g.1))
  later-NewIn c cs r e (inr (inr g)) = inr (inr (rw e g.0, rw e g.1, g.2))

  ban_channel-NewIn :
      (cs : List Channel)
      → AllMasked cs
      → Gives (NewIn cs) (ban_channel channel mask who comment lifetime now cs)
  unfolding ban_channel network_channel_find find_first
  ban_channel-NewIn [] h = inl (refl, refl)
  ban_channel-NewIn (c ∷ cs) h = elim (Bool-cases (same_text c.name channel)) [
    | inl e ↦ rw e (
        Gives-bind (NewBan c.banlist.from) _
          (add_ban channel mask who comment lifetime now c.banlist.from) _
          (add_ban-NewBan c.banlist.from h.0) λ r g. here-NewIn c cs r e g)
    | inr e ↦ rw e (
        Gives-bind (NewIn cs) _ (ban_channel channel mask who comment lifetime now cs) _
          (ban_channel-NewIn cs h.1) λ r g. later-NewIn c cs r e g)
  ]

  -- `egg_newchanban` with texts that are not empty, on channels whose bans have masks: where there
  -- is no such channel, or where `egg_ischanban` finds the mask in its ban list, nothing changes
  -- and nothing is sent; else `egg_ischanban` finds it afterwards and the server is told once.
  pub egg_newchanban-NewIn :
      (cs : List Channel)
      → (is_empty (some channel)
          || is_empty (some mask)
          || is_empty (some who)
          || is_empty (some comment))
        ≡ false
      → AllMasked cs
      → Gives
          (NewIn cs)
          (egg_newchanban (some channel) (some mask) (some who) (some comment) lifetime now cs)
  unfolding egg_newchanban
  egg_newchanban-NewIn cs e h = rw (egg_newchanban, e) (ban_channel-NewIn cs h)
