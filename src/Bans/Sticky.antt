-- ===== src/Bans/Sticky.antt =====
-- `egg_stick` and `egg_unstick` against the queries of a ban.
use trollbot.Prelude.{
  ◌>>=◌, Gives, Gives-bind, Gives-weaken, ◌≡◌, refl, sym, ap, ◌∙◌, Bool, true, false, List, [], ◌∷◌,
  Option, none, some, All, if◌then◌else◌, Bytes, HasValue, Bool-cases, inl, inr,
}
use trollbot.Channel.{ChannelBan, Channel, same_text, find_first}
use trollbot.Bans.{behind_ban_first, find_ban, change_ban, ban_mask_is, channel_channel_ban_find}
use trollbot.Bans.Eggdrop.{
  network_channel_find, of_ban, of_channel, query_ban, egg_isban, egg_ispermban, egg_isbansticky,
  changed, change_in, with_sticky, set_sticky, egg_stick, egg_unstick,
}

-- What a query of a channel that is named tells.
abbrev pub asked_in : (ChannelBan → Bool) → (ban name : Bytes) → List Channel → Option Bool
asked_in q ban name cs = of_channel q ban (network_channel_find cs name)

-- Bans that have masks.
abbrev pub Masked : List ChannelBan → Type 0
Masked bs = All (λ b. HasValue b.mask) bs

abbrev pub AllMasked : List Channel → Type 0
AllMasked cs = All (λ c. Masked c.banlist.from) cs

-- What a query tells of a list.
abbrev pub asked : (ChannelBan → Bool) → Bytes → List ChannelBan → Option Bool
asked q ban bs = channel_channel_ban_find bs ban >>= λ b. some (of_ban q b)

abbrev pub choose : Option Bool → Option Bool → Option Bool → Option Bool
choose none x y = none
choose (some true) x y = x
choose (some false) x y = y

pub asked-cons :
    (q : ChannelBan → Bool) (ban : Bytes) (b : ChannelBan) (bs : List ChannelBan)
    → asked q ban (b ∷ bs) ≡ choose (ban_mask_is ban b) (some (q b)) (asked q ban bs)
unfolding channel_channel_ban_find find_ban
asked-cons q ban b bs = go (ban_mask_is ban b)
  where
    rest : Option (Option ChannelBan)
    rest = find_ban (ban_mask_is ban) bs

    go :
        (r : Option Bool)
        → ((r >>= λ hit. if hit then some (some b) else rest) >>= λ x. some (of_ban q x))
          ≡ choose r (some (q b)) (rest >>= λ x. some (of_ban q x))
    go none = refl
    go (some true) = refl
    go (some false) = refl

pub decided :
    (find : Bytes) (v : Option Bytes)
    → HasValue v
    → (b : Bool) × ((v >>= λ m. some (same_text m find)) ≡ some b)
decided find none h = absurd h
decided find (some m) h = (same_text m find, refl)

module _ (f : ChannelBan → ChannelBan) (keeps : (b : ChannelBan) → (f b).mask ≡ b.mask) where
  -- A query that the change does not touch.
  abbrev Blind : (ChannelBan → Bool) → Type 0
  Blind q = (b : ChannelBan) → q (f b) ≡ q b

  abbrev Same : (old new : List ChannelBan) → Type 0
  Same old new = (q : ChannelBan → Bool) (ban : Bytes) → Blind q → asked q ban new ≡ asked q ban old

  -- The ban that the search finds is the one that is changed.
  abbrev Changed : Bytes → List ChannelBan → Option (List ChannelBan) → Type 0
  Changed ban bs none = channel_channel_ban_find bs ban ≡ some none
  Changed ban bs (some new) =
      (b : ChannelBan) × (channel_channel_ban_find bs ban ≡ some (some b))
      × (channel_channel_ban_find new ban ≡ some (some (f b)))
      × Same bs new

  ban_mask_is-keeps : (ban : Bytes) (b : ChannelBan) → ban_mask_is ban (f b) ≡ ban_mask_is ban b
  ban_mask_is-keeps ban b = ap (λ v. v >>= λ m. some (same_text m ban)) (keeps b)

  Same-head : (b : ChannelBan) (bs : List ChannelBan) → Same (b ∷ bs) (f b ∷ bs)
  Same-head b bs q ban blind =
      asked-cons q ban (f b) bs
      ∙ ap (λ v. choose v (some (q (f b))) (asked q ban bs)) (ban_mask_is-keeps ban b)
      ∙ ap (λ v. choose (ban_mask_is ban b) (some v) (asked q ban bs)) (blind b)
      ∙ sym (asked-cons q ban b bs)

  Same-tail : (b : ChannelBan) (bs new : List ChannelBan) → Same bs new → Same (b ∷ bs) (b ∷ new)
  Same-tail b bs new s q ban blind =
      asked-cons q ban b new
      ∙ ap (choose (ban_mask_is ban b) (some (q b))) (s q ban blind)
      ∙ sym (asked-cons q ban b bs)

  change_ban-Changed :
      (ban : Bytes) (bs : List ChannelBan)
      → Masked bs
      → Gives (Changed ban bs) (change_ban (ban_mask_is ban) f bs)
  unfolding change_ban channel_channel_ban_find find_ban
  change_ban-Changed ban [] m = refl
  change_ban-Changed ban (b ∷ bs) m = go (change_ban-Changed ban bs m.1) (decided ban b.mask m.0)
    where
      later :
          (r : Option (Option (List ChannelBan)))
          → ban_mask_is ban b ≡ some false
          → Gives (Changed ban bs) r
          → Gives (Changed ban (b ∷ bs)) (r >>= λ r. some (behind_ban_first b r))
      later none d g = absurd g
      later (some none) d g = rw (d, find_ban) g
      later (some (some new)) d g =
          (g.0, rw (d, find_ban) g.1, rw (d, find_ban) g.2, Same-tail b bs new g.3)

      go :
          Gives (Changed ban bs) (change_ban (ban_mask_is ban) f bs)
          → (h : Bool) × (ban_mask_is ban b ≡ some h)
          → Gives (Changed ban (b ∷ bs)) (change_ban (ban_mask_is ban) f (b ∷ bs))
      go g (true, d) =
          rw (change_ban, d)
            (
              b,
              rw (d, find_ban) refl,
              rw (ban_mask_is-keeps ban b, d, find_ban) refl,
              Same-head b bs,
            )
      go g (false, d) = rw (change_ban, d) (later (change_ban (ban_mask_is ban) f bs) d g)

  -- What a change of a ban of a channel does to the queries.
  abbrev pub Asked : (ban name : Bytes) → List Channel → List Channel × Bool → Type 0
  Asked ban name cs r =
      (asked_in (λ b. true) ban name cs ≡ some r.1)
      × (r.1 ≡ true
          → (q : ChannelBan → Bool) (s : Bool) → ((b : ChannelBan) → q (f b) ≡ s)
          → asked_in q ban name r.0 ≡ some s)
      × ((q : ChannelBan → Bool) (b n : Bytes) → Blind q → asked_in q b n r.0 ≡ asked_in q b n cs)

  changed-Asked :
      (ban name : Bytes) (c : Channel) (cs : List Channel) (r : Option (List ChannelBan))
      → same_text c.name name ≡ true
      → Changed ban c.banlist.from r
      → Asked ban name (c ∷ cs) (changed c cs r)
  unfolding network_channel_find find_first
  changed-Asked ban name c cs none h g = (rw (h, g), (λ e. cc), λ q b n l. refl)
  changed-Asked ban name c cs (some new) h g = (
    rw (h, g.1),
    (λ e q s k. rw (h, g.2) (ap some (k g.0))),
    λ q b n l. elim (Bool-cases (same_text c.name n)) [ inl e ↦ rw e (g.3 q b l) | inr e ↦ rw e ],
  )

  cons-Asked :
      (ban name : Bytes) (c : Channel) (cs : List Channel) (r : List Channel × Bool)
      → same_text c.name name ≡ false
      → Asked ban name cs r
      → Asked ban name (c ∷ cs) (c ∷ r.0, r.1)
  unfolding network_channel_find find_first
  cons-Asked ban name c cs r h g = (
    rw h g.0,
    (λ e q s k. rw h (g.1 e q s k)),
    λ q b n l. elim (Bool-cases (same_text c.name n)) [ inl e ↦ rw e | inr e ↦ rw e (g.2 q b n l) ],
  )

  change_in-Asked :
      (ban name : Bytes) (cs : List Channel)
      → AllMasked cs
      → Gives (Asked ban name cs) (change_in f ban name cs)
  unfolding change_in network_channel_find find_first
  change_in-Asked ban name [] m = (refl, (λ e. cc), λ q b n l. refl)
  change_in-Asked ban name (c ∷ cs) m = elim (Bool-cases (same_text c.name name)) [
    | inl e ↦ rw e (
        Gives-bind (Changed ban c.banlist.from) _ (change_ban (ban_mask_is ban) f c.banlist.from) _
          (change_ban-Changed ban c.banlist.from m.0) λ r g. changed-Asked ban name c cs r e g)
    | inr e ↦ rw e (
        Gives-bind (Asked ban name cs) _ (change_in f ban name cs) _
          (change_in-Asked ban name cs m.1) λ r g. cons-Asked ban name c cs r e g)
  ]

-- What `egg_stick`, `egg_unstick` come to on these channels.
abbrev pub Stuck :
    (sticky : Bool) (ban : Bytes) (channel : Option Bytes)
    → List Channel
    → List Channel × Bool
    → Type 0
Stuck sticky ban channel chans r =
    (egg_isban ban channel chans ≡ some r.1)
    × (r.1 ≡ true → egg_isbansticky ban channel r.0 ≡ some sticky)
    × ((b : Bytes) (ch : Option Bytes) → egg_isban b ch r.0 ≡ egg_isban b ch chans)
    × ((b : Bytes) (ch : Option Bytes) → egg_ispermban b ch r.0 ≡ egg_ispermban b ch chans)

query_same :
    (q : ChannelBan → Bool) (new old : List Channel)
    → ((b n : Bytes) → asked_in q b n new ≡ asked_in q b n old)
    → (b : Bytes) (ch : Option Bytes) → query_ban q b ch new ≡ query_ban q b ch old
unfolding query_ban
query_same q new old h b none = refl
query_same q new old h b (some []) = refl
query_same q new old h b (some (c ∷ s)) = h b (c ∷ s)

set_sticky-Stuck :
    (sticky : Bool) (ban : Bytes) (channel : Option Bytes) (chans : List Channel)
    → AllMasked chans
    → Gives (Stuck sticky ban channel chans) (set_sticky sticky ban channel chans)
unfolding set_sticky egg_isban egg_isbansticky egg_ispermban query_ban
set_sticky-Stuck sticky ban none chans m = (refl, (λ e. cc), (λ b ch. refl), λ b ch. refl)
set_sticky-Stuck sticky ban (some []) chans m = (refl, (λ e. cc), (λ b ch. refl), λ b ch. refl)
set_sticky-Stuck sticky ban (some (c ∷ s)) chans m =
    Gives-weaken (Asked (with_sticky sticky) (λ b. refl) ban (c ∷ s) chans) _
      (change_in (with_sticky sticky) ban (c ∷ s) chans)
      (change_in-Asked (with_sticky sticky) (λ b. refl) ban (c ∷ s) chans m)
      λ r g. (
        g.0,
        (λ e. g.1 e (λ b. b.is_sticky) sticky λ b. refl),
        query_same (λ b. true) r.0 chans (λ b n. g.2 (λ b. true) b n λ b. refl),
        query_same (λ b. b.is_perm) r.0 chans (λ b n. g.2 (λ b. b.is_perm) b n λ b. refl),
      )

-- `egg_stick`, which sets the ban that `egg_isban` finds, and `egg_unstick`, which resets it,
-- return what `egg_isban` does; where that is 1, `egg_isbansticky` tells 1 behind `egg_stick` and 0
-- behind `egg_unstick`; and what `egg_isban` and `egg_ispermban` tell of any ban of any channel
-- stays the same. Every ban of the channels has a mask.
pub egg_stick-Stuck :
    (ban : Bytes) (channel : Option Bytes) (chans : List Channel)
    → AllMasked chans
    → Gives (Stuck true ban channel chans) (egg_stick ban channel chans)
      × Gives (Stuck false ban channel chans) (egg_unstick ban channel chans)
unfolding egg_stick egg_unstick
egg_stick-Stuck ban channel chans m =
    (set_sticky-Stuck true ban channel chans m, set_sticky-Stuck false ban channel chans m)
