-- ===== src/Channel/Members.antt =====
-- The users of a channel: no two with the same nick, and who is found after a JOIN or a PART.
use trollbot.Prelude.{
  ℕ, ◌≡◌, ◌≢◌, ◌↔◌, inl, inr, refl, sym, subst, ap, ◌∙◌, true, false, List, [], ◌∷◌, map, Option,
  some, arith, All, Bytes, Bool-cases, if_cases,
}
use trollbot.Text.{tolower}
use trollbot.Text.Compare.{tstrcasecmp_iff}
use trollbot.Channel.{
  ChannelUser, Channel, has_nick, upsert, join_user, who_user, name_user, find_first,
  channel_channel_user_find, with_origin, with_modes, who_channel_user, new_channel_user,
}

abbrev pub nicks : List ChannelUser → List Bytes
nicks = map (λ u. u.nick)

-- Of every channel, the users behind its pointer and the nicks of the others.
abbrev pub all_nicks : List Channel → List (List ChannelUser × List Bytes)
all_nicks = map (λ c. (c.user_list.behind, nicks c.user_list.from))

-- A nick in lower case.
abbrev pub key : ChannelUser → Bytes
key u = map tolower u.nick

pub has_nick_iff :
    (nick : Bytes) (u : ChannelUser) → (has_nick nick u ≡ true) ↔ (key u ≡ map tolower nick)
has_nick_iff nick u = ground (arith, tstrcasecmp_iff u.nick nick)

not_key : (nick : Bytes) (u : ChannelUser) → has_nick nick u ≡ false → map tolower nick ≢ key u
not_key nick u p e = absurd (ground (arith, (has_nick_iff nick u).1 (sym e)))

-- No two users of a channel have the same nick up to case.
abbrev pub Distinct : List ChannelUser → Type 0
Distinct [] = Unit
Distinct (u ∷ us) = All (λ v. key v ≢ key u) us × Distinct us

module _ (nick : Bytes) (f : ChannelUser → ChannelUser) (new : ChannelUser)
    (same : (u : ChannelUser) → key (f u) ≡ key u) (new_key : key new ≡ map tolower nick) where
  upsert-All :
      (k : Bytes) (us : List ChannelUser)
      → map tolower nick ≢ k
      → All (λ v. key v ≢ k) us
      → All (λ v. key v ≢ k) (upsert nick f new us)
  unfolding upsert
  upsert-All k [] ne h = ((λ e. ne (sym new_key ∙ sym (same new) ∙ e)), tt)
  upsert-All k (u ∷ us) ne h =
      if_cases (All (λ v. key v ≢ k)) (has_nick nick u) (λ p. ((λ e. h.0 (sym (same u) ∙ e)), h.1))
        λ p. (h.0, upsert-All k us ne h.1)

  upsert-Distinct : (us : List ChannelUser) → Distinct us → Distinct (upsert nick f new us)
  unfolding upsert
  upsert-Distinct [] d = (tt, tt)
  upsert-Distinct (u ∷ us) d =
      if_cases Distinct (has_nick nick u)
        (λ p. (subst (λ x. All (λ v. key v ≢ x) us) (sym (same u)) d.0, d.1))
        λ p. (upsert-All (key u) us (not_key nick u p) d.0, upsert-Distinct us d.1)

  -- Whoever is added or changed is found under the nick.
  upsert-found :
      (us : List ChannelUser)
      → (u : ChannelUser) × (channel_channel_user_find (upsert nick f new us) nick ≡ some (f u))
  unfolding upsert channel_channel_user_find find_first
  upsert-found [] = (new, rw ((has_nick_iff nick (f new)).1 (same new ∙ new_key)))
  upsert-found (u ∷ us) = elim (Bool-cases (has_nick nick u)) [
    | inl p ↦ (u, rw (p, (has_nick_iff nick (f u)).1 (same u ∙ (has_nick_iff nick u).0 p)))
    | inr p ↦ let (w, found) = upsert-found us in (w, rw (p, p) found)
  ]

-- After a JOIN the user is found, with the host and the ident of the message.
pub join_user-found :
    (nick user host : Bytes) (us : List ChannelUser)
    → (u : ChannelUser) × (channel_channel_user_find (join_user nick user host us) nick
        ≡ some (with_origin user host u))
unfolding join_user
join_user-found nick user host us =
    upsert-found nick (with_origin user host) (new_channel_user nick) (λ u. refl) refl us

nicks-All :
    (k : Bytes) (us vs : List ChannelUser)
    → nicks vs ≡ nicks us
    → All (λ u. key u ≢ k) us
    → All (λ v. key v ≢ k) vs
nicks-All k us [] e h = tt
nicks-All k [] (v ∷ vs) e h = absurd (ground arith)
nicks-All k (u ∷ us) (v ∷ vs) e h =
    let same : v.nick ≡ u.nick = cc in
    let rest : nicks vs ≡ nicks us = cc in
    ((λ f. h.0 (ap (map tolower) (sym same) ∙ f)), nicks-All k us vs rest h.1)

-- Users with the same nicks are as distinct.
pub nicks-Distinct : (us vs : List ChannelUser) → nicks vs ≡ nicks us → Distinct us → Distinct vs
nicks-Distinct us [] e d = tt
nicks-Distinct [] (v ∷ vs) e d = absurd (ground arith)
nicks-Distinct (u ∷ us) (v ∷ vs) e d =
    let same : v.nick ≡ u.nick = cc in
    let rest : nicks vs ≡ nicks us = cc in
    (
      subst (λ k. All (λ w. key w ≢ k) vs) (ap (map tolower) (sym same))
          (nicks-All (key u) us vs rest d.0),
      nicks-Distinct us vs rest d.1,
    )

-- No user of the one list has a nick of the other.
abbrev pub Apart : List ChannelUser → List ChannelUser → Type 0
Apart bs us = All (λ b. All (λ u. key u ≢ key b) us) bs

-- All the users of a list that its pointer is linked to have different nicks.
abbrev pub AllApart : List ChannelUser → List ChannelUser → Type 0
AllApart bs us = Distinct bs × Distinct us × Apart bs us

Apart-head :
    (u : ChannelUser) (us bs : List ChannelUser)
    → Apart bs (u ∷ us)
    → All (λ b. key b ≢ key u) bs × Apart bs us
Apart-head u us [] h = (tt, tt)
Apart-head u us (b ∷ bs) h =
    let r = Apart-head u us bs h.1 in (((λ e. h.0.0 (sym e)), r.0), (h.0.1, r.1))

Apart-cons :
    (u : ChannelUser) (us bs : List ChannelUser)
    → All (λ b. key b ≢ key u) bs
    → Apart bs us
    → Apart bs (u ∷ us)
Apart-cons u us [] h k = tt
Apart-cons u us (b ∷ bs) h k = (((λ e. h.0 (sym e)), k.0), Apart-cons u us bs h.1 k.1)

-- The pointer moves on by one, or back by one, or past a user who is gone.
pub AllApart-on :
    (u : ChannelUser) (us bs : List ChannelUser) → AllApart bs (u ∷ us) → AllApart (u ∷ bs) us
AllApart-on u us bs h = let r = Apart-head u us bs h.2 in ((r.0, h.0), h.1.1, (h.1.0, r.1))

pub AllApart-back :
    (b : ChannelUser) (us bs : List ChannelUser) → AllApart (b ∷ bs) us → AllApart bs (b ∷ us)
AllApart-back b us bs h = (h.0.1, (h.2.0, h.1), Apart-cons b us bs h.0.0 h.2.1)

pub AllApart-tail :
    (u : ChannelUser) (us bs : List ChannelUser) → AllApart bs (u ∷ us) → AllApart bs us
AllApart-tail u us bs h = (h.0, h.1.1, (Apart-head u us bs h.2).1)

-- No user of a list has the nick.
abbrev pub WithoutNick : Bytes → List ChannelUser → Type 0
WithoutNick nick us = All (λ u. map tolower nick ≢ key u) us

Apart-each :
    (f : List ChannelUser → List ChannelUser) (nick : Bytes) (bs us : List ChannelUser)
    → ((k : Bytes) → map tolower nick ≢ k → All (λ v. key v ≢ k) us → All (λ v. key v ≢ k) (f us))
    → WithoutNick nick bs
    → Apart bs us
    → Apart bs (f us)
Apart-each f nick [] us k n h = tt
Apart-each f nick (b ∷ bs) us k n h = (k (key b) n.0 h.0, Apart-each f nick bs us k n.1 h.1)

-- The users before the pointer stay, and those behind it change without a nick of the others.
pub AllApart-change :
    (f : List ChannelUser → List ChannelUser) (nick : Bytes) (bs us : List ChannelUser)
    → ((k : Bytes) → map tolower nick ≢ k → All (λ v. key v ≢ k) us → All (λ v. key v ≢ k) (f us))
    → (Distinct us → Distinct (f us))
    → WithoutNick nick bs
    → AllApart bs us
    → AllApart bs (f us)
AllApart-change f nick bs us k d n h = (h.0, d h.1, Apart-each f nick bs us k n h.2)

nicks-Apart : (bs us vs : List ChannelUser) → nicks vs ≡ nicks us → Apart bs us → Apart bs vs
nicks-Apart [] us vs e h = tt
nicks-Apart (b ∷ bs) us vs e h = (nicks-All (key b) us vs e h.0, nicks-Apart bs us vs e h.1)

pub nicks-AllApart :
    (bs us vs : List ChannelUser) → nicks vs ≡ nicks us → AllApart bs us → AllApart bs vs
nicks-AllApart bs us vs e h = (h.0, nicks-Distinct us vs e h.1, nicks-Apart bs us vs e h.2)

-- A JOIN, a user of a WHO reply and one of a NAMES reply keep the users of a channel apart, where
-- no user before the pointer has the nick.
pub upserts-AllApart :
    (nick user host : Bytes) (now : ℕ) (modes : Option Bytes) (bs us : List ChannelUser)
    → WithoutNick nick bs
    → AllApart bs us
    → AllApart bs (join_user nick user host us)
      × AllApart bs (who_user nick user host now us)
      × AllApart bs (name_user nick modes us)
unfolding join_user who_user name_user
upserts-AllApart nick user host now modes bs us n h = (
  change (with_origin user host) (new_channel_user nick) (λ u. refl) refl,
  change (λ u. u) (who_channel_user nick user host now) (λ u. refl) refl,
  change (with_modes modes) (new_channel_user nick) (λ u. refl) refl,
)
  where
    change :
        (f : ChannelUser → ChannelUser) (new : ChannelUser)
        → ((u : ChannelUser) → key (f u) ≡ key u)
        → key new ≡ map tolower nick
        → AllApart bs (upsert nick f new us)
    change f new same new_key =
        AllApart-change (upsert nick f new) nick bs us
          (λ k ne a. upsert-All nick f new same new_key k us ne a)
          (upsert-Distinct nick f new same new_key us) n h
