-- ===== src/Modes/Kept.antt =====
-- Changing one user or dropping one ban keeps what the loop over the mode characters needs.
use trollbot.Prelude.{
  Gives, Gives-bind, ◌>>=◌, ℕ, suc, ◌+◌, ◌≡◌, ◌≢◌, refl, ap, Bool, true, false, List, [], ◌∷◌,
  Option, none, some, arith, All, All-append, Bytes,
}
use trollbot.Linked.{Linked, step_back, append_linked, add_from}
use trollbot.Channel.{ChannelUser, ChannelBan, has_nick, same_text}
use trollbot.Channel.Members.{nicks}
use trollbot.Modes.{give, change_modes, change_named, same_mask, unban}
use trollbot.Modes.Flags.{IsModes, Given, give-Given, revoke-IsModes}

-- What the loop needs of a channel: modes that are texts, and bans with a mask.
abbrev pub IsUser : ChannelUser → Type 0
IsUser u = IsModes u.modes

abbrev pub HasText : Option Bytes → Type 0
HasText none = ⊥
HasText (some m) = Unit

abbrev pub IsMasked : ChannelBan → Type 0
IsMasked b = HasText b.mask

pub change_modes-IsUser :
    (junk : ℕ) (plus : Bool) (c : ℕ) (u : ChannelUser)
    → c ≢ 0
    → IsUser u
    → Gives (λ v. IsUser v × (v.nick ≡ u.nick)) (change_modes junk plus c u)
unfolding change_modes
change_modes-IsUser junk true c u nz h =
    Gives-bind IsModes _ (give junk c u.modes) _
      (given (give junk c u.modes) (give-Given junk c u.modes nz h)) λ m g. (g, refl)
  where
    given : (r : Option (Option Bytes)) → Given c r → Gives IsModes r
    given none g = g
    given (some m) g = g.0
change_modes-IsUser junk false c u nz h =
    ((revoke-IsModes c (suc (c + b' ')) u.modes h (omega arith) (omega arith)).0, refl)

abbrev pub Kept : List ChannelUser → List ChannelUser → Type 0
Kept us vs = All IsUser vs × (nicks vs ≡ nicks us)

module _ (f : ChannelUser → Option ChannelUser)
    (keep : (u : ChannelUser) → IsUser u → Gives (λ v. IsUser v × (v.nick ≡ u.nick)) (f u)) where
  pub change_named-Kept :
      (nick : Bytes) (us : List ChannelUser)
      → All IsUser us
      → Gives (Kept us) (change_named f nick us)
  unfolding change_named
  change_named-Kept nick [] h = (tt, refl)
  change_named-Kept nick (u ∷ us) h =
      elim (has_nick nick u)
        as (λ b. Gives (Kept (u ∷ us)) (elim b [
          | true ↦ f u >>= (λ u'. some (u' ∷ us))
          | false ↦ change_named f nick us >>= (λ us'. some (u ∷ us'))
        ])) [
          | true ↦
              Gives-bind (λ v. IsUser v × (v.nick ≡ u.nick)) (Kept (u ∷ us)) (f u) _ (keep u h.0)
                λ v g. ((g.0, h.1), ap (λ n. n ∷ nicks us) g.1)
          | false ↦
              Gives-bind (Kept us) (Kept (u ∷ us)) (change_named f nick us) _
                (change_named-Kept nick us h.1) λ vs g. ((h.0, g.0), ap (◌∷◌ u.nick) g.1)
        ]

-- The bans before the pointer of a list, and those behind it, have masks.
abbrev pub AllMasks : Linked ChannelBan → Type 0
AllMasks l = All IsMasked l.behind × All IsMasked l.from

step_back-AllMasks :
    (behind bans : List ChannelBan)
    → All IsMasked behind
    → All IsMasked bans
    → AllMasks (step_back behind bans)
step_back-AllMasks [] bans p h = (tt, h)
step_back-AllMasks (b ∷ behind) bans p h = (p.1, (p.0, h))

pub append_linked-AllMasks :
    (l : Linked ChannelBan) (b : ChannelBan)
    → AllMasks l
    → IsMasked b
    → AllMasks (append_linked l b)
unfolding append_linked
append_linked-AllMasks l b h m = go l.from h.1
  where
    go : (from : List ChannelBan) → All IsMasked from → AllMasks (add_from l.behind from b)
    go [] k = (tt, (m, tt))
    go (x ∷ from) k = (h.0, (k.0, All-append IsMasked from (b ∷ []) k.1 (m, tt)))

pub unban-Gives :
    (param : Bytes) (all : Linked ChannelBan) (behind bans : List ChannelBan)
    → AllMasks all
    → All IsMasked behind
    → All IsMasked bans
    → Gives AllMasks (unban (some param) all behind bans)
unfolding unban same_mask
unban-Gives param all behind [] a p h = a
unban-Gives param all behind (b ∷ bans) a p h =
    at_mask b.mask h.0 (unban-Gives param all (b ∷ behind) bans a (h.0, p) h.1)
      (step_back-AllMasks behind bans p h.1)
  where
    at_mask :
        (mask : Option Bytes)
        → HasText mask
        → Gives AllMasks (unban (some param) all (b ∷ behind) bans)
        → AllMasks (step_back behind bans)
        → Gives AllMasks (elim (same_mask mask (some param)) [
          | none ↦ none
          | some hit ↦ elim hit [
            | true ↦ some (step_back behind bans)
            | false ↦ unban (some param) all (b ∷ behind) bans
          ]
        ])
    at_mask none t r d = absurd t
    at_mask (some m) t r d =
        elim (same_text m param)
          as (λ hit. Gives AllMasks (elim hit [
            | true ↦ some (step_back behind bans)
            | false ↦ unban (some param) all (b ∷ behind) bans
          ])) [ true ↦ d | false ↦ r ]
