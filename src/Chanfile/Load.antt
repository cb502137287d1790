-- ===== src/Chanfile/Load.antt =====
-- What `chan_init` reads of the tree that `chans_to_tconfig` makes.
use trollbot.Prelude.{
  ◌>>=◌, ◌≡◌, ◌≢◌, refl, ap, sym, ◌∙◌, false, List, [], ◌∷◌, ◌++◌, map, append_assoc, append-nil,
  Option, none, some, All, arith, Bytes,
}
use trollbot.Text.{str_eq}
use trollbot.Channel.{same_text}
use trollbot.Tconfig.{Label}
use trollbot.Chanfile.{
  ChanRecord, var_blocks, child_blocks, chan_blocks, chans_to_tconfig, insert_vars, chan_of,
  new_chan_from_tconfig_block, has_name, link_chans,
}

-- The variables in the other order, in front of others.
unfoldable pub turn : List Label → List Label → List Label
turn [] ws = ws
turn (v ∷ vs) ws = turn vs (v ∷ ws)

turned_vars : Option (List Label) → Option (List Label)
turned_vars none = none
turned_vars (some vs) = some (turn vs [])

unfoldable pub turned : ChanRecord → ChanRecord
unfolding turned_vars turn
turned c = record c { egg_vars = turned_vars c.egg_vars }

insert_vars-turn : (vs ws : List Label) → insert_vars (var_blocks vs) ws ≡ turn vs ws
unfolding insert_vars var_blocks turn
insert_vars-turn [] ws = refl
insert_vars-turn (v ∷ vs) ws = insert_vars-turn vs (v ∷ ws)

turn-turn : (vs ws xs : List Label) → turn (turn vs ws) xs ≡ turn ws (vs ++ xs)
unfolding turn
turn-turn [] ws xs = refl
turn-turn (v ∷ vs) ws xs = turn-turn vs (v ∷ ws) xs

turned_vars_twice : (vs : Option (List Label)) → turned_vars (turned_vars vs) ≡ vs
unfolding turned_vars turn
turned_vars_twice none = refl
turned_vars_twice (some vs) = ap some (turn-turn vs [] [] ∙ append-nil vs)

-- Turned twice, the variables of a channel are in their order again.
pub turned-turned : (c : ChanRecord) → turned (turned c) ≡ c
unfolding turned
turned-turned c = ap (λ vs. record c { egg_vars = vs }) (turned_vars_twice c.egg_vars)

-- A channel that is saved with entries.
abbrev pub HasVars : Option (List Label) → Type 0
HasVars none = ⊥
HasVars (some []) = ⊥
HasVars (some (v ∷ vs)) = Unit

-- Channels with entries, whose names differ, up to case.
abbrev pub IsChanlist : List ChanRecord → Type 0
IsChanlist [] = Unit
IsChanlist (c ∷ cs) =
    HasVars c.egg_vars × All (λ d. same_text c.name d.name ≡ false) cs × IsChanlist cs

-- No channel of the first list has the name of one of the second.
abbrev pub NewNames : List ChanRecord → List ChanRecord → Type 0
NewNames old cs = All (λ c. has_name c.name old ≡ false) cs

chan_of-turned :
    (name : Bytes) (vs : Option (List Label))
    → HasVars vs
    → chan_of name (child_blocks vs) ≡ some (record { name = name; egg_vars = turned_vars vs })
unfolding var_blocks turned_vars
chan_of-turned name none h = absurd h
chan_of-turned name (some []) h = absurd h
chan_of-turned name (some (v ∷ vs)) h =
    ap (λ ws. some (record { name = name; egg_vars = some ws }))
      (unfold var_blocks in insert_vars-turn (v ∷ vs) [])

has_name-append :
    (n : Bytes) (old : List ChanRecord) (c : ChanRecord)
    → has_name n old ≡ false
    → same_text c.name n ≡ false
    → has_name n (old ++ turned c ∷ []) ≡ false
unfolding has_name turned
has_name-append n [] c h k = rw k
has_name-append n (d ∷ old) c h k =
    let a : same_text d.name n ≡ false = ground arith in
    let b : has_name n old ≡ false = ground arith in rw a (has_name-append n old c b k)

NewNames-append :
    (old cs : List ChanRecord) (c : ChanRecord)
    → NewNames old cs
    → All (λ d. same_text c.name d.name ≡ false) cs
    → NewNames (old ++ turned c ∷ []) cs
NewNames-append old [] c h k = tt
NewNames-append old (d ∷ cs) c h k =
    (has_name-append d.name old c h.0 k.0, NewNames-append old cs c h.1 k.1)

-- The channels that `chans_to_tconfig` writes, `chan_init` puts behind those of the network, in
-- their order, each with its variables in the other order: where every channel has variables and
-- the names of all of them differ, up to case.
pub link_chans-chan_blocks :
    (cs old : List ChanRecord)
    → IsChanlist cs
    → NewNames old cs
    → link_chans (chan_blocks cs) old ≡ some (old ++ map turned cs)
unfolding link_chans chan_blocks new_chan_from_tconfig_block str_eq turned
link_chans-chan_blocks [] old h n = ap some (sym (append-nil old))
link_chans-chan_blocks (c ∷ cs) old h n = rw (
  chan_of-turned c.name c.egg_vars h.0,
  n.0,
  link_chans-chan_blocks cs (old ++ turned c ∷ []) h.2 (NewNames-append old cs c n.1 h.1),
  append_assoc,
)

turn-HasVars : (vs ws : List Label) → HasVars (some ws) → HasVars (some (turn vs ws))
unfolding turn
turn-HasVars [] ws h = h
turn-HasVars (v ∷ vs) ws h = turn-HasVars vs (v ∷ ws) tt

turned_vars-HasVars : (vs : Option (List Label)) → HasVars vs → HasVars (turned_vars vs)
unfolding turned_vars turn
turned_vars-HasVars none h = absurd h
turned_vars-HasVars (some []) h = absurd h
turned_vars-HasVars (some (v ∷ vs)) h = turn-HasVars vs (v ∷ []) tt

map-turned-Others :
    (c : ChanRecord) (cs : List ChanRecord)
    → All (λ d. same_text c.name d.name ≡ false) cs
    → All (λ d. same_text c.name d.name ≡ false) (map turned cs)
unfolding turned
map-turned-Others c [] h = tt
map-turned-Others c (d ∷ cs) h = (h.0, map-turned-Others c cs h.1)

turned-IsChanlist : (cs : List ChanRecord) → IsChanlist cs → IsChanlist (map turned cs)
unfolding turned
turned-IsChanlist [] h = tt
turned-IsChanlist (c ∷ cs) h =
    (turned_vars-HasVars c.egg_vars h.0, map-turned-Others c cs h.1, turned-IsChanlist cs h.2)

map-turned-turned : (cs : List ChanRecord) → map turned (map turned cs) ≡ cs
map-turned-turned [] = refl
map-turned-turned (c ∷ cs) = rw (turned-turned c, map-turned-turned cs)

pub new_to_none : (cs : List ChanRecord) → NewNames [] cs
unfolding has_name
new_to_none [] = tt
new_to_none (c ∷ cs) = (refl, new_to_none cs)

-- Saved, loaded, saved and loaded again, the channels are what they were, where there is a channel,
-- every channel has variables and the names differ, up to case.
pub link_chans_twice :
    (cs : List ChanRecord)
    → cs ≢ []
    → IsChanlist cs
    → (do
      first ← chans_to_tconfig cs
      once ← link_chans first []
      second ← chans_to_tconfig once
      link_chans second [])
      ≡ some cs
unfolding chans_to_tconfig
link_chans_twice [] ne h = absurd (ne refl)
link_chans_twice (c ∷ cs) ne h = rw (
  link_chans-chan_blocks (c ∷ cs) [] h (new_to_none (c ∷ cs)),
  link_chans-chan_blocks (map turned (c ∷ cs)) [] (turned-IsChanlist (c ∷ cs) h)
      (new_to_none (map turned (c ∷ cs))),
  map-turned-turned (c ∷ cs),
)
