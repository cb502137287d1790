-- ===== src/Config/Loaded.antt =====
-- The networks of a loaded configuration.
use trollbot.Prelude.{
  ◌>>=◌, Gives, Gives-bind, Gives-weaken, ◌≡◌, refl, ap, sym, ◌∙◌, subst, Bool, true, false, List,
  [], ◌∷◌, ◌++◌, map, append_assoc, append-nil, Option, none, some, if◌then◌else◌, arith, Bytes,
  codes, Bool-cases, inl, inr,
}
use trollbot.Text.{str_eq}
use trollbot.Text.Compare.{str_eq_iff}
use trollbot.Tconfig.{Blocks, null, block}
use trollbot.Chanfile.{ChanRecord, chan_of, new_chan_from_tconfig_block}
use trollbot.Config.{
  add_chan, NetConfig, new_network, set_nick, set_network, NetState, net_entry, net_entries, Config,
  new_config, set_global, global_entries, with_network, top_entry, load_blocks, config_engine_load,
}
use trollbot.Config.Values.{values, Keyed}

set_nick-label : (o : Option Bytes) (v : Bytes) (n : NetConfig) → (set_nick o v n).label ≡ n.label
set_nick-label none v n = refl
set_nick-label (some w) v n = refl

set_network-label : (k v : Bytes) (n : NetConfig) → (set_network k v n).label ≡ n.label
unfolding set_network
set_network-label k v n = ground (arith, set_nick-label n.nick v n)

net_entry-label :
    (k v : Bytes) (child : Blocks) (s : NetState)
    → Gives (λ t. t.1.label ≡ s.1.label) (net_entry k v child s)
unfolding net_entry new_chan_from_tconfig_block
net_entry-label k v child s = elim (Bool-cases (str_eq k (codes "console"))) [
  | inl e ↦ rw e refl
  | inr e ↦ rw e (elim (Bool-cases (str_eq k (codes "channel"))) [
    | inl f ↦ rw f (go (chan_of v child))
    | inr f ↦ rw f (set_network-label k v s.1)
  ])
]
  where
    go : (c : Option ChanRecord) → (add_chan s.1 c).label ≡ s.1.label
    go none = refl
    go (some c) = refl

net_entries-label :
    (child : Blocks) (s : NetState)
    → Keyed child
    → Gives (λ t. t.1.label ≡ s.1.label) (net_entries child s)
unfolding net_entries
net_entries-label null s h = refl
net_entries-label (block none child next) s h = absurd h
net_entries-label (block (some kv) child next) s h =
    Gives-bind (λ t. t.1.label ≡ s.1.label) _ (net_entry kv.0 kv.1 child s) (net_entries next)
      (net_entry-label kv.0 kv.1 child s)
      λ t e. Gives-weaken _ _ (net_entries next t) (net_entries-label next t h) λ u f. f ∙ e

set_global-networks : (k v : Bytes) (c : Config) → (set_global k v c).networks ≡ c.networks
unfolding set_global
set_global-networks k v c = ground arith

global_entries-networks :
    (child : Blocks) (c : Config)
    → Keyed child
    → Gives (λ d. d.networks ≡ c.networks) (global_entries child c)
unfolding global_entries
global_entries-networks null c h = refl
global_entries-networks (block none child next) c h = absurd h
global_entries-networks (block (some kv) child next) c h =
    Gives-weaken _ _ (global_entries next (set_global kv.0 kv.1 c))
      (global_entries-networks next (set_global kv.0 kv.1 c) h)
      λ d e. e ∙ set_global-networks kv.0 kv.1 c

-- Every block of the two levels has a key and a value.
abbrev pub AllKeyed : Blocks → Type 0
AllKeyed null = Unit
AllKeyed (block none child next) = ⊥
AllKeyed (block (some kv) child next) = Keyed child × AllKeyed next

abbrev labels : Config → List Bytes
labels c = map (λ n. n.label) c.networks

abbrev Labels : (k v : Bytes) → Config → Config → Type 0
Labels k v c d = labels d ≡ (if str_eq k (codes "network") then labels c ++ v ∷ [] else labels c)

map-append :
    (ns : List NetConfig) (n : NetConfig)
    → map (λ n. n.label) (ns ++ n ∷ []) ≡ map (λ n. n.label) ns ++ n.label ∷ []
map-append [] n = refl
map-append (m ∷ ns) n = ap (◌∷◌ m.label) (map-append ns n)

global_no_network :
    (k : Bytes) → str_eq k (codes "global") ≡ true → str_eq k (codes "network") ≡ false
unfolding str_eq
global_no_network k e =
    subst (λ x. str_eq x (codes "network") ≡ false) (sym ((str_eq_iff k (codes "global")).0 e)) refl

same_labels :
    (k v : Bytes) (c d : Config)
    → str_eq k (codes "network") ≡ false
    → labels d ≡ labels c
    → Labels k v c d
same_labels k v c d e g = rw e g

one_label :
    (k v : Bytes) (c d : Config)
    → str_eq k (codes "network") ≡ true
    → labels d ≡ labels c ++ v ∷ []
    → Labels k v c d
one_label k v c d e g = rw e g

global-Labels :
    (k v : Bytes) (child : Blocks) (c : Config)
    → Keyed child
    → str_eq k (codes "network") ≡ false
    → Gives (Labels k v c) (if str_eq v (codes "settings") then global_entries child c else some c)
global-Labels k v child c h n = elim (Bool-cases (str_eq v (codes "settings"))) [
  | inl f ↦ rw f (
      Gives-weaken (λ d. d.networks ≡ c.networks) (Labels k v c) (global_entries child c)
        (global_entries-networks child c h)
        λ d g. same_labels k v c d n (ap (map (λ n. n.label)) g))
  | inr f ↦ rw f (same_labels k v c c n refl)
]

network-Labels :
    (k v : Bytes) (child : Blocks) (c : Config)
    → Keyed child
    → str_eq k (codes "network") ≡ true
    → Gives
        (Labels k v c)
        (net_entries child (c.filters, new_network v) >>= λ s. some (with_network c s))
network-Labels k v child c h e =
    Gives-bind (λ t. t.1.label ≡ v) (Labels k v c) (net_entries child (c.filters, new_network v)) _
      (net_entries-label child (c.filters, new_network v) h)
      λ s g.
        one_label k v c (with_network c s) e
          (map-append c.networks s.1 ∙ ap (λ l. labels c ++ l ∷ []) g)

top_entry-Labels :
    (k v : Bytes) (child : Blocks) (c : Config)
    → Keyed child
    → Gives (Labels k v c) (top_entry k v child c)
unfolding top_entry
top_entry-Labels k v child c h = elim (Bool-cases (str_eq k (codes "global"))) [
  | inl e ↦ rw e (global-Labels k v child c h (global_no_network k e))
  | inr e ↦ rw e (elim (Bool-cases (str_eq k (codes "network"))) [
    | inl f ↦ rw f (network-Labels k v child c h f)
    | inr f ↦ rw f (same_labels k v c c f refl)
  ])
]

more_labels :
    (old vs : List Bytes) (v : Bytes) (b : Bool)
    → ((if b then old ++ v ∷ [] else old) ++ vs) ≡ (old ++ (if b then v ∷ vs else vs))
more_labels old vs v true = append_assoc old (v ∷ []) vs
more_labels old vs v false = refl

load_blocks-Labels :
    (t : Blocks) (c : Config)
    → AllKeyed t
    → Gives (λ d. labels d ≡ labels c ++ values (codes "network") t) (load_blocks t c)
unfolding load_blocks values
load_blocks-Labels null c h = sym (append-nil (labels c))
load_blocks-Labels (block none child next) c h = absurd h
load_blocks-Labels (block (some kv) child next) c h =
    Gives-bind (Labels kv.0 kv.1 c) _ (top_entry kv.0 kv.1 child c) (load_blocks next)
      (top_entry-Labels kv.0 kv.1 child c h.0)
      λ d e. Gives-weaken _ _ (load_blocks next d) (load_blocks-Labels next d h.1) λ x f.
        f
        ∙ ap (λ l. l ++ values (codes "network") next) e
        ∙ more_labels (labels c) (values (codes "network") next) kv.1
            (str_eq kv.0 (codes "network"))

-- A configuration whose blocks all have keys, on the top level and below it, is loaded, and has one
-- network for each `network` block, with its label and in their order.
pub config_engine_load-labels :
    (t : Blocks)
    → AllKeyed t
    → Gives (λ c. map (λ n. n.label) c.networks ≡ values (codes "network") t) (config_engine_load t)
unfolding config_engine_load
config_engine_load-labels t h = load_blocks-Labels t new_config h
