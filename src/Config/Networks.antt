-- ===== src/Config/Networks.antt =====
-- Where the settings of a network come from.
use trollbot.Prelude.{
  Gives, Gives-bind, Gives-weaken, ◌≡◌, refl, ap, sym, ◌∙◌, Bool, true, false, List, [], ◌∷◌, ◌++◌,
  map, append_assoc, append-nil, Option, none, some, if◌then◌else◌, arith, Bytes, codes, Bool-cases,
  inl, inr,
}
use trollbot.Text.{str_eq}
use trollbot.Text.Compare.{str_eq_iff}
use trollbot.Tconfig.{Blocks, null, block}
use trollbot.Chanfile.{ChanRecord, chan_of, new_chan_from_tconfig_block}
use trollbot.Config.{
  add_chan, Server, new_server, NetConfig, FilterConfig, new_network, set_network, NetState,
  net_entry, net_entries,
}
use trollbot.Config.Values.{
  values, first, Keyed, by_key, IsFirst, given, net_entries-first, nick-IsFirst, altnick-IsFirst,
  default_flags-IsFirst, dcc_motd-IsFirst, userfile-IsFirst, chanfile-IsFirst, realname-IsFirst,
  ident-IsFirst, vhost-IsFirst,
}

-- The servers, which all entries of their key add to.
abbrev servers_of : List Bytes → List Server
servers_of vs = map (λ v. new_server (some v)) vs

set_network-servers :
    (k v : Bytes) (n : NetConfig)
    → (set_network k v n).servers
      ≡ (if str_eq k (codes "server") then n.servers ++ new_server (some v) ∷ [] else n.servers)
unfolding set_network str_eq
set_network-servers k v n =
    by_key (codes "server")
      (λ x.
        (set_network x v n).servers
        ≡ (if str_eq x (codes "server") then n.servers ++ new_server (some v) ∷ [] else n.servers))
      refl k λ e. ground arith

add_chan-servers : (n : NetConfig) (c : Option ChanRecord) → (add_chan n c).servers ≡ n.servers
add_chan-servers n none = refl
add_chan-servers n (some c) = refl

not_server :
    (k key : Bytes)
    → str_eq k key ≡ true
    → str_eq key (codes "server") ≡ false
    → str_eq k (codes "server") ≡ false
not_server k key e d = ground (arith, str_eq_iff k key, str_eq_iff k (codes "server"), d)

abbrev Serves : (k v : Bytes) → NetState → NetState → Type 0
Serves k v s t =
    t.1.servers
    ≡ (if str_eq k (codes "server") then s.1.servers ++ new_server (some v) ∷ [] else s.1.servers)

console_no_server : str_eq (codes "console") (codes "server") ≡ false
unfolding str_eq
console_no_server = refl

channel_no_server : str_eq (codes "channel") (codes "server") ≡ false
unfolding str_eq
channel_no_server = refl

net_entry-Serves :
    (k v : Bytes) (child : Blocks) (s : NetState) → Gives (Serves k v s) (net_entry k v child s)
unfolding net_entry new_chan_from_tconfig_block
net_entry-Serves k v child s = elim (Bool-cases (str_eq k (codes "console"))) [
  | inl e ↦ rw (e, not_server k (codes "console") e console_no_server) refl
  | inr e ↦ rw e (elim (Bool-cases (str_eq k (codes "channel"))) [
    | inl f ↦
        rw (f, not_server k (codes "channel") f channel_no_server)
          (add_chan-servers s.1 (chan_of v child))
    | inr f ↦ rw f (set_network-servers k v s.1)
  ])
]

more_servers :
    (old : List Server) (v : Bytes) (vs : List Bytes) (b : Bool)
    → ((if b then old ++ new_server (some v) ∷ [] else old) ++ servers_of vs)
      ≡ (old ++ servers_of (if b then v ∷ vs else vs))
more_servers old v vs true = append_assoc old (new_server (some v) ∷ []) (servers_of vs)
more_servers old v vs false = refl

net_entries-servers :
    (child : Blocks) (s : NetState)
    → Keyed child
    → Gives
        (λ t. t.1.servers ≡ s.1.servers ++ servers_of (values (codes "server") child))
        (net_entries child s)
unfolding net_entries values
net_entries-servers null s h = sym (append-nil s.1.servers)
net_entries-servers (block none child next) s h = absurd h
net_entries-servers (block (some kv) child next) s h =
    Gives-bind (Serves kv.0 kv.1 s) _ (net_entry kv.0 kv.1 child s) (net_entries next)
      (net_entry-Serves kv.0 kv.1 child s)
      λ t e. Gives-weaken _ _ (net_entries next t) (net_entries-servers next t h) λ u f.
        f
        ∙ ap (λ x. x ++ servers_of (values (codes "server") next)) e
        ∙ more_servers s.1.servers kv.1 (values (codes "server") next)
            (str_eq kv.0 (codes "server"))

-- The settings of a network that `Settled` says where they come from.
abbrev pub Settled : Blocks → NetState → Type 0
Settled child t =
    (t.1.nick ≡ first (values (codes "nick") child))
    × (t.1.altnick ≡ first (values (codes "altnick") child))
    × (t.1.default_flags ≡ first (values (codes "default-flags") child))
    × (t.1.dcc_motd ≡ first (values (codes "dcc_motd") child))
    × (t.1.userfile ≡ first (values (codes "userfile") child))
    × (t.1.chanfile ≡ first (values (codes "chanfile") child))
    × (t.1.realname ≡ first (values (codes "realname") child))
    × (t.1.ident ≡ first (values (codes "ident") child))
    × (t.1.vhost ≡ first (values (codes "vhost") child))
    × (t.1.servers ≡ map (λ v. new_server (some v)) (values (codes "server") child))

first_field :
    (get : NetConfig → Option Bytes) (key label : Bytes) (filters : List FilterConfig)
    (child : Blocks)
    → IsFirst get key
    → get (new_network label) ≡ none
    → Keyed child
    → Gives
        (λ t. get t.1 ≡ first (values key child))
        (net_entries child (filters, new_network label))
first_field get key label filters child is e h =
    Gives-weaken _ _ (net_entries child (filters, new_network label))
      (net_entries-first get key is child (filters, new_network label) h)
      λ t f. f ∙ ap (λ g. given g (first (values key child))) e

-- A network block whose entries all have keys is loaded, and each of the settings that are texts
-- is the value of the first entry with its key, or NULL without one, whatever stands between the
-- entries; the servers are those of all `server` entries, in their order.
pub net_entries-Settled :
    (label : Bytes) (filters : List FilterConfig) (child : Blocks)
    → Keyed child
    → Gives (Settled child) (net_entries child (filters, new_network label))
net_entries-Settled label filters child h =
    together (net_entries child (filters, new_network label))
      (first_field (λ n. n.nick) (codes "nick") label filters child nick-IsFirst refl h)
      (first_field (λ n. n.altnick) (codes "altnick") label filters child altnick-IsFirst refl h)
      (first_field (λ n. n.default_flags) (codes "default-flags") label filters child
        default_flags-IsFirst refl h)
      (first_field (λ n. n.dcc_motd) (codes "dcc_motd") label filters child dcc_motd-IsFirst refl h)
      (first_field (λ n. n.userfile) (codes "userfile") label filters child userfile-IsFirst refl h)
      (first_field (λ n. n.chanfile) (codes "chanfile") label filters child chanfile-IsFirst refl h)
      (first_field (λ n. n.realname) (codes "realname") label filters child realname-IsFirst refl h)
      (first_field (λ n. n.ident) (codes "ident") label filters child ident-IsFirst refl h)
      (first_field (λ n. n.vhost) (codes "vhost") label filters child vhost-IsFirst refl h)
      (net_entries-servers child (filters, new_network label) h)
  where
    together :
        (m : Option NetState)
        → Gives (λ t. t.1.nick ≡ first (values (codes "nick") child)) m
        → Gives (λ t. t.1.altnick ≡ first (values (codes "altnick") child)) m
        → Gives (λ t. t.1.default_flags ≡ first (values (codes "default-flags") child)) m
        → Gives (λ t. t.1.dcc_motd ≡ first (values (codes "dcc_motd") child)) m
        → Gives (λ t. t.1.userfile ≡ first (values (codes "userfile") child)) m
        → Gives (λ t. t.1.chanfile ≡ first (values (codes "chanfile") child)) m
        → Gives (λ t. t.1.realname ≡ first (values (codes "realname") child)) m
        → Gives (λ t. t.1.ident ≡ first (values (codes "ident") child)) m
        → Gives (λ t. t.1.vhost ≡ first (values (codes "vhost") child)) m
        → Gives (λ t. t.1.servers ≡ servers_of (values (codes "server") child)) m
        → Gives (Settled child) m
    together none a b c d e f g i j k = a
    together (some t) a b c d e f g i j k = (a, b, c, d, e, f, g, i, j, k)
