-- ===== src/Config.antt =====
-- The configuration as it is read from its tree: `config_engine_load` of src/config_engine.c, less
-- the keys of the interpreters and the http, ics and xmpp servers, which a build may leave out, and
-- `new_server` of src/server.c. `none` is a fault: a NULL key for `strcmp`.
pub mod Values
pub mod Networks
pub mod Loaded
pub mod Servers
use trollbot.Prelude.{
  ◌>>=◌, ℤ, pos, negsuc, is_minus_one, ℕ, Bool, true, false, not, List, [], ◌∷◌, ◌++◌, Option, none,
  some, ◌==◌, if◌then◌else◌, Bytes, codes,
}
use trollbot.Text.{str_eq}
use trollbot.Text.Number.{atoi}
use trollbot.Tconfig.{Label, Blocks, null, block}
use trollbot.User.{first_value}
use trollbot.Chanfile.{ChanRecord, new_chan_from_tconfig_block}

-- `struct server`, less `tcfg`.
pub record Server : Type 0 where
  pub host : Option Bytes
  pub port : ℤ

-- `strchr(hostport, ':')`: the texts before and behind the byte.
abbrev pub add_before : ℕ → Option (Bytes × Bytes) → Option (Bytes × Bytes)
add_before c none = none
add_before c (some r) = some (c ∷ r.0, r.1)

unfoldable pub split_at : ℕ → Bytes → Option (Bytes × Bytes)
split_at d [] = none
split_at d (c ∷ s) = let rest = add_before c (split_at d s) in if c == d then some ([], s) else rest

abbrev pub server_of : Bytes → Option (Bytes × Bytes) → Server
server_of hostport none = record { host = some hostport; port = pos 6667 }
server_of hostport (some r) = record { host = some r.0; port = atoi r.1 }

-- `new_server`
unfoldable pub new_server : Option Bytes → Server
unfolding split_at atoi
new_server none = record { host = none; port = pos 6667 }
new_server (some hostport) = server_of hostport (split_at b':' hostport)

-- What the loader writes of a `struct network`.
pub record NetConfig : Type 0 where
  pub label : Bytes
  pub nick : Option Bytes
  pub botnick : Option Bytes
  pub altnick : Option Bytes
  pub default_flags : Option Bytes
  pub dcc_motd : Option Bytes
  pub userfile : Option Bytes
  pub chanfile : Option Bytes
  pub realname : Option Bytes
  pub ident : Option Bytes
  pub vhost : Option Bytes
  pub never_give_up : ℤ
  pub connect_delay : ℤ
  pub dcc_port : ℤ
  pub handlen : ℤ
  pub servers : List Server
  pub chans : List ChanRecord

-- `new_network`
abbrev pub new_network : Bytes → NetConfig
new_network label = record {
  label = label;
  nick = none;
  botnick = none;
  altnick = none;
  default_flags = none;
  dcc_motd = none;
  userfile = none;
  chanfile = none;
  realname = none;
  ident = none;
  vhost = none;
  never_give_up = negsuc 0;
  connect_delay = negsuc 0;
  dcc_port = negsuc 0;
  handlen = pos 32;
  servers = [];
  chans = [];
}

-- `if (p == -1) p = atoi(value);`
abbrev pub first_number : ℤ → Bytes → ℤ
first_number n v = if is_minus_one n then atoi v else n

abbrev pub set_nick : Option Bytes → Bytes → NetConfig → NetConfig
set_nick none v n = record n { nick = some v; botnick = some v }
set_nick (some w) v n = n

-- The `else if` chain over the keys of a network that write a field of it.
unfoldable pub set_network : (key value : Bytes) → NetConfig → NetConfig
unfolding str_eq new_server atoi
set_network k v n =
    if str_eq k (codes "nick")
    then set_nick n.nick v n
    else if str_eq k (codes "never-give-up")
    then record n { never_give_up = first_number n.never_give_up v }
    else if str_eq k (codes "server-cycle-wait")
    then record n { connect_delay = first_number n.connect_delay v }
    else if str_eq k (codes "default-flags")
    then record n { default_flags = first_value n.default_flags v }
    else if str_eq k (codes "dcc_motd")
    then record n { dcc_motd = first_value n.dcc_motd v }
    else if str_eq k (codes "dcc_port")
    then record n { dcc_port = first_number n.dcc_port v }
    else if str_eq k (codes "altnick")
    then record n { altnick = first_value n.altnick v }
    else if str_eq k (codes "handlen")
    then record n { handlen = atoi v }
    else if str_eq k (codes "userfile")
    then record n { userfile = first_value n.userfile v }
    else if str_eq k (codes "chanfile")
    then record n { chanfile = first_value n.chanfile v }
    else if str_eq k (codes "realname")
    then record n { realname = first_value n.realname v }
    else if str_eq k (codes "ident")
    then record n { ident = first_value n.ident v }
    else if str_eq k (codes "vhost")
    then record n { vhost = first_value n.vhost v }
    else if str_eq k (codes "server")
    then record n { servers = n.servers ++ new_server (some v) ∷ [] }
    else n

abbrev pub add_chan : NetConfig → Option ChanRecord → NetConfig
add_chan n none = n
add_chan n (some c) = record n { chans = n.chans ++ c ∷ [] }

-- A log filter, and where it writes to: the console, or the DCC sessions of a network.
pub data FilterHandler : Type 0 where
  console_log_filter_handler : FilterHandler
  dcc_log_filter_handler : (net : Bytes) → FilterHandler

pub record FilterConfig : Type 0 where
  pub flags : Bytes
  pub handler : FilterHandler

abbrev pub filter_to : FilterHandler → Bytes → FilterConfig
filter_to handler flags = record { flags = flags; handler = handler }

-- What the loop over the entries of a network changes.
abbrev pub NetState : Type 0
NetState = List FilterConfig × NetConfig

-- One entry of a network.
unfoldable pub net_entry : (key value : Bytes) (child : Blocks) → NetState → Option NetState
unfolding set_network new_chan_from_tconfig_block str_eq
net_entry k v child s =
    if str_eq k (codes "console")
    then some (s.0 ++ filter_to (dcc_log_filter_handler s.1.label) v ∷ [], s.1)
    else if str_eq k (codes "channel")
    then (new_chan_from_tconfig_block (some (k, v)) child >>= λ c. some (s.0, add_chan s.1 c))
    else some (s.0, set_network k v s.1)

-- The loop over the entries of a network.
unfoldable pub net_entries : Blocks → NetState → Option NetState
unfolding net_entry
net_entries null s = some s
net_entries (block none child next) s = none
net_entries (block (some kv) child next) s = net_entry kv.0 kv.1 child s >>= net_entries next

-- `struct config`, less what the loader leaves NULL.
pub record Config : Type 0 where
  pub fork : ℤ
  pub debug_level : ℤ
  pub dcc_motd : Option Bytes
  pub hash_type : Option Bytes
  pub crypto_name : Option Bytes
  pub filters : List FilterConfig
  pub networks : List NetConfig

abbrev pub new_config : Config
new_config = record {
  fork = pos 0;
  debug_level = pos 0;
  dcc_motd = none;
  hash_type = none;
  crypto_name = none;
  filters = [];
  networks = [];
}

-- The chain over the keys of the global settings.
unfoldable pub set_global : (key value : Bytes) → Config → Config
unfolding str_eq atoi
set_global k v c =
    if str_eq k (codes "fork")
    then record c { fork = atoi v }
    else if str_eq k (codes "console_log_flags")
    then record c { filters = c.filters ++ filter_to console_log_filter_handler v ∷ [] }
    else if str_eq k (codes "debuglevel")
    then record c { debug_level = atoi v }
    else if str_eq k (codes "dcc_motd")
    then record c { dcc_motd = first_value c.dcc_motd v }
    else if str_eq k (codes "hash_type")
    then record c { hash_type = first_value c.hash_type v }
    else if str_eq k (codes "crypto_module")
    then record c { crypto_name = first_value c.crypto_name v }
    else c

unfoldable pub global_entries : Blocks → Config → Option Config
unfolding set_global
global_entries null c = some c
global_entries (block none child next) c = none
global_entries (block (some kv) child next) c = global_entries next (set_global kv.0 kv.1 c)

-- A network block: the network goes behind the others.
abbrev pub with_network : Config → NetState → Config
with_network c s = record c { filters = s.0; networks = c.networks ++ s.1 ∷ [] }

-- One block of the top level.
unfoldable pub top_entry : (key value : Bytes) (child : Blocks) → Config → Option Config
unfolding global_entries net_entries str_eq
top_entry k v child c =
    if str_eq k (codes "global")
    then if str_eq v (codes "settings") then global_entries child c else some c
    else if str_eq k (codes "network")
    then (net_entries child (c.filters, new_network v) >>= λ s. some (with_network c s))
    else some c

unfoldable pub load_blocks : Blocks → Config → Option Config
unfolding top_entry
load_blocks null c = some c
load_blocks (block none child next) c = none
load_blocks (block (some kv) child next) c = top_entry kv.0 kv.1 child c >>= load_blocks next

-- `config_engine_load`
unfoldable pub config_engine_load : Blocks → Option Config
unfolding load_blocks
config_engine_load t = load_blocks t new_config
