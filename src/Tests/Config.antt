-- ===== src/Tests/Config.antt =====
-- A configuration.
use trollbot.Prelude.{pos, ◌≡◌, refl, false, [], ◌∷◌, map, some, Gives, Bytes, codes}
use trollbot.Text.{str_eq, has_byte, isspace}
use trollbot.Text.Number.{atoi, digits}
use trollbot.Tconfig.{Blocks, null, block}
use trollbot.Config.{new_server, new_network, net_entries, config_engine_load}
use trollbot.Config.Values.{values}
use trollbot.Config.Networks.{Settled, net_entries-Settled}
use trollbot.Config.Loaded.{config_engine_load-labels}

abbrev entry : Bytes → Bytes → Blocks → Blocks
entry k v next = block (some (k, v)) null next

abbrev network : Blocks
network = entry (codes "nick") (codes "bot") (
    entry (codes "server") (codes "a.b:7000")
      (entry (codes "nick") (codes "late") (entry (codes "server") (codes "c.d") null)))

net_entries-Settled_example :
    Gives (Settled network) (net_entries network ([], new_network (codes "n")))
net_entries-Settled_example = net_entries-Settled (codes "n") [] network tt

ports :
    map (λ v. new_server (some v)) (values (codes "server") network)
    ≡ record { host = some (codes "a.b"); port = pos 7000 }
      ∷ record { host = some (codes "c.d"); port = pos 6667 }
      ∷ []
unfolding new_server values str_eq atoi digits isspace
ports = refl

abbrev conf : Blocks
conf = block (some (codes "global", codes "settings")) (entry (codes "fork") (codes "1") null) (
    block (some (codes "network", codes "n")) network
      (block (some (codes "network", codes "m")) null null))

config_engine_load-labels_example :
    Gives
      (λ c. map (λ n. n.label) c.networks ≡ values (codes "network") conf)
      (config_engine_load conf)
config_engine_load-labels_example = config_engine_load-labels conf (tt, (tt, (tt, tt)))

two : values (codes "network") conf ≡ codes "n" ∷ codes "m" ∷ []
unfolding values str_eq
two = refl

no_colon : has_byte b':' (codes "irc.net") ≡ false
unfolding has_byte
no_colon = refl
