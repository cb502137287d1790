-- ===== src/Tests/Log.antt =====
-- Log filters.
use trollbot.Prelude.{◌≡◌, refl, true, List, [], ◌∷◌, none, some, codes}
use trollbot.Text.{has_byte}
use trollbot.Log.{LogFilter, first_missing, log_filters_check}
use trollbot.Log.Sent.{Sent, log_filters_check-Sent}

abbrev filters : List LogFilter
filters =
    record { flags = some (codes "mj"); has_handler = true }
    ∷ record { flags = some (codes "jkm"); has_handler = true }
    ∷ record { flags = none; has_handler = true }
    ∷ []

second_only :
    log_filters_check filters (some (codes "jk"))
    ≡ record { flags = some (codes "jkm"); has_handler = true } ∷ []
unfolding log_filters_check first_missing has_byte
second_only = refl

log_filters_check-Sent_example :
    Sent (some (codes "jk")) filters (log_filters_check filters (some (codes "jk")))
log_filters_check-Sent_example = log_filters_check-Sent filters (some (codes "jk"))
