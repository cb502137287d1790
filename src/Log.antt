-- ===== src/Log.antt =====
-- The log filters of src/log_filter.c: which filters a log entry is sent to.
pub mod Sent
use trollbot.Prelude.{Bool, true, List, [], ◌∷◌, Option, none, some, if◌then◌else◌, Bytes}
use trollbot.Text.{has_byte}

-- `struct log_filter`; `has_handler` is `handler != NULL`.
pub record LogFilter : Type 0 where
  pub flags : Option Bytes
  pub has_handler : Bool

-- The loop over the flags of the entry: what is left of them where it ends, which is nothing if the
-- filter has them all.
unfoldable pub first_missing : (filter entry : Bytes) → Bytes
unfolding has_byte
first_missing filter [] = []
first_missing filter (c ∷ entry) =
    if has_byte c filter then first_missing filter entry else c ∷ entry

-- The rest of the body, for the filter at hand, before the filters whose handlers run later.
abbrev pub hand_on : LogFilter → (missing : Bytes) → List LogFilter → List LogFilter
hand_on f (c ∷ missing) later = later
hand_on f [] later = if f.has_handler then f ∷ later else later

-- `log_filters_check(filters, entry)`: the filters whose handler runs, in order.
unfoldable pub log_filters_check : List LogFilter → Option Bytes → List LogFilter
unfolding first_missing
log_filters_check [] entry = []
log_filters_check (f ∷ filters) none = log_filters_check filters none
log_filters_check (f ∷ filters) (some flags) =
    let later = log_filters_check filters (some flags) in
    elim f.flags [ none ↦ later | some own ↦ hand_on f (first_missing own flags) later ]
