-- ===== src/Trigger.antt =====
-- The triggers of src/irc_trigger.c: `new_trigger`, and which handlers `trigger_match` runs for a
-- message. `none` is a fault: a read through NULL, a call through NULL, or a NULL for a `%s`. What
-- the handlers do is left open; the result says which ones run, in order.
pub mod Flags
pub mod Match
use trollbot.Prelude.{
  ◌>>=◌, ℕ, zero, suc, ◌+◌, ◌-◌, Bool, true, false, List, [], ◌∷◌, ◌++◌, map, Option, none, some,
  ◌==◌, if◌then◌else◌, length, get_elem?, Bytes, codes, peek,
}
use trollbot.Text.{str_eq, has_byte, tolower}
use trollbot.Wildcard.{troll_matchwilds}
use trollbot.Irc.{IrcPrefix, IrcData}

-- `struct trigger`, less `type`. A handler is named by a number.
pub record Trigger : Type 0 where
  pub glob_flags : Option Bytes
  pub chan_flags : Option Bytes
  pub mask : Option Bytes
  pub command : Option Bytes
  pub handler : Option ℕ
  pub usecount : ℕ

-- `strchr(s, c)`, and the text behind that byte.
unfoldable pub behind_byte : ℕ → Bytes → Option Bytes
behind_byte c [] = none
behind_byte c (a ∷ s) = if a == c then some s else behind_byte c s

-- `strncpy` of `n` bytes into a buffer of `n + 1`.
unfoldable pub take : ℕ → Bytes → Bytes
take zero s = []
take (suc n) [] = []
take (suc n) (c ∷ s) = c ∷ take n s

abbrev pub with_flags : (glob chan mask command : Option Bytes) → Option ℕ → Trigger
with_flags glob chan mask command handler = record {
  glob_flags = glob;
  chan_flags = chan;
  mask = mask;
  command = command;
  handler = handler;
  usecount = 0;
}

-- `size != 0`: the flags before the `|`.
abbrev pub front_flags : Bytes → ℕ → Option Bytes
front_flags flags zero = none
front_flags flags (suc n) = some (take (suc n) flags)

-- `new_trigger(flags, type, mask, command, handler)`
unfoldable pub new_trigger : (flags mask command : Option Bytes) → Option ℕ → Trigger
unfolding behind_byte take
new_trigger none mask command handler = with_flags none none mask command handler
new_trigger (some flags) mask command handler = elim (behind_byte b'|' flags) [
  | some tmp ↦
      with_flags (front_flags flags (length flags - (length tmp + 1))) (some tmp) mask command
        handler
  | none ↦ with_flags (if peek flags == b'-' then none else some flags) none mask command handler
]

-- `struct trig_table`
pub record TrigTable : Type 0 where
  pub pub_ : List Trigger
  pub pubm : List Trigger
  pub msg : List Trigger
  pub msgm : List Trigger
  pub part : List Trigger
  pub join : List Trigger
  pub sign : List Trigger
  pub ctcp : List Trigger
  pub kick : List Trigger
  pub notc : List Trigger
  pub dcc : List Trigger
  pub raw : List Trigger
  pub topc : List Trigger

-- The triggers after a walk, and those whose handlers ran.
pub record Ran : Type 0 where
  pub triggers : List Trigger
  pub calls : List Trigger

-- `if (trig->handler != NULL) { trig->usecount++; trig->handler(…); }`, before the later triggers.
abbrev pub used : Trigger → Trigger
used t = record t { usecount = t.usecount + 1 }

unfoldable pub run_handler : Trigger → Ran → Ran
run_handler t later = elim t.handler [
  | none ↦ record { triggers = t ∷ later.triggers; calls = later.calls }
  | some h ↦ record { triggers = used t ∷ later.triggers; calls = used t ∷ later.calls }
]

abbrev pub keep : Trigger → Ran → Ran
keep t later = record { triggers = t ∷ later.triggers; calls = later.calls }

abbrev pub untouched : List Trigger → Ran
untouched ts = record { triggers = ts; calls = [] }

-- The `while` loops: every trigger that the test finds.
unfoldable pub run_all : (Trigger → Option Bool) → List Trigger → Option Ran
unfolding run_handler
run_all test [] = some (untouched [])
run_all test (t ∷ ts) = do
  hit ← test t
  later ← run_all test ts
  some (if hit then run_handler t later else keep t later)

-- The loop of PUB: the first one.
unfoldable pub run_first : (Trigger → Option Bool) → List Trigger → Option Ran
unfolding run_handler
run_first test [] = some (untouched [])
run_first test (t ∷ ts) = test t >>= λ hit. elim hit [
  | true ↦ some (run_handler t (untouched ts))
  | false ↦ (do later ← run_first test ts; some (keep t later))
]

-- JOIN has no loop: the head alone, which is read without a test.
unfoldable pub run_head : (Trigger → Option Bool) → List Trigger → Option Ran
unfolding run_handler
run_head test [] = none
run_head test (t ∷ ts) = do
  hit ← test t
  some (if hit then run_handler t (untouched ts) else untouched (t ∷ ts))

-- RAW calls the handler without asking whether there is one.
abbrev pub call : Trigger → Ran → Option Ran
call t later = elim t.handler [
  | none ↦ none
  | some h ↦ some (record { triggers = used t ∷ later.triggers; calls = used t ∷ later.calls })
]

unfoldable pub run_raw : Bytes → List Trigger → Option Ran
unfolding str_eq
run_raw command [] = some (untouched [])
run_raw command (t ∷ ts) = do
  mask ← t.mask
  later ← run_raw command ts
  if str_eq mask command then call t later else some (keep t later)
