-- ===== src/Egg/Binds.antt =====
-- The bind tables as scripts change them: `egg_bind`, `egg_unbind` and `egg_binds` of
-- src/egg_lib.c. `none` is a fault: a NULL mask or command is compared.
pub mod Found
pub mod Rebind
use trollbot.Prelude.{
  ◌>>=◌, ℕ, zero, suc, ◌+◌, Bool, true, false, ◌&&◌, ◌||◌, not, List, [], ◌∷◌, ◌++◌, Option, none,
  some, ◌==◌, if◌then◌else◌, length, Bytes, codes,
}
use trollbot.Text.{str_eq}
use trollbot.Wildcard.{troll_matchwilds}
use trollbot.Channel.{same_text}
use trollbot.Linked.{Linked, linked, append_linked, step_back}
use trollbot.Trigger.{Trigger, new_trigger}

-- The tables of `struct trig_table`.
pub data Table : Type 0 where
  pub_ : Table
  pubm : Table
  msg : Table
  msgm : Table
  part : Table
  join : Table
  sign : Table
  ctcp : Table
  kick : Table
  notc : Table
  dcc : Table
  raw : Table
  topc : Table

-- Their places in the struct.
unfoldable pub place : Table → ℕ
place pub_ = 0
place pubm = 1
place msg = 2
place msgm = 3
place part = 4
place join = 5
place sign = 6
place ctcp = 7
place kick = 8
place notc = 9
place dcc = 10
place raw = 11
place topc = 12

-- `net->trigs`
abbrev pub Tables : Type 0
Tables = Table → Linked Trigger

-- `net->trigs->t = l`
unfoldable pub set_table : Table → Linked Trigger → Tables → Tables
unfolding place
set_table t l tables = λ u. if place u == place t then l else tables u

-- The first of the names that the type is, up to case.
abbrev pub named : Bytes → List (Bytes × Table) → Option Table
named type [] = none
named type ((name, t) ∷ names) = if same_text name type then some t else named type names

-- The chain of `egg_unbind`: there is no `sign`, `ctcp` and `kick`.
unfoldable pub unbind_table : Bytes → Option Table
unbind_table type = named type (
    (codes "pub", pub_)
    ∷ (codes "pubm", pubm)
    ∷ (codes "msg", msg)
    ∷ (codes "msgm", msgm)
    ∷ (codes "notc", notc)
    ∷ (codes "join", join)
    ∷ (codes "part", part)
    ∷ (codes "dcc", dcc)
    ∷ (codes "topc", topc)
    ∷ (codes "raw", raw)
    ∷ [])

-- The chain of `egg_bind`: there is no `kick`.
unfoldable pub bind_table : Bytes → Option Table
bind_table type = named type (
    (codes "pub", pub_)
    ∷ (codes "pubm", pubm)
    ∷ (codes "msg", msg)
    ∷ (codes "msgm", msgm)
    ∷ (codes "notc", notc)
    ∷ (codes "join", join)
    ∷ (codes "part", part)
    ∷ (codes "sign", sign)
    ∷ (codes "ctcp", ctcp)
    ∷ (codes "dcc", dcc)
    ∷ (codes "topc", topc)
    ∷ (codes "raw", raw)
    ∷ [])

module _ (test : Trigger → Option Bool) where
  -- The first trigger that passes the test is deleted: the list behind it, and the trigger.
  unfoldable pub del_matching :
      List Trigger → List Trigger → Option (Option (Linked Trigger × Trigger))
  del_matching behind [] = some none
  del_matching behind (t ∷ ts) =
      let rest = del_matching (t ∷ behind) ts in
      test t >>= λ hit. if hit then some (some (step_back behind ts, t)) else rest

  -- Whether one passes it.
  unfoldable pub any_matching : List Trigger → Option Bool
  any_matching [] = some false
  any_matching (t ∷ ts) =
      let rest = any_matching ts in test t >>= λ hit. if hit then some true else rest

-- `!tstrcasecmp(trigger->mask, mask)`
abbrev pub mask_test : Bytes → Trigger → Option Bool
mask_test mask t = t.mask >>= λ m. some (same_text m mask)

-- `!tstrcasecmp(trigger->mask, mask) && !tstrcasecmp(trigger->command, cmd)`
abbrev pub same_test : (mask cmd : Bytes) → Trigger → Option Bool
same_test mask cmd t = t.mask >>= λ m.
    if same_text m mask then (t.command >>= λ c. some (same_text c cmd)) else some false

-- `!strcmp(mask, trig->mask) && !tstrcasecmp(command, trig->command)`
abbrev pub unbind_test : (mask cmd : Bytes) → Trigger → Option Bool
unbind_test mask cmd t = t.mask >>= λ m.
    if str_eq mask m then (t.command >>= λ c. some (same_text cmd c)) else some false

-- `new_trigger(NULL, type, mask, cmd, handler)`: the flags of the bind are not handed on.
abbrev pub bound : (mask cmd : Bytes) → ℕ → Trigger
bound mask cmd handler = new_trigger none (some mask) (some cmd) (some handler)

abbrev pub del_result : Linked Trigger → Option (Linked Trigger × Trigger) → Linked Trigger
del_result l none = l
del_result l (some r) = r.0

-- `pub` and `msg`: an old trigger of that mask is removed first.
unfoldable pub bind_alone : (mask cmd : Bytes) → ℕ → Linked Trigger → Option (Linked Trigger)
unfolding del_matching append_linked new_trigger
bind_alone mask cmd handler l = do
  old ← del_matching (mask_test mask) l.behind l.from
  some (append_linked (del_result l old) (bound mask cmd handler))

-- The other tables.
unfoldable pub bind_stacked : (mask cmd : Bytes) → ℕ → Linked Trigger → Linked Trigger
unfolding append_linked new_trigger
bind_stacked mask cmd handler l = append_linked l (bound mask cmd handler)

-- `pubm`: none for a trigger that is there already.
unfoldable pub bind_once :
    (mask cmd : Bytes) → ℕ → Linked Trigger → Option (Option (Linked Trigger))
unfolding any_matching bind_stacked
bind_once mask cmd handler l = do
  there ← any_matching (same_test mask cmd) l.from
  some (if there then none else some (bind_stacked mask cmd handler l))

-- What is returned: the tables, and an array of texts or NULL.
abbrev pub BindResult : Type 0
BindResult = Tables × Option (List Bytes)

abbrev pub once_result : Tables → Table → (cmd : Bytes) → Option (Linked Trigger) → BindResult
once_result tables t cmd none = (tables, none)
once_result tables t cmd (some l) = (set_table t l tables, some (cmd ∷ []))

abbrev pub bind_in : Table → (mask cmd : Bytes) → ℕ → Tables → Option BindResult
bind_in pub_ mask cmd handler tables = do
  l ← bind_alone mask cmd handler (tables pub_)
  some (set_table pub_ l tables, some (cmd ∷ []))
bind_in msg mask cmd handler tables = do
  l ← bind_alone mask cmd handler (tables msg)
  some (set_table msg l tables, some (cmd ∷ []))
bind_in pubm mask cmd handler tables = do
  l ← bind_once mask cmd handler (tables pubm)
  some (once_result tables pubm cmd l)
bind_in t mask cmd handler tables =
    some (set_table t (bind_stacked mask cmd handler (tables t)) tables, some (cmd ∷ []))

-- The first loop without a handler. It counts to 0, and the second loop begins where it ended.
unfoldable pub masks_compared : List Trigger → Option (List Bytes)
masks_compared [] = some []
masks_compared (t ∷ ts) = do m ← t.mask; masks_compared ts

unfoldable pub listed_table : Bytes → Option Table
listed_table type = named type (
    (codes "pub", pub_)
    ∷ (codes "pubm", pubm)
    ∷ (codes "msg", msg)
    ∷ (codes "msgm", msgm)
    ∷ (codes "notc", notc)
    ∷ (codes "join", join)
    ∷ (codes "part", part)
    ∷ (codes "dcc", dcc)
    ∷ (codes "raw", raw)
    ∷ (codes "ctcp", ctcp)
    ∷ (codes "topc", topc)
    ∷ [])

abbrev pub list_binds : Option Table → Tables → Option BindResult
list_binds none tables = some (tables, some [])
list_binds (some t) tables = do ms ← masks_compared (tables t).from; some (tables, some ms)

abbrev pub bind_type : Option Table → (mask cmd : Bytes) → ℕ → Tables → Option BindResult
bind_type none mask cmd handler tables = some (tables, some [])
bind_type (some t) mask cmd handler tables = bind_in t mask cmd handler tables

-- `egg_bind`. The flags are not used.
unfoldable pub egg_bind :
    (type : Bytes) (flags : Option Bytes) (mask cmd : Bytes) (handler : Option ℕ)
    → Tables
    → Option BindResult
unfolding listed_table masks_compared bind_table bind_alone bind_once bind_stacked set_table
egg_bind type flags mask cmd none tables = list_binds (listed_table type) tables
egg_bind type flags mask cmd (some handler) tables =
    bind_type (bind_table type) mask cmd handler tables

abbrev pub unbound : Tables → Table → Option (Linked Trigger × Trigger) → Tables × Option Bytes
unbound tables t none = (tables, none)
unbound tables t (some r) = (set_table t r.0 tables, r.1.mask)

abbrev pub unbind_type : Option Table → (mask cmd : Bytes) → Tables → Option (Tables × Option Bytes)
unbind_type none mask cmd tables = some (tables, none)
unbind_type (some t) mask cmd tables = do
  old ← del_matching (unbind_test mask cmd) (tables t).behind (tables t).from
  some (unbound tables t old)

-- `egg_unbind`: the tables, and the mask of the trigger that is removed.
unfoldable pub egg_unbind :
    (type : Bytes) (flags : Option Bytes) (mask cmd : Bytes)
    → Tables
    → Option (Tables × Option Bytes)
unfolding unbind_table del_matching set_table
egg_unbind type flags mask cmd tables = unbind_type (unbind_table type) mask cmd tables
