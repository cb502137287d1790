-- ===== src/Store.antt =====
-- The heap on which the program's lists live: `struct user`, `struct channel`, `struct
-- channel_user`, `struct channel_ban`, `struct trigger`, `struct log_filter` and `struct t_timer`
-- are each a payload with a `prev` and a `next` pointer.
pub mod Returns
pub mod Chain
use trollbot.Prelude.{ℕ, Option, none, some, ◌==◌, if◌then◌else◌}

abbrev pub Ptr : Type 0
Ptr = ℕ

abbrev pub null : Ptr
null = 0

pub record Node (A : Type 0) : Type 0 where
  pub value : A
  pub prev : Ptr
  pub next : Ptr

abbrev pub node : {A : Type 0} → A → Ptr → Ptr → Node A
node v p q = record { value = v; prev = p; next = q }

abbrev pub Store : Type 0 → Type 0
Store A = Ptr → Option (Node A)

unfoldable pub write : {A : Type 0} → Store A → Ptr → Option (Node A) → Store A
write h p c a = if a == p then c else h a

-- `fault`: the code reads or writes through NULL or a freed node. `out_of_fuel` is the model's own.
pub data Run (A B : Type 0) : Type 0 where
  ok : B → Store A → Run A B
  fault : Run A B
  out_of_fuel : Run A B

abbrev pub Cmd : Type 0 → Type 0 → Type 0
Cmd A B = Store A → Run A B

module _ {A : Type 0} where
  abbrev pub pure : {B : Type 0} → B → Cmd A B
  pure = ok

  abbrev pub and_then : {B C : Type 0} → Run A B → (B → Cmd A C) → Run A C
  and_then (ok b h) k = k b h
  and_then fault k = fault
  and_then out_of_fuel k = out_of_fuel

  infixl 5 ◌>>=◌ ◌>>◌
  abbrev pub ◌>>=◌ : {B C : Type 0} → Cmd A B → (B → Cmd A C) → Cmd A C
  m >>= k = λ h. and_then (m h) k

  abbrev pub ◌>>◌ : {B C : Type 0} → Cmd A B → Cmd A C → Cmd A C
  m >> n = m >>= λ _. n

  abbrev pub assign : Ptr → Option (Node A) → Cmd A (Unit {0})
  assign p c h = ok tt (write h p c)

  -- `*p`.
  unfoldable pub load : Ptr → Cmd A (Node A)
  load p h = if p == null then fault else elim (h p) [ none ↦ fault | some n ↦ ok n h ]

  -- `p->next = q`.
  unfoldable pub set_next : Ptr → Ptr → Cmd A (Unit {0})
  set_next p q = do n ← load p; assign p (some (record n { next = q }))

  -- `p->prev = q`.
  unfoldable pub set_prev : Ptr → Ptr → Cmd A (Unit {0})
  set_prev p q = do n ← load p; assign p (some (record n { prev = q }))

  -- `free(p)`, with what the payload points at.
  unfoldable pub free : Ptr → Cmd A (Unit {0})
  free p = load p >> assign p none
