-- ===== src/Timer.antt =====
-- The timers of src/t_timer.c: a doubly linked list that `t_timers_check` runs through. What a
-- handler does is a parameter of the model.
pub mod Check
use trollbot.Prelude.{ℕ, zero, suc, Bool, true, false, leb, ◌==◌, if◌then◌else◌}
use trollbot.Store.{Ptr, null, Cmd, out_of_fuel, pure, and_then, ◌>>=◌, ◌>>◌, load}
use trollbot.Dlist.{list_add, list_remove}

-- `struct t_timer`, less the fields that only its handler reads. `has_handler` is
-- `handler != NULL`.
pub record Timer : Type 0 where
  pub timer_id : ℕ
  pub time_set : ℕ
  pub time_trig : ℕ
  pub has_handler : Bool

abbrev pub t_timer_add : ℕ → (timers add : Ptr) → Cmd Timer Ptr
t_timer_add = list_add

abbrev pub t_timer_remove : ℕ → (timers del : Ptr) → Cmd Timer Ptr
t_timer_remove = list_remove

module _ (handler : Ptr → Cmd Timer (Unit {0})) where
  -- `if (tmp->time_trig <= timestamp) { … }`: the new value of `ret`.
  unfoldable pub expire : ℕ → ℕ → (ret tmp : Ptr) → Cmd Timer Ptr
  expire k timestamp ret tmp = do
    t ← load tmp
    if leb t.value.time_trig timestamp
        then (do if t.value.has_handler then handler tmp else pure tt; t_timer_remove k ret tmp)
        else pure ret

  unfoldable pub check_loop : ℕ → ℕ → (ret tmp : Ptr) → Cmd Timer Ptr
  check_loop zero timestamp ret tmp = λ h. out_of_fuel
  check_loop (suc k) timestamp ret tmp =
      if tmp == null
      then pure ret
      else do r ← expire (suc k) timestamp ret tmp; t ← load tmp; check_loop k timestamp r t.next

  -- `t_timers_check(timers, timestamp)`
  unfoldable pub t_timers_check : ℕ → (timers : Ptr) → ℕ → Cmd Timer Ptr
  unfolding check_loop expire
  t_timers_check k timers timestamp = check_loop k timestamp timers timers
