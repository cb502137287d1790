-- ===== src/Dlist.antt =====
-- The doubly linked lists of the program. The same four functions are written once for each struct:
-- adding behind the last node (`user_list_add`, `channel_user_add`, `channel_ban_add`,
-- `log_filter_add`, `t_timer_add`), the variant that also resets the pointers of the new node
-- (`trigger_list_add`, `channel_list_add`), deleting (`user_list_del`, `channel_user_del`,
-- `channel_ban_del`, `trigger_list_del`), and the removal of `t_timer_remove` and
-- `log_filter_remove`. Payloads and destructors are left open. A walk is given fuel.
pub mod Add
pub mod Del
pub mod Remove
pub mod Uses
use trollbot.Prelude.{ℕ, zero, suc, ◌==◌, if◌then◌else◌}
use trollbot.Store.{
  Ptr, null, Node, Store, Cmd, out_of_fuel, pure, and_then, ◌>>=◌, ◌>>◌, load, set_next, set_prev,
  free,
}

module _ {A : Type 0} where
  -- `while (tmp->next != NULL) tmp = tmp->next`
  unfoldable pub to_last : ℕ → Ptr → Cmd A Ptr
  to_last zero p = λ h. out_of_fuel
  to_last (suc k) p = do n ← load p; if n.next == null then pure p else to_last k n.next

  -- `user_list_add(users, add)`. With no list yet, `add` is returned as it is.
  unfoldable pub list_add : ℕ → (users add : Ptr) → Cmd A Ptr
  unfolding to_last
  list_add k users add =
      if users == null
      then pure add
      else do last ← to_last k users; set_next last add; set_prev add last; pure users

  -- `trigger_list_add(&orig, new)`; the result is the new value of `*orig`.
  unfoldable pub list_append : ℕ → (orig new : Ptr) → Cmd A Ptr
  unfolding to_last
  list_append k orig new =
      if orig == null then (do set_prev new null; set_next new null; pure new) else do
        last ← to_last k orig
        set_next last new
        set_prev new last
        set_next new null
        pure orig

  -- `if (tmp->prev != NULL) tmp->prev->next = tmp->next`
  unfoldable pub bridge_prev : Ptr → Cmd A (Unit {0})
  bridge_prev p = do n ← load p; if n.prev == null then pure tt else set_next n.prev n.next

  -- `if (tmp->next != NULL) tmp->next->prev = tmp->prev`
  unfoldable pub bridge_next : Ptr → Cmd A (Unit {0})
  bridge_next p = do n ← load p; if n.next == null then pure tt else set_prev n.next n.prev

  -- `while (tmp == del && tmp->prev != NULL) tmp = tmp->prev`
  unfoldable pub go_back : ℕ → (del p : Ptr) → Cmd A Ptr
  go_back zero del p = λ h. out_of_fuel
  go_back (suc k) del p =
      if p == del
      then (do n ← load p; if n.prev == null then pure p else go_back k del n.prev)
      else pure p

  -- `while (tmp == del && tmp->next != NULL) tmp = tmp->next`
  unfoldable pub go_on : ℕ → (del p : Ptr) → Cmd A Ptr
  go_on zero del p = λ h. out_of_fuel
  go_on (suc k) del p =
      if p == del
      then (do n ← load p; if n.next == null then pure p else go_on k del n.next)
      else pure p

  -- The body of the search of `user_list_del` at the node that it looks for.
  -- The two loops make one round each, and one test more, unless a node is its own neighbour.
  unfoldable pub unlink : Ptr → Cmd A Ptr
  unfolding bridge_prev bridge_next go_back go_on
  unlink del = do
    bridge_prev del
    bridge_next del
    p ← go_back 2 del del
    q ← go_on 2 del p
    if q == del then pure null else pure q

  unfoldable pub del_loop : ℕ → (users del p : Ptr) → Cmd A Ptr
  del_loop zero users del p = λ h. out_of_fuel
  del_loop (suc k) users del p =
      if p == null
      then pure users
      else if p == del
      then unlink del
      else do n ← load p; del_loop k users del n.next

  -- `user_list_del(users, del)`
  unfoldable pub list_del : ℕ → (users del : Ptr) → Cmd A Ptr
  unfolding del_loop unlink
  list_del k users del = if users == null then pure null else del_loop k users del users

  -- `while (ret != del) ret = ret->next`
  unfoldable pub seek : ℕ → (del p : Ptr) → Cmd A Ptr
  seek zero del p = λ h. out_of_fuel
  seek (suc k) del p = if p == del then pure p else do n ← load p; seek k del n.next

  -- `t_timer_remove(timers, del)`; the head is freed, any other node is only unlinked.
  unfoldable pub list_remove : ℕ → (timers del : Ptr) → Cmd A Ptr
  unfolding seek bridge_prev bridge_next
  list_remove k timers del = do
    p ← seek k del timers
    if p == null
        then pure timers
        else if p == timers
        then (do n ← load timers; free p; pure n.next)
        else do bridge_next p; bridge_prev p; pure p
