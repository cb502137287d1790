-- ===== src/Linked.antt =====
-- A list whose head pointer may stand behind its first node: `net->users` after `user_list_del`,
-- and the users and bans of a channel after `channel_user_del` and `channel_ban_del`, which hand
-- back the node before the deleted one. A NULL pointer has nothing behind it: `from` is empty only
-- where `behind` is. Dlist shows this on the pointers.
pub mod Moves
use trollbot.Prelude.{
  ◌≡◌, refl, Bool, true, false, List, [], ◌∷◌, ◌++◌, Option, none, some, if◌then◌else◌,
}

pub record Linked (A : Type 0) : Type 0 where
  -- what `prev` leads to, the nearest first
  pub behind : List A
  -- what the pointer reads forwards
  pub from : List A

module _ {A : Type 0} where
  abbrev pub linked : List A → List A → Linked A
  linked behind from = record { behind = behind; from = from }

  -- `while (p->prev != NULL) p = p->prev`
  unfoldable pub to_front : List A → List A → List A
  to_front [] xs = xs
  to_front (b ∷ bs) xs = to_front bs (b ∷ xs)

  abbrev pub whole : Linked A → List A
  whole l = to_front l.behind l.from

  -- The same place, with another list from there on.
  abbrev pub put_from : Linked A → List A → Linked A
  put_from l xs = linked l.behind xs

  abbrev pub add_from : List A → List A → A → Linked A
  add_from behind [] x = linked [] (x ∷ [])
  add_from behind (y ∷ from) x = linked behind (y ∷ (from ++ (x ∷ [])))

  -- `user_list_add(users, add)`
  unfoldable pub append_linked : Linked A → A → Linked A
  append_linked l x = add_from l.behind l.from x

  abbrev pub step_back : List A → List A → Linked A
  step_back [] xs = linked [] xs
  step_back (b ∷ bs) xs = linked bs (b ∷ xs)

  -- `user_list_del(users, del)` for the first node that a search from the pointer on finds.
  unfoldable pub del_found : (A → Bool) → List A → List A → Option (Linked A)
  del_found found behind [] = none
  del_found found behind (x ∷ xs) =
      let rest = del_found found (x ∷ behind) xs in
      if found x then some (step_back behind xs) else rest
