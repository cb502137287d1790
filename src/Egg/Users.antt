-- ===== src/Egg/Users.antt =====
-- `egg_deluser` and `egg_chhandle`: which users there are, and how many the list still shows.
use trollbot.Prelude.{◌+◌, ◌≡◌, refl, true, List, [], ◌∷◌, ◌++◌, some, Bytes}
use trollbot.Linked.{to_front, whole, step_back}
use trollbot.Linked.Moves.{
  Missed, del_found-split, to_front-to_front, whole-step_back, lost, count-step_back,
}
use trollbot.User.{User}
use trollbot.Egg.{EggNetwork, is_user, egg_countusers, egg_deluser, deleted}

-- The users of the network, where the first whose name is the one asked for stands behind `front`.
module _ (net : EggNetwork) (username : Bytes) (front : List User) (u : User) (rear : List User)
    (at : net.users.from ≡ front ++ u ∷ rear) (missed : Missed (is_user username) front)
    (hit : is_user username u ≡ true) where
  egg_deluser_at :
      egg_deluser net (some username)
      ≡ deleted net (some (step_back (to_front front net.users.behind) rear))
  unfolding egg_deluser
  egg_deluser_at =
      rw (at, del_found-split (is_user username) front net.users.behind u rear missed hit)

  -- `egg_deluser` returns 1 for a user who is in the list, up to case, and of all users that the
  -- list is linked to, also those before its pointer, exactly the first of that name behind the
  -- pointer is gone.
  pub egg_deluser-whole :
      ((egg_deluser net (some username)).1 ≡ true)
      × (whole (egg_deluser net (some username)).0.users
          ≡ to_front net.users.behind (front ++ rear))
  egg_deluser-whole =
      rw
        (
          egg_deluser_at,
          whole-step_back (to_front front net.users.behind) rear,
          to_front-to_front front net.users.behind rear,
        )
        (refl, refl)

  -- Where the pointer of the list is at its first user, the list that can be read from it becomes
  -- one user shorter if nobody stands before the one that is deleted, and else as many users
  -- shorter as stand before him.
  pub egg_deluser-countusers :
      net.users.behind ≡ []
      → egg_countusers (egg_deluser net (some username)).0 + lost front ≡ egg_countusers net
  unfolding egg_countusers
  egg_deluser-countusers b = rw (egg_deluser_at, at, b) (count-step_back front u rear)
