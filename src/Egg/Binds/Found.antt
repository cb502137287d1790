-- ===== src/Egg/Binds/Found.antt =====
-- What `egg_unbind` removes, and what is still in the table then.
use trollbot.Prelude.{
  ◌≤◌, ◌≡◌, ◌↔◌, refl, ◌∙◌, Bool, true, false, List, [], ◌∷◌, ◌++◌, Option, none, some, Gives, All,
  length, Bytes, ==_refl,
}
use trollbot.Linked.{Linked, to_front, whole, step_back}
use trollbot.Linked.Moves.{to_front-to_front, whole-step_back, step_back-from}
use trollbot.Trigger.{Trigger}
use trollbot.Egg.Binds.{
  Table, Tables, place, set_table, unbind_table, unbind_test, del_matching, egg_unbind,
}

module _ (test : Trigger → Option Bool) where
  -- Triggers that the test can be made of, and that fail it.
  abbrev pub Fail : List Trigger → Type 0
  Fail ts = All (λ t. test t ≡ some false) ts

  pub del_matching-split :
      (front behind : List Trigger) (t : Trigger) (rear : List Trigger)
      → Fail front
      → test t ≡ some true
      → del_matching test behind (front ++ t ∷ rear)
        ≡ some (some (step_back (to_front front behind) rear, t))
  unfolding del_matching to_front
  del_matching-split [] behind t rear f h = rw h
  del_matching-split (x ∷ front) behind t rear f h =
      rw f.0 (del_matching-split front (x ∷ behind) t rear f.1 h)

  pub del_matching-none :
      (ts behind : List Trigger) → Fail ts → del_matching test behind ts ≡ some none
  unfolding del_matching
  del_matching-none [] behind f = refl
  del_matching-none (x ∷ ts) behind f = rw f.0 (del_matching-none ts (x ∷ behind) f.1)

pub set_table_same : (t : Table) (l : Linked Trigger) (tables : Tables) → set_table t l tables t ≡ l
unfolding set_table
set_table_same t l tables = rw (==_refl (place t))

-- `egg_unbind` of a bind that is there, the first of that mask, as it is written, and that command,
-- up to case, returns the mask and takes exactly this trigger from the ones that the table is
-- linked to. Where the table's pointer is at its first trigger, the table still shows all the
-- others exactly if at most one stands before the one that is removed.
pub egg_unbind-Removed :
    (type : Bytes) (flags : Option Bytes) (mask cmd : Bytes) (tables : Tables) (table : Table)
    (front : List Trigger) (t : Trigger) (rear : List Trigger)
    → unbind_table type ≡ some table
    → (tables table).from ≡ front ++ t ∷ rear
    → Fail (unbind_test mask cmd) front
    → unbind_test mask cmd t ≡ some true
    → Gives
        (λ r.
          (r.1 ≡ t.mask)
          × (whole (r.0 table) ≡ to_front (tables table).behind (front ++ rear))
          × ((tables table).behind ≡ [] → ((r.0 table).from ≡ front ++ rear) ↔ (length front ≤ 1)))
        (egg_unbind type flags mask cmd tables)
unfolding egg_unbind
egg_unbind-Removed type flags mask cmd tables table front t rear e at f h =
    let left = step_back (to_front front (tables table).behind) rear in
    rw
      (
        egg_unbind,
        e,
        at,
        del_matching-split (unbind_test mask cmd) front (tables table).behind t rear f h,
      )
      (
        refl,
        rw (set_table_same table left tables) (
            whole-step_back (to_front front (tables table).behind) rear
            ∙ to_front-to_front front (tables table).behind rear),
        λ b. rw (set_table_same table left tables, b) (step_back-from front rear),
      )
