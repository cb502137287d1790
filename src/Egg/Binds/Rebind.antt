-- ===== src/Egg/Binds/Rebind.antt =====
-- `egg_bind` of the types that hold one trigger for a mask, `pub` and `msg`.
use trollbot.Prelude.{
  ◌>>=◌, Gives, Gives-bind, HasValue, ℕ, ◌≤◌, ◌≡◌, ◌↔◌, refl, sym, ap, subst, Bool, true, false,
  List, [], ◌∷◌, ◌++◌, Option, none, some, All, All-append, length, arith, Bytes,
}
use trollbot.Text.Compare.{tstrcasecmp_iff}
use trollbot.Channel.{same_text}
use trollbot.Linked.{Linked, linked, to_front, step_back}
use trollbot.Linked.Moves.{append_linked-from, step_back-from}
use trollbot.Trigger.{Trigger, new_trigger}
use trollbot.Egg.Binds.{
  Table, pub_, msg, Tables, bind_table, mask_test, bound, bind_alone, bind_in, egg_bind, BindResult,
}
use trollbot.Egg.Binds.Found.{Fail, del_matching-split, del_matching-none, set_table_same}

-- A trigger whose mask is not this one.
abbrev Apart : Option Bytes → Trigger → Type 0
Apart none t = ⊥
Apart (some m) t = mask_test m t ≡ some false

-- Triggers with masks that differ, up to case.
abbrev pub DistinctMasks : List Trigger → Type 0
DistinctMasks [] = Unit
DistinctMasks (t ∷ ts) = HasValue t.mask × All (Apart t.mask) ts × DistinctMasks ts

same_text_trans :
    (a b c : Bytes) → same_text a b ≡ false → same_text b c ≡ true → same_text a c ≡ false
same_text_trans a b c h k =
    ground (arith, tstrcasecmp_iff a b, tstrcasecmp_iff b c, tstrcasecmp_iff a c)

same_text_sym : (a b : Bytes) → same_text a b ≡ false → same_text b a ≡ false
same_text_sym a b h = ground (arith, tstrcasecmp_iff a b, tstrcasecmp_iff b a)

-- What `mask_test` and `Apart` ask of a mask.
abbrev mask_is : Bytes → Option Bytes → Option Bool
mask_is m w = w >>= λ x. some (same_text x m)

differs :
    (m mask : Bytes) (w : Option Bytes)
    → mask_is m w ≡ some false
    → same_text m mask ≡ true
    → mask_is mask w ≡ some false
differs m mask none h k = cc
differs m mask (some x) h k = ap some (same_text_trans x m mask (ground arith) k)

Apart-from :
    (mask : Bytes) (v : Option Bytes) (u : Trigger)
    → mask_is mask v ≡ some true
    → Apart v u
    → mask_test mask u ≡ some false
Apart-from mask none u h a = absurd a
Apart-from mask (some m) u h a = differs m mask u.mask a (ground arith)

module _ (mask : Bytes) where
  rear-Fail :
      (t : Trigger) (ts : List Trigger)
      → mask_test mask t ≡ some true
      → All (Apart t.mask) ts
      → Fail (mask_test mask) ts
  rear-Fail t [] h a = tt
  rear-Fail t (u ∷ ts) h a = (Apart-from mask t.mask u h a.0, rear-Fail t ts h a.1)

  -- Either no trigger has the mask, or there is a first one.
  data Search : List Trigger → Type 0 where
    nowhere : {ts : List Trigger} → Fail (mask_test mask) ts → Search ts
    at :
        (front : List Trigger) (t : Trigger) (rear : List Trigger)
        → Fail (mask_test mask) front
        → mask_test mask t ≡ some true
        → Search (front ++ t ∷ rear)

  mask_is-decided : (v : Option Bytes) → HasValue v → (b : Bool) × (mask_is mask v ≡ some b)
  mask_is-decided none h = absurd h
  mask_is-decided (some w) h = (same_text w mask, refl)

  seek_mask-cons :
      (t : Trigger) {ts : List Trigger}
      → (b : Bool) × (mask_test mask t ≡ some b)
      → Search ts
      → Search (t ∷ ts)
  seek_mask-cons t {ts} (true, e) s = at [] t ts tt e
  seek_mask-cons t (false, e) (nowhere f) = nowhere (e, f)
  seek_mask-cons t (false, e) (at front u rear f h) = at (t ∷ front) u rear (e, f) h

  seek_mask : (ts : List Trigger) → DistinctMasks ts → Search ts
  seek_mask [] d = nowhere tt
  seek_mask (t ∷ ts) d = seek_mask-cons t (mask_is-decided t.mask d.0) (seek_mask ts d.2)

  -- What the pointer reads when a trigger behind others is deleted.
  kept-Good :
      (b : Trigger) (front bs : List Trigger) (t : Trigger) (rear : List Trigger)
      → Fail (mask_test mask) (b ∷ front)
      → Fail (mask_test mask) rear
      → DistinctMasks (b ∷ (front ++ t ∷ rear))
      → Fail (mask_test mask) (step_back (to_front front (b ∷ bs)) rear).from
        × DistinctMasks (step_back (to_front front (b ∷ bs)) rear).from
  unfolding to_front
  kept-Good b [] bs t rear f r d = ((f.0, r), (d.0, d.1.1, d.2.2))
  kept-Good b (y ∷ front) bs t rear f r d = kept-Good y front (b ∷ bs) t rear f.1 r d.2

  Distinct-rear :
      (front : List Trigger) (t : Trigger) (rear : List Trigger)
      → DistinctMasks (front ++ t ∷ rear)
      → All (Apart t.mask) rear × DistinctMasks rear
  Distinct-rear [] t rear d = (d.1, d.2)
  Distinct-rear (x ∷ front) t rear d = Distinct-rear front t rear d.2

  less-Good :
      (front : List Trigger) (t : Trigger) (rear : List Trigger)
      → Fail (mask_test mask) front
      → mask_test mask t ≡ some true
      → DistinctMasks (front ++ t ∷ rear)
      → Fail (mask_test mask) (step_back (to_front front []) rear).from
        × DistinctMasks (step_back (to_front front []) rear).from
  unfolding to_front
  less-Good [] t rear f h d = (rear-Fail t rear h d.1, d.2)
  less-Good (x ∷ front) t rear f h d =
      kept-Good x front [] t rear f (rear-Fail t rear h (Distinct-rear (x ∷ front) t rear d).0) d

  -- A new trigger behind the others.
  new-Apart :
      (cmd : Bytes) (handler : ℕ) (v : Option Bytes)
      → HasValue v
      → mask_is mask v ≡ some false
      → Apart v (bound mask cmd handler)
  unfolding new_trigger
  new-Apart cmd handler none h f = absurd h
  new-Apart cmd handler (some m) h f = ap some (same_text_sym m mask (ground arith))

  new-Distinct :
      (cmd : Bytes) (handler : ℕ) (ts : List Trigger)
      → Fail (mask_test mask) ts
      → DistinctMasks ts
      → DistinctMasks (ts ++ bound mask cmd handler ∷ [])
  new-Distinct cmd handler [] f d = (unfold new_trigger in tt, tt, tt)
  new-Distinct cmd handler (t ∷ ts) f d = (
    d.0,
    All-append (Apart t.mask) ts (bound mask cmd handler ∷ []) d.1
        (new-Apart cmd handler t.mask d.0 f.0, tt),
    new-Distinct cmd handler ts f.1 d.2,
  )

-- What a bind leaves of the triggers: all, where none has the mask; else the first that has it
-- goes, and with it those from which the pointer has moved away, which are there exactly if two or
-- more stand before it.
pub data Keeps (mask : Bytes) : (old kept : List Trigger) → Type 0 where
  all : {ts : List Trigger} → Fail (mask_test mask) ts → Keeps mask ts ts
  replaces :
      {kept : List Trigger} (front : List Trigger) (t : Trigger) (rear : List Trigger)
      → mask_test mask t ≡ some true
      → (kept ≡ front ++ rear) ↔ (length front ≤ 1)
      → Keeps mask (front ++ t ∷ rear) kept

abbrev pub Rebound : (mask cmd : Bytes) → ℕ → List Trigger → Linked Trigger → Type 0
Rebound mask cmd handler ts l =
    (kept : List Trigger) × (l.from ≡ kept ++ bound mask cmd handler ∷ [])
    × Keeps mask ts kept
    × Fail (mask_test mask) kept
    × DistinctMasks l.from

bind_alone-Rebound :
    (mask cmd : Bytes) (handler : ℕ) (ts : List Trigger)
    → DistinctMasks ts
    → Search mask ts
    → Gives (Rebound mask cmd handler ts) (bind_alone mask cmd handler (linked [] ts))
unfolding bind_alone
bind_alone-Rebound mask cmd handler ts d (nowhere f) =
    let new = bound mask cmd handler in
    let longer = append_linked-from (linked [] ts) new in
    rw (bind_alone, del_matching-none (mask_test mask) ts [] f)
      (
        ts,
        longer,
        all f,
        f,
        subst DistinctMasks (sym longer) (new-Distinct mask cmd handler ts f d),
      )
bind_alone-Rebound mask cmd handler _ d (at front t rear f h) =
    let new = bound mask cmd handler in
    let left = step_back (to_front front []) rear in
    let good = less-Good mask front t rear f h d in
    let longer = append_linked-from left new in
    rw (bind_alone, del_matching-split (mask_test mask) front [] t rear f h)
      (
        left.from,
        longer,
        replaces front t rear h (step_back-from front rear),
        good.0,
        subst DistinctMasks (sym longer) (new-Distinct mask cmd handler left.from good.0 good.1),
      )

-- A type of which a mask has one trigger.
pub data IsAlone : Table → Type 0 where
  is_pub : IsAlone pub_
  is_msg : IsAlone msg

abbrev pub Bound : Table → (mask cmd : Bytes) → ℕ → List Trigger → BindResult → Type 0
Bound table mask cmd handler ts r =
    (r.1 ≡ some (cmd ∷ [])) × Rebound mask cmd handler ts (r.0 table)

bind_in-Bound :
    (table : Table) (mask cmd : Bytes) (handler : ℕ) (tables : Tables) (ts : List Trigger)
    → IsAlone table
    → tables table ≡ linked [] ts
    → DistinctMasks ts
    → Gives (Bound table mask cmd handler ts) (bind_in table mask cmd handler tables)
bind_in-Bound _ mask cmd handler tables ts is_pub e d =
    Gives-bind (Rebound mask cmd handler ts) _ (bind_alone mask cmd handler (tables pub_)) _
      (rw e (bind_alone-Rebound mask cmd handler ts d (seek_mask mask ts d)))
      λ l r. (refl, rw (set_table_same pub_ l tables) r)
bind_in-Bound _ mask cmd handler tables ts is_msg e d =
    Gives-bind (Rebound mask cmd handler ts) _ (bind_alone mask cmd handler (tables msg)) _
      (rw e (bind_alone-Rebound mask cmd handler ts d (seek_mask mask ts d)))
      λ l r. (refl, rw (set_table_same msg l tables) r)

-- In a table of PUB or MSG triggers whose masks differ, up to case, and whose pointer is at its
-- first trigger, `egg_bind` puts the new trigger behind others that do not have its mask, so that
-- the masks still differ. These are all the triggers if none had the mask; if one had it, they are
-- the others exactly if at most one stood before it.
pub egg_bind-Bound :
    (type : Bytes) (flags : Option Bytes) (mask cmd : Bytes) (handler : ℕ) (tables : Tables)
    (table : Table) (ts : List Trigger)
    → bind_table type ≡ some table
    → IsAlone table
    → tables table ≡ linked [] ts
    → DistinctMasks ts
    → Gives (Bound table mask cmd handler ts) (egg_bind type flags mask cmd (some handler) tables)
unfolding egg_bind
egg_bind-Bound type flags mask cmd handler tables table ts e a h d =
    rw (egg_bind, e) (bind_in-Bound table mask cmd handler tables ts a h d)
