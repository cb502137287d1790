-- ===== src/Egg/Handles.antt =====
-- `egg_chhandle` on users whose names differ.
use trollbot.Prelude.{
  ◌≡◌, ◌∙◌, ap, sym, Bool, true, false, not, ◌&&◌, ◌||◌, List, [], ◌∷◌, some, arith, Bytes,
  Bool-cases, inl, inr,
}
use trollbot.Text.{str_eq}
use trollbot.Text.Compare.{str_eq_iff}
use trollbot.User.{User}
use trollbot.Egg.{EggNetwork, has_handle, egg_validuser, rename_last, egg_chhandle}

-- The names of the users differ.
abbrev pub DistinctHandles : List User → Type 0
DistinctHandles [] = Unit
DistinctHandles (u ∷ us) = (has_handle u.username us ≡ false) × DistinctHandles us

abbrev pub renamed : (old new h : Bytes) → Bool → Bool
renamed old new h was = str_eq h new || (not (str_eq h old) && was)

-- Two texts that have different handles in the list are not the same.
apart_of_has :
    (a b h : Bytes) (us : List User)
    → has_handle a us ≡ false
    → has_handle b us ≡ true
    → (str_eq h a && str_eq h b) ≡ false
apart_of_has a b h us m t = ground (arith, str_eq_iff h a, str_eq_iff h b)

kept_behind :
    (x n o w : Bool) → (x && o) ≡ false → (x || (n || (not o && w))) ≡ (n || (not o && (x || w)))
kept_behind x n o w h = ground arith

replaced : (x n o w : Bool) → x ≡ o → (o && w) ≡ false → (n || w) ≡ (n || (not o && (x || w)))
replaced x n o w h k = ground arith

missed_same :
    (a h : Bytes) (us : List User)
    → has_handle a us ≡ false
    → (str_eq h a && has_handle h us) ≡ false
missed_same a h us m = ground (arith, str_eq_iff h a)

module _ (old new : Bytes) where
  rename_last-has :
      (us : List User)
      → DistinctHandles us
      → has_handle old us ≡ true
      → has_handle new us ≡ false
      → (h : Bytes) → has_handle h (rename_last old new us) ≡ renamed old new h (has_handle h us)
  unfolding has_handle rename_last
  rename_last-has [] d o n h = absurd (ground arith)
  rename_last-has (u ∷ us) d o n h = elim (Bool-cases (has_handle old us)) [
    | inl e ↦
        let later : has_handle new us ≡ false = ground arith in
        rw (e, rename_last-has us d.1 e later h)
          (kept_behind (str_eq h u.username) (str_eq h new) (str_eq h old) (has_handle h us)
            (apart_of_has u.username old h us d.0 e))
    | inr e ↦
        let here : str_eq old u.username ≡ true = ground arith in
        rw (e, here)
          (replaced (str_eq h u.username) (str_eq h new) (str_eq h old) (has_handle h us)
            (ap (str_eq h) (sym ((str_eq_iff old u.username).0 here))) (missed_same old h us e))
  ]

  rename_last-Distinct :
      (us : List User)
      → DistinctHandles us
      → has_handle old us ≡ true
      → has_handle new us ≡ false
      → DistinctHandles (rename_last old new us)
  unfolding has_handle rename_last
  rename_last-Distinct [] d o n = tt
  rename_last-Distinct (u ∷ us) d o n = elim (Bool-cases (has_handle old us)) [
    | inl e ↦
        let later : has_handle new us ≡ false = ground arith in
        rw e (
          rename_last-has us d.1 e later u.username
              ∙ ground (arith, d.0, n, str_eq_iff u.username new, str_eq_iff new u.username),
          rename_last-Distinct us d.1 e later,
        )
    | inr e ↦
        let here : str_eq old u.username ≡ true = ground arith in
        let later : has_handle new us ≡ false = ground arith in rw (e, here) (later, d.1)
  ]

chhandle_made :
    (net : EggNetwork) (old new : Bytes)
    → (egg_chhandle net (some old) (some new)).1 ≡ true
    → (has_handle new net.users.from ≡ false) × (has_handle old net.users.from ≡ true)
unfolding egg_chhandle
chhandle_made net old new r = ground arith

-- Where the names of the users in the list differ and `egg_chhandle` returns 1, they differ
-- afterwards too, and a handle is valid exactly if it is the new one, or was valid and is not the
-- old one.
pub egg_chhandle-validuser :
    (net : EggNetwork) (old new : Bytes)
    → DistinctHandles net.users.from
    → (egg_chhandle net (some old) (some new)).1 ≡ true
    → DistinctHandles (egg_chhandle net (some old) (some new)).0.users.from
      × ((h : Bytes)
          → egg_validuser (egg_chhandle net (some old) (some new)).0 h
            ≡ renamed old new h (egg_validuser net h))
unfolding egg_chhandle egg_validuser
egg_chhandle-validuser net old new d r =
    let m = chhandle_made net old new r in
    rw (m.0, m.1)
      (
        rename_last-Distinct old new net.users.from d m.1 m.0,
        rename_last-has old new net.users.from d m.1 m.0,
      )
