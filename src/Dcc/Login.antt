-- ===== src/Dcc/Login.antt =====
-- How a DCC session comes to be authenticated.
use trollbot.Prelude.{
  ◌>>=◌, Yields, Yields-step, HasValue, ℕ, ◌≡◌, refl, sym, subst, ap, Bool, true, false, List, [],
  ◌∷◌, Option, none, some, get_elem?, Bytes, codes, Bool-cases, inl, inr,
}
use trollbot.Text.{str_eq}
use trollbot.Text.Compare.{str_eq_iff}
use trollbot.User.{User}
use trollbot.Trigger.{Trigger}
use trollbot.Egg.{EggNetwork, egg_passwdok, egg_matchattr}
use trollbot.Egg.Passwd.{Admits, egg_passwdok-Admits}
use trollbot.Dcc.{
  DccSession, connected, has_username, authenticated, waiting, nonblock_connect, waiting_connect,
  not_ready, DccOutcome, one_on, find_place, with_name, named_user, dcc_command_handler, rehashed,
  save_changed, pass_checked, given_pass, placed, user_at, DccStatus, by_status, parse_dcc_line,
}

-- The place that is found is the place of a user with this name.
abbrev Placed : Bytes → List User → Option (ℕ × User) → Type 0
Placed name us = Yields (λ r. (get_elem? us r.0 ≡ some r.1) × (r.1.username ≡ name))

find_place-Placed : (name : Bytes) (us : List User) → Placed name us (find_place name us)
unfolding find_place
find_place-Placed name [] = tt
find_place-Placed name (u ∷ us) = elim (Bool-cases (str_eq u.username name)) [
  | inl e ↦ rw e (refl, (str_eq_iff u.username name).0 e)
  | inr e ↦ rw e (later (find_place name us) (find_place-Placed name us))
]
  where
    later : (r : Option (ℕ × User)) → Placed name us r → Placed name (u ∷ us) (one_on r)
    later none h = tt
    later (some r) h = h

module _ (create_hash : Option (Bytes → Bytes → Option Bytes)) (config_hash_type : Option Bytes)
    (net : EggNetwork) where
  -- What a line may make of a session that stays open.
  pub data LogsIn (s : DccSession) (line : Bytes) : DccSession → Type 0 where
    same : LogsIn s line s
    named :
        (p : ℕ) (u : User)
        → s.status ≡ connected
        → get_elem? net.users.from p ≡ some u
        → u.username ≡ line
        → egg_matchattr net line (codes "p") none ≡ some true
        → LogsIn s line (record { status = has_username; user = some p })
    admitted :
        (p : ℕ) (u : User)
        → s.status ≡ has_username
        → s.user ≡ some p
        → get_elem? net.users.from p ≡ some u
        → HasValue u.passhash
        → Admits create_hash u.username (some line) net.users.from
        → LogsIn s line (record { status = authenticated; user = some p })

  abbrev pub Opens : DccSession → Bytes → DccOutcome → Type 0
  Opens s line o = Yields (LogsIn s line) o.session

  named_user-Opens :
      (triggers : List Trigger) (s : DccSession) (line : Bytes) (r : Option (ℕ × User))
      → s.status ≡ connected
      → Placed line net.users.from r
      → Yields (Opens s line) (named_user net triggers r)
  named_user-Opens triggers s line none e h = tt
  named_user-Opens triggers s line (some r) e h =
      by_flag (egg_matchattr net r.1.username (codes "p") none)
        (ap (λ n. egg_matchattr net n (codes "p") none) (sym h.1))
    where
      by_flag :
          (m : Option Bool)
          → egg_matchattr net line (codes "p") none ≡ m
          → Yields (Opens s line) (m >>= λ allowed. some (with_name net triggers r.0 allowed))
      by_flag none f = tt
      by_flag (some true) f = named r.0 r.1 e h.0 h.1 f
      by_flag (some false) f = tt

  logged_in-Opens :
      (triggers : List Trigger) (s : DccSession) (line : Bytes) (p : ℕ) (u : User)
      → LogsIn s line (record { status = authenticated; user = some p })
      → Yields (Opens s line) (pass_checked create_hash config_hash_type net triggers p u line true)
  logged_in-Opens triggers s line p u h =
      Yields-step (Opens s line)
        (rehashed create_hash config_hash_type line u config_hash_type u.hash_type) _
        λ change.
          Yields-step (Opens s line) (save_changed create_hash config_hash_type net p change) _
            λ r. h

  given_pass-Opens :
      (triggers : List Trigger) (s : DccSession) (line : Bytes) (p : ℕ) (u : User)
      → s.status ≡ has_username
      → s.user ≡ some p
      → get_elem? net.users.from p ≡ some u
      → (hash : Option Bytes) → u.passhash ≡ hash
      → Yields (Opens s line) (given_pass create_hash config_hash_type net triggers p u line hash)
  given_pass-Opens triggers s line p u e f g none k = tt
  given_pass-Opens triggers s line p u e f g (some hash) k =
      by_pass (egg_passwdok create_hash net u.username (some line)) refl
    where
      by_pass :
          (m : Option Bool)
          → egg_passwdok create_hash net u.username (some line) ≡ m
          → Yields
              (Opens s line)
              (m >>= pass_checked create_hash config_hash_type net triggers p u line)
      by_pass none q = tt
      by_pass (some true) q = logged_in-Opens triggers s line p u (
          admitted p u e f g (subst HasValue (sym k) tt)
            ((egg_passwdok-Admits create_hash net u.username (some line)).0 q))
      by_pass (some false) q = tt

  has_username-Opens :
      (triggers : List Trigger) (s : DccSession) (line : Bytes) (at : Option ℕ)
      → s.status ≡ has_username
      → s.user ≡ at
      → Yields (Opens s line) (
          user_at create_hash config_hash_type net at >>= λ r.
          given_pass create_hash config_hash_type net triggers r.0 r.1 line r.1.passhash)
  has_username-Opens triggers s line none e f = tt
  has_username-Opens triggers s line (some p) e f = by_user (get_elem? net.users.from p) refl
    where
      by_user :
          (m : Option User)
          → get_elem? net.users.from p ≡ m
          → Yields (Opens s line) (
              (m >>= placed create_hash config_hash_type p) >>= λ r.
              given_pass create_hash config_hash_type net triggers r.0 r.1 line r.1.passhash)
      by_user none g = tt
      by_user (some u) g = given_pass-Opens triggers s line p u e f g u.passhash refl

  authenticated-Opens :
      (triggers : List Trigger) (s : DccSession) (line : Bytes)
      → Yields
          (Opens s line)
          (by_status create_hash config_hash_type net triggers s line authenticated)
  authenticated-Opens triggers s line =
      Yields-step (Opens s line) (user_at create_hash config_hash_type net s.user) _ λ r.
        Yields-step (Opens s line) (dcc_command_handler net r.1.username line triggers) _ λ c. same

  by_status-Opens :
      (triggers : List Trigger) (s : DccSession) (line : Bytes) (st : DccStatus)
      → s.status ≡ st
      → Yields (Opens s line) (by_status create_hash config_hash_type net triggers s line st)
  by_status-Opens triggers s line connected e =
      named_user-Opens triggers s line (find_place line net.users.from) e
        (find_place-Placed line net.users.from)
  by_status-Opens triggers s line has_username e = has_username-Opens triggers s line s.user e refl
  by_status-Opens triggers s line authenticated e = authenticated-Opens triggers s line
  by_status-Opens triggers s line waiting e = same
  by_status-Opens triggers s line nonblock_connect e = same
  by_status-Opens triggers s line waiting_connect e = same
  by_status-Opens triggers s line not_ready e = same

  -- A line that makes no fault closes the session, leaves it as it is, or moves it on in one of two
  -- ways: from connected to having a user name, where the line is the name of a user whom
  -- `egg_matchattr` gives the flag `p`, and from there to authenticated, where the user of the
  -- session has a password and `egg_passwdok` admits the line for his name.
  pub parse_dcc_line-Opens :
      (triggers : List Trigger) (s : DccSession) (line : Bytes)
      → Yields (Opens s line) (parse_dcc_line create_hash config_hash_type net triggers s line)
  unfolding parse_dcc_line
  parse_dcc_line-Opens triggers s line = by_status-Opens triggers s line s.status refl
