-- ===== src/Dcc/Complete.antt =====
-- A user who gives the name and the password is logged in.
use trollbot.Prelude.{
  ℕ, zero, suc, ◌≡◌, refl, sym, subst, ap, ◌∙◌, true, false, List, [], ◌∷◌, Option, none, some,
  get_elem?, Bytes, codes, Bool-cases, inl, inr, arith,
}
use trollbot.Text.{str_eq}
use trollbot.Text.Compare.{str_eq_iff}
use trollbot.Channel.{find_first}
use trollbot.User.{User}
use trollbot.Trigger.{Trigger}
use trollbot.Egg.{EggNetwork, egg_passwdok, egg_matchattr}
use trollbot.Egg.Passwd.{Accepted, user_of, egg_passwdok-Admits}
use trollbot.Dcc.{
  connected, has_username, DccSession, sends_only, find_place, one_on, logged_in, parse_dcc_line,
}

-- The user that is found by the name is the first of his name, at the place that is found.
abbrev IsFirstOf : Bytes → List User → ℕ → User → Type 0
IsFirstOf name us p u =
    (get_elem? us p ≡ some u)
    × (u.username ≡ name)
    × (find_first (λ v. str_eq name v.username) us ≡ some u)

one_on-suc :
    (r : Option (ℕ × User)) (p : ℕ) (u : User)
    → one_on r ≡ some (p, u)
    → (q : ℕ) × (r ≡ some (q, u)) × (p ≡ suc q)
one_on-suc none p u e = cc
one_on-suc (some (q, v)) p u e = (q, cc, cc)

find_place-IsFirstOf :
    (name : Bytes) (us : List User) (p : ℕ) (u : User)
    → find_place name us ≡ some (p, u)
    → IsFirstOf name us p u
unfolding find_place find_first
find_place-IsFirstOf name [] p u e = cc
find_place-IsFirstOf name (v ∷ us) p u e = elim (Bool-cases (str_eq v.username name)) [
  | inl h ↦
      let f : Path (Option (ℕ × User)) (some (zero, v)) (some (p, u)) = rw h at e in
      here p u ((str_eq_iff v.username name).0 h) f
  | inr m ↦
      let f : one_on (find_place name us) ≡ some (p, u) = rw m at e in
      let (q, found, at) = one_on-suc (find_place name us) p u f in
      later p u q m at (find_place-IsFirstOf name us q u found)
]
  where
    here :
        (p : ℕ) (u : User)
        → v.username ≡ name
        → Path (Option (ℕ × User)) (some (zero, v)) (some (p, u))
        → IsFirstOf name (v ∷ us) p u
    here p u n f =
        let at : zero ≡ p = cc in
        let same : v ≡ u = cc in
        subst (λ p. IsFirstOf name (v ∷ us) p u) at
          (subst (IsFirstOf name (v ∷ us) zero) same
            (refl, n, rw ((str_eq_iff name v.username).1 (sym n))))

    later :
        (p : ℕ) (u : User) (q : ℕ)
        → str_eq v.username name ≡ false
        → p ≡ suc q
        → IsFirstOf name us q u
        → IsFirstOf name (v ∷ us) p u
    later p u q m at h =
        let miss : str_eq name v.username ≡ false =
          ground (arith, str_eq_iff name v.username, str_eq_iff v.username name) in
        subst (λ p. IsFirstOf name (v ∷ us) p u) (sym at) (h.0, h.1, rw miss h.2)

module _ (create_hash : Option (Bytes → Bytes → Option Bytes)) (kind : Bytes) (net : EggNetwork)
    (triggers : List Trigger) where
  abbrev pub prompt : ℕ → DccSession
  prompt p = record { status = has_username; user = some p }

  -- A password that is accepted.
  pub parse_dcc_line-Accepted :
      (p : ℕ) (u : User) (hash line : Bytes)
      → get_elem? net.users.from p ≡ some u
      → user_of create_hash u.username net.users.from ≡ some u
      → u.passhash ≡ some hash
      → u.hash_type ≡ some kind
      → Accepted create_hash u.hash_type u.passhash (some line)
      → parse_dcc_line create_hash (some kind) net triggers (prompt p) line
        ≡ some (logged_in create_hash (some kind) triggers p (net, []))
  unfolding parse_dcc_line
  parse_dcc_line-Accepted p u hash line at first has of_kind accepted =
      let ok : egg_passwdok create_hash net u.username (some line) ≡ some true =
        (egg_passwdok-Admits create_hash net u.username (some line)).1 (u, first, accepted) in
      rw (at, has, ok, of_kind, (str_eq_iff kind kind).1 refl)

  -- The name of a user whom `egg_matchattr` gives the flag `p`, and then a password that
  -- `egg_passwdok` accepts for the first user with that name, log in: the first line asks for the
  -- password, the second one authenticates the session as that user, where his kind of hash is the
  -- configured one.
  pub parse_dcc_line_twice :
      (p : ℕ) (u : User) (name hash pass : Bytes)
      → find_place name net.users.from ≡ some (p, u)
      → egg_matchattr net name (codes "p") none ≡ some true
      → u.passhash ≡ some hash
      → u.hash_type ≡ some kind
      → Accepted create_hash u.hash_type u.passhash (some pass)
      → (parse_dcc_line create_hash
            (some kind)
            net
            triggers
            (record { status = connected; user = none })
            name
          ≡ some (
              sends_only (some (prompt p)) net triggers (codes "Please enter your password." ∷ [])))
        × (parse_dcc_line create_hash (some kind) net triggers (prompt p) pass
            ≡ some (logged_in create_hash (some kind) triggers p (net, [])))
  unfolding parse_dcc_line
  parse_dcc_line_twice p u name hash pass found flag has of_kind accepted =
      let (at, called, first) = find_place-IsFirstOf name net.users.from p u found in
      let allowed : egg_matchattr net u.username (codes "p") none ≡ some true =
        ap (λ n. egg_matchattr net n (codes "p") none) called ∙ flag in
      let first_of : user_of create_hash u.username net.users.from ≡ some u =
        subst (λ n. find_first (λ v. str_eq n v.username) net.users.from ≡ some u) (sym called)
          first in
      (rw (found, allowed), parse_dcc_line-Accepted p u hash pass at first_of has of_kind accepted)
