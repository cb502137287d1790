-- ===== src/Egg/Passwd.antt =====
-- When `egg_passwdok` accepts a password.
use trollbot.Prelude.{
  ◌≡◌, ◌↔◌, refl, ap, sym, subst, Bool, true, false, List, [], ◌∷◌, Option, none, some, HasValue,
  arith, Bytes, Bool-cases, inl, inr,
}
use trollbot.Text.{str_eq}
use trollbot.Text.Compare.{str_eq_iff}
use trollbot.Channel.{find_first}
use trollbot.User.{User}
use trollbot.Egg.{
  EggNetwork, asks_only, has_text, same_hash, egg_makepasswd, check_hash, check_pass, pass_ok,
  egg_passwdok,
}

module _ (create_hash : Option (Bytes → Bytes → Option Bytes)) where
  -- Why a password is accepted: it only asks whether there is one, or it has the stored hash.
  pub data Accepted (hash_type passhash : Option Bytes) : Option Bytes → Type 0 where
    present :
        {pass : Option Bytes}
        → asks_only pass ≡ true
        → HasValue passhash
        → Accepted hash_type passhash pass
    hashed :
        {pass kind hash : Bytes}
        → asks_only (some pass) ≡ false
        → hash_type ≡ some kind
        → passhash ≡ some hash
        → egg_makepasswd create_hash pass kind ≡ some hash
        → Accepted hash_type passhash (some pass)

  is_some_iff :
      (v : Option Bytes) → (Path (Option Bool) (some (has_text v)) (some true)) ↔ HasValue v
  is_some_iff none = ((λ e. cc), (λ h. absurd h))
  is_some_iff (some v) = ((λ e. tt), (λ h. refl))

  asks_null : asks_only none ≡ true
  unfolding asks_only
  asks_null = refl

  same_hash-Equal :
      (p h : Option Bytes) → same_hash p h ≡ some true → (w : Bytes) × (p ≡ some w) × (h ≡ some w)
  same_hash-Equal p none e = cc
  same_hash-Equal none (some h) e = cc
  same_hash-Equal (some p) (some h) e = (p, refl, ap some (sym ((str_eq_iff p h).0 (ground arith))))

  same_hash_refl : (w : Bytes) → same_hash (some w) (some w) ≡ some true
  same_hash_refl w = rw ((str_eq_iff w w).1 refl)

  check_hash-Accepted :
      (pass : Bytes) (t p : Option Bytes)
      → asks_only (some pass) ≡ false
      → check_hash create_hash pass t p ≡ some true
      → Accepted t p (some pass)
  check_hash-Accepted pass none p a e = cc
  check_hash-Accepted pass (some kind) p a e =
      let s = same_hash-Equal p (egg_makepasswd create_hash pass kind) e in hashed a refl s.1 s.2

  check_pass-Accepted :
      (pass t p : Option Bytes) → check_pass create_hash pass t p ≡ some true → Accepted t p pass
  check_pass-Accepted none t p e = present asks_null ((is_some_iff p).0 e)
  check_pass-Accepted (some pass) t p e = elim (Bool-cases (asks_only (some pass))) [
    | inl a ↦ present a ((is_some_iff p).0 (rw a at e))
    | inr a ↦ check_hash-Accepted pass t p a (rw a at e)
  ]

  Accepted-check_pass :
      (pass t p : Option Bytes) → Accepted t p pass → check_pass create_hash pass t p ≡ some true
  Accepted-check_pass none t p (present a h) = (is_some_iff p).1 h
  Accepted-check_pass (some pass) t p (present a h) = rw a ((is_some_iff p).1 h)
  Accepted-check_pass (some pass) t p (hashed {hash = w} a e f g) =
      rw (a, e, f, g) (same_hash_refl w)

  -- The first user with that handle.
  abbrev pub user_of : Bytes → List User → Option User
  user_of handle us = find_first (λ u. str_eq handle u.username) us

  abbrev pub Admits : (handle : Bytes) (pass : Option Bytes) → List User → Type 0
  Admits handle pass us =
      (u : User) × (user_of handle us ≡ some u) × Accepted u.hash_type u.passhash pass

  pass_ok-Admits :
      (handle : Bytes) (pass : Option Bytes) (us : List User)
      → (pass_ok create_hash handle pass us ≡ some true) ↔ Admits handle pass us
  unfolding pass_ok find_first
  pass_ok-Admits handle pass [] = ((λ e. cc), (λ a. cc))
  pass_ok-Admits handle pass (u ∷ us) = elim (Bool-cases (str_eq handle u.username)) [
    | inl h ↦ rw h (
      (λ e. (u, refl, check_pass-Accepted pass u.hash_type u.passhash e)),
      (λ a.
          let same : u ≡ a.0 = cc in
          subst (λ x. check_pass create_hash pass x.hash_type x.passhash ≡ some true) (sym same)
            (Accepted-check_pass pass a.0.hash_type a.0.passhash a.2)),
    )
    | inr m ↦ rw m (pass_ok-Admits handle pass us)
  ]

  -- `egg_passwdok` accepts a password exactly if there is a user of that handle and, for the first
  -- one in the list, either the password is NULL, empty or `-` and he has some password, or else
  -- he has a kind of hash and the crypto module makes his stored hash of the password.
  pub egg_passwdok-Admits :
      (net : EggNetwork) (handle : Bytes) (pass : Option Bytes)
      → (egg_passwdok create_hash net handle pass ≡ some true) ↔ Admits handle pass net.users.from
  unfolding egg_passwdok
  egg_passwdok-Admits net handle pass = pass_ok-Admits handle pass net.users.from
