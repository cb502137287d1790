-- ===== src/User/Load.antt =====
-- What `user_init` reads of the tree that `users_to_tconfig` makes.
use trollbot.Prelude.{
  arith, ◌≡◌, ◌⊎◌, inl, inr, ◌&&◌, refl, ap, sym, List, [], ◌∷◌, ◌++◌, map, append_assoc,
  append-nil, Option, none, some, Bool, true, false, if◌then◌else◌, HasValue, All, Bytes, codes,
}
use trollbot.Text.{str_eq}
use trollbot.Tconfig.{Label, Blocks, null}
use trollbot.User.{
  User, new_user, put_entry, user_entries, has_no_entry, is_null, user_block, users_to_tconfig,
  set_entry, set_entries, new_user_from_tconfig_block, link_users,
}
use trollbot.User.Entries.{put_all, fields, user_entries-put_all}

-- A user as the file keeps him: without his real name and his channel flags.
unfoldable pub stored : User → User
stored u = record u { realname = none; chan_flags = [] }

abbrev set_field : Bytes × Option Bytes → User → User
set_field (key, none) u = u
set_field (key, some v) u = set_entry key v u

abbrev set_fields : List (Bytes × Option Bytes) → User → User
set_fields [] u = u
set_fields (e ∷ es) u = set_fields es (set_field e u)

set_entries-put_all :
    (es : List (Bytes × Option Bytes)) (u : User)
    → set_entries (put_all es) u ≡ some (set_fields es u)
unfolding set_entries put_all put_entry
set_entries-put_all [] u = refl
set_entries-put_all ((key, none) ∷ es) u = set_entries-put_all es u
set_entries-put_all ((key, some v) ∷ es) u = set_entries-put_all es (set_entry key v u)

-- A user without a real name and channel flags.
abbrev with_fields : (name : Bytes) (n i h c x p t f : Option Bytes) → User
with_fields name n i h c x p t f = record {
  username = name;
  nick = n;
  passhash = p;
  hash_type = t;
  ident = i;
  realname = none;
  host = h;
  uhost = x;
  console = c;
  flags = f;
  chan_flags = [];
}

-- Each entry goes into its field, which is NULL before.
set_field-nick :
    (name : Bytes) (i h c x p t f v : Option Bytes)
    → set_field (codes "nick", v) (with_fields name none i h c x p t f)
      ≡ with_fields name v i h c x p t f
unfolding set_entry str_eq
set_field-nick name i h c x p t f none = refl
set_field-nick name i h c x p t f (some v) = refl

set_field-ident :
    (name : Bytes) (n h c x p t f v : Option Bytes)
    → set_field (codes "ident", v) (with_fields name n none h c x p t f)
      ≡ with_fields name n v h c x p t f
unfolding set_entry str_eq
set_field-ident name n h c x p t f none = refl
set_field-ident name n h c x p t f (some v) = refl

set_field-host :
    (name : Bytes) (n i c x p t f v : Option Bytes)
    → set_field (codes "host", v) (with_fields name n i none c x p t f)
      ≡ with_fields name n i v c x p t f
unfolding set_entry str_eq
set_field-host name n i c x p t f none = refl
set_field-host name n i c x p t f (some v) = refl

set_field-console :
    (name : Bytes) (n i h x p t f v : Option Bytes)
    → set_field (codes "console", v) (with_fields name n i h none x p t f)
      ≡ with_fields name n i h v x p t f
unfolding set_entry str_eq
set_field-console name n i h x p t f none = refl
set_field-console name n i h x p t f (some v) = refl

set_field-uhost :
    (name : Bytes) (n i h c p t f v : Option Bytes)
    → set_field (codes "uhost", v) (with_fields name n i h c none p t f)
      ≡ with_fields name n i h c v p t f
unfolding set_entry str_eq
set_field-uhost name n i h c p t f none = refl
set_field-uhost name n i h c p t f (some v) = refl

set_field-passhash :
    (name : Bytes) (n i h c x t f v : Option Bytes)
    → set_field (codes "passhash", v) (with_fields name n i h c x none t f)
      ≡ with_fields name n i h c x v t f
unfolding set_entry str_eq
set_field-passhash name n i h c x t f none = refl
set_field-passhash name n i h c x t f (some v) = refl

set_field-hash_type :
    (name : Bytes) (n i h c x p f v : Option Bytes)
    → set_field (codes "hash_type", v) (with_fields name n i h c x p none f)
      ≡ with_fields name n i h c x p v f
unfolding set_entry str_eq
set_field-hash_type name n i h c x p f none = refl
set_field-hash_type name n i h c x p f (some v) = refl

set_field-flags :
    (name : Bytes) (n i h c x p t v : Option Bytes)
    → set_field (codes "flags", v) (with_fields name n i h c x p t none)
      ≡ with_fields name n i h c x p t v
unfolding set_entry str_eq
set_field-flags name n i h c x p t none = refl
set_field-flags name n i h c x p t (some v) = refl

set_fields-stored :
    (u : User)
    → set_fields (fields u) (new_user u.username none none none none none none) ≡ stored u
unfolding new_user stored
set_fields-stored u = rw (
  set_field-nick, set_field-ident, set_field-host, set_field-console, set_field-uhost,
  set_field-passhash, set_field-hash_type, set_field-flags,
)

-- What comes back of a user. One whose fields are all NULL but the console and those that are
-- never saved has no entries at all: the name comes back alone.
unfoldable pub restored : User → User
unfolding has_no_entry new_user stored
restored u = if has_no_entry u then new_user u.username none none none none none none else stored u

-- A user is saved in a way that can be loaded: with flags, or without entries.
abbrev pub IsLoadable : User → Type 0
IsLoadable u = (has_no_entry u ≡ true) ⊎ HasValue u.flags

abbrev child_of : User → Blocks
child_of u = if has_no_entry u then null else user_entries u

abbrev label_of : User → Label
label_of u = some (codes "user", u.username)

no_entry-flags :
    (a b c d e f : Bool) (v : Option Bytes)
    → HasValue v
    → (a && b && c && d && e && f && is_null v) ≡ false
no_entry-flags a b c d e f none h = absurd h
no_entry-flags a b c d e f (some v) h = ground arith

pub has_no_entry-flags : (u : User) → HasValue u.flags → has_no_entry u ≡ false
unfolding has_no_entry
has_no_entry-flags u h =
    no_entry-flags (is_null u.nick) (is_null u.ident) (is_null u.host) (is_null u.uhost)
      (is_null u.passhash) (is_null u.hash_type) u.flags h

new_user-restored :
    (u : User)
    → IsLoadable u
    → new_user_from_tconfig_block (label_of u) (child_of u) ≡ some (some (restored u))
unfolding new_user_from_tconfig_block str_eq set_entries restored
new_user-restored u (inl e) = rw e
new_user-restored u (inr h) = rw (
  has_no_entry-flags u h,
  user_entries-put_all u h,
  set_entries-put_all (fields u) (new_user u.username none none none none none none),
  set_fields-stored u,
)

-- What `users_to_tconfig` makes of users who have flags or no saved field at all, `user_init` adds
-- to the users of the network in the same order: each as he was, without real name and channel
-- flags, and one without a saved field also without his console.
pub link_users-users_to_tconfig :
    (us ls : List User)
    → All IsLoadable us
    → link_users (users_to_tconfig us) ls ≡ some (ls ++ map restored us)
unfolding link_users users_to_tconfig user_block
link_users-users_to_tconfig [] ls h = ap some (sym (append-nil ls))
link_users-users_to_tconfig (u ∷ us) ls h = rw (
  new_user-restored u h.0,
  link_users-users_to_tconfig us (ls ++ (restored u ∷ [])) h.1,
  append_assoc,
)
