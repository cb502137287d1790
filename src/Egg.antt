-- ===== src/Egg.antt =====
-- The users of a network as the eggdrop library, src/egg_lib.c, sees and changes them:
-- `egg_countusers`, `egg_validuser`, `egg_finduser`, `egg_passwdok`, `egg_chhandle`,
-- `egg_matchattr`, `egg_adduser` and `egg_deluser`, with the finders of src/network.c. `none` is a
-- fault.
pub mod Users
pub mod Handles
pub mod Passwd
pub mod Adduser
pub mod Binds
pub mod Ops
use trollbot.Prelude.{
  ◌>>=◌, ℕ, zero, suc, ◌+◌, Bool, true, false, ◌&&◌, ◌||◌, not, List, [], ◌∷◌, ◌++◌, Option, none,
  some, ◌==◌, if◌then◌else◌, length, Bytes,
}
use trollbot.Text.{str_eq, has_byte}
use trollbot.Wildcard.{troll_matchwilds}
use trollbot.Linked.{Linked, linked, whole, append_linked, del_found}
use trollbot.User.{User, UserNetwork, Written, new_user, users_save}
use trollbot.Channel.{Channel, ChannelUser, same_text, find_first, channel_channel_user_find}

-- What these functions use of a `struct network`.
pub record EggNetwork : Type 0 where
  pub label : Bytes
  pub userfile : Option Bytes
  pub default_flags : Option Bytes
  pub users : Linked User
  pub chans : List Channel

abbrev pub is_user : Bytes → User → Bool
is_user username u = same_text u.username username

-- `network_user_find_by_username`
unfoldable pub network_user_find_by_username : List User → Bytes → Option User
unfolding find_first
network_user_find_by_username users username = find_first (is_user username) users

-- `egg_countusers`
unfoldable pub egg_countusers : EggNetwork → ℕ
egg_countusers net = length net.users.from

unfoldable pub has_handle : Bytes → List User → Bool
unfolding str_eq
has_handle handle [] = false
has_handle handle (u ∷ us) = str_eq handle u.username || has_handle handle us

-- `egg_validuser`
unfoldable pub egg_validuser : EggNetwork → Bytes → Bool
unfolding has_handle
egg_validuser net handle = has_handle handle net.users.from

-- `egg_finduser`, and `network_user_find_by_hostmask` of src/network.c. The user's mask is the text
-- and the one asked for is the pattern.
unfoldable pub find_by_mask : Bytes → List User → Option (Option User)
unfolding troll_matchwilds
find_by_mask mask [] = some none
find_by_mask mask (u ∷ us) =
    let rest = find_by_mask mask us in
    troll_matchwilds u.uhost (some mask) >>= λ differs. if differs == 0 then some (some u) else rest

unfoldable pub egg_finduser : EggNetwork → Bytes → Option (Option User)
unfolding find_by_mask
egg_finduser net mask = find_by_mask mask net.users.from

-- A password that only asks whether there is one: NULL, empty or `-`.
unfoldable pub asks_only : Option Bytes → Bool
unfolding str_eq
asks_only none = true
asks_only (some pass) = str_eq pass [] || str_eq pass (b'-' ∷ [])

abbrev pub has_text : Option Bytes → Bool
has_text none = false
has_text (some v) = true

-- `!strcmp(user->passhash, hash_string)`, where a hash could be made.
abbrev pub same_hash : Option Bytes → Option Bytes → Option Bool
same_hash passhash none = some false
same_hash none (some hash) = none
same_hash (some passhash) (some hash) = some (str_eq passhash hash)

module _ (create_hash : Option (Bytes → Bytes → Option Bytes)) where
  -- `egg_makepasswd`: `create_hash` of the crypto module, if it is loaded.
  unfoldable pub egg_makepasswd : (pass hash_type : Bytes) → Option Bytes
  egg_makepasswd pass hash_type = elim create_hash [
    | none ↦ none
    | some create ↦ create pass hash_type
  ]

  abbrev pub check_hash : (pass : Bytes) (hash_type passhash : Option Bytes) → Option Bool
  check_hash pass none passhash = some false
  check_hash pass (some hash_type) passhash = same_hash passhash (egg_makepasswd pass hash_type)

  abbrev pub check_pass : Option Bytes → (hash_type passhash : Option Bytes) → Option Bool
  check_pass none hash_type passhash = some (has_text passhash)
  check_pass (some pass) hash_type passhash =
      if asks_only (some pass) then some (has_text passhash) else check_hash pass hash_type passhash

  unfoldable pub pass_ok : (handle : Bytes) (pass : Option Bytes) → List User → Option Bool
  unfolding asks_only egg_makepasswd str_eq
  pass_ok handle pass [] = some false
  pass_ok handle pass (u ∷ us) =
      let rest = pass_ok handle pass us in
      if str_eq handle u.username then check_pass pass u.hash_type u.passhash else rest

  -- `egg_passwdok`
  unfoldable pub egg_passwdok : EggNetwork → (handle : Bytes) (pass : Option Bytes) → Option Bool
  unfolding pass_ok
  egg_passwdok net handle pass = pass_ok handle pass net.users.from

-- The last user of the list with that name gets the new one.
unfoldable pub rename_last : (old new : Bytes) → List User → List User
unfolding has_handle str_eq
rename_last old new [] = []
rename_last old new (u ∷ us) =
    let rest = rename_last old new us in
    if has_handle old us
    then u ∷ rest
    else if str_eq old u.username
    then record u { username = new } ∷ us
    else u ∷ us

abbrev pub with_from : EggNetwork → List User → EggNetwork
with_from net from = record net { users = linked net.users.behind from }

-- `egg_chhandle`: the network, and what is returned.
unfoldable pub egg_chhandle : EggNetwork → (old new : Option Bytes) → EggNetwork × Bool
unfolding has_handle rename_last
egg_chhandle net none new = (net, false)
egg_chhandle net (some old) none = (net, false)
egg_chhandle net (some old) (some new) =
    if has_handle new net.users.from
    then (net, false)
    else if has_handle old net.users.from
    then (with_from net (rename_last old new net.users.from), true)
    else (net, false)

-- The loop of `egg_matchattr` over the flags.
unfoldable pub has_flags : (flags : Bytes) (of_user : Bytes) → Bool
unfolding has_byte
has_flags [] of_user = true
has_flags (c ∷ flags) of_user = has_byte c of_user && has_flags flags of_user

abbrev pub match_user : (flags : Bytes) (channel : Option Bytes) → Option User → Bool
match_user flags channel none = false
match_user flags (some name) (some u) = true
match_user flags none (some u) = elim u.flags [
  | none ↦ false
  | some of_user ↦ has_flags flags of_user
]

abbrev pub match_rewound :
    (handle flags : Bytes) (channel : Option Bytes) → Linked User → Option Bool
match_rewound handle flags channel users =
    some (match_user flags channel (find_first (λ u. same_text handle u.username) (whole users)))

-- `egg_matchattr`: with a channel the flags are not looked at. Without users `user->prev` is read
-- through NULL.
unfoldable pub egg_matchattr :
    EggNetwork → (handle flags : Bytes) (channel : Option Bytes) → Option Bool
unfolding has_flags find_first
egg_matchattr net handle flags channel = elim net.users.from [
  | [] ↦ none
  | u ∷ us ↦ match_rewound handle flags channel net.users
]

-- The loops of `egg_adduser` over the channels and their users.
unfoldable pub find_on_channels : (username : Bytes) → List Channel → Option ChannelUser
unfolding find_first
find_on_channels username [] = none
find_on_channels username (c ∷ cs) =
    let rest = find_on_channels username cs in
    elim (find_first (λ u. same_text username u.nick) c.user_list.from) [
      | none ↦ rest
      | some u ↦ some u
    ]

abbrev pub given_or : Option Bytes → Option Bytes → Option Bytes
given_or none w = w
given_or (some v) w = some v

-- The new user: with what is known of the nick, or with defaults. `realname` of a channel's user is
-- never written, so it is NULL.
abbrev pub made_user :
    (username : Bytes) (hostmask flags : Option Bytes) → Option ChannelUser → User
made_user username hostmask flags none =
    new_user username (some username) none none none hostmask flags
made_user username hostmask flags (some c) =
    new_user username (some c.nick) none c.ident none (given_or hostmask c.host) flags

-- The network as `users_save` reads it.
abbrev pub as_saved : EggNetwork → UserNetwork
as_saved net = record { label = net.label; userfile = net.userfile; users = net.users.from }

abbrev pub with_user : EggNetwork → User → EggNetwork
with_user net u = record net { users = append_linked net.users u }

-- What a change of the users returns: the network, the files that are written, and the result.
pub record AddOutcome : Type 0 where
  pub net : EggNetwork
  pub files : List Written
  pub result : Bool

abbrev pub unchanged : EggNetwork → AddOutcome
unchanged net = record { net = net; files = []; result = false }

abbrev pub saved_with : EggNetwork → List UserNetwork → Option AddOutcome
saved_with net nets = do
  files ← users_save (some (as_saved net)) nets
  some (record { net = net; files = files; result = true })

-- The part behind the test for the name. With no channel at all `cuser` is read before it is
-- written.
abbrev pub add_new :
    EggNetwork
    → List UserNetwork
    → (username : Bytes) (hostmask : Option Bytes) → List Channel
    → Option AddOutcome
add_new net nets username hostmask [] = none
add_new net nets username hostmask (c ∷ cs) =
    saved_with
      (with_user net
        (made_user username hostmask net.default_flags (find_on_channels username (c ∷ cs))))
      nets

-- `egg_adduser`
unfoldable pub egg_adduser :
    EggNetwork → List UserNetwork → (username hostmask : Option Bytes) → Option AddOutcome
unfolding network_user_find_by_username find_on_channels append_linked users_save new_user
egg_adduser net nets none hostmask = some (unchanged net)
egg_adduser net nets (some username) hostmask =
    let new = add_new net nets username hostmask net.chans in
    elim (network_user_find_by_username net.users.from username) [
      | none ↦ new
      | some u ↦ some (unchanged net)
    ]

abbrev pub deleted : EggNetwork → Option (Linked User) → EggNetwork × Bool
deleted net none = (net, false)
deleted net (some users) = (record net { users = users }, true)

-- `egg_deluser`
unfoldable pub egg_deluser : EggNetwork → (username : Option Bytes) → EggNetwork × Bool
unfolding del_found
egg_deluser net none = (net, false)
egg_deluser net (some username) =
    deleted net (del_found (is_user username) net.users.behind net.users.from)
