-- ===== src/User.antt =====
-- User records and the user file: `users_to_tconfig`, `new_user`, `new_user_from_tconfig_block` and
-- what `user_init` and `users_save` do for one network, of src/user.c. `none` is a fault: a NULL
-- key for `strcmp` or `strchr`. The lists of users are what their pointers read forwards.
pub mod Entries
pub mod Load
pub mod Unsaved
pub mod Disk
use trollbot.Prelude.{
  ◌>>=◌, Bool, true, false, ◌&&◌, List, [], ◌∷◌, ◌++◌, Option, none, some, if◌then◌else◌, Bytes,
  codes,
}
use trollbot.Text.{str_eq}
use trollbot.Tconfig.{Label, Blocks, null, block, Parsed, file_to_tconfig}
use trollbot.Tconfig.Write.{tconfig_to_file}

-- `struct channel_flags`
pub record ChannelFlags : Type 0 where
  pub chan : Option Bytes
  pub flags : Option Bytes

-- `struct user`, less `tcfg`. The name is never NULL here: it is the value of a block.
pub record User : Type 0 where
  pub username : Bytes
  pub nick : Option Bytes
  pub passhash : Option Bytes
  pub hash_type : Option Bytes
  pub ident : Option Bytes
  pub realname : Option Bytes
  pub host : Option Bytes
  pub uhost : Option Bytes
  pub console : Option Bytes
  pub flags : Option Bytes
  pub chan_flags : List ChannelFlags

-- `new_user`
unfoldable pub new_user :
    (username : Bytes) (nick passhash ident realname host flags : Option Bytes) → User
new_user username nick passhash ident realname host flags = record {
  username = username;
  nick = nick;
  passhash = passhash;
  hash_type = none;
  ident = ident;
  realname = realname;
  host = host;
  uhost = none;
  console = none;
  flags = flags;
  chan_flags = [];
}

-- The last block of a user's entries: the flags, or a block that has no key.
abbrev pub flags_block : Option Bytes → Blocks
flags_block none = block none null null
flags_block (some v) = block (some (codes "flags", v)) null null

-- An entry, if it is there, and a block behind it, which the next entry fills.
unfoldable pub put_entry : Bytes → Option Bytes → Blocks → Blocks
put_entry key none next = next
put_entry key (some v) next = block (some (key, v)) null next

-- `nick == NULL && … && flags == NULL`: `console` is not asked for.
abbrev pub is_null : Option Bytes → Bool
is_null none = true
is_null (some v) = false

unfoldable pub has_no_entry : User → Bool
has_no_entry u =
    is_null u.nick
    && is_null u.ident
    && is_null u.host
    && is_null u.uhost
    && is_null u.passhash
    && is_null u.hash_type
    && is_null u.flags

unfoldable pub user_entries : User → Blocks
unfolding put_entry
user_entries u = put_entry (codes "nick") u.nick (
    put_entry (codes "ident") u.ident (
      put_entry (codes "host") u.host (
        put_entry (codes "console") u.console (
          put_entry (codes "uhost") u.uhost (
            put_entry (codes "passhash") u.passhash
              (put_entry (codes "hash_type") u.hash_type (flags_block u.flags)))))))

unfoldable pub user_block : User → Blocks → Blocks
unfolding has_no_entry user_entries
user_block u next =
    block (some (codes "user", u.username)) (if has_no_entry u then null else user_entries u) next

-- `users_to_tconfig`
unfoldable pub users_to_tconfig : List User → Blocks
unfolding user_block
users_to_tconfig [] = null
users_to_tconfig (u ∷ us) = user_block u (users_to_tconfig us)

-- `if (user->nick == NULL) user->nick = tstrdup(child->value);`
abbrev pub first_value : Option Bytes → Bytes → Option Bytes
first_value none v = some v
first_value (some w) v = some w

-- The `else if` chain over the key of an entry.
unfoldable pub set_entry : (key value : Bytes) → User → User
unfolding str_eq
set_entry k v u =
    if str_eq k (codes "nick")
    then record u { nick = first_value u.nick v }
    else if str_eq k (codes "passhash")
    then record u { passhash = first_value u.passhash v }
    else if str_eq k (codes "hash_type")
    then record u { hash_type = first_value u.hash_type v }
    else if str_eq k (codes "ident")
    then record u { ident = first_value u.ident v }
    else if str_eq k (codes "console")
    then record u { console = first_value u.console v }
    else if str_eq k (codes "realname")
    then record u { realname = first_value u.realname v }
    else if str_eq k (codes "host")
    then record u { host = first_value u.host v }
    else if str_eq k (codes "uhost")
    then record u { uhost = first_value u.uhost v }
    else if str_eq k (codes "flags")
    then record u { flags = first_value u.flags v }
    else u

-- The loop over the entries.
unfoldable pub set_entries : Blocks → User → Option User
unfolding set_entry
set_entries null u = some u
set_entries (block none child next) u = none
set_entries (block (some kv) child next) u = set_entries next (set_entry kv.0 kv.1 u)

abbrev pub some_user : Option User → Option (Option User)
some_user none = none
some_user (some u) = some (some u)

-- `new_user_from_tconfig_block`, for a block that is there; `some none` for the NULL of a block
-- that is no user.
unfoldable pub new_user_from_tconfig_block : Label → Blocks → Option (Option User)
unfolding new_user set_entries str_eq
new_user_from_tconfig_block none child = none
new_user_from_tconfig_block (some kv) child =
    if str_eq kv.0 (codes "user")
    then some_user (set_entries child (new_user kv.1 none none none none none none))
    else some none

abbrev pub link_user : List User → Option User → List User
link_user users none = users
link_user users (some u) = users ++ (u ∷ [])

-- The loop of `user_init` over the blocks of the file: `net->users` behind it. A block of another
-- key is passed over before `new_user_from_tconfig_block` is called.
unfoldable pub link_users : Blocks → List User → Option (List User)
unfolding new_user_from_tconfig_block
link_users null users = some users
link_users (block label child next) users = do
  user ← new_user_from_tconfig_block label child
  link_users next (link_user users user)

abbrev pub link_parsed : List User → Parsed → Option (List User)
link_parsed users (Parsed.tree t) = link_users t users
link_parsed users Parsed.exits = none
link_parsed users Parsed.reads_on = none
link_parsed users Parsed.out_of_fuel = none

-- What the two functions read of a `struct network`.
pub record UserNetwork : Type 0 where
  pub label : Bytes
  pub userfile : Option Bytes
  pub users : List User

-- A user file that cannot be read leaves the users as they are. `none` also where the parser ends
-- the program.
abbrev pub load_text : Option Bytes → List User → Option (List User)
load_text none users = some users
load_text (some text) users = link_parsed users (file_to_tconfig text)

abbrev pub load_file : (Bytes → Option Bytes) → Option Bytes → List User → Option (List User)
load_file files none users = some users
load_file files (some name) users = load_text (files name) users

-- `user_init`, less the merge into the configuration: the networks, where `files` is what the
-- files read as.
unfoldable pub user_init : (Bytes → Option Bytes) → List UserNetwork → Option (List UserNetwork)
unfolding file_to_tconfig link_users
user_init files [] = some []
user_init files (net ∷ nets) = do
  users ← load_file files net.userfile net.users
  rest ← user_init files nets
  some (record net { users = users } ∷ rest)

-- A file that is written: its name and its text.
abbrev pub Written : Type 0
Written = Bytes × Bytes

-- `tconfig_to_file(users_to_tconfig(users), name)`. For no users the file is not opened.
unfoldable pub write_users : (name : Bytes) → List User → Option (List Written)
unfolding users_to_tconfig tconfig_to_file
write_users name [] = some []
write_users name (u ∷ us) = do
  text ← tconfig_to_file (users_to_tconfig (u ∷ us))
  some ((name, text) ∷ [])

-- `"./db/userdb.%s"`
abbrev pub default_file : Bytes → Bytes
default_file label = codes "./db/userdb." ++ label

abbrev pub file_named : (label : Bytes) → Option Bytes → Bytes
file_named label none = default_file label
file_named label (some name) = name

abbrev pub userfile_of : UserNetwork → Bytes
userfile_of net = file_named net.label net.userfile

-- The loop over all networks.
unfoldable pub save_all : List UserNetwork → Option (List Written)
unfolding write_users
save_all [] = some []
save_all (net ∷ nets) = do
  files ← write_users (userfile_of net) net.users
  rest ← save_all nets
  some (files ++ rest)

-- `users_save(net)`, with all networks of the program: the files. For one network without a user
-- file the code reads the label through `nettmp`, which is NULL.
unfoldable pub users_save : Option UserNetwork → List UserNetwork → Option (List Written)
unfolding save_all write_users
users_save none nets = save_all nets
users_save (some net) nets = elim net.userfile [
  | none ↦ none
  | some name ↦ write_users name net.users
]
