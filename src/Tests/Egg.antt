-- ===== src/Tests/Egg.antt =====
-- The users and bind tables of a network under the eggdrop functions.
use trollbot.Prelude.{
  ◌≡◌, ◌↔◌, refl, [], ◌∷◌, Option, none, some, Gives, true, false, ◌+◌, ◌≤◌, Bytes, codes,
}
use trollbot.Text.{str_eq, tstrcasecmp, tolower}
use trollbot.Channel.{new_channel, find_first}
use trollbot.Linked.{linked, to_front, whole, del_found}
use trollbot.Trigger.{Trigger, new_trigger}
use trollbot.Tconfig.Words.{is_text_byte, IsText}
use trollbot.User.{User, new_user}
use trollbot.User.Entries.{IsStored}
use trollbot.User.Disk.{IsUserlist}
use trollbot.Egg.{
  EggNetwork, is_user, network_user_find_by_username, egg_countusers, has_handle, egg_validuser,
  egg_chhandle, egg_deluser, asks_only, pass_ok, egg_passwdok, find_on_channels, egg_adduser,
}
use trollbot.Linked.Moves.{Missed}
use trollbot.Egg.Users.{egg_deluser-whole, egg_deluser-countusers}
use trollbot.Egg.Handles.{DistinctHandles, renamed, egg_chhandle-validuser}
use trollbot.Egg.Passwd.{Admits, egg_passwdok-Admits}
use trollbot.Egg.Adduser.{new_of, Added, egg_adduser-Added, egg_adduser_no_flags}
use trollbot.Egg.Binds.{
  pub_, Tables, unbind_table, bind_table, bound, egg_bind, egg_unbind, unbind_test,
}
use trollbot.Egg.Binds.Found.{Fail, egg_unbind-Removed}
use trollbot.Egg.Binds.Rebind.{is_pub, DistinctMasks, Bound, egg_bind-Bound}

abbrev user : Bytes → User
user name = new_user name none (some (codes "h")) none none none (some (codes "n"))

abbrev net : EggNetwork
net = record {
  label = codes "a";
  userfile = some (codes "db/a");
  default_flags = some (codes "p");
  users = linked [] (user (codes "al") ∷ user (codes "bo") ∷ user (codes "cy") ∷ []);
  chans = new_channel (codes "#c") ∷ [];
}

abbrev al : User
al = user (codes "al")

abbrev bo : User
bo = user (codes "bo")

abbrev cy : User
cy = user (codes "cy")

-- `cy` is asked for in capitals.
Missed-cy : Missed (is_user (codes "CY")) (al ∷ bo ∷ [])
unfolding tstrcasecmp tolower new_user
Missed-cy = (refl, (refl, tt))

hit_cy : is_user (codes "CY") cy ≡ true
unfolding tstrcasecmp tolower new_user
hit_cy = refl

egg_deluser-whole_example :
    ((egg_deluser net (some (codes "CY"))).1 ≡ true)
    × (whole (egg_deluser net (some (codes "CY"))).0.users ≡ to_front [] (al ∷ bo ∷ []))
egg_deluser-whole_example =
    egg_deluser-whole net (codes "CY") (al ∷ bo ∷ []) cy [] refl Missed-cy hit_cy

egg_deluser-countusers_example :
    egg_countusers (egg_deluser net (some (codes "CY"))).0 + 2 ≡ egg_countusers net
egg_deluser-countusers_example =
    egg_deluser-countusers net (codes "CY") (al ∷ bo ∷ []) cy [] refl Missed-cy hit_cy refl

-- `al` is still linked to, but no longer valid.
lost : egg_validuser (egg_deluser net (some (codes "cy"))).0 (codes "al") ≡ false
unfolding egg_validuser has_handle egg_deluser del_found str_eq tstrcasecmp tolower new_user
lost = refl

distinct : DistinctHandles net.users.from
unfolding has_handle str_eq new_user
distinct = (refl, (refl, (refl, tt)))

returns : (egg_chhandle net (some (codes "bo")) (some (codes "di"))).1 ≡ true
unfolding egg_chhandle has_handle str_eq new_user
returns = refl

egg_chhandle-validuser_example :
    DistinctHandles (egg_chhandle net (some (codes "bo")) (some (codes "di"))).0.users.from
    × ((h : Bytes)
        → egg_validuser (egg_chhandle net (some (codes "bo")) (some (codes "di"))).0 h
          ≡ renamed (codes "bo") (codes "di") h (egg_validuser net h))
egg_chhandle-validuser_example =
    egg_chhandle-validuser net (codes "bo") (codes "di") distinct returns

-- A hash that is the text itself.
abbrev plain : Option (Bytes → Bytes → Option Bytes)
plain = some λ pass kind. some pass

egg_passwdok-Admits_example :
    (egg_passwdok plain net (codes "al") (some (codes "h")) ≡ some true)
    ↔ Admits plain (codes "al") (some (codes "h")) net.users.from
egg_passwdok-Admits_example = egg_passwdok-Admits plain net (codes "al") (some (codes "h"))

-- A user has no kind of hash when he is made, so his password is refused.
refused : egg_passwdok plain net (codes "al") (some (codes "h")) ≡ some false
unfolding egg_passwdok pass_ok asks_only str_eq new_user
refused = refl

asked : egg_passwdok plain net (codes "al") none ≡ some true
unfolding egg_passwdok pass_ok asks_only str_eq new_user
asked = refl

no_di : network_user_find_by_username net.users.from (codes "di") ≡ none
unfolding network_user_find_by_username find_first tstrcasecmp tolower new_user
no_di = refl

user-IsStored : (name : Bytes) → IsStored (user name)
unfolding new_user is_text_byte
user-IsStored name = record {
  nick = tt;
  ident = tt;
  host = tt;
  console = tt;
  uhost = tt;
  passhash = (refl, tt);
  hash_type = tt;
  flags = (refl, tt);
}

users-IsUserlist : IsUserlist net.users.from
unfolding new_user is_text_byte str_eq
users-IsUserlist = (
  (refl, (refl, tt)),
  user-IsStored (codes "al"),
  (refl, (refl, tt)),
  (
    (refl, (refl, tt)),
    user-IsStored (codes "bo"),
    (refl, tt),
    ((refl, (refl, tt)), user-IsStored (codes "cy"), tt, tt),
  ),
)

di-IsText : IsText (codes "di")
unfolding is_text_byte
di-IsText = (refl, (refl, tt))

new-IsStored : IsStored (new_of net (codes "di") (some (codes "*!d@h")))
unfolding new_user is_text_byte find_on_channels find_first
new-IsStored = record {
  nick = (refl, (refl, tt));
  ident = tt;
  host = (refl, (refl, (refl, (refl, (refl, tt)))));
  console = tt;
  uhost = tt;
  passhash = tt;
  hash_type = tt;
  flags = (refl, tt);
}

egg_adduser-Added_example :
    Gives
      (Added net (codes "di") (new_of net (codes "di") (some (codes "*!d@h"))) (λ _. none))
      (egg_adduser net [] (some (codes "di")) (some (codes "*!d@h")))
egg_adduser-Added_example =
    egg_adduser-Added net [] (codes "di") (some (codes "*!d@h")) (λ _. none) (λ e. cc) tt
      users-IsUserlist no_di di-IsText new-IsStored

abbrev bare_net : EggNetwork
bare_net = record net { default_flags = none }

egg_adduser_no_flags_example : egg_adduser bare_net [] (some (codes "di")) none ≡ none
egg_adduser_no_flags_example = egg_adduser_no_flags bare_net [] (codes "di") none refl no_di

abbrev bind : Bytes → Trigger
bind mask = bound mask (codes "f") 1

abbrev tables : Tables
tables t = linked [] (bind (codes "!a") ∷ bind (codes "!b") ∷ bind (codes "!c") ∷ [])

unbind_pub : unbind_table (codes "Pub") ≡ some pub_
unfolding unbind_table tstrcasecmp tolower
unbind_pub = refl

bind_pub : bind_table (codes "Pub") ≡ some pub_
unfolding bind_table tstrcasecmp tolower
bind_pub = refl

fails : Fail (unbind_test (codes "!c") (codes "F")) (bind (codes "!a") ∷ bind (codes "!b") ∷ [])
unfolding str_eq new_trigger
fails = (refl, (refl, tt))

passes : unbind_test (codes "!c") (codes "F") (bind (codes "!c")) ≡ some true
unfolding str_eq tstrcasecmp tolower new_trigger
passes = refl

egg_unbind-Removed_example :
    Gives
      (λ r.
        (r.1 ≡ (bind (codes "!c")).mask)
        × (whole (r.0 pub_) ≡ to_front [] (bind (codes "!a") ∷ bind (codes "!b") ∷ []))
        × ((tables pub_).behind ≡ []
            → ((r.0 pub_).from ≡ bind (codes "!a") ∷ bind (codes "!b") ∷ []) ↔ (2 ≤ 1)))
      (egg_unbind (codes "Pub") none (codes "!c") (codes "F") tables)
egg_unbind-Removed_example =
    egg_unbind-Removed (codes "Pub") none (codes "!c") (codes "F") tables pub_
      (bind (codes "!a") ∷ bind (codes "!b") ∷ []) (bind (codes "!c")) [] unbind_pub refl fails
      passes

masks_differ : DistinctMasks (tables pub_).from
unfolding new_trigger tstrcasecmp tolower
masks_differ = (tt, (refl, (refl, tt)), (tt, (refl, tt), (tt, tt, tt)))

egg_bind-Bound_example :
    Gives
      (Bound pub_ (codes "!C") (codes "g") 2 (tables pub_).from)
      (egg_bind (codes "Pub") none (codes "!C") (codes "g") (some 2) tables)
egg_bind-Bound_example =
    egg_bind-Bound (codes "Pub") none (codes "!C") (codes "g") 2 tables pub_ (tables pub_).from
      bind_pub is_pub refl masks_differ
