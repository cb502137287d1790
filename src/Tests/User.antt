-- ===== src/Tests/User.antt =====
-- User lists and the files of two networks.
use trollbot.Prelude.{
  ◌≡◌, refl, List, [], ◌∷◌, ◌++◌, map, Option, none, some, Gives, HasValue, true, false, All, Bytes,
  codes,
}
use trollbot.Text.{str_eq, has_byte}
use trollbot.Tconfig.{join, siblings, parse_loop, rewind, file_to_tconfig}
use trollbot.Tconfig.Write.{indent, quote, write_blocks, tconfig_to_file}
use trollbot.Tconfig.Words.{is_text_byte}
use trollbot.User.{
  User, new_user, put_entry, user_entries, has_no_entry, user_block, users_to_tconfig,
  new_user_from_tconfig_block, link_users, UserNetwork, user_init, write_users, save_all,
  users_save,
}
use trollbot.User.Entries.{IsStored}
use trollbot.User.Load.{restored}
use trollbot.User.Unsaved.{users_save_no_flags}
use trollbot.User.Disk.{after, IsSaved, DistinctFiles, unloaded, reloaded, user_init-users_save}

abbrev user : (name nick flags console : Option Bytes) → Bytes → User
user realname nick flags console username =
    record (new_user username nick none none realname none flags) { console = console }

abbrev al : User
al = user (some (codes "Al B")) (some (codes "al")) (some (codes "n")) none (codes "al")

abbrev bo : User
bo = user none none none (some (codes "mc")) (codes "bo")

abbrev cy : User
cy = user none (some (codes "cy")) none none (codes "cy")

no_entry_bo : has_no_entry bo ≡ true
unfolding has_no_entry new_user
no_entry_bo = refl

no_entry_cy : has_no_entry cy ≡ false
unfolding has_no_entry new_user
no_entry_cy = refl

no_flags_cy : cy.flags ≡ none
unfolding new_user
no_flags_cy = refl

some_flags : HasValue al.flags
unfolding new_user
some_flags = tt

-- The console of a user without any other field is lost.
lost_console : restored bo ≡ new_user (codes "bo") none none none none none none
unfolding restored has_no_entry
lost_console = refl

abbrev flagless : UserNetwork
flagless = record { label = codes "b"; userfile = some (codes "db/b"); users = al ∷ cy ∷ bo ∷ [] }

users_save_no_flags_example :
    (users_save (some flagless) [] ≡ none) × (users_save none ([] ++ flagless ∷ []) ≡ none)
users_save_no_flags_example =
    users_save_no_flags flagless [] [] (al ∷ []) cy (bo ∷ []) refl no_flags_cy no_entry_cy

abbrev nets : List UserNetwork
nets =
    record { label = codes "a"; userfile = some (codes "db/a"); users = al ∷ [] }
    ∷ record { label = codes "b"; userfile = some (codes "db/b"); users = al ∷ [] }
    ∷ []

al-IsStored : IsStored al
unfolding new_user is_text_byte
al-IsStored = record {
  nick = (refl, (refl, tt));
  ident = tt;
  host = tt;
  console = tt;
  uhost = tt;
  passhash = tt;
  hash_type = tt;
  flags = (refl, tt);
}

nets-IsSaved : All IsSaved nets
unfolding new_user is_text_byte
nets-IsSaved = (
  (tt, (λ e. cc), ((refl, (refl, tt)), al-IsStored, tt, tt)),
  ((tt, (λ e. cc), ((refl, (refl, tt)), al-IsStored, tt, tt)), tt),
)

nets-DistinctFiles : DistinctFiles nets
unfolding str_eq
nets-DistinctFiles = ((refl, tt), (tt, tt))

user_init-users_save_example :
    Gives
      (λ ws. user_init (after ws (λ _. none)) (map unloaded nets) ≡ some (map reloaded nets))
      (users_save none nets)
user_init-users_save_example = user_init-users_save nets (λ _. none) nets-DistinctFiles nets-IsSaved

saved :
    users_save none nets
    ≡ some (
        (codes "db/a", codes "\nuser\tal\n{\n  nick\tal\n  flags\tn\n}\n\n")
        ∷ (codes "db/b", codes "\nuser\tal\n{\n  nick\tal\n  flags\tn\n}\n\n")
        ∷ [])
unfolding users_save save_all write_users users_to_tconfig user_block has_no_entry user_entries
    put_entry tconfig_to_file write_blocks indent quote has_byte new_user
saved = refl

-- A user file without text ends the bot.
no_text : user_init (λ _. some []) (map unloaded nets) ≡ none
unfolding user_init file_to_tconfig parse_loop rewind siblings join link_users
    new_user_from_tconfig_block
no_text = refl
