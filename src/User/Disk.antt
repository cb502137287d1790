-- ===== src/User/Disk.antt =====
-- The user files from one run of the bot to the next: `users_save`, then `user_init`.
use trollbot.Prelude.{
  Gives, Gives-bind, Gives-weaken, Gives-HasValue, HasValue, All, ◌≡◌, ◌≢◌, refl, sym, subst, ◌∙◌,
  List, [], ◌∷◌, ◌++◌, map, Option, if◌then◌else◌, true, false, none, some, Bytes, codes, inr,
}
use trollbot.Text.{str_eq}
use trollbot.Text.Compare.{str_eq_iff}
use trollbot.Tconfig.{null, same_label, tree, file_to_tconfig}
use trollbot.Tconfig.Level.{Unlike}
use trollbot.Tconfig.Write.{tconfig_to_file}
use trollbot.Tconfig.Words.{is_text_byte, begins_key, IsText, IsKey}
use trollbot.Tconfig.RoundTrip.{IsConfig, file_to_tconfig-tconfig_to_file}
use trollbot.User.{
  User, user_block, users_to_tconfig, link_parsed, load_text, load_file, file_named, UserNetwork,
  user_init, Written, write_users, userfile_of, save_all, users_save,
}
use trollbot.User.Entries.{IsStored, user_entries-IsConfig}
use trollbot.User.Load.{
  stored, restored, IsLoadable, has_no_entry-flags, link_users-users_to_tconfig,
}

-- No user of the list has the name.
abbrev pub HasNoName : Bytes → List User → Type 0
HasNoName name us = All (λ v. str_eq v.username name ≡ false) us

-- Users that the file can hold: their names are texts that differ, and so on.
abbrev pub IsUserlist : List User → Type 0
IsUserlist [] = Unit
IsUserlist (u ∷ us) = IsText u.username × IsStored u × HasNoName u.username us × IsUserlist us

Unlike-HasNoName :
    (name : Bytes) (us : List User)
    → HasNoName name us
    → Unlike (codes "user", name) (users_to_tconfig us)
unfolding users_to_tconfig user_block same_label
Unlike-HasNoName name [] h = tt
Unlike-HasNoName name (u ∷ us) h = (rw h.0, Unlike-HasNoName name us h.1)

user-IsKey : IsKey (codes "user")
unfolding is_text_byte begins_key
user-IsKey = (refl, (refl, (refl, (refl, (refl, tt)))))

flags-HasValue : {u : User} → IsStored u → HasValue u.flags
flags-HasValue {u} h = Gives-HasValue IsText u.flags h.flags

users-IsConfig : (us : List User) → IsUserlist us → IsConfig (users_to_tconfig us)
unfolding users_to_tconfig user_block
users-IsConfig [] h = tt
users-IsConfig (u ∷ us) h = rw (has_no_entry-flags u (flags-HasValue h.1)) (
  user-IsKey,
  h.0,
  Unlike-HasNoName u.username us h.2,
  user_entries-IsConfig u h.1,
  users-IsConfig us h.3,
)

restored-stored : (us : List User) → IsUserlist us → map restored us ≡ map stored us
unfolding restored
restored-stored [] h = refl
restored-stored (u ∷ us) h = rw (has_no_entry-flags u (flags-HasValue h.1), restored-stored us h.3)

not_null : (u : User) (us : List User) → users_to_tconfig (u ∷ us) ≢ null
unfolding users_to_tconfig user_block
not_null u us = λ e. cc

userlist-IsLoadable : (us : List User) → IsUserlist us → All IsLoadable us
userlist-IsLoadable [] h = tt
userlist-IsLoadable (u ∷ us) h = (inr (flags-HasValue h.1), userlist-IsLoadable us h.3)

-- What a file reads as once others are written.
unfoldable pub after : List Written → (Bytes → Option Bytes) → Bytes → Option Bytes
unfolding str_eq
after [] files = files
after (w ∷ ws) files = after ws λ name. if str_eq w.0 name then some w.1 else files name

-- A network with a user file and users that it can hold.
abbrev pub IsSaved : UserNetwork → Type 0
IsSaved net = HasValue net.userfile × (net.users ≢ []) × IsUserlist net.users

-- Networks whose user files have different names.
abbrev pub HasOtherFile : Bytes → UserNetwork → Type 0
HasOtherFile name net = str_eq (userfile_of net) name ≡ false

abbrev pub DistinctFiles : List UserNetwork → Type 0
DistinctFiles [] = Unit
DistinctFiles (net ∷ nets) = All (HasOtherFile (userfile_of net)) nets × DistinctFiles nets

-- A network before its users are loaded, and after.
abbrev pub unloaded : UserNetwork → UserNetwork
unloaded net = record net { users = [] }

abbrev pub reloaded : UserNetwork → UserNetwork
reloaded net = record net { users = map stored net.users }

-- A written user list is one file, which reads back as the list.
write_users-Reads :
    (name : Bytes) (us : List User)
    → us ≢ []
    → IsUserlist us
    → Gives
        (λ ws.
          (text : Bytes) × (ws ≡ (name, text) ∷ [])
          × (link_parsed [] (file_to_tconfig text) ≡ some (map stored us)))
        (write_users name us)
unfolding write_users
write_users-Reads name [] ne h = absurd (ne refl)
write_users-Reads name (u ∷ us) ne h =
    Gives-bind (λ text. file_to_tconfig text ≡ tree (users_to_tconfig (u ∷ us))) _
      (tconfig_to_file (users_to_tconfig (u ∷ us))) _
      (file_to_tconfig-tconfig_to_file (users_to_tconfig (u ∷ us)) (not_null u us)
        (users-IsConfig (u ∷ us) h))
      λ text e. (
        text,
        refl,
        rw (
          e,
          link_users-users_to_tconfig (u ∷ us) [] (userlist-IsLoadable (u ∷ us) h),
          restored-stored (u ∷ us) h,
        ),
      )

-- The files of some networks leave the others as they are.
Leaves : List UserNetwork → List Written → Type 0
Leaves nets ws =
    (files : Bytes → Option Bytes) (name : Bytes)
    → All (HasOtherFile name) nets
    → after ws files name ≡ files name

-- ... and the networks read their users from them.
Restores : List UserNetwork → List Written → Type 0
Restores nets ws =
    (files : Bytes → Option Bytes)
    → user_init (after ws files) (map unloaded nets) ≡ some (map reloaded nets)

str_eq_refl : (s : Bytes) → str_eq s s ≡ true
str_eq_refl s = (str_eq_iff s s).1 refl

load_file-named :
    (files : Bytes → Option Bytes) (label : Bytes) (v : Option Bytes) (us : List User)
    → HasValue v
    → load_file files v us ≡ load_text (files (file_named label v)) us
load_file-named files label none us h = absurd h
load_file-named files label (some name) us h = refl

Leaves-cons :
    (net : UserNetwork) (nets : List UserNetwork) (text : Bytes) (ws : List Written)
    → Leaves nets ws
    → Leaves (net ∷ nets) ((userfile_of net, text) ∷ ws)
unfolding Leaves after
Leaves-cons net nets text ws h files name d =
    h (λ n. if str_eq (userfile_of net) n then some text else files n) name d.1 ∙ rw d.0

Restores-cons :
    (net : UserNetwork) (nets : List UserNetwork) (text : Bytes) (ws : List Written)
    → HasValue net.userfile
    → All (HasOtherFile (userfile_of net)) nets
    → link_parsed [] (file_to_tconfig text) ≡ some (map stored net.users)
    → Leaves nets ws
    → Restores nets ws
    → Restores (net ∷ nets) ((userfile_of net, text) ∷ ws)
unfolding Restores Leaves after user_init
Restores-cons net nets text ws v d e l r files =
    let disk : Bytes → Option Bytes =
      λ n. if str_eq (userfile_of net) n then some text else files n in
    let read : after ws disk (userfile_of net) ≡ some text =
      l disk (userfile_of net) d ∙ rw (str_eq_refl (userfile_of net)) in
    rw (load_file-named (after ws disk) net.label net.userfile [] v, read, e, r disk)

save_all-Restores :
    (nets : List UserNetwork)
    → DistinctFiles nets
    → All IsSaved nets
    → Gives (λ ws. Leaves nets ws × Restores nets ws) (save_all nets)
unfolding save_all
save_all-Restores [] d h =
    unfold Leaves Restores after user_init in (λ files name a. refl, λ files. refl)
save_all-Restores (net ∷ nets) d h =
    Gives-bind _ _ (write_users (userfile_of net) net.users) _
      (write_users-Reads (userfile_of net) net.users h.0.1 h.0.2)
      λ ws w. Gives-bind _ _ (save_all nets) _ (save_all-Restores nets d.1 h.1) λ rest r.
        subst (λ x. Leaves (net ∷ nets) (x ++ rest) × Restores (net ∷ nets) (x ++ rest)) (sym w.1)
          (Leaves-cons net nets w.0 rest r.0, Restores-cons net nets w.0 rest h.0.0 d.0 w.2 r.0 r.1)

-- `users_save` of all networks writes files from which `user_init` of the next run reads every user
-- back, each without his real name and channel flags, where the networks have user files of
-- different names and each has a user, the names of the users of a network differ, every user has
-- flags, and the names and the fields that are saved, where they are not NULL, are not empty and
-- have no quotes and line ends. `files` is what the files read as before.
pub user_init-users_save :
    (nets : List UserNetwork) (files : Bytes → Option Bytes)
    → DistinctFiles nets
    → All IsSaved nets
    → Gives
        (λ ws. user_init (after ws files) (map unloaded nets) ≡ some (map reloaded nets))
        (users_save none nets)
unfolding users_save
user_init-users_save nets files d h =
    Gives-weaken _ _ (save_all nets) (save_all-Restores nets d h)
      λ ws r. unfold Restores in r.1 files

-- The same of one network that is saved alone.
pub users_save-Restores :
    (net : UserNetwork) (nets : List UserNetwork) (files : Bytes → Option Bytes)
    → IsSaved net
    → Gives
        (λ ws. user_init (after ws files) (unloaded net ∷ []) ≡ some (reloaded net ∷ []))
        (users_save (some net) nets)
unfolding users_save
users_save-Restores net nets files h = subst (Gives _) (sym (named net.userfile h.0)) (
    Gives-weaken _ _ (write_users (userfile_of net) net.users)
      (write_users-Reads (userfile_of net) net.users h.1 h.2)
      λ ws w.
        subst (λ x. user_init (after x files) (unloaded net ∷ []) ≡ some (reloaded net ∷ []))
          (sym w.1)
          (unfold Restores in
            Restores-cons net [] w.0 [] h.0 tt w.2 (save_all-Restores [] tt tt).0
              (save_all-Restores [] tt tt).1 files))
  where
    named :
        (v : Option Bytes)
        → HasValue v
        → (elim v [ none ↦ none | some name ↦ write_users name net.users ])
          ≡ write_users (file_named net.label v) net.users
    named none a = absurd a
    named (some name) a = refl
