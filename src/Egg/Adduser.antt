-- ===== src/Egg/Adduser.antt =====
-- `egg_adduser`: who is added, and what is saved.
use trollbot.Prelude.{
  All-append, Gives, Gives-bind, HasValue, All, ◌+◌, ◌≡◌, ◌≢◌, refl, sym, ◌∙◌, subst, true, false,
  List, [], ◌∷◌, ◌++◌, Option, none, some, arith, Bytes, length-append, Bool-cases, inl, inr,
}
use trollbot.Text.{str_eq}
use trollbot.Text.Compare.{str_eq_iff, tstrcasecmp_iff}
use trollbot.Channel.{Channel, ChannelUser, find_first, same_text}
use trollbot.Linked.Moves.{append_linked-from}
use trollbot.User.{User, UserNetwork, user_init, new_user, has_no_entry, users_save}
use trollbot.Tconfig.Words.{IsText}
use trollbot.User.Entries.{IsStored}
use trollbot.User.Unsaved.{write_users_no_flags}
use trollbot.User.Disk.{after, unloaded, reloaded, IsUserlist, users_save-Restores}
use trollbot.Egg.{
  EggNetwork, is_user, network_user_find_by_username, egg_countusers, find_on_channels, made_user,
  as_saved, with_user, AddOutcome, saved_with, add_new, egg_adduser,
}

made_user-flags :
    (username : Bytes) (hostmask flags : Option Bytes) (c : Option ChannelUser)
    → (made_user username hostmask flags c).flags ≡ flags
unfolding new_user
made_user-flags username hostmask flags none = refl
made_user-flags username hostmask flags (some c) = refl

made_user-has_entry :
    (username : Bytes) (hostmask flags : Option Bytes) (c : Option ChannelUser)
    → has_no_entry (made_user username hostmask flags c) ≡ false
unfolding new_user has_no_entry
made_user-has_entry username hostmask flags none = refl
made_user-has_entry username hostmask flags (some c) = refl

made_user-username :
    (username : Bytes) (hostmask flags : Option Bytes) (c : Option ChannelUser)
    → (made_user username hostmask flags c).username ≡ username
unfolding new_user
made_user-username username hostmask flags none = refl
made_user-username username hostmask flags (some c) = refl

save_no_flags :
    (net : EggNetwork) (nets : List UserNetwork) (u : User)
    → u.flags ≡ none
    → has_no_entry u ≡ false
    → (file : Option Bytes) → net.userfile ≡ file
    → saved_with (with_user net u) nets ≡ none
unfolding users_save
save_no_flags net nets u e h none f = rw f
save_no_flags net nets u e h (some name) f =
    rw (f, append_linked-from net.users u, write_users_no_flags name net.users.from u [] e h)

-- Where the network has no default flags, `egg_adduser` for a name that no user in the list has
-- does not return: the user has no flags, and writing the user file reads the NULL key that stands
-- for them.
pub egg_adduser_no_flags :
    (net : EggNetwork) (nets : List UserNetwork) (username : Bytes) (hostmask : Option Bytes)
    → net.default_flags ≡ none
    → network_user_find_by_username net.users.from username ≡ none
    → egg_adduser net nets (some username) hostmask ≡ none
unfolding egg_adduser
egg_adduser_no_flags net nets username hostmask e f = rw (f, egg_adduser) (go net.chans)
  where
    go : (chans : List Channel) → add_new net nets username hostmask chans ≡ none
    go [] = refl
    go (c ∷ cs) =
        let found = find_on_channels username (c ∷ cs) in
        save_no_flags net nets (made_user username hostmask net.default_flags found)
          (made_user-flags username hostmask net.default_flags found ∙ e)
          (made_user-has_entry username hostmask net.default_flags found) net.userfile refl

same_text-str_eq : (a b : Bytes) → same_text a b ≡ false → str_eq b a ≡ false
same_text-str_eq a b h = ground (arith, str_eq_iff b a, (tstrcasecmp_iff a b).1)

-- No user has the name in any case, so none has it as it is.
HasNoName-not_found :
    (username : Bytes) (us : List User)
    → network_user_find_by_username us username ≡ none
    → All (λ v. str_eq username v.username ≡ false) us
unfolding network_user_find_by_username find_first
HasNoName-not_found username [] h = tt
HasNoName-not_found username (u ∷ us) h = elim (Bool-cases (is_user username u)) [
  | inl hit ↦ let e = rw (hit, find_first) at h in absurd cc
  | inr miss ↦ (
    same_text-str_eq u.username username miss,
    HasNoName-not_found username us (rw (miss, find_first) at h),
  )
]

IsUserlist-append :
    (us : List User) (u : User)
    → IsUserlist us
    → IsText u.username
    → IsStored u
    → All (λ v. str_eq u.username v.username ≡ false) us
    → IsUserlist (us ++ u ∷ [])
IsUserlist-append [] u h t s o = (t, s, tt, tt)
IsUserlist-append (v ∷ us) u h t s o = (
  h.0,
  h.1,
  All-append (λ w. str_eq w.username v.username ≡ false) us (u ∷ []) h.2 (o.0, tt),
  IsUserlist-append us u h.3 t s o.1,
)

found_last :
    (username : Bytes) (us : List User) (u : User)
    → network_user_find_by_username us username ≡ none
    → is_user username u ≡ true
    → network_user_find_by_username (us ++ u ∷ []) username ≡ some u
unfolding network_user_find_by_username find_first
found_last username [] u h t = rw t
found_last username (v ∷ us) u h t = elim (Bool-cases (is_user username v)) [
  | inl hit ↦ let e = rw (hit, find_first) at h in absurd cc
  | inr miss ↦ rw miss (found_last username us u (rw (miss, find_first) at h) t)
]

-- The user that is added.
abbrev pub new_of : EggNetwork → (username : Bytes) (hostmask : Option Bytes) → User
new_of net username hostmask =
    made_user username hostmask net.default_flags (find_on_channels username net.chans)

not_empty : (us : List User) (u : User) → (us ++ u ∷ []) ≢ []
not_empty [] u = λ e. cc
not_empty (v ∷ us) u = λ e. cc

same_text_refl : (s : Bytes) → same_text s s ≡ true
same_text_refl s = rw ((tstrcasecmp_iff s s).1 refl)

-- What `egg_adduser` comes to where it adds `u`.
abbrev pub Added :
    EggNetwork → (username : Bytes) → User → (Bytes → Option Bytes) → AddOutcome → Type 0
Added net username u files o =
    (o.result ≡ true)
    × (egg_countusers o.net ≡ egg_countusers net + 1)
    × (network_user_find_by_username o.net.users.from username ≡ some u)
    × (user_init (after o.files files) (unloaded (as_saved o.net) ∷ [])
        ≡ some (reloaded (as_saved o.net) ∷ []))

saved_with-Added :
    (net : EggNetwork) (nets : List UserNetwork) (username : Bytes) (u : User)
    (files : Bytes → Option Bytes)
    → HasValue net.userfile
    → IsUserlist net.users.from
    → network_user_find_by_username net.users.from username ≡ none
    → u.username ≡ username
    → IsText username
    → IsStored u
    → Gives (Added net username u files) (saved_with (with_user net u) nets)
unfolding egg_countusers
saved_with-Added net nets username u files v h f e t s =
    let names = HasNoName-not_found username net.users.from f in
    let longer = append_linked-from net.users u in
    Gives-bind
      (λ ws.
        user_init (after ws files) (unloaded (as_saved (with_user net u)) ∷ [])
        ≡ some (reloaded (as_saved (with_user net u)) ∷ []))
      _ (users_save (some (as_saved (with_user net u))) nets) _
      (users_save-Restores (as_saved (with_user net u)) nets files (
        v,
        subst (λ us. us ≢ []) (sym longer) (not_empty net.users.from u),
        subst IsUserlist (sym longer) (
            IsUserlist-append net.users.from u h (subst IsText (sym e) t) s
              (subst (λ n. All (λ w. str_eq n w.username ≡ false) net.users.from) (sym e) names)),
      ))
      λ ws r. (
        refl,
        rw (longer, length-append net.users.from (u ∷ [])) refl,
        rw longer (
            found_last username net.users.from u f
              (subst (λ n. same_text n username ≡ true) (sym e) (same_text_refl username))),
        r,
      )

-- `egg_adduser` adds a user who is then found by his name, the list is one longer, and the network
-- loads all its users from the file that is written: where there is a channel and a user file, no
-- user in the list has the name, the users in the list can be held by a user file, the name is not
-- empty and without quotes and line ends, and so are the default flags of the network and what the
-- channels and the caller tell of the new user.
pub egg_adduser-Added :
    (net : EggNetwork) (nets : List UserNetwork) (username : Bytes) (hostmask : Option Bytes)
    (files : Bytes → Option Bytes)
    → net.chans ≢ []
    → HasValue net.userfile
    → IsUserlist net.users.from
    → network_user_find_by_username net.users.from username ≡ none
    → IsText username
    → IsStored (new_of net username hostmask)
    → Gives
        (Added net username (new_of net username hostmask) files)
        (egg_adduser net nets (some username) hostmask)
unfolding egg_adduser
egg_adduser-Added net nets username hostmask files ne v h f t s =
    rw (f, egg_adduser) (go net.chans ne s)
  where
    made : List Channel → User
    made chans = made_user username hostmask net.default_flags (find_on_channels username chans)

    go :
        (chans : List Channel)
        → chans ≢ []
        → IsStored (made chans)
        → Gives (Added net username (made chans) files) (add_new net nets username hostmask chans)
    go [] n k = absurd (n refl)
    go (c ∷ cs) n k =
        saved_with-Added net nets username (made (c ∷ cs)) files v h f
          (made_user-username username hostmask net.default_flags
            (find_on_channels username (c ∷ cs)))
          t k
