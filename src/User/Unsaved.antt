-- ===== src/User/Unsaved.antt =====
-- A user without flags cannot be saved.
use trollbot.Prelude.{
  bind_none, ℕ, zero, suc, ◌≡◌, refl, false, List, [], ◌∷◌, ◌++◌, Option, none, some, Bytes, codes,
}
use trollbot.Tconfig.{Blocks, null, block}
use trollbot.Tconfig.Write.{write_blocks, tconfig_to_file}
use trollbot.User.{
  User, UserNetwork, put_entry, user_entries, flags_block, has_no_entry, user_block,
  users_to_tconfig, userfile_of, Written, write_users, save_all, users_save,
}

-- A level with a block that has no key cannot be written.
entry-unwritten :
    (key : Bytes) (v : Option Bytes) (next : Blocks)
    → ((d : ℕ) (s : Bytes) → write_blocks d next s ≡ none)
    → (d : ℕ) (s : Bytes) → write_blocks d (put_entry key v next) s ≡ none
unfolding write_blocks put_entry
entry-unwritten key none next h d s = h d s
entry-unwritten key (some v) next h d s = rw (h d s)

flags_block-unwritten :
    (v : Option Bytes) → v ≡ none → (d : ℕ) (s : Bytes) → write_blocks d (flags_block v) s ≡ none
unfolding write_blocks
flags_block-unwritten none e d s = refl
flags_block-unwritten (some v) e d s = cc

user_entries-unwritten :
    (u : User) → u.flags ≡ none → (d : ℕ) (s : Bytes) → write_blocks d (user_entries u) s ≡ none
unfolding user_entries
user_entries-unwritten u e = entry-unwritten _ u.nick _ (
    entry-unwritten _ u.ident _ (
      entry-unwritten _ u.host _ (
        entry-unwritten _ u.console _ (
          entry-unwritten _ u.uhost _ (
            entry-unwritten _ u.passhash _
              (entry-unwritten _ u.hash_type _ (flags_block-unwritten u.flags e)))))))

nested-unwritten :
    (l : Bytes × Bytes) (c n : Blocks) (d : ℕ) (s : Bytes)
    → ((d : ℕ) (s : Bytes) → write_blocks d c s ≡ none)
    → write_blocks d (block (some l) c n) s ≡ none
unfolding write_blocks
nested-unwritten l null n d s h = cc (h d s)
nested-unwritten l (block x c m) n d s h = bind_none (write_blocks d n s) _ λ rest. rw (h (suc d) _)

next-unwritten :
    (l : Bytes × Bytes) (c n : Blocks) (d : ℕ) (s : Bytes)
    → ((d : ℕ) (s : Bytes) → write_blocks d n s ≡ none)
    → write_blocks d (block (some l) c n) s ≡ none
unfolding write_blocks
next-unwritten l null n d s h = rw (h d s)
next-unwritten l (block x c m) n d s h = rw (h d s)

users-unwritten :
    (us : List User) (u : User) (vs : List User)
    → u.flags ≡ none
    → has_no_entry u ≡ false
    → (d : ℕ) (s : Bytes) → write_blocks d (users_to_tconfig (us ++ u ∷ vs)) s ≡ none
unfolding users_to_tconfig user_block
users-unwritten [] u vs e h d s = rw h (
    nested-unwritten (codes "user", u.username) (user_entries u) (users_to_tconfig vs) d s
      (user_entries-unwritten u e))
users-unwritten (v ∷ us) u vs e h d s =
    next-unwritten (codes "user", v.username) _ (users_to_tconfig (us ++ u ∷ vs)) d s
      (users-unwritten us u vs e h)

pub write_users_no_flags :
    (name : Bytes) (us : List User) (u : User) (vs : List User)
    → u.flags ≡ none
    → has_no_entry u ≡ false
    → write_users name (us ++ u ∷ vs) ≡ none
unfolding write_users tconfig_to_file
write_users_no_flags name [] u vs e h = rw (users-unwritten [] u vs e h zero [])
write_users_no_flags name (v ∷ us) u vs e h = rw (users-unwritten (v ∷ us) u vs e h zero [])

-- `users_save` reads through NULL for a network, and for all networks, where a user of one of them
-- has no flags but another field that is saved: the last of his blocks has no key.
pub users_save_no_flags :
    (net : UserNetwork) (nets others : List UserNetwork) (us : List User) (u : User)
    (vs : List User)
    → net.users ≡ us ++ u ∷ vs
    → u.flags ≡ none
    → has_no_entry u ≡ false
    → (users_save (some net) nets ≡ none) × (users_save none (others ++ net ∷ nets) ≡ none)
unfolding users_save save_all
users_save_no_flags net nets others us u vs at e h = (one net.userfile, every others)
  where
    one :
        (file : Option Bytes)
        → Path
            (Option (List Written))
            (elim file [ none ↦ none | some name ↦ write_users name net.users ])
            none
    one none = refl
    one (some name) = rw (at, write_users_no_flags name us u vs e h)

    every : (others : List UserNetwork) → save_all (others ++ net ∷ nets) ≡ none
    every [] = rw (at, write_users_no_flags (userfile_of net) us u vs e h)
    every (n ∷ others) =
        bind_none (write_users (userfile_of n) n.users) _ λ files. rw (every others)
