-- ===== src/User/Entries.antt =====
-- The entries that a user is saved as: distinct keys, and texts that the file format can hold.
use trollbot.Prelude.{
  ◌≡◌, refl, Bool, true, false, ◌&&◌, not, none, some, Option, Bytes, codes, List, [], ◌∷◌, All,
  Gives, HasValue, Gives-HasValue, subst, sym, arith,
}
use trollbot.Text.{str_eq}
use trollbot.Tconfig.{Blocks, null, block, same_label}
use trollbot.Tconfig.Level.{Unlike}
use trollbot.Tconfig.Words.{is_text_byte, begins_key, IsText, IsKey}
use trollbot.Tconfig.RoundTrip.{IsConfig}
use trollbot.User.{User, put_entry, user_entries, flags_block}

-- A field that is NULL or a text.
abbrev pub IsOptText : Option Bytes → Type 0
IsOptText none = Unit
IsOptText (some v) = IsText v

-- No block of the level has the key, and all have one.
abbrev pub WithoutKey : Bytes → Blocks → Type 0
WithoutKey k null = Unit
WithoutKey k (block none c n) = ⊥
WithoutKey k (block (some kv) c n) = (str_eq kv.0 k ≡ false) × WithoutKey k n

-- The entries that are there, one block for each.
unfoldable pub put_all : List (Bytes × Option Bytes) → Blocks
unfolding put_entry
put_all [] = null
put_all (e ∷ es) = put_entry e.0 e.1 (put_all es)

unfoldable no_key : Bytes → List (Bytes × Option Bytes) → Bool
unfolding str_eq
no_key k [] = true
no_key k (e ∷ es) = not (str_eq e.0 k) && no_key k es

unfoldable keys_differ : List (Bytes × Option Bytes) → Bool
unfolding no_key
keys_differ [] = true
keys_differ (e ∷ es) = no_key e.0 es && keys_differ es

WithoutKey-put_all :
    (k : Bytes) (es : List (Bytes × Option Bytes)) → no_key k es ≡ true → WithoutKey k (put_all es)
unfolding put_all no_key put_entry
WithoutKey-put_all k [] h = tt
WithoutKey-put_all k ((key, none) ∷ es) h = WithoutKey-put_all k es (ground arith)
WithoutKey-put_all k ((key, some v) ∷ es) h = (ground arith, WithoutKey-put_all k es (ground arith))

Unlike-WithoutKey : (k v : Bytes) (b : Blocks) → WithoutKey k b → Unlike (k, v) b
unfolding same_label
Unlike-WithoutKey k v null h = tt
Unlike-WithoutKey k v (block none c n) h = absurd h
Unlike-WithoutKey k v (block (some kv) c n) h = (rw h.0, Unlike-WithoutKey k v n h.1)

-- Entries with keys that differ and texts make a level of a configuration file.
put_all-IsConfig :
    (es : List (Bytes × Option Bytes))
    → keys_differ es ≡ true
    → All (λ e. IsKey e.0 × IsOptText e.1) es
    → IsConfig (put_all es)
unfolding put_all keys_differ put_entry
put_all-IsConfig [] d h = tt
put_all-IsConfig ((key, none) ∷ es) d h = put_all-IsConfig es (ground arith) h.1
put_all-IsConfig ((key, some v) ∷ es) d h = (
  h.0.0,
  h.0.1,
  Unlike-WithoutKey key v (put_all es) (WithoutKey-put_all key es (ground arith)),
  tt,
  put_all-IsConfig es (ground arith) h.1,
)

-- The fields that are saved are NULL or texts, and there are flags.
pub record IsStored (u : User) : Type 0 where
  pub nick : IsOptText u.nick
  pub ident : IsOptText u.ident
  pub host : IsOptText u.host
  pub console : IsOptText u.console
  pub uhost : IsOptText u.uhost
  pub passhash : IsOptText u.passhash
  pub hash_type : IsOptText u.hash_type
  pub flags : Gives IsText u.flags

keys :
    (IsKey (codes "nick"))
    × (IsKey (codes "ident"))
    × (IsKey (codes "host"))
    × (IsKey (codes "console"))
    × (IsKey (codes "uhost"))
    × (IsKey (codes "passhash"))
    × (IsKey (codes "hash_type"))
    × (IsKey (codes "flags"))
unfolding is_text_byte begins_key
keys = (
  (refl, (refl, (refl, (refl, (refl, tt))))),
  (refl, (refl, (refl, (refl, (refl, (refl, tt)))))),
  (refl, (refl, (refl, (refl, (refl, tt))))),
  (refl, (refl, (refl, (refl, (refl, (refl, (refl, (refl, tt)))))))),
  (refl, (refl, (refl, (refl, (refl, (refl, tt)))))),
  (refl, (refl, (refl, (refl, (refl, (refl, (refl, (refl, (refl, tt))))))))),
  (refl, (refl, (refl, (refl, (refl, (refl, (refl, (refl, (refl, (refl, tt)))))))))),
  (refl, (refl, (refl, (refl, (refl, (refl, tt)))))),
)

-- The fields in the order of the file.
abbrev pub fields : User → List (Bytes × Option Bytes)
fields u =
    (codes "nick", u.nick)
    ∷ (codes "ident", u.ident)
    ∷ (codes "host", u.host)
    ∷ (codes "console", u.console)
    ∷ (codes "uhost", u.uhost)
    ∷ (codes "passhash", u.passhash)
    ∷ (codes "hash_type", u.hash_type)
    ∷ (codes "flags", u.flags)
    ∷ []

pub flags_block-entry :
    (v : Option Bytes) → HasValue v → flags_block v ≡ put_entry (codes "flags") v null
unfolding put_entry
flags_block-entry none h = absurd h
flags_block-entry (some v) h = refl

pub user_entries-put_all : (u : User) → HasValue u.flags → user_entries u ≡ put_all (fields u)
unfolding user_entries put_all
user_entries-put_all u h = rw (flags_block-entry u.flags h)

differ : (u : User) → keys_differ (fields u) ≡ true
unfolding keys_differ no_key str_eq
differ u = refl

IsOptText-flags : (v : Option Bytes) → Gives IsText v → IsOptText v
IsOptText-flags none h = absurd h
IsOptText-flags (some v) h = h

pub user_entries-IsConfig : (u : User) → IsStored u → IsConfig (user_entries u)
user_entries-IsConfig u h =
    subst IsConfig (sym (user_entries-put_all u (Gives-HasValue IsText u.flags h.flags))) (
      put_all-IsConfig (fields u) (differ u) (
        (keys.0, h.nick),
        (
          (keys.1, h.ident),
          (
            (keys.2, h.host),
            (
              (keys.3, h.console),
              (
                (keys.4, h.uhost),
                (
                  (keys.5, h.passhash),
                  ((keys.6, h.hash_type), ((keys.7, IsOptText-flags u.flags h.flags), tt)),
                ),
              ),
            ),
          ),
        ),
      ))
