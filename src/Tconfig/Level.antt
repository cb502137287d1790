-- ===== src/Tconfig/Level.antt =====
-- One level of the tree while the parser fills it.
use trollbot.Prelude.{◌≡◌, ◌≢◌, refl, ap, ◌∙◌, false, List, ◌∷◌, none, some, arith, Bytes}
use trollbot.Text.Compare.{str_eq_iff}
use trollbot.Tconfig.{
  Label, Blocks, null, block, join, Frame, Cursor, cursor, siblings, fresh, enter, leave, close_in,
  same_label, search, insert,
}

pub join-null : (s : Blocks) → join s null ≡ s
unfolding join
join-null null = refl
join-null (block l c n) = ap (block l c) (join-null n)

pub join-join : (a b c : Blocks) → join (join a b) c ≡ join a (join b c)
unfolding join
join-join null b c = refl
join-join (block l ch n) b c = ap (block l ch) (join-join n b c)

-- No block of the level has this key and value, and all have some.
abbrev pub Unlike : Bytes × Bytes → Blocks → Type 0
Unlike kv null = Unit
Unlike kv (block none c n) = ⊥
Unlike kv (block (some l) c n) = (same_label l kv ≡ false) × Unlike kv n

pub Unlike-join :
    (kv : Bytes × Bytes) (a b : Blocks) → Unlike kv a → Unlike kv b → Unlike kv (join a b)
unfolding join
Unlike-join kv null b h k = k
Unlike-join kv (block (some l) c n) b h k = (h.0, Unlike-join kv n b h.1 k)
Unlike-join kv (block none c n) b h k = absurd h

pub same_label_sym : (l kv : Bytes × Bytes) → same_label l kv ≡ false → same_label kv l ≡ false
unfolding same_label
same_label_sym l kv h =
    ground
      (arith, str_eq_iff l.0 kv.0, str_eq_iff l.1 kv.1, str_eq_iff kv.0 l.0, str_eq_iff kv.1 l.1)

-- The cursor stands somewhere in the level `s`, which has blocks; or the level is new and empty.
pub data Stands (up : List Frame) : Blocks → Cursor → Type 0 where
  anew : Stands up null (fresh up)
  within : {s : Blocks} {c : Cursor} → siblings c ≡ s → s ≢ null → c.up ≡ up → Stands up s c

pub join-block : (s : Blocks) (l : Label) (c n : Blocks) → join s (block l c n) ≢ null
unfolding join
join-block null l c n = λ e. cc
join-block (block k d m) l c n = λ e. cc

-- The cursor at the last block, behind `s`.
abbrev pub last_block : Blocks → Bytes × Bytes → List Frame → Cursor
last_block s kv up = cursor s (some kv) null null up

search-misses :
    (kv : Bytes × Bytes) (left : Blocks) (l : Bytes × Bytes) (child right : Blocks)
    (up : List Frame)
    → Unlike kv (block (some l) child right)
    → search kv left (some l) child right up
      ≡ last_block (join left (block (some l) child right)) kv up
unfolding search
search-misses kv left l child null up h = rw h.0
search-misses kv left l child (block (some m) c n) up h = rw (
  h.0,
  search-misses kv (join left (block (some l) child null)) m c n up h.1,
  join-join left (block (some l) child null) (block (some m) c n),
)
search-misses kv left l child (block none c n) up h = absurd h.1

abbrev first_of : Bytes × Bytes → Cursor → Blocks → List Frame → Cursor
first_of kv c s up = elim s [ null ↦ c | block l ch n ↦ search kv null l ch n up ]

first_of-Unlike :
    (kv : Bytes × Bytes) (c : Cursor) (s : Blocks) (up : List Frame)
    → s ≢ null
    → Unlike kv s
    → first_of kv c s up ≡ last_block s kv up
unfolding join
first_of-Unlike kv c null up ne u = absurd (ne refl)
first_of-Unlike kv c (block (some l) ch n) up ne u = search-misses kv null l ch n up u
first_of-Unlike kv c (block none ch n) up ne u = absurd u

-- An entry that the level does not have yet goes behind its last block.
pub insert-last_block :
    (kv : Bytes × Bytes) {up : List Frame} {s : Blocks} {c : Cursor}
    → Stands up s c
    → Unlike kv s
    → insert kv c ≡ last_block s kv up
unfolding insert siblings join search
insert-last_block kv anew u = refl
insert-last_block kv {up} {s} {c} (within e ne g) u =
    ap (λ x. first_of kv c x c.up) e ∙ ap (first_of kv c s) g ∙ first_of-Unlike kv c s up ne u

pub Stands-last_block :
    (s : Blocks) (kv : Bytes × Bytes) (up : List Frame)
    → Stands up (join s (block (some kv) null null)) (last_block s kv up)
unfolding siblings
Stands-last_block s kv up = within refl (join-block s (some kv) null null) refl

-- `{` behind the last block, and the `}` that leads back to it.
abbrev pub frame : Blocks → Bytes × Bytes → Frame
frame s kv = record { left = s; label = some kv; right = null }

pub enter-last_block :
    (s : Blocks) (kv : Bytes × Bytes) (up : List Frame)
    → enter (last_block s kv up) ≡ fresh (frame s kv ∷ up)
unfolding enter
enter-last_block s kv up = refl

pub leave-frame :
    (s : Blocks) (kv : Bytes × Bytes) {up : List Frame} {t : Blocks} {c : Cursor}
    → t ≢ null
    → Stands (frame s kv ∷ up) t c
    → leave c ≡ some (cursor s (some kv) t null up)
unfolding leave
leave-frame s kv ne anew = absurd (ne refl)
leave-frame s kv {up} {t} {c} ne (within e n g) = ap (λ x. close_in x c.up) e ∙ ap (close_in t) g

pub Stands-frame :
    (s : Blocks) (kv : Bytes × Bytes) (t : Blocks) (up : List Frame)
    → Stands up (join s (block (some kv) t null)) (cursor s (some kv) t null up)
unfolding siblings
Stands-frame s kv t up = within refl (join-block s (some kv) t null) refl
