-- ===== src/Tconfig/Merge.antt =====
-- `tconfig_merge` of src/tconfig.c. The level of the destination is taken from its front: a block
-- without a key is alone in its level, as the parser and the merge itself leave it, a source block
-- with children has a key, and a level whose first block lost its parent is not entered again.
-- `none` is a fault.
use trollbot.Prelude.{
  ◌>>=◌, Bool, true, false, ◌&&◌, ◌||◌, not, [], ◌∷◌, Option, none, some, ◌==◌, if◌then◌else◌,
  Bytes, codes,
}
use trollbot.Text.{str_eq}
use trollbot.Tconfig.{Label, Blocks, null, block}

-- What a merge leaves of a level: the blocks, whether the whole merge is over, and whether the
-- first block has lost its pointer to the parent.
pub record Merging : Type 0 where
  pub level : Blocks
  pub over : Bool
  pub orphan : Bool

abbrev pub going : Blocks → Merging
going level = record { level = level; over = false; orphan = false }

abbrev pub has_key : Bytes → Label → Bool
has_key k none = false
has_key k (some m) = str_eq k m.0

-- The search for the key of an entry.
unfoldable pub any_key : Bytes → Blocks → Bool
unfolding str_eq
any_key k null = false
any_key k (block l child next) = has_key k l || any_key k next

abbrev pub is_at : Bytes → Bool
is_at [] = false
is_at (c ∷ k) = c == b'@'

abbrev pub without_at : Bytes → Bytes
without_at [] = []
without_at (c ∷ k) = if c == b'@' then k else c ∷ k

-- The entry goes behind the others, or into a block without a key, which is then the last.
unfoldable pub add_entry : Bytes × Bytes → Blocks → Blocks
add_entry kv null = null
add_entry kv (block none child next) = block (some kv) child null
add_entry kv (block (some m) child null) = block (some m) child (block (some kv) null null)
add_entry kv (block (some m) child (block l c n)) =
    block (some m) child (add_entry kv (block l c n))

-- An entry that is there is left out, unless its key begins with `@`.
unfoldable pub merge_entry : (k v : Bytes) → Blocks → Option Blocks
unfolding any_key add_entry
merge_entry k v null = none
merge_entry k v (block l c n) = some (
    if not (is_at k) && any_key k (block l c n)
    then block l c n
    else add_entry (without_at k, v) (block l c n))

-- A level that is made for a block without children.
abbrev pub fresh_child : Blocks → Blocks
fresh_child null = block none null null
fresh_child (block l c n) = block l c n

-- A wildcard: the children are merged into those of every block with the key.
unfoldable pub merge_wild : (k : Bytes) → (Blocks → Option Merging) → Blocks → Option Blocks
unfolding str_eq
merge_wild k f null = some null
merge_wild k f (block l child next) = do
  child' ← if has_key k l then (f (fresh_child child) >>= λ m. some m.level) else some child
  next' ← merge_wild k f next
  some (block l child' next')

abbrev pub same_block : Bytes × Bytes → Label → Bool
same_block kv none = false
same_block kv (some m) = str_eq kv.0 m.0 && str_eq kv.1 m.1

-- The level behind a block with children, how the merge into the children ended, and whether the
-- first block of the level lost its parent: a block without a key does when it becomes a parent.
pub record ParentStep : Type 0 where
  pub level : Blocks
  pub inner : Merging
  pub lost : Bool

abbrev pub parent_step : (Blocks → Blocks) → Bool → Merging → ParentStep
parent_step put lost m = record { level = put m.level; inner = m; lost = lost }

abbrev pub behind_block : Label → Blocks → ParentStep → ParentStep
behind_block l child r = record r { level = block l child r.level }

-- The children are merged into those of the first block with the key and the value, or of a new one
-- behind the others.
unfoldable pub merge_parent : Bytes × Bytes → (Blocks → Option Merging) → Blocks → Option ParentStep
unfolding str_eq
merge_parent kv f null = none
merge_parent kv f (block none child null) =
    f (block none null null) >>= λ m. some (parent_step (λ x. block (some kv) x null) true m)
merge_parent kv f (block (some l) child null) =
    if same_block kv (some l)
    then (f child >>= λ m. some (parent_step (λ x. block (some l) x null) false m))
    else (f (block none null null) >>= λ m.
        some (parent_step (λ x. block (some l) child (block (some kv) x null)) false m))
merge_parent kv f (block l child (block a b c)) =
    let rest = merge_parent kv f (block a b c) >>= λ r. some (behind_block l child r) in
    if same_block kv l
    then (f child >>= λ m. some (parent_step (λ x. block l x (block a b c)) false m))
    else rest

abbrev pub ended : Blocks → Merging
ended level = record { level = level; over = true; orphan = false }

abbrev pub lose : Bool → Merging → Merging
lose lost m = record m { orphan = lost || m.orphan }

-- A wildcard that is the last of its level ends the whole merge.
abbrev pub after_wild : (next : Blocks) → Blocks → Option Merging → Option Merging
after_wild null level rest = some (ended level)
after_wild (block l c n) level rest = rest

-- The way back from children whose first block lost its parent ends in NULL, which is read unless
-- the merge ends there.
abbrev pub orphaned : (top : Bool) (next : Blocks) → Blocks → Option Merging
orphaned true null level = some (going level)
orphaned false null level = none
orphaned top (block l c n) level = none

abbrev pub after_parent :
    (top : Bool) (next : Blocks) → ParentStep → Option Merging → Option Merging
after_parent top next step rest =
    (if step.inner.over
      then some (ended step.level)
      else if step.inner.orphan
      then orphaned top next step.level
      else rest)
    >>= λ m. some (lose step.lost m)

-- The merge of a level; `top` says that it is the one that the call began with.
unfoldable pub merge_level : (top : Bool) → (src dst : Blocks) → Option Merging
unfolding merge_entry merge_wild merge_parent str_eq
merge_level top null dst = some (going dst)
merge_level top (block l child next) null = none
merge_level top (block none child next) (block m c n) = none
merge_level top (block (some kv) null next) (block m c n) =
    merge_entry kv.0 kv.1 (block m c n) >>= merge_level top next
merge_level top (block (some kv) (block a b d) next) (block m c n) =
    if str_eq kv.1 (codes "*")
    then (merge_wild kv.0 (merge_level true (block a b d)) (block m c n) >>= λ level.
        after_wild next level (merge_level top next level))
    else (merge_parent kv (merge_level false (block a b d)) (block m c n) >>= λ step.
        after_parent top next step (merge_level top next step.level))

-- `tconfig_merge`
unfoldable pub tconfig_merge : (src dst : Blocks) → Option Blocks
unfolding merge_level
tconfig_merge src null = some null
tconfig_merge src (block l child next) =
    merge_level true src (block l child next) >>= λ m. some m.level
