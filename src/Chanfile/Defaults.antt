-- ===== src/Chanfile/Defaults.antt =====
-- What the defaults of the channel file add to the channels.
use trollbot.Prelude.{
  ◌>>=◌, ◌≡◌, refl, ap, ◌∙◌, Bool, true, false, not, ◌&&◌, ◌||◌, List, [], ◌∷◌, ◌++◌, map, Option,
  none, some, if◌then◌else◌, All, All-append, HasValue, Bytes, codes, Bool-cases, inl, inr,
}
use trollbot.Text.{str_eq}
use trollbot.Channel.{same_text}
use trollbot.Tconfig.{Label, Blocks, null, block}
use trollbot.Tconfig.Merge.{
  going, ended, fresh_child, has_key, any_key, is_at, without_at, add_entry, merge_entry,
  merge_wild, merge_level, tconfig_merge,
}
use trollbot.Chanfile.{ChanRecord, var_blocks, child_blocks, chan_blocks}
use trollbot.Chanfile.Load.{HasVars, IsChanlist}

-- A variable with this key.
unfoldable pub has_var : Bytes → List Label → Bool
unfolding str_eq
has_var k [] = false
has_var k (v ∷ vs) = has_key k v || has_var k vs

-- The defaults whose keys are not there are put behind the others, in their order.
abbrev pub fill_one : Bytes × Bytes → List Label → List Label
fill_one d vs = if has_var d.0 vs then vs else vs ++ some d ∷ []

unfoldable pub fill : List (Bytes × Bytes) → List Label → List Label
unfolding has_var
fill [] vs = vs
fill (d ∷ ds) vs = fill ds (fill_one d vs)

abbrev fill_vars : List (Bytes × Bytes) → Option (List Label) → Option (List Label)
fill_vars ds none = none
fill_vars ds (some vs) = some (fill ds vs)

unfoldable pub filled : List (Bytes × Bytes) → ChanRecord → ChanRecord
unfolding fill
filled ds c = record c { egg_vars = fill_vars ds c.egg_vars }

-- Keys that do not begin with `@`.
abbrev pub NoAt : List (Bytes × Bytes) → Type 0
NoAt ds = All (λ d. is_at d.0 ≡ false) ds

-- Variables that have keys, and one of them at least.
abbrev pub IsKeyed : List Label → Type 0
IsKeyed [] = ⊥
IsKeyed (v ∷ vs) = HasValue v × All (λ w. HasValue w) vs

abbrev pub IsKeyedVars : Option (List Label) → Type 0
IsKeyedVars none = ⊥
IsKeyedVars (some vs) = IsKeyed vs

-- The children of the block `channel *` of the defaults.
abbrev pub default_blocks : List (Bytes × Bytes) → Blocks
default_blocks ds = var_blocks (map some ds)

any_key-var_blocks : (k : Bytes) (vs : List Label) → any_key k (var_blocks vs) ≡ has_var k vs
unfolding any_key var_blocks has_var
any_key-var_blocks k [] = refl
any_key-var_blocks k (v ∷ vs) = ap (◌||◌ (has_key k v)) (any_key-var_blocks k vs)

add_entry-var_blocks :
    (kv : Bytes × Bytes) (v : Label) (vs : List Label)
    → HasValue v
    → All (λ w. HasValue w) vs
    → add_entry kv (var_blocks (v ∷ vs)) ≡ var_blocks (v ∷ (vs ++ some kv ∷ []))
unfolding add_entry var_blocks
add_entry-var_blocks kv none vs h k = absurd h
add_entry-var_blocks kv (some m) [] h k = refl
add_entry-var_blocks kv (some m) (w ∷ vs) h k =
    ap (block (some m) null) (add_entry-var_blocks kv w vs k.0 k.1)

no_at-without_at : (k : Bytes) → is_at k ≡ false → without_at k ≡ k
no_at-without_at [] h = refl
no_at-without_at (c ∷ k) h = rw h

merge_entry-var_blocks :
    (k v : Bytes) (vs : List Label)
    → IsKeyed vs
    → merge_entry k v (var_blocks vs)
      ≡ some (
          if not (is_at k) && any_key k (var_blocks vs)
          then var_blocks vs
          else add_entry (without_at k, v) (var_blocks vs))
unfolding merge_entry var_blocks
merge_entry-var_blocks k v [] h = absurd h
merge_entry-var_blocks k v (w ∷ vs) h = refl

merge_entry-fill_one :
    (d : Bytes × Bytes) (vs : List Label)
    → is_at d.0 ≡ false
    → IsKeyed vs
    → merge_entry d.0 d.1 (var_blocks vs) ≡ some (var_blocks (fill_one d vs))
merge_entry-fill_one d vs n h =
    merge_entry-var_blocks d.0 d.1 vs h
    ∙ ap (λ b. some (tested (not b && any_key d.0 (var_blocks vs)) (without_at d.0))) n
    ∙ ap (λ b. some (tested b (without_at d.0))) (any_key-var_blocks d.0 vs)
    ∙ ap (λ k. some (tested (has_var d.0 vs) k)) (no_at-without_at d.0 n)
    ∙ ap some (go (has_var d.0 vs) vs h)
  where
    tested : Bool → Bytes → Blocks
    tested b k = if b then var_blocks vs else add_entry (k, d.1) (var_blocks vs)

    go :
        (b : Bool) (vs : List Label)
        → IsKeyed vs
        → (if b then var_blocks vs else add_entry d (var_blocks vs))
          ≡ var_blocks (if b then vs else vs ++ some d ∷ [])
    go true vs h = refl
    go false [] h = absurd h
    go false (v ∷ vs) h = add_entry-var_blocks d v vs h.0 h.1

fill_one-IsKeyed : (d : Bytes × Bytes) (vs : List Label) → IsKeyed vs → IsKeyed (fill_one d vs)
fill_one-IsKeyed d [] h = absurd h
fill_one-IsKeyed d (v ∷ vs) h = elim (Bool-cases (has_var d.0 (v ∷ vs))) [
  | inl e ↦ rw e h
  | inr e ↦ rw e (h.0, All-append (λ w. HasValue w) vs (some d ∷ []) h.1 (tt, tt))
]

merge_level_step :
    (d : Bytes × Bytes) (ds : List (Bytes × Bytes)) (vs : List Label)
    → IsKeyed vs
    → merge_level true (default_blocks (d ∷ ds)) (var_blocks vs)
      ≡ (merge_entry d.0 d.1 (var_blocks vs) >>= merge_level true (default_blocks ds))
unfolding merge_level var_blocks
merge_level_step d ds [] h = absurd h
merge_level_step d ds (v ∷ vs) h = refl

merge_level-fill :
    (ds : List (Bytes × Bytes)) (vs : List Label)
    → NoAt ds
    → IsKeyed vs
    → merge_level true (default_blocks ds) (var_blocks vs) ≡ some (going (var_blocks (fill ds vs)))
unfolding fill
merge_level-fill [] vs n h = unfold merge_level in unfold var_blocks in refl
merge_level-fill (d ∷ ds) vs n h =
    merge_level_step d ds vs h
    ∙ ap (λ m. m >>= merge_level true (default_blocks ds)) (merge_entry-fill_one d vs n.0 h)
    ∙ merge_level-fill ds (fill_one d vs) n.1 (fill_one-IsKeyed d vs h)

-- The channels have variables with keys.
abbrev pub AllKeyedVars : List ChanRecord → Type 0
AllKeyedVars cs = All (λ c. IsKeyedVars c.egg_vars) cs

fresh_child-var_blocks :
    (vs : List Label) → IsKeyed vs → fresh_child (var_blocks vs) ≡ var_blocks vs
unfolding var_blocks
fresh_child-var_blocks [] h = absurd h
fresh_child-var_blocks (v ∷ vs) h = refl

merge_child :
    (ds : List (Bytes × Bytes)) (vars : Option (List Label))
    → NoAt ds
    → IsKeyedVars vars
    → (merge_level true (default_blocks ds) (fresh_child (child_blocks vars)) >>= λ m. some m.level)
      ≡ some (child_blocks (fill_vars ds vars))
merge_child ds none n h = absurd h
merge_child ds (some vs) n h =
    ap (λ b. merge_level true (default_blocks ds) b >>= λ m. some m.level)
      (fresh_child-var_blocks vs h)
    ∙ ap (λ r. r >>= λ m. some m.level) (merge_level-fill ds vs n h)

merge_wild-filled :
    (ds : List (Bytes × Bytes)) (cs : List ChanRecord)
    → NoAt ds
    → AllKeyedVars cs
    → merge_wild (codes "channel") (merge_level true (default_blocks ds)) (chan_blocks cs)
      ≡ some (chan_blocks (map (filled ds) cs))
unfolding merge_wild chan_blocks filled str_eq
merge_wild-filled ds [] n h = refl
merge_wild-filled ds (c ∷ cs) n h =
    ap
      (λ r. r >>= λ x.
        merge_wild (codes "channel") (merge_level true (default_blocks ds)) (chan_blocks cs)
        >>= λ y. some (block (some (codes "channel", c.name)) x y))
      (merge_child ds c.egg_vars n h.0)
    ∙ ap
        (λ r. r >>= λ y.
          some (block (some (codes "channel", c.name)) (child_blocks (fill_vars ds c.egg_vars)) y))
        (merge_wild-filled ds cs n h.1)

-- The tree of a file of defaults with one block `channel *`.
abbrev pub defaults_tree : List (Bytes × Bytes) → Blocks
defaults_tree ds = block (some (codes "channel", codes "*")) (default_blocks ds) null

pub tconfig_merge-filled :
    (d : Bytes × Bytes) (ds : List (Bytes × Bytes)) (c : ChanRecord) (cs : List ChanRecord)
    → NoAt (d ∷ ds)
    → AllKeyedVars (c ∷ cs)
    → tconfig_merge (defaults_tree (d ∷ ds)) (chan_blocks (c ∷ cs))
      ≡ some (chan_blocks (map (filled (d ∷ ds)) (c ∷ cs)))
tconfig_merge-filled d ds c cs n h =
    step ∙ ap (λ r. r >>= λ x. some x) (merge_wild-filled (d ∷ ds) (c ∷ cs) n h)
  where
    again :
        (r : Option Blocks)
        → ((r >>= λ x. some (ended x)) >>= λ m. some m.level) ≡ (r >>= λ x. some x)
    again none = refl
    again (some x) = refl

    step : tconfig_merge (defaults_tree (d ∷ ds)) (chan_blocks (c ∷ cs)) ≡ (
        merge_wild
          (codes "channel")
          (merge_level true (default_blocks (d ∷ ds)))
          (chan_blocks (c ∷ cs))
        >>= λ x. some x)
    step =
        unfold tconfig_merge in
        unfold merge_level in
        unfold chan_blocks in
        unfold var_blocks in
        unfold str_eq in
        again (
          merge_wild (codes "channel") (merge_level true (default_blocks (d ∷ ds)))
            (chan_blocks (c ∷ cs)))

filled-HasVars :
    (ds : List (Bytes × Bytes)) (vs : List Label) → HasVars (some vs) → HasVars (some (fill ds vs))
unfolding fill
filled-HasVars [] vs h = h
filled-HasVars (d ∷ ds) [] h = absurd h
filled-HasVars (d ∷ ds) (v ∷ vs) h =
    filled-HasVars ds (fill_one d (v ∷ vs)) (go (has_var d.0 (v ∷ vs)))
  where
    go : (b : Bool) → HasVars (some (if b then v ∷ vs else (v ∷ vs) ++ some d ∷ []))
    go true = tt
    go false = tt

fill_vars-HasVars :
    (ds : List (Bytes × Bytes)) (vars : Option (List Label))
    → HasVars vars
    → HasVars (fill_vars ds vars)
fill_vars-HasVars ds none h = absurd h
fill_vars-HasVars ds (some vs) h = filled-HasVars ds vs h

filled-Others :
    (ds : List (Bytes × Bytes)) (c : ChanRecord) (cs : List ChanRecord)
    → All (λ d. same_text c.name d.name ≡ false) cs
    → All (λ d. same_text c.name d.name ≡ false) (map (filled ds) cs)
unfolding filled
filled-Others ds c [] h = tt
filled-Others ds c (d ∷ cs) h = (h.0, filled-Others ds c cs h.1)

pub filled-IsChanlist :
    (ds : List (Bytes × Bytes)) (cs : List ChanRecord)
    → IsChanlist cs
    → IsChanlist (map (filled ds) cs)
unfolding filled
filled-IsChanlist ds [] h = tt
filled-IsChanlist ds (c ∷ cs) h =
    (fill_vars-HasVars ds c.egg_vars h.0, filled-Others ds c cs h.1, filled-IsChanlist ds cs h.2)
