-- ===== src/Tconfig/RoundTrip.antt =====
-- What the writer writes, the parser reads.
use trollbot.Prelude.{
  Gives, Gives-bind, Gives-weaken, ℕ, zero, suc, ◌+◌, ◌≡◌, ◌≢◌, refl, sym, ap, ◌∙◌, subst, List, [],
  ◌∷◌, none, some, arith, length, Bytes,
}
use trollbot.Tconfig.{
  Blocks, null, block, join, Frame, Cursor, cursor, siblings, fresh, tree, rewind, file_to_tconfig,
}
use trollbot.Tconfig.Write.{indent, write_label, write_blocks, tconfig_to_file}
use trollbot.Tconfig.Level.{
  join-null, join-join, Unlike, Unlike-join, same_label_sym, Stands, anew, within, last_block,
  insert-last_block, Stands-last_block, frame, enter-last_block, leave-frame, Stands-frame,
}
use trollbot.Tconfig.Words.{IsText, IsKey}
use trollbot.Tconfig.Rounds.{
  Rounds, after, parse_loop-Rounds, newline-Rounds, indent-Rounds, label-Rounds, enter-Rounds,
  leave-Rounds, here,
}

-- A level that can be written and read: every block has a key and a value, which are texts, no two
-- blocks of a level have the same, and so in every child.
abbrev pub IsConfig : Blocks → Type 0
IsConfig null = Unit
IsConfig (block none c n) = ⊥
IsConfig (block (some kv) c n) = IsKey kv.0 × IsText kv.1 × Unlike kv n × IsConfig c × IsConfig n

-- No block of the second level is in the first.
abbrev Apart : Blocks → Blocks → Type 0
Apart s null = Unit
Apart s (block none c n) = ⊥
Apart s (block (some kv) c n) = Unlike kv s × Apart s n

Apart-join :
    (s : Blocks) (kv : Bytes × Bytes) (c n : Blocks)
    → Apart s n
    → Unlike kv n
    → Apart (join s (block (some kv) c null)) n
Apart-join s kv c null h u = tt
Apart-join s kv c (block (some l) d n) h u = (
  Unlike-join l s (block (some kv) c null) h.0 (same_label_sym l kv u.0, tt),
  Apart-join s kv c n h.1 u.1,
)
Apart-join s kv c (block none d n) h u = absurd h

Apart-null : (n : Blocks) → IsConfig n → Apart null n
Apart-null null h = tt
Apart-null (block (some kv) c n) h = (tt, Apart-null n h.4)
Apart-null (block none c n) h = absurd h

-- The line of a label leads to a last block with that label.
line-Rounds :
    (d : ℕ) (kv : Bytes × Bytes) (s : Blocks) (text : Bytes) {up : List Frame} {c : Cursor}
    → Stands up s c
    → Unlike kv s
    → IsKey kv.0
    → IsText kv.1
    → Rounds c (write_label d kv text) (last_block s kv up) text
line-Rounds d kv s text {up} {c} st u h t =
    subst (λ e. Rounds c (write_label d kv text) e text) (insert-last_block kv st u)
      (label-Rounds c d kv text h t)

-- Where the rounds of a written level end.
abbrev Fills : Cursor → List Frame → Blocks → Bytes → Bytes → Type 0
Fills c up t r w = (e : Cursor) × Rounds c w e r × Stands up t e

write_blocks-Fills :
    (ts : Blocks) (d : ℕ) (s : Blocks) (r : Bytes) {up : List Frame} {c : Cursor}
    → IsConfig ts
    → Apart s ts
    → Stands up s c
    → Gives (Fills c up (join s ts) r) (write_blocks d ts r)
unfolding write_blocks join
write_blocks-Fills null d s r {up} {c} h a st =
    (c, here, subst (λ x. Stands up x c) (sym (join-null s)) st)
write_blocks-Fills (block none ch n) d s r h a st = absurd h
write_blocks-Fills (block (some kv) null n) d s r {up} {c} h a st =
    Gives-bind (Fills (last_block s kv up) up (join (join s (block (some kv) null null)) n) r) _
      (write_blocks d n r) _
      (write_blocks-Fills n d (join s (block (some kv) null null)) r h.4
        (Apart-join s kv null n a.1 h.2) (Stands-last_block s kv up))
      λ rest f. (
        f.0,
        after (line-Rounds d kv s rest st a.0 h.0 h.1) f.1,
        subst (λ x. Stands up x f.0) (join-join s (block (some kv) null null) n) f.2,
      )
write_blocks-Fills (block (some kv) (block l ch m) n) d s r {up} {c} h a st =
    let child = block l ch m in
    let behind = join s (block (some kv) child null) in
    let back = cursor s (some kv) child null up in
    Gives-bind (Fills back up (join behind n) r) _ (write_blocks d n r) _
      (write_blocks-Fills n d behind r h.4 (Apart-join s kv child n a.1 h.2)
        (Stands-frame s kv child up))
      λ rest f.
        Gives-bind
          (Fills (fresh (frame s kv ∷ up)) (frame s kv ∷ up) child
            (indent d (b'}' ∷ b'\n' ∷ b'\n' ∷ rest)))
          _ (write_blocks (suc d) child (indent d (b'}' ∷ b'\n' ∷ b'\n' ∷ rest))) _
          (write_blocks-Fills (block l ch m) (suc d) null (indent d (b'}' ∷ b'\n' ∷ b'\n' ∷ rest))
            h.3 (Apart-null child h.3) anew)
          λ inner g. (
            f.0,
            after (newline-Rounds c _) (
                after (line-Rounds d kv s _ st a.0 h.0 h.1) (
                  after (indent-Rounds (last_block s kv up) d _) (
                    after (enter-Rounds (last_block s kv up) inner) (
                      after
                        (subst (λ x. Rounds x inner g.0 (indent d (b'}' ∷ b'\n' ∷ b'\n' ∷ rest)))
                          (sym (enter-last_block s kv up)) g.1)
                        (after (indent-Rounds g.0 d _) (
                          after (leave-Rounds g.0 back rest (leave-frame s kv (λ e. cc) g.2))
                            f.1)))))),
            subst (λ x. Stands up x f.0) (join-join s (block (some kv) child null) n) f.2,
          )

tree-Stands :
    {t : Blocks} {c : Cursor} → t ≢ null → Stands [] t c → tree (rewind c.up (siblings c)) ≡ tree t
unfolding rewind
tree-Stands ne anew = absurd (ne refl)
tree-Stands {t} {c} ne (within e n g) = ap (λ u. tree (rewind u (siblings c))) g ∙ ap tree e

-- A configuration tree is written without a fault, and the parser reads the file as the same tree,
-- where it has at least one block, every block has a key and a value that are not empty and have no
-- quotes and line ends, the key does not begin with `{`, `}` or `/`, and no two blocks of a level
-- have the same key and value.
pub file_to_tconfig-tconfig_to_file :
    (t : Blocks)
    → t ≢ null
    → IsConfig t
    → Gives (λ text. file_to_tconfig text ≡ tree t) (tconfig_to_file t)
unfolding tconfig_to_file file_to_tconfig join
file_to_tconfig-tconfig_to_file t ne h =
    Gives-weaken (Fills (fresh []) [] t []) _ (write_blocks zero t [])
      (write_blocks-Fills t zero null [] h (Apart-null t h) anew)
      λ text f. parse_loop-Rounds (length text + 1) f.1 refl (omega arith) ∙ tree-Stands ne f.2
