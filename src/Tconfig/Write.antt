-- ===== src/Tconfig/Write.antt =====
-- The writer, `tconfig_r_depth_first_write` of src/tconfig.c: a level, the levels below it, and the
-- `}` behind each. `none`: a block without a key is written.
use trollbot.Prelude.{
  ◌>>=◌, ℕ, zero, suc, ◌||◌, [], ◌∷◌, ◌++◌, Option, none, some, if◌then◌else◌, Bytes,
}
use trollbot.Text.{has_byte}
use trollbot.Tconfig.{Blocks, null, block}

-- `for (i = 0; i < depth * 2; i++) fputc(' ', out)`
unfoldable pub indent : ℕ → Bytes → Bytes
indent zero s = s
indent (suc d) s = b' ' ∷ b' ' ∷ indent d s

-- A key or a value, in quotes if it has a blank.
unfoldable pub quote : Bytes → Bytes → Bytes
unfolding has_byte
quote w s = if has_byte b' ' w || has_byte b'\t' w then b'"' ∷ (w ++ b'"' ∷ s) else w ++ s

abbrev pub write_label : ℕ → Bytes × Bytes → Bytes → Bytes
write_label d kv s = indent d (quote kv.0 (b'\t' ∷ quote kv.1 (b'\n' ∷ s)))

-- The text of a level `d` deep, before the text `s`.
unfoldable pub write_blocks : ℕ → Blocks → Bytes → Option Bytes
unfolding indent quote
write_blocks d null s = some s
write_blocks d (block none child next) s = none
write_blocks d (block (some kv) null next) s = do
  rest ← write_blocks d next s
  some (write_label d kv rest)
write_blocks d (block (some kv) (block l c n) next) s = do
  rest ← write_blocks d next s
  inner ← write_blocks (suc d) (block l c n) (indent d (b'}' ∷ b'\n' ∷ b'\n' ∷ rest))
  some (b'\n' ∷ write_label d kv (indent d (b'{' ∷ b'\n' ∷ inner)))

-- `tconfig_to_file`, for a tree that is there and a file that can be written: the text of the file.
unfoldable pub tconfig_to_file : Blocks → Option Bytes
unfolding write_blocks
tconfig_to_file t = write_blocks zero t []
