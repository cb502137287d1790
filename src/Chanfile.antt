-- ===== src/Chanfile.antt =====
-- The channel file: `chans_to_tconfig`, `new_chan_from_tconfig_block`, `chans_save` for one network
-- and `chan_init` for one network, of src/channel.c. `none` is a fault: a NULL key for `strcmp` or
-- `strchr`, or no channel to save.
pub mod Load
pub mod Defaults
pub mod Disk
use trollbot.Prelude.{
  ◌>>=◌, Bool, true, false, ◌||◌, List, [], ◌∷◌, ◌++◌, Option, none, some, if◌then◌else◌, Bytes,
  codes,
}
use trollbot.Text.{str_eq, tstrcasecmp}
use trollbot.Channel.{same_text}
use trollbot.Tconfig.{Label, Blocks, null, block, Parsed, file_to_tconfig}
use trollbot.Tconfig.Merge.{tconfig_merge}
use trollbot.Tconfig.Write.{tconfig_to_file}

-- What these functions use of a `struct channel`. An eggdrop variable is a key and a value, which
-- are NULL together, and the list of them is NULL where nothing was put in.
pub record ChanRecord : Type 0 where
  pub name : Bytes
  pub egg_vars : Option (List Label)

-- The blocks of the variables, in the order of the list.
unfoldable pub var_blocks : List Label → Blocks
var_blocks [] = null
var_blocks (v ∷ vs) = block v null (var_blocks vs)

abbrev pub child_blocks : Option (List Label) → Blocks
child_blocks none = null
child_blocks (some vs) = var_blocks vs

-- The loop of `chans_to_tconfig`: a block for each channel.
unfoldable pub chan_blocks : List ChanRecord → Blocks
unfolding var_blocks
chan_blocks [] = null
chan_blocks (c ∷ cs) =
    block (some (codes "channel", c.name)) (child_blocks c.egg_vars) (chan_blocks cs)

-- `chans_to_tconfig`. Without a channel its last loop reads through NULL.
unfoldable pub chans_to_tconfig : List ChanRecord → Option Blocks
unfolding chan_blocks
chans_to_tconfig [] = none
chans_to_tconfig (c ∷ cs) = some (chan_blocks (c ∷ cs))

-- The loop over the entries: `slist_insert_next` with a NULL node puts each in front.
unfoldable pub insert_vars : Blocks → List Label → List Label
insert_vars null vs = vs
insert_vars (block v child next) vs = insert_vars next (v ∷ vs)

abbrev pub chan_of : Bytes → Blocks → Option ChanRecord
chan_of name null = none
chan_of name (block v c n) =
    some (record { name = name; egg_vars = some (insert_vars (block v c n) []) })

-- `new_chan_from_tconfig_block`, for a block that is there; `some none` for its NULL.
unfoldable pub new_chan_from_tconfig_block : Label → Blocks → Option (Option ChanRecord)
unfolding insert_vars str_eq
new_chan_from_tconfig_block none child = none
new_chan_from_tconfig_block (some kv) child =
    some (if str_eq kv.0 (codes "channel") then chan_of kv.1 child else none)

unfoldable pub has_name : Bytes → List ChanRecord → Bool
unfolding tstrcasecmp
has_name name [] = false
has_name name (c ∷ cs) = same_text c.name name || has_name name cs

abbrev pub link_chan : List ChanRecord → Option ChanRecord → List ChanRecord
link_chan chans none = chans
link_chan chans (some c) = if has_name c.name chans then chans else chans ++ c ∷ []

-- The loop of `chan_init` over the blocks of the file: `net->chans` behind it. It ends at a block
-- without a key, and a channel whose name is there is left out.
unfoldable pub link_chans : Blocks → List ChanRecord → Option (List ChanRecord)
unfolding new_chan_from_tconfig_block has_name
link_chans null chans = some chans
link_chans (block none child next) chans = some chans
link_chans (block (some kv) child next) chans = do
  chan ← new_chan_from_tconfig_block (some kv) child
  link_chans next (link_chan chans chan)

-- What `file_to_tconfig` returns, where it returns.
abbrev pub parsed_tree : Parsed → Option Blocks
parsed_tree (Parsed.tree t) = some t
parsed_tree Parsed.exits = none
parsed_tree Parsed.reads_on = none
parsed_tree Parsed.out_of_fuel = none

-- The file of defaults, NULL where there is none, merged into the tree of the channel file.
abbrev pub with_defaults : (defaults : Option Bytes) → Blocks → Option Blocks
with_defaults none t = some t
with_defaults (some text) t = parsed_tree (file_to_tconfig text) >>= λ s. tconfig_merge s t

-- `chan_init` for a network whose channel file reads as this text, with the text of
-- `db/chandb.defaults`, if there is one: its channels. The merge into the configuration, behind the
-- loop, is left out.
unfoldable pub chan_init :
    (defaults : Option Bytes) (text : Bytes) → List ChanRecord → Option (List ChanRecord)
unfolding file_to_tconfig tconfig_merge link_chans
chan_init defaults text chans = do
  file ← parsed_tree (file_to_tconfig text)
  chantcfg ← with_defaults defaults file
  link_chans chantcfg chans

-- `chans_save` for a network with a channel file that can be written: its text afterwards.
unfoldable pub chans_save : List ChanRecord → Option Bytes
unfolding chans_to_tconfig tconfig_to_file
chans_save cs = chans_to_tconfig cs >>= tconfig_to_file
