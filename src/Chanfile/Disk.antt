-- ===== src/Chanfile/Disk.antt =====
-- The channel file from one run of the bot to the next.
use trollbot.Prelude.{
  ◌>>=◌, Gives, Gives-weaken, ◌≡◌, ◌≢◌, refl, ap, ◌∙◌, List, [], ◌∷◌, map, none, some, Bytes,
}
use trollbot.Tconfig.{null, tree, file_to_tconfig}
use trollbot.Tconfig.Write.{tconfig_to_file}
use trollbot.Tconfig.RoundTrip.{IsConfig, file_to_tconfig-tconfig_to_file}
use trollbot.Tconfig.Merge.{tconfig_merge}
use trollbot.Chanfile.{
  ChanRecord, chan_blocks, chans_to_tconfig, parsed_tree, with_defaults, link_chans, chan_init,
  chans_save,
}
use trollbot.Chanfile.Load.{turned, IsChanlist, new_to_none, link_chans-chan_blocks}
use trollbot.Chanfile.Defaults.{
  NoAt, AllKeyedVars, filled, defaults_tree, tconfig_merge-filled, filled-IsChanlist,
}

not_null : (c : ChanRecord) (cs : List ChanRecord) → chan_blocks (c ∷ cs) ≢ null
unfolding chan_blocks
not_null c cs = λ e. cc

links :
    (cs : List ChanRecord) → IsChanlist cs → link_chans (chan_blocks cs) [] ≡ some (map turned cs)
links cs h = link_chans-chan_blocks cs [] h (new_to_none cs)

-- Without a file of defaults, the loop runs over the tree of the channel file.
chan_init_alone :
    (text : Bytes) (cs : List ChanRecord)
    → IsChanlist cs
    → file_to_tconfig text ≡ tree (chan_blocks cs)
    → chan_init none text [] ≡ some (map turned cs)
unfolding chan_init
chan_init_alone text cs h e = ap (λ p. parsed_tree p >>= λ t. link_chans t []) e ∙ links cs h

-- With one, over that tree with the defaults put in.
chan_init_with :
    (defaults text : Bytes) (d : Bytes × Bytes) (ds : List (Bytes × Bytes)) (c : ChanRecord)
    (cs : List ChanRecord)
    → IsChanlist (c ∷ cs)
    → AllKeyedVars (c ∷ cs)
    → NoAt (d ∷ ds)
    → file_to_tconfig defaults ≡ tree (defaults_tree (d ∷ ds))
    → file_to_tconfig text ≡ tree (chan_blocks (c ∷ cs))
    → chan_init (some defaults) text [] ≡ some (map turned (map (filled (d ∷ ds)) (c ∷ cs)))
unfolding chan_init
chan_init_with defaults text d ds c cs h a n ed e =
    ap (λ p. parsed_tree p >>= λ t. with_defaults (some defaults) t >>= λ t. link_chans t []) e
    ∙ ap
        (λ p.
          (parsed_tree p >>= λ s. tconfig_merge s (chan_blocks (c ∷ cs))) >>= λ t. link_chans t [])
        ed
    ∙ ap (λ m. m >>= λ t. link_chans t []) (tconfig_merge-filled d ds c cs n a)
    ∙ links (map (filled (d ∷ ds)) (c ∷ cs)) (filled-IsChanlist (d ∷ ds) (c ∷ cs) h)

-- The channels that `chans_save` writes and `chan_init` reads back, where names, keys and values
-- are not empty, without quotes and line ends, no key begins with `{`, `}` or `/`, there is a
-- channel, every channel has variables, each with a key and none twice, and the channel names
-- differ up to case. Without a file `db/chandb.defaults`, they are the channels saved, each with
-- its variables in the other order. With one that is a block `channel *` with entries only, one at
-- least, whose keys do not begin with `@`, each channel has in addition, put behind its own
-- variables before the order is turned, the entries whose keys it does not have, in the order of
-- that file, of those with one key the first.
pub chan_init-chans_save :
    (cs : List ChanRecord) (defaults : Bytes) (d : Bytes × Bytes) (ds : List (Bytes × Bytes))
    → cs ≢ []
    → IsChanlist cs
    → IsConfig (chan_blocks cs)
    → AllKeyedVars cs
    → NoAt (d ∷ ds)
    → file_to_tconfig defaults ≡ tree (defaults_tree (d ∷ ds))
    → Gives
        (λ text.
          (chan_init none text [] ≡ some (map turned cs))
          × (chan_init (some defaults) text [] ≡ some (map turned (map (filled (d ∷ ds)) cs))))
        (chans_save cs)
unfolding chans_save chans_to_tconfig
chan_init-chans_save [] defaults d ds ne h k a n ed = absurd (ne refl)
chan_init-chans_save (c ∷ cs) defaults d ds ne h k a n ed =
    Gives-weaken (λ text. file_to_tconfig text ≡ tree (chan_blocks (c ∷ cs))) _
      (tconfig_to_file (chan_blocks (c ∷ cs)))
      (file_to_tconfig-tconfig_to_file (chan_blocks (c ∷ cs)) (not_null c cs) k)
      λ text e.
        (chan_init_alone text (c ∷ cs) h e, chan_init_with defaults text d ds c cs h a n ed e)
