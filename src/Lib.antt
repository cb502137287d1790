-- ===== src/Lib.antt =====
-- Trollbot, an IRC bot in C with eggdrop's bind tables, as definitions that compute and theorems
-- about them.
--
-- The bot reads lines from a server (src/irc.c), splits each into a message, answers PING, and
-- passes the message to the trigger tables (src/irc_trigger.c). The masks of the triggers are
-- wildcard patterns (src/troll_lib.c, src/util.c). Handlers keep the channels of a network
-- (src/channel.c) in step with the server: JOIN, PART, QUIT and KICK (src/irc_proto.c), NICK, TOPIC,
-- MODE, redirections and WHO replies (src/troll_lib.c) and NAMES replies (src/channel.c). All tables,
-- users, bans, channels, log filters and timers are doubly linked lists.
--
-- Users and channels are kept in files between runs (src/user.c, src/channel.c), written as the
-- configuration trees (src/tconfig.c) that the configuration itself is read from
-- (src/config_engine.c). Scripts work on users, binds, bans and channels through the eggdrop library
-- (src/egg_lib.c), and so do users who log in on a DCC session (src/dcc.c).
--
--   Prelude    library names, Boolean tests, lists over the native numbers, `Option` as a fault,
--              and the integers (Prelude.Int)
--   Text       tstrcasecmp, tstrncasecmp and tssv_split of src/util.c, and atoi (Text.Number)
--   Wildcard   matchwilds of src/util.c and troll_matchwilds of src/troll_lib.c. Wildcard.Language
--              is the mask language of their comments.
--   Store      a heap with prev and next pointers; a read through NULL or a freed node is a fault
--   Dlist      user_list_add, user_list_del and their copies in src/channel.c, src/irc_trigger.c,
--              src/server.c, src/dcc.c, src/log_filter.c and src/t_timer.c (Dlist.Uses lists them)
--   Timer      t_timers_check of src/t_timer.c
--   Irc        the parser of parse_irc_line, src/irc.c
--   Trigger    new_trigger and trigger_match of src/irc_trigger.c (Trigger.Match)
--   Line       parse_irc_line as a whole: parser, PING, reply 302, triggers
--   Channel    the users, topics and names of channels, and the handlers that change them
--   Modes      troll_trig_update_mode of src/troll_lib.c with tcrealloc0 of src/util.c
--   Log        log_filters_check of src/log_filter.c
--   Tconfig    file_to_tconfig and tconfig_to_file of src/tconfig.c: the parser with its cursor in
--              the tree, the writer (Tconfig.Write), and tconfig_merge (Tconfig.Merge)
--   User       src/user.c: users_to_tconfig, new_user_from_tconfig_block, user_init, users_save
--              (User.Disk: from one run to the next)
--   Chanfile   the same for channels: chans_to_tconfig, new_chan_from_tconfig_block, chans_save and
--              chan_init of src/channel.c, with the merge of the defaults (Chanfile.Defaults)
--   Config     config_engine_load of src/config_engine.c, new_server of src/server.c
--   Linked     a list with its head pointer, which may stand behind the first node, as the deleting
--              functions leave it
--   Egg        src/egg_lib.c: users (Egg.Users, Egg.Handles), passwords (Egg.Passwd), egg_adduser
--              (Egg.Adduser), bind tables (Egg.Binds), who is on a channel (Egg.Ops)
--   Dcc        parse_dcc_line and dcc_command_handler of src/dcc.c: the login of a DCC session
--              (Dcc.Login, Dcc.Complete, Dcc.Empty) and its commands
--   Bans       the 324 and 367 replies of src/irc_proto.c, and the bans of src/egg_lib.c
--              (Bans.Eggdrop)
--   Tests      runs on concrete inputs
--
-- A `char *` is the list of the bytes before its NUL, and `none` where NULL is a case. In Trigger
-- and Log a list is what its head pointer reads forwards; where nodes are deleted (the users and bans
-- of channels, the users of networks, the bind tables), it is `Linked`. Dlist works on the pointers
-- themselves, and shows which node each caller is handed as the new head. Where C has undefined
-- behaviour (a read behind a NUL, through NULL or a freed node, a NULL for a `%s`) the model
-- faults: `none`, or `fault` in Store. Two functions write behind a buffer: join_channels has an
-- outcome for it, and the result of tssv_split says how much is allocated and written.
--
-- Loops over lists and texts are structural. The matchers run on fuel, length needle + 1 rounds for
-- troll_matchwilds and (length haystack + 2) * (length needle + 1) for matchwilds, which is enough
-- (Wildcard.Total). The parser of configuration trees has a round for each byte of the text, which is
-- enough too. Walks over the heap take fuel as their first argument, and their theorems ask for more than the length of the list.
--
-- An `int` is an integer without a bound where it holds a time, a port or a count. What the hash
-- module computes (src/t_crypto_module.c) is a parameter.
--
-- Handlers of triggers and timers are open: a trigger's handler is a number, and the result of
-- trigger_match lists the handlers that run, while a timer's handler is a parameter. Not modelled:
-- sockets, logging, the merge of the user and channel files into the configuration, the configuration of interpreters and of the
-- http, ics and xmpp modules, which a build may leave out, how DCC sessions are opened and read, the
-- functions of the eggdrop library on DCC sessions, timers and the lists of bans and channels, and
-- the bindings to script languages. Nothing here says what is freed, but for Dlist and Timer.
pub mod Prelude
pub mod Text
pub mod Wildcard
pub mod Store
pub mod Dcc
pub mod Dlist
pub mod Timer
pub mod Channel
pub mod Modes
pub mod Tests
pub mod Irc
pub mod Trigger
pub mod Line
pub mod Log
pub mod Tconfig
pub mod User
pub mod Linked
pub mod Egg
pub mod Bans
pub mod Chanfile
pub mod Config
