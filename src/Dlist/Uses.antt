-- ===== src/Dlist/Uses.antt =====
-- The structs whose lists are kept by these functions; the payload is the struct less its pointers.
use trollbot.Prelude.{ℕ}
use trollbot.Store.{Ptr, Cmd}
use trollbot.Dlist.{list_add, list_append, list_del, list_remove}

module _ {A : Type 0} where
  -- src/user.c
  abbrev pub user_list_add : ℕ → (users add : Ptr) → Cmd A Ptr
  user_list_add = list_add

  abbrev pub user_list_del : ℕ → (users del : Ptr) → Cmd A Ptr
  user_list_del = list_del

  -- src/channel.c
  abbrev pub channel_user_add : ℕ → (cusers add : Ptr) → Cmd A Ptr
  channel_user_add = list_add

  abbrev pub channel_user_del : ℕ → (cusers del : Ptr) → Cmd A Ptr
  channel_user_del = list_del

  abbrev pub channel_ban_add : ℕ → (bans add : Ptr) → Cmd A Ptr
  channel_ban_add = list_add

  abbrev pub channel_ban_del : ℕ → (bans del : Ptr) → Cmd A Ptr
  channel_ban_del = list_del

  abbrev pub channel_list_add : ℕ → (orig new : Ptr) → Cmd A Ptr
  channel_list_add = list_append

  -- src/irc_trigger.c
  abbrev pub trigger_list_add : ℕ → (orig new : Ptr) → Cmd A Ptr
  trigger_list_add = list_append

  abbrev pub trigger_list_del : ℕ → (triggers del : Ptr) → Cmd A Ptr
  trigger_list_del = list_del

  -- src/server.c
  abbrev pub server_list_add : ℕ → (orig new : Ptr) → Cmd A Ptr
  server_list_add = list_append

  -- src/dcc.c
  abbrev pub dcc_list_add : ℕ → (dccs add : Ptr) → Cmd A Ptr
  dcc_list_add = list_add

  abbrev pub dcc_list_del : ℕ → (dccs del : Ptr) → Cmd A Ptr
  dcc_list_del = list_del

  -- src/log_filter.c
  abbrev pub log_filter_add : ℕ → (filters add : Ptr) → Cmd A Ptr
  log_filter_add = list_add

  abbrev pub log_filter_remove : ℕ → (filters del : Ptr) → Cmd A Ptr
  log_filter_remove = list_remove
