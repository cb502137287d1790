-- ===== src/Config/Values.antt =====
-- Which entries of a network block its settings come from.
use trollbot.Prelude.{
  Gives, Gives-bind, Gives-weaken, ◌≡◌, refl, ap, sym, ◌∙◌, subst, Bool, true, false, List, [], ◌∷◌,
  Option, none, some, if◌then◌else◌, arith, Bytes, codes, Bool-cases, inl, inr,
}
use trollbot.Text.{str_eq}
use trollbot.Text.Compare.{str_eq_iff}
use trollbot.Tconfig.{Blocks, null, block}
use trollbot.User.{first_value}
use trollbot.Chanfile.{ChanRecord, chan_of, new_chan_from_tconfig_block}
use trollbot.Config.{add_chan, NetConfig, set_nick, set_network, NetState, net_entry, net_entries}

-- The values of the entries with this key, in their order.
unfoldable pub values : Bytes → Blocks → List Bytes
unfolding str_eq
values k null = []
values k (block none child next) = values k next
values k (block (some kv) child next) =
    let rest = values k next in if str_eq kv.0 k then kv.1 ∷ rest else rest

-- The first of them.
abbrev pub first : List Bytes → Option Bytes
first [] = none
first (v ∷ vs) = some v

-- Every entry has a key and a value.
abbrev pub Keyed : Blocks → Type 0
Keyed null = Unit
Keyed (block none child next) = ⊥
Keyed (block (some kv) child next) = Keyed next

-- A statement about a key, from one about the key that is looked for and one about the others.
pub by_key :
    (key : Bytes) (P : Bytes → Type 0) → P key → (k : Bytes) → (str_eq k key ≡ false → P k) → P k
by_key key P p k other = elim (Bool-cases (str_eq k key)) [
  | inl e ↦ subst P (sym ((str_eq_iff k key).0 e)) p
  | inr e ↦ other e
]

abbrev pub given : Option Bytes → Option Bytes → Option Bytes
given none w = w
given (some v) w = some v

-- A field that the first entry of a key sets, and no other.
pub record IsFirst (get : NetConfig → Option Bytes) (key : Bytes) : Type 0 where
  pub step :
      (k v : Bytes) (n : NetConfig)
      → get (set_network k v n) ≡ (if str_eq k key then first_value (get n) v else get n)
  pub chan : (n : NetConfig) (c : Option ChanRecord) → get (add_chan n c) ≡ get n
  pub not_console : str_eq key (codes "console") ≡ false
  pub not_channel : str_eq key (codes "channel") ≡ false

module _ (get : NetConfig → Option Bytes) (key : Bytes) (is : IsFirst get key) where
  console_other : (k : Bytes) → str_eq k (codes "console") ≡ true → str_eq k key ≡ false
  console_other k e =
      ground (arith, str_eq_iff k (codes "console"), str_eq_iff k key, is.not_console)

  channel_other : (k : Bytes) → str_eq k (codes "channel") ≡ true → str_eq k key ≡ false
  channel_other k e =
      ground (arith, str_eq_iff k (codes "channel"), str_eq_iff k key, is.not_channel)

  -- One entry.
  abbrev Steps : (k v : Bytes) → NetState → NetState → Type 0
  Steps k v s t = get t.1 ≡ (if str_eq k key then first_value (get s.1) v else get s.1)

  net_entry-Steps :
      (k v : Bytes) (child : Blocks) (s : NetState) → Gives (Steps k v s) (net_entry k v child s)
  unfolding net_entry new_chan_from_tconfig_block
  net_entry-Steps k v child s = elim (Bool-cases (str_eq k (codes "console"))) [
    | inl e ↦ rw (e, console_other k e) refl
    | inr e ↦ rw e (elim (Bool-cases (str_eq k (codes "channel"))) [
      | inl f ↦ rw (f, channel_other k f) (is.chan s.1 (chan_of v child))
      | inr f ↦ rw f (is.step k v s.1)
    ])
  ]

  given_step :
      (k v : Bytes) (g : Option Bytes) (vs : List Bytes)
      → given (if str_eq k key then first_value g v else g) (first vs)
        ≡ given g (first (if str_eq k key then v ∷ vs else vs))
  given_step k v g vs = go (str_eq k key) g
    where
      go :
          (b : Bool) (g : Option Bytes)
          → given (if b then first_value g v else g) (first vs)
            ≡ given g (first (if b then v ∷ vs else vs))
      go true none = refl
      go true (some w) = refl
      go false g = refl

  pub net_entries-first :
      (child : Blocks) (s : NetState)
      → Keyed child
      → Gives (λ t. get t.1 ≡ given (get s.1) (first (values key child))) (net_entries child s)
  unfolding net_entries values
  net_entries-first null s h = none_left (get s.1)
    where
      none_left : (g : Option Bytes) → g ≡ given g none
      none_left none = refl
      none_left (some w) = refl
  net_entries-first (block none child next) s h = absurd h
  net_entries-first (block (some kv) child next) s h =
      Gives-bind (Steps kv.0 kv.1 s) _ (net_entry kv.0 kv.1 child s) (net_entries next)
        (net_entry-Steps kv.0 kv.1 child s)
        λ t e. Gives-weaken _ _ (net_entries next t) (net_entries-first next t h) λ u f.
          f
          ∙ ap (λ g. given g (first (values key next))) e
          ∙ given_step kv.0 kv.1 (get s.1) (values key next)

module _ (get : NetConfig → Option Bytes) (key : Bytes) where
  -- A chan that is added, or not.
  chan_same :
      ((n : NetConfig) (c : ChanRecord) → get (add_chan n (some c)) ≡ get n)
      → (n : NetConfig) (c : Option ChanRecord) → get (add_chan n c) ≡ get n
  chan_same h n none = refl
  chan_same h n (some c) = h n c

pub altnick-IsFirst : IsFirst (λ n. n.altnick) (codes "altnick")
unfolding set_network str_eq
altnick-IsFirst = record {
  step = λ k v n.
      by_key (codes "altnick")
        (λ x.
          (set_network x v n).altnick
          ≡ (if str_eq x (codes "altnick") then first_value n.altnick v else n.altnick))
        refl k λ e. ground arith;
  chan = chan_same (λ n. n.altnick) (codes "altnick") (λ n c. refl);
  not_console = refl;
  not_channel = refl;
}

pub default_flags-IsFirst : IsFirst (λ n. n.default_flags) (codes "default-flags")
unfolding set_network str_eq
default_flags-IsFirst = record {
  step = λ k v n.
      by_key (codes "default-flags")
        (λ x. (set_network x v n).default_flags ≡ (
          if str_eq x (codes "default-flags")
          then first_value n.default_flags v
          else n.default_flags))
        refl k λ e. ground arith;
  chan = chan_same (λ n. n.default_flags) (codes "default-flags") (λ n c. refl);
  not_console = refl;
  not_channel = refl;
}

pub dcc_motd-IsFirst : IsFirst (λ n. n.dcc_motd) (codes "dcc_motd")
unfolding set_network str_eq
dcc_motd-IsFirst = record {
  step = λ k v n.
      by_key (codes "dcc_motd")
        (λ x.
          (set_network x v n).dcc_motd
          ≡ (if str_eq x (codes "dcc_motd") then first_value n.dcc_motd v else n.dcc_motd))
        refl k λ e. ground arith;
  chan = chan_same (λ n. n.dcc_motd) (codes "dcc_motd") (λ n c. refl);
  not_console = refl;
  not_channel = refl;
}

pub userfile-IsFirst : IsFirst (λ n. n.userfile) (codes "userfile")
unfolding set_network str_eq
userfile-IsFirst = record {
  step = λ k v n.
      by_key (codes "userfile")
        (λ x.
          (set_network x v n).userfile
          ≡ (if str_eq x (codes "userfile") then first_value n.userfile v else n.userfile))
        refl k λ e. ground arith;
  chan = chan_same (λ n. n.userfile) (codes "userfile") (λ n c. refl);
  not_console = refl;
  not_channel = refl;
}

pub chanfile-IsFirst : IsFirst (λ n. n.chanfile) (codes "chanfile")
unfolding set_network str_eq
chanfile-IsFirst = record {
  step = λ k v n.
      by_key (codes "chanfile")
        (λ x.
          (set_network x v n).chanfile
          ≡ (if str_eq x (codes "chanfile") then first_value n.chanfile v else n.chanfile))
        refl k λ e. ground arith;
  chan = chan_same (λ n. n.chanfile) (codes "chanfile") (λ n c. refl);
  not_console = refl;
  not_channel = refl;
}

pub realname-IsFirst : IsFirst (λ n. n.realname) (codes "realname")
unfolding set_network str_eq
realname-IsFirst = record {
  step = λ k v n.
      by_key (codes "realname")
        (λ x.
          (set_network x v n).realname
          ≡ (if str_eq x (codes "realname") then first_value n.realname v else n.realname))
        refl k λ e. ground arith;
  chan = chan_same (λ n. n.realname) (codes "realname") (λ n c. refl);
  not_console = refl;
  not_channel = refl;
}

pub ident-IsFirst : IsFirst (λ n. n.ident) (codes "ident")
unfolding set_network str_eq
ident-IsFirst = record {
  step = λ k v n.
      by_key (codes "ident")
        (λ x.
          (set_network x v n).ident
          ≡ (if str_eq x (codes "ident") then first_value n.ident v else n.ident))
        refl k λ e. ground arith;
  chan = chan_same (λ n. n.ident) (codes "ident") (λ n c. refl);
  not_console = refl;
  not_channel = refl;
}

pub vhost-IsFirst : IsFirst (λ n. n.vhost) (codes "vhost")
unfolding set_network str_eq
vhost-IsFirst = record {
  step = λ k v n.
      by_key (codes "vhost")
        (λ x.
          (set_network x v n).vhost
          ≡ (if str_eq x (codes "vhost") then first_value n.vhost v else n.vhost))
        refl k λ e. ground arith;
  chan = chan_same (λ n. n.vhost) (codes "vhost") (λ n c. refl);
  not_console = refl;
  not_channel = refl;
}

nick_set :
    (v : Bytes) (n : NetConfig) (o : Option Bytes)
    → n.nick ≡ o
    → (set_nick o v n).nick ≡ first_value o v
nick_set v n none e = refl
nick_set v n (some w) e = e

pub nick-IsFirst : IsFirst (λ n. n.nick) (codes "nick")
unfolding set_network str_eq
nick-IsFirst = record {
  step = λ k v n.
      by_key (codes "nick")
        (λ x.
          (set_network x v n).nick
          ≡ (if str_eq x (codes "nick") then first_value n.nick v else n.nick))
        (nick_set v n n.nick refl) k λ e. ground arith;
  chan = chan_same (λ n. n.nick) (codes "nick") (λ n c. refl);
  not_console = refl;
  not_channel = refl;
}
