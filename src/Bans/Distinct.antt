-- ===== src/Bans/Distinct.antt =====
-- The ban list that 367 replies build is a set of masks.
use trollbot.Prelude.{
  ◌>>=◌, Gives, Gives-bind, ◌≡◌, refl, sym, ap, ◌∙◌, fun_ext, subst, Bool, true, false, ◌||◌, List,
  [], ◌∷◌, ◌++◌, Option, none, some, All-append, arith, Bytes, HasValue, Bool-cases, inl, inr,
}
use trollbot.Text.{str_eq}
use trollbot.Text.Compare.{str_eq_iff}
use trollbot.Channel.{ChannelBan}
use trollbot.Bans.{find_ban, mask_equals, listed_ban, unless_found, list_ban}
use trollbot.Bans.Sticky.{Masked}

-- A 367 reply of a channel: the mask, who set it, and when.
pub record BanReply : Type 0 where
  pub mask : Bytes
  pub who : Bytes
  pub time : Bytes

-- The replies, one after the other.
unfoldable pub list_bans :
    (chan : Bytes) → List BanReply → List ChannelBan → Option (List ChannelBan)
unfolding list_ban
list_bans chan [] bans = some bans
list_bans chan (r ∷ rs) bans = list_ban chan r.mask r.who r.time bans >>= list_bans chan rs

-- The set of the masks.
abbrev mask_of : Bytes → Option Bytes → Bool
mask_of m none = false
mask_of m (some w) = str_eq w m

unfoldable pub has_mask : List ChannelBan → Bytes → Bool
unfolding str_eq
has_mask [] m = false
has_mask (b ∷ bs) m = mask_of m b.mask || has_mask bs m

-- The set with the masks of the replies.
unfoldable pub with_replies : List BanReply → (Bytes → Bool) → Bytes → Bool
unfolding str_eq
with_replies [] masks = masks
with_replies (r ∷ rs) masks = with_replies rs λ m. str_eq r.mask m || masks m

-- No mask twice.
abbrev pub Fresh : List ChannelBan → Option Bytes → Type 0
Fresh bs none = Unit
Fresh bs (some m) = has_mask bs m ≡ false

abbrev pub DistinctBans : List ChannelBan → Type 0
DistinctBans [] = Unit
DistinctBans (b ∷ bs) = Fresh bs b.mask × DistinctBans bs

abbrev was_found : Option ChannelBan → Bool
was_found none = false
was_found (some b) = true

Found : Bytes → List ChannelBan → Type 0
Found m bs =
    (r : Option ChannelBan) × (find_ban (mask_equals m) bs ≡ some r) × (was_found r ≡ has_mask bs m)

Found-cons :
    (m : Bytes) (b : ChannelBan) (bs : List ChannelBan) (h : Bool)
    → mask_equals m b ≡ some h
    → mask_of m b.mask ≡ h
    → Found m bs
    → Found m (b ∷ bs)
unfolding Found find_ban has_mask
Found-cons m b bs true e k f = (some b, rw (e, find_ban) refl, rw k refl)
Found-cons m b bs false e k f = (f.0, rw (e, find_ban) f.1, rw k f.2)

tested :
    (m : Bytes) (v : Option Bytes)
    → HasValue v
    → (v >>= λ w. some (str_eq w m)) ≡ some (mask_of m v)
tested m none h = absurd h
tested m (some w) h = refl

find_ban-Found : (m : Bytes) (bs : List ChannelBan) → Masked bs → Found m bs
unfolding Found find_ban has_mask
find_ban-Found m [] h = (none, refl, refl)
find_ban-Found m (b ∷ bs) h =
    Found-cons m b bs (mask_of m b.mask) (tested m b.mask h.0) refl (find_ban-Found m bs h.1)

or_swap : (a b c : Bool) → (a || (b || c)) ≡ (b || (a || c))
or_swap a b c = ground arith

has_mask-append :
    (bs : List ChannelBan) (new : ChannelBan) (m : Bytes)
    → has_mask (bs ++ new ∷ []) m ≡ (mask_of m new.mask || has_mask bs m)
unfolding has_mask
has_mask-append [] new m = refl
has_mask-append (b ∷ bs) new m =
    ap (◌||◌ (mask_of m b.mask)) (has_mask-append bs new m)
    ∙ or_swap (mask_of m b.mask) (mask_of m new.mask) (has_mask bs m)

Fresh-nil : (v : Option Bytes) → Fresh [] v
unfolding has_mask
Fresh-nil none = tt
Fresh-nil (some m) = refl

both_false : (a b : Bool) → (a || b) ≡ false → (a ≡ false) × (b ≡ false)
both_false a b h = ground arith

str_eq_sym : (a b : Bytes) → str_eq a b ≡ false → str_eq b a ≡ false
str_eq_sym a b h = ground (arith, str_eq_iff a b, str_eq_iff b a)

Fresh-append :
    (bs : List ChannelBan) (new : ChannelBan) (m : Bytes) (v : Option Bytes)
    → new.mask ≡ some m
    → mask_of m v ≡ false
    → Fresh bs v
    → Fresh (bs ++ new ∷ []) v
Fresh-append bs new m none e k f = tt
Fresh-append bs new m (some w) e k f = has_mask-append bs new w ∙ rw (e, str_eq_sym w m k, f)

Distinct-append :
    (bs : List ChannelBan) (new : ChannelBan) (m : Bytes)
    → new.mask ≡ some m
    → has_mask bs m ≡ false
    → DistinctBans bs
    → DistinctBans (bs ++ new ∷ [])
unfolding has_mask
Distinct-append [] new m e h d = (Fresh-nil new.mask, tt)
Distinct-append (b ∷ bs) new m e h d =
    let k = both_false (mask_of m b.mask) (has_mask bs m) h in
    (Fresh-append bs new m b.mask e k.0 d.0, Distinct-append bs new m e k.1 d.1)

-- A list of bans with masks that differ, and the set of the masks.
abbrev pub IsBanSet : List ChannelBan → (Bytes → Bool) → Type 0
IsBanSet bs masks = Masked bs × DistinctBans bs × (has_mask bs ≡ masks)

already :
    (bs : List ChannelBan) (m w : Bytes)
    → has_mask bs m ≡ true
    → has_mask bs w ≡ (str_eq m w || has_mask bs w)
already bs m w h = elim (Bool-cases (str_eq m w)) [
  | inl e ↦ rw e (ap (has_mask bs) (sym ((str_eq_iff m w).0 e)) ∙ h)
  | inr e ↦ rw e
]

unless_found-IsBanSet :
    (bs : List ChannelBan) (new : ChannelBan) (m : Bytes) (r : Option ChannelBan)
    → new.mask ≡ some m
    → Masked bs
    → DistinctBans bs
    → was_found r ≡ has_mask bs m
    → IsBanSet (unless_found bs new r) (λ w. str_eq m w || has_mask bs w)
unless_found-IsBanSet bs new m none e h d f = (
  All-append (λ b. HasValue b.mask) bs (new ∷ []) h (subst HasValue (sym e) tt, tt),
  Distinct-append bs new m e (sym f) d,
  fun_ext λ w. has_mask-append bs new w ∙ ap (λ v. mask_of w v || has_mask bs w) e,
)
unless_found-IsBanSet bs new m (some b) e h d f = (h, d, fun_ext λ w. already bs m w (sym f))

list_ban-IsBanSet :
    (chan mask who time : Bytes) (bs : List ChannelBan)
    → Masked bs
    → DistinctBans bs
    → Gives
        (λ new. IsBanSet new (λ w. str_eq mask w || has_mask bs w))
        (list_ban chan mask who time bs)
unfolding list_ban
list_ban-IsBanSet chan mask who time bs h d =
    let f = find_ban-Found mask bs h in
    unfold Found in
    rw (list_ban, f.1)
      (unless_found-IsBanSet bs (listed_ban chan mask who time) mask f.0 refl h d f.2)

-- The ban list that any sequence of 367 replies makes of a list whose bans have masks and differ is
-- again such a list, and its masks are those of the list and of the replies, as a set: each has it
-- once, however often and in whichever order the replies name it.
pub list_bans-IsBanSet :
    (chan : Bytes) (rs : List BanReply) (bs : List ChannelBan)
    → Masked bs
    → DistinctBans bs
    → Gives (λ new. IsBanSet new (with_replies rs (has_mask bs))) (list_bans chan rs bs)
unfolding list_bans with_replies
list_bans-IsBanSet chan [] bs h d = (h, d, refl)
list_bans-IsBanSet chan (r ∷ rs) bs h d =
    Gives-bind (λ new. IsBanSet new (λ w. str_eq r.mask w || has_mask bs w)) _
      (list_ban chan r.mask r.who r.time bs) (list_bans chan rs)
      (list_ban-IsBanSet chan r.mask r.who r.time bs h d)
      λ new s.
        subst (λ masks. Gives (λ x. IsBanSet x (with_replies rs masks)) (list_bans chan rs new)) s.2
          (list_bans-IsBanSet chan rs new s.0 s.1)
