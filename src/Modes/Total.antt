-- ===== src/Modes/Total.antt =====
-- A MODE line with a parameter for each `o`, `v` and `b` is applied without a fault.
use trollbot.Prelude.{
  Gives, Gives-bind, Gives-weaken, ℕ, zero, suc, ◌+◌, ◌≤◌, ◌<◌, ◌≡◌, ◌≢◌, refl, sym, subst, ◌∙◌,
  Bool, true, false, ◌||◌, List, [], ◌∷◌, Option, some, arith, ◌==◌, if◌then◌else◌, All, length,
  get_elem?, Bytes, if_cases,
}
use trollbot.Channel.Members.{nicks}
use trollbot.Modes.{
  change_modes, change_named, change_user, unban, ModeState, ModeLine, parameter, new_ban,
  mode_user, mode_ban, mode_ban_by, mode_step, mode_loop,
}
use trollbot.Modes.Loop.{takes_parameter, needed}
use trollbot.Modes.Kept.{
  IsUser, AllMasks, HasText, Kept, append_linked-AllMasks, change_modes-IsUser, change_named-Kept,
  unban-Gives,
}

-- A state whose users and bans are well-formed.
pub record IsReady (s : ModeState) : Type 0 where
  pub users : All IsUser s.users
  pub masks : AllMasks s.bans

-- After `n` parameters: the state is ready, and the nicks are those of `s`.
pub record After (n : ℕ) (s t : ModeState) : Type 0 where
  pub ready : IsReady t
  pub same_nicks : nicks t.users ≡ nicks s.users
  pub taken : t.arg_index ≡ s.arg_index + n

get_elem?-some :
    {A : Type 0} (xs : List A) (i : ℕ) → i < length xs → (a : A) × (get_elem? xs i ≡ some a)
get_elem?-some [] i h = elim h [ ]
get_elem?-some (x ∷ xs) zero h = (x, refl)
get_elem?-some (x ∷ xs) (suc i) h = get_elem?-some xs i (omega arith)

module _ (l : ModeLine) (s : ModeState) (r : IsReady s) (p : Bytes)
    (at : parameter l s ≡ some p) where
  mode_user-After : (c : ℕ) → c ≢ 0 → Gives (After 1 s) (mode_user l s c)
  unfolding mode_user change_user
  mode_user-After c nz = rw at (
      Gives-bind (Kept s.users) (After 1 s) (change_named (change_modes l.junk s.plus c) p s.users)
        _
        (change_named-Kept (change_modes l.junk s.plus c)
          (λ u. change_modes-IsUser l.junk s.plus c u nz) p s.users r.users)
        λ us g. record {
          ready = record { users = g.0; masks = r.masks };
          same_nicks = g.1;
          taken = refl;
        })

  mode_ban_by-After : (plus : Bool) → Gives (After 1 s) (mode_ban_by l s plus)
  unfolding mode_ban_by
  mode_ban_by-After true = record {
    ready = record {
      users = r.users;
      masks = append_linked-AllMasks s.bans (new_ban l s) r.masks (subst HasText (sym at) tt);
    };
    same_nicks = refl;
    taken = refl;
  }
  mode_ban_by-After false = rw at (
      Gives-bind AllMasks (After 1 s) (unban (some p) s.bans s.bans.behind s.bans.from) _
        (unban-Gives p s.bans s.bans.behind s.bans.from r.masks r.masks.0 r.masks.1)
        λ bans g. record {
          ready = record { users = r.users; masks = g };
          same_nicks = refl;
          taken = refl;
        })

by_test :
    (s : ModeState) (m : Option ModeState) (c : ℕ) (b : Bool)
    → takes_parameter c ≡ b
    → Gives (After (if b then 1 else 0) s) m
    → Gives (After (if takes_parameter c then 1 else 0) s) m
by_test s m c b e g = subst (λ b. Gives (After (if b then 1 else 0) s) m) (sym e) g

-- A character that takes a parameter finds one.
parameter-some :
    (l : ModeLine) (s : ModeState) (c : ℕ)
    → takes_parameter c ≡ true
    → s.arg_index + 2 + (if takes_parameter c then 1 else 0) ≤ length l.c_params
    → (p : Bytes) × (parameter l s ≡ some p)
parameter-some l s c e fits =
    get_elem?-some l.c_params (s.arg_index + 2) (
      omega (arith, subst (λ b. s.arg_index + 2 + (if b then 1 else 0) ≤ length l.c_params) e fits))

module _ (l : ModeLine) where
  mode_step-After :
      (s : ModeState) (c : ℕ)
      → IsReady s
      → s.arg_index + 2 + (if takes_parameter c then 1 else 0) ≤ length l.c_params
      → Gives (After (if takes_parameter c then 1 else 0) s) (mode_step l s c)
  unfolding mode_step mode_ban
  mode_step-After s c r fits =
      if_cases Goal (c == b'+')
        (λ p.
          by_test s (some (record s { plus = true })) c false (no_parameter (ground arith))
            (stay true))
        λ p.
          if_cases Goal (c == b'-')
            (λ q.
              by_test s (some (record s { plus = false })) c false (no_parameter (ground arith))
                (stay false))
            λ q.
              if_cases Goal (c == b'o' || c == b'v')
                (λ t.
                  let e = parameter_of (ground arith) in
                  let (a, at) = parameter-some l s c e fits in
                  by_test s (mode_user l s c) c true e
                    (mode_user-After l s r a at c (ground arith)))
                λ t.
                  if_cases Goal (c == b'b')
                    (λ u.
                      let e = parameter_of (ground arith) in
                      let (a, at) = parameter-some l s c e fits in
                      by_test s (mode_ban_by l s s.plus) c true e
                        (mode_ban_by-After l s r a at s.plus))
                    λ u. by_test s (some s) c false (no_parameter (ground arith)) (stay s.plus)
    where
      Goal : Option ModeState → Type 0
      Goal = Gives (After (if takes_parameter c then 1 else 0) s)

      stay : (b : Bool) → After 0 s (record s { plus = b })
      stay b = record {
        ready = record { users = r.users; masks = r.masks };
        same_nicks = refl;
        taken = omega arith;
      }

      parameter_of : (c == b'o' || c == b'v' || c == b'b') ≡ true → takes_parameter c ≡ true
      parameter_of e = unfold takes_parameter in e

      no_parameter : (c == b'o' || c == b'v' || c == b'b') ≡ false → takes_parameter c ≡ false
      no_parameter e = unfold takes_parameter in e

  mode_loop-Gives :
      (modes : Bytes) (s : ModeState)
      → IsReady s
      → s.arg_index + 2 + needed modes ≤ length l.c_params
      → Gives (After (needed modes) s) (mode_loop l s modes)
  unfolding mode_loop needed
  mode_loop-Gives [] s r fits = record { ready = r; same_nicks = refl; taken = omega arith }
  mode_loop-Gives (c ∷ modes) s r fits =
      Gives-bind (After _ s) (After (needed (c ∷ modes)) s) (mode_step l s c) _
        (mode_step-After s c r (omega arith))
        λ t a.
          let b = a.taken in
          Gives-weaken (After (needed modes) t) (After (needed (c ∷ modes)) s) (mode_loop l t modes)
            (mode_loop-Gives modes t a.ready (omega arith))
            λ u d. record {
              ready = d.ready;
              same_nicks = d.same_nicks ∙ a.same_nicks;
              taken = let e = d.taken in omega arith;
            }

-- If every `o`, `v` and `b` of a MODE line has its parameter, every user has well-formed modes and
-- every ban a mask, the loop makes no fault: it takes exactly those parameters, and leaves the
-- nicks as they were, with well-formed modes and masked bans.
pub mode_loop-After :
    (l : ModeLine) (s : ModeState) (modes : Bytes)
    → IsReady s
    → s.arg_index + 2 + needed modes ≤ length l.c_params
    → Gives (After (needed modes) s) (mode_loop l s modes)
mode_loop-After l s modes r fits = mode_loop-Gives l modes s r fits
