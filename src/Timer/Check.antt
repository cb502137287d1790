-- ===== src/Timer/Check.antt =====
-- What `t_timers_check` does while no timer is due, and when the first one is.
use trollbot.Prelude.{
  ℕ, zero, suc, ◌≤◌, ◌<◌, ◌≡◌, none, inl, inr, Bool-cases, true, false, ◌∷◌, arith, leb, length,
  All, ==_refl,
}
use trollbot.Store.{Ptr, null, Store, write, Cmd, ok, fault, load}
use trollbot.Store.Chain.{Cells, Seg, nil, cons, Points, IsList, not_null, load-ok, free-ok}
use trollbot.Dlist.{list_remove, seek}
use trollbot.Dlist.Del.{Seg-Begins}
use trollbot.Timer.{Timer, expire, check_loop, t_timers_check}

-- No timer is due at this time.
abbrev pub Waits : ℕ → Cells Timer → Type 0
Waits now = All (λ c. now < c.1.time_trig)

load_freed : (h : Store Timer) (p : Ptr) → load p (write h p none) ≡ fault
unfolding load write
load_freed h p = ground (arith, ==_refl p)

module _ (handler : Ptr → Cmd Timer (Unit {0})) {h : Store Timer} where
  check_loop-Waits :
      (k now ret : ℕ) {b p : Ptr} {xs : Cells Timer}
      → Seg h null b p xs
      → Waits now xs
      → length xs < k
      → check_loop handler k now ret p h ≡ ok ret h
  unfolding check_loop expire
  check_loop-Waits zero now ret s w l = absurd (omega arith)
  check_loop-Waits (suc k) now ret (nil e) w l = rw e
  check_loop-Waits (suc k) now ret (cons {v} at out s) w l =
      let late : leb v.time_trig now ≡ false = ground arith in
      rw (not_null at, load-ok at, late, load-ok at)
        (check_loop-Waits k now ret s w.1 (omega arith))

  -- While no timer is due, `t_timers_check`, with more fuel than timers, returns the list as it
  -- was, and runs no handler.
  pub t_timers_check-Waits :
      (k now : ℕ) {timers : Ptr} {xs : Cells Timer}
      → IsList h timers xs
      → Waits now xs
      → length xs < k
      → t_timers_check handler k timers now h ≡ ok timers h
  unfolding t_timers_check
  t_timers_check-Waits k now {timers} s w l = check_loop-Waits k now timers s w l

  remove_head :
      (k : ℕ) {p n : Ptr} {t : Timer}
      → Points h p t null n
      → list_remove (suc k) p p h ≡ ok n (write h p none)
  unfolding list_remove seek
  remove_head k {p} at = rw (==_refl p, not_null at, ==_refl p, load-ok at, free-ok at)

  expire_head :
      (k now : ℕ) {p n : Ptr} (t : Timer)
      → Points h p t null n
      → t.time_trig ≤ now
      → (t.has_handler ≡ true → handler p h ≡ ok tt h)
      → expire handler (suc k) now p p h ≡ ok n (write h p none)
  unfolding expire
  expire_head k now t at due quiet =
      let now_due : leb t.time_trig now ≡ true = ground arith in
      rw (load-ok at, now_due)
        (elim (Bool-cases t.has_handler) [
          | inl some_handler ↦ rw (some_handler, quiet some_handler) (remove_head k at)
          | inr no_handler ↦ rw no_handler (remove_head k at)
        ])

  -- When the first timer of the list is due, and its handler leaves the list alone,
  -- `t_timers_check` frees that timer and then reads its `next`.
  pub t_timers_check_due :
      (k now : ℕ) (p : Ptr) (t : Timer) (xs : Cells Timer)
      → IsList h p ((p, t) ∷ xs)
      → t.time_trig ≤ now
      → (t.has_handler ≡ true → handler p h ≡ ok tt h)
      → t_timers_check handler (suc k) p now h ≡ fault
  unfolding t_timers_check check_loop
  t_timers_check_due k now p t xs s due quiet =
      let at = (Seg-Begins s).cell in
      rw (not_null at, expire_head k now t at due quiet, load_freed h p)
