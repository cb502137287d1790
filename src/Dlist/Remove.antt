-- ===== src/Dlist/Remove.antt =====
-- What `t_timer_remove` and `log_filter_remove` do to a list that holds the node.
use trollbot.Prelude.{
  ℕ, zero, suc, ◌<◌, ◌≡◌, ◌≢◌, refl, subst, true, false, [], ◌∷◌, ◌++◌, none, some, arith, ◌==◌,
  length, ==_refl,
}
use trollbot.Store.{Ptr, null, node, Store, write, ok}
use trollbot.Store.Returns
use trollbot.Store.Returns.{Returns, returns}
use trollbot.Store.Chain.{
  Cells, has, Points, Seg, nil, cons, last_of, head_of, IsList, not_null, load-ok, free-ok, frame,
  frame-write, Seg-append, Seg-Split, head_of-Seg,
}
use trollbot.Dlist.{seek, list_remove}
use trollbot.Dlist.Del.{bridge_prev-Seg, bridge_next-Seg, start, Seg-Begins}

module _ {A : Type 0} {h : Store A} where
  pub seek-Seg :
      (k : ℕ) {d b p : Ptr} {front : Cells A}
      → Seg h d b p front
      → has d front ≡ false
      → length front < k
      → seek k d p h ≡ ok d h
  unfolding seek
  seek-Seg zero s out l = absurd (omega arith)
  seek-Seg (suc k) {d} (nil e) out l = rw (e, ==_refl d)
  seek-Seg (suc k) {d} (cons {p} at out' s) out l =
      let miss : (p == d) ≡ false = ground arith in
      rw (miss, load-ok at) (seek-Seg k s (ground arith) (omega arith))

  -- Removing the head frees it and returns the second node, whose `prev` still points at the freed
  -- one.
  pub list_remove_head :
      (k : ℕ) {d : Ptr} {v : A} {rear : Cells A}
      → IsList h d ((d, v) ∷ rear)
      → Returns
          (λ r g. (r ≡ head_of rear) × (g d ≡ none) × Seg g null d r rear)
          (list_remove (suc k) d d h)
  unfolding list_remove seek write
  list_remove_head k {d} {v} {rear} s =
      let b = Seg-Begins s in
      rw (==_refl d, not_null b.cell, ==_refl d, load-ok b.cell, free-ok b.cell)
        (returns
          (head_of-Seg b.rest, ground (arith, ==_refl d), frame-write d none b.rest b.distinct))

  not_head :
      {d b p : Ptr} {xs : Cells A} → Seg h d b p xs → xs ≢ [] → has d xs ≡ false → (d == p) ≡ false
  not_head (nil e) n o = absurd (n refl)
  not_head (cons at o' r) n o = ground arith

  start-eq : (q : Ptr) {d b p : Ptr} {xs : Cells A} → Seg h d b p xs → xs ≢ [] → start xs q ≡ p
  start-eq q (nil e) n = absurd (n refl)
  start-eq q (cons at o' r) n = refl

  -- Removing any other node, with more fuel than nodes before it, unlinks it, does not free it, and
  -- returns the removed node itself. The list `front ++ rear` stands at the old head.
  pub list_remove_middle :
      (k : ℕ) {timers : Ptr} (d : Ptr) (v : A) (front rear : Cells A)
      → IsList h timers (front ++ (d, v) ∷ rear)
      → front ≢ []
      → length front < k
      → Returns
          (λ r g.
            (r ≡ d)
            × IsList g timers (front ++ rear)
            × (g d ≡ some (node v (last_of null front) (head_of rear))))
          (list_remove k timers d h)
  unfolding list_remove
  list_remove_middle k {timers} d v front rear s ne l =
      let cut = Seg-Split front ((d, v) ∷ rear) s in
      let b = Seg-Begins cut.back in
      let s' = subst (λ x. Seg h x null timers front) b.begins cut.front in
      let out : has d front ≡ false = ground (arith, cut.apart d, ==_refl d) in
      let miss : (d == timers) ≡ false = not_head s' ne out in
      let apart = λ (a : Ptr) (i : has a front ≡ true).
        let z : has a rear ≡ false = ground (arith, cut.apart a) in z in
      rw (seek-Seg k s' out l, not_null b.cell, miss)
        (Returns.bind (bridge_next-Seg b.rest b.cell b.distinct) λ _ g (t, same).
          let at : Points g d v (last_of null front) b.behind =
            ground (arith, same d, b.cell.holds, b.cell.ne_null) in
          let s'' = frame s' (λ a i. same a (apart a i)) in
          Returns.bind (bridge_prev-Seg s'' at out) λ _ j (s3, same').
            let t' = frame t (λ a i. same' a (ground (arith, apart a))) in
            returns (
              refl,
              subst (λ x. IsList j x (front ++ rear)) (start-eq b.behind s' ne)
                  (Seg-append s3 t' apart),
              rw (← head_of-Seg b.rest) (ground (arith, same' d)),
            ))
