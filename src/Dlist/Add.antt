-- ===== src/Dlist/Add.antt =====
-- Adding a node behind the last one.
use trollbot.Prelude.{ℕ, zero, suc, ◌<◌, ◌≡◌, refl, false, [], ◌∷◌, ◌++◌, some, arith, length}
use trollbot.Store.{Ptr, null, node, Store, write, ok, set_next}
use trollbot.Store.Returns
use trollbot.Store.Returns.{Returns, returns}
use trollbot.Store.Chain.{
  Cells, has, has-append, SameOutside, Points, Seg, nil, cons, last_of, IsList, not_null, load-ok,
  set_next-ok, set_prev-ok, frame-write, Seg-append,
}
use trollbot.Dlist.{to_last, list_add, list_append}

-- `add` went behind the nodes `xs`, and nothing else changed.
abbrev pub Added : {A : Type 0} → Store A → (add : Ptr) → A → Cells A → Ptr → Store A → Type 0
Added h add v xs r g = IsList g r (xs ++ (add, v) ∷ []) × SameOutside (xs ++ (add, v) ∷ []) h g

module _ {A : Type 0} {h : Store A} where
  pub to_last-last_of :
      (k : ℕ) {p b n : Ptr} {v : A} {xs : Cells A}
      → Points h p v b n
      → Seg h null p n xs
      → length xs < k
      → to_last k p h ≡ ok (last_of p xs) h
  unfolding to_last
  to_last-last_of zero at s l = absurd (omega arith)
  to_last-last_of (suc k) at (nil r) l = rw (load-ok at, r)
  to_last-last_of (suc k) at (cons at' out s) l =
      rw (load-ok at, not_null at') (to_last-last_of k at' s (omega arith))

  -- Writing the `next` of the last node of a segment.
  pub set_next_last :
      (r : Ptr) {q b p n : Ptr} {v : A} {xs : Cells A}
      → Points h p v b n
      → has p xs ≡ false
      → Seg h q p n xs
      → Returns
          (λ _ g. Seg g r b p ((p, v) ∷ xs) × SameOutside ((p, v) ∷ xs) h g)
          (set_next (last_of p xs) r h)
  unfolding write
  set_next_last r at out (nil e) =
      rw (set_next-ok at r) (returns (cons (ground arith) refl (nil refl), ground arith))
  set_next_last r {b} {p} at out (cons at' out' s) =
      Returns.weaken (set_next_last r {b = p} at' out' s)
        λ _ g (chain, same). (cons (ground (arith, same p)) out chain, λ a o. same a (ground arith))

  list_add-Seg :
      (k : ℕ) {users add : Ptr} {v : A} {xs : Cells A}
      → Seg h null null users xs
      → Points h add v null null
      → has add xs ≡ false
      → length xs < k
      → Returns (Added h add v xs) (list_add k users add h)
  unfolding list_add write
  list_add-Seg k (nil e) new fresh l = rw e (returns (cons new refl (nil refl), λ a o. refl))
  list_add-Seg (suc k) {add} {v} (cons {p} {xs} at out s) new fresh l =
      rw (not_null at, to_last-last_of (suc k) at s (omega arith))
        (Returns.bind (set_next_last add at out s) λ _ g (chain, same).
          let here : Points g add v null null = ground (arith, same add) in
          rw (set_prev-ok here (last_of p xs)) (
            returns (
              Seg-append (frame-write add _ chain fresh) (cons (ground arith) refl (nil refl))
                  (λ a i. ground arith),
              λ a o. ground (arith, same a, has-append a xs ((add, v) ∷ [])),
            )))
  list_add-Seg zero s new fresh l = absurd (omega arith)

  -- With more fuel than nodes, `user_list_add` puts a fresh node, whose pointers are NULL, behind
  -- the last one, and touches no other node.
  pub list_add-Added :
      (k : ℕ) {users add : Ptr} {v : A} {xs : Cells A}
      → IsList h users xs
      → Points h add v null null
      → has add xs ≡ false
      → length xs < k
      → Returns (Added h add v xs) (list_add k users add h)
  list_add-Added = list_add-Seg

  list_append-Seg :
      (k : ℕ) {orig new b n : Ptr} {v : A} {xs : Cells A}
      → Seg h null null orig xs
      → Points h new v b n
      → has new xs ≡ false
      → length xs < k
      → Returns (Added h new v xs) (list_append k orig new h)
  unfolding list_append write
  list_append-Seg k {new} {n} {v} (nil e) at fresh l =
      let mid : Points (write h new (some (node v null n))) new v null n = ground arith in
      rw (e, set_prev-ok at null)
        (rw (set_next-ok mid null)
          (returns (cons (ground arith) refl (nil refl), λ a o. ground arith)))
  list_append-Seg (suc k) {new} {b = c} {n = m} {v} (cons {p} {xs} at out s) fresh_at fresh l =
      rw (not_null at, to_last-last_of (suc k) at s (omega arith))
        (Returns.bind (set_next_last new at out s) λ _ g (chain, same).
          let here : Points g new v c m = ground (arith, same new) in
          let mid : Points (write g new (some (node v (last_of p xs) m))) new v (last_of p xs) m =
            ground arith in
          rw (set_prev-ok here (last_of p xs)) (
            rw (set_next-ok mid null) (
              returns (
                Seg-append (frame-write new _ (frame-write new _ chain fresh) fresh)
                    (cons (ground arith) refl (nil refl)) (λ a i. ground arith),
                λ a o. ground (arith, same a, has-append a xs ((new, v) ∷ [])),
              ))))
  list_append-Seg zero s at fresh l = absurd (omega arith)

  -- `trigger_list_add` does the same for a node outside the list whose pointers hold anything.
  pub list_append-Added :
      (k : ℕ) {orig new b n : Ptr} {v : A} {xs : Cells A}
      → IsList h orig xs
      → Points h new v b n
      → has new xs ≡ false
      → length xs < k
      → Returns (Added h new v xs) (list_append k orig new h)
  list_append-Added = list_append-Seg
