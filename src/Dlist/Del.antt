-- ===== src/Dlist/Del.antt =====
-- Deleting a node: what becomes of the list, and which pointer the caller gets.
use trollbot.Prelude.{
  ℕ, zero, suc, ◌≤◌, ◌<◌, ◌≡◌, ◌≢◌, ◌↔◌, refl, sym, ap, subst, ◌∙◌, true, false, [], ◌∷◌, ◌++◌,
  arith, ◌==◌, if◌then◌else◌, length, ne_of_==, ==_refl,
}
use trollbot.Store
use trollbot.Store.{◌>>=◌, Ptr, null, Node, node, Store, write, ok, load, set_next, set_prev, pure}
use trollbot.Store.Returns
use trollbot.Store.Returns.{Returns, returns}
use trollbot.Store.Chain.{
  Cells, has, has-append, SameOutside, Points, Seg, nil, cons, last_of, head_of, IsList, not_null,
  load-ok, set_prev-ok, frame, frame-write, Seg-append, Seg-Split, head_of-Seg,
}
use trollbot.Dlist.{bridge_prev, bridge_next, go_back, go_on, unlink, del_loop, list_del}
use trollbot.Dlist.Add.{set_next_last}

-- The head of a list whose first nodes are `xs` and that goes on at `q`.
abbrev pub start : {A : Type 0} → Cells A → Ptr → Ptr
start [] q = q
start ((p, _) ∷ _) q = p

module _ {A : Type 0} {h : Store A} where
  last_of-not_null :
      {q b p n : Ptr} {v : A} {xs : Cells A}
      → Points h p v b n
      → Seg h q p n xs
      → (last_of p xs == null) ≡ false
  last_of-not_null at (nil e) = not_null at
  last_of-not_null {p} at (cons at' out s) = last_of-not_null {b = p} at' s

  pub bridge_prev-Seg :
      {users d q : Ptr} {v : A} {front : Cells A}
      → Seg h d null users front
      → Points h d v (last_of null front) q
      → has d front ≡ false
      → Returns
          (λ _ g. Seg g q null (start front q) front × SameOutside front h g)
          (bridge_prev d h)
  unfolding bridge_prev
  bridge_prev-Seg (nil e) at out = rw (load-ok at) (returns (nil refl, λ a o. refl))
  bridge_prev-Seg {q} (cons {p} here out s) at free_of =
      rw (load-ok at, last_of-not_null here s) (set_next_last q here out s)

  pub bridge_next-Seg :
      {d b q : Ptr} {v : A} {rear : Cells A}
      → Seg h null d q rear
      → Points h d v b q
      → has d rear ≡ false
      → Returns (λ _ g. Seg g null b q rear × SameOutside rear h g) (bridge_next d h)
  unfolding bridge_next write
  bridge_next-Seg (nil e) at out = rw (load-ok at, e) (returns (nil refl, λ a o. refl))
  bridge_next-Seg {b} (cons here out s) at free_of =
      rw (load-ok at, not_null here, set_prev-ok here b)
        (returns (cons (ground arith) out (frame-write _ _ s out), λ a o. ground arith))

-- The node that the caller is given: the one before `d`, or else the one behind it, or NULL.
abbrev pub survivor : {A : Type 0} → Cells A → Cells A → Ptr
survivor front rear = last_of (head_of rear) front

has-last_of :
    {A : Type 0} (p : Ptr) (v : A) (xs : Cells A) → has (last_of p xs) ((p, v) ∷ xs) ≡ true
has-last_of p v [] = ground arith
has-last_of p v ((q, w) ∷ xs) = ground (arith, has-last_of q w xs)

module _ {A : Type 0} {h : Store A} {d b q : Ptr} {v : A} (at : Points h d v b q) where
  go_back_here : (b ≢ d) → go_back 2 d d h ≡ ok (if b == null then d else b) h
  unfolding go_back
  go_back_here ne = rw (==_refl d, load-ok at) (ground arith)

  go_on_here : (q ≢ d) → go_on 2 d d h ≡ ok (if q == null then d else q) h
  unfolding go_on
  go_on_here ne = rw (==_refl d, load-ok at) (ground arith)

  go_on_moved : (p : Ptr) → p ≢ d → go_on 2 d p h ≡ ok p h
  unfolding go_on
  go_on_moved p ne = ground arith

-- The end of `user_list_del`, once the neighbours are linked.
abbrev choose : {A : Type 0} → Ptr → Store A → Store.Run A Ptr
choose d = do p ← go_back 2 d d; r ← go_on 2 d p; if r == d then pure null else pure r

module _ {A : Type 0} {h : Store A} {d b q : Ptr} {v : A} where
  choose_front : Points h d v b q → b ≢ null → b ≢ d → choose d h ≡ ok b h
  choose_front at nn nd = rw (go_back_here at nd) (ground (arith, go_on_moved at b nd))

  choose_rear : Points h d v b q → b ≡ null → q ≢ d → choose d h ≡ ok q h
  choose_rear at e nd =
      rw (go_back_here at (λ x. at.ne_null (sym x ∙ e)), e)
        (ground (arith, go_on_here at nd, ==_refl d))

-- After deleting `d` from between `front` and `rear`: the list without it, the pointer returned,
-- and what is untouched.
abbrev pub Deleted : {A : Type 0} → Store A → Ptr → A → Cells A → Cells A → Ptr → Store A → Type 0
Deleted h d v front rear r g =
    IsList g (start front (head_of rear)) (front ++ rear)
    × (r ≡ survivor front rear)
    × SameOutside (front ++ (d, v) ∷ rear) h g

module _ {A : Type 0} {h : Store A} where
  choose-survivor :
      {d p q : Ptr} {v : A} {front rear : Cells A}
      → Points h d v (last_of null front) q
      → Seg h q null p front
      → Seg h null (last_of null front) q rear
      → has d front ≡ false
      → has d rear ≡ false
      → choose d h ≡ ok (survivor front rear) h
  choose-survivor at (nil e) (nil r) out out' =
      rw (choose_rear at refl (λ x. at.ne_null (sym x ∙ r))) (ap (λ x. ok x h) r)
  choose-survivor at (nil e) (cons here o s) out out' = choose_rear at refl (ground arith)
  choose-survivor at (cons {p} {v} {xs} here o s) t out out' =
      choose_front at (ne_of_== _ null (last_of-not_null here s))
        (ground (arith, has-last_of p v xs))

module _ {A : Type 0} {h : Store A} where
  unlink-Seg :
      {users d q : Ptr} {v : A} {front rear : Cells A}
      → Points h d v (last_of null front) q
      → Seg h d null users front
      → Seg h null d q rear
      → has d front ≡ false
      → has d rear ≡ false
      → ((a : Ptr) → has a front ≡ true → has a rear ≡ false)
      → Returns (Deleted h d v front rear) (unlink d h)
  unfolding unlink
  unlink-Seg {d} {q} {v} {front} {rear} at s t out out' apart =
      Returns.bind (bridge_prev-Seg s at out) λ _ g (s', same).
        let at' : Points g d v (last_of null front) q = ground (arith, same d) in
        let t' = frame t (λ a i. same a (ground (arith, apart a))) in
        Returns.bind (bridge_next-Seg t' at' out') λ _ k (t'', same').
          let at'' : Points k d v (last_of null front) q = ground (arith, same' d) in
          let s'' = frame s' (λ a i. same' a (apart a i)) in
          rw (choose-survivor at'' s'' t'' out out') (
            returns (
              subst (λ x. IsList k (start front x) (front ++ rear)) (head_of-Seg t)
                  (Seg-append s'' t'' apart),
              refl,
              λ a o. ground (arith, same a, same' a, has-append a front ((d, v) ∷ rear)),
            ))

  del_loop-Seg :
      (k : ℕ) (users : Ptr) {d b p : Ptr} {front : Cells A}
      → Seg h d b p front
      → d ≢ null
      → has d front ≡ false
      → length front < k
      → del_loop k users d p h ≡ unlink d h
  unfolding del_loop
  del_loop-Seg zero users s ne out l = absurd (omega arith)
  del_loop-Seg (suc k) users {d} (nil e) ne out l = rw e (ground (arith, ==_refl d))
  del_loop-Seg (suc k) users {d} (cons {p} at out' s) ne out l =
      let miss : (p == d) ≡ false = ground arith in
      rw (not_null at, miss, load-ok at) (del_loop-Seg k users s ne (ground arith) (omega arith))

-- A segment that begins with a given cell.
pub record Begins {A : Type 0} (h : Store A) (q b p d : Ptr) (v : A) (xs : Cells A) : Type 0 where
  pub begins : p ≡ d
  pub behind : Ptr
  pub cell : Points h d v b behind
  pub distinct : has d xs ≡ false
  pub rest : Seg h q d behind xs

pub Seg-Begins :
    {A : Type 0} {h : Store A} {q b p d : Ptr} {v : A} {xs : Cells A}
    → Seg h q b p ((d, v) ∷ xs)
    → Begins h q b p d v xs
Seg-Begins (cons {n} at out s) = record {
  begins = refl;
  behind = n;
  cell = at;
  distinct = out;
  rest = s;
}

pub head-not_null :
    {A : Type 0} {h : Store A} {q b p : Ptr} (d : Ptr) (v : A) (front rear : Cells A)
    → Seg h q b p (front ++ (d, v) ∷ rear)
    → (p == null) ≡ false
head-not_null d v [] rear (cons at out s) = not_null at
head-not_null d v (x ∷ front) rear (cons at out s) = not_null at

-- With more fuel than nodes before it, `user_list_del` of a node in the list returns, unlinks it
-- and touches no node outside the list. What it returns is the node before the deleted one, or the
-- one behind it if it was the head, or NULL.
pub list_del-Deleted :
    {A : Type 0} {h : Store A} (k : ℕ) {users : Ptr} (d : Ptr) (v : A) (front rear : Cells A)
    → IsList h users (front ++ (d, v) ∷ rear)
    → length front < k
    → Returns (Deleted h d v front rear) (list_del k users d h)
unfolding list_del
list_del-Deleted {h} k {users} d v front rear s l =
    let cut = Seg-Split front ((d, v) ∷ rear) s in
    let b = Seg-Begins cut.back in
    let s' = subst (λ x. Seg h x null users front) b.begins cut.front in
    let out : has d front ≡ false = ground (arith, cut.apart d, ==_refl d) in
    rw (head-not_null d v front rear s, del_loop-Seg k users s' b.cell.ne_null out l)
      (unlink-Seg b.cell s' b.rest out b.distinct (λ a i. ground (arith, cut.apart a)))

survivor-start :
    {A : Type 0} {h : Store A} {users : Ptr} (d : Ptr) (v : A) (front rear : Cells A)
    → IsList h users (front ++ (d, v) ∷ rear)
    → (survivor front rear ≡ start front (head_of rear)) ↔ (length front ≤ 1)
survivor-start d v [] rear s = (λ e. omega arith, λ l. refl)
survivor-start d v ((p, w) ∷ []) rear s = (λ e. omega arith, λ l. refl)
survivor-start d v ((p, w) ∷ (q, u) ∷ front) rear (cons at out s) = (
  λ e.
      absurd (ground (arith, has-last_of q u front, has-append p ((q, u) ∷ front) ((d, v) ∷ rear))),
  λ l. absurd (omega arith),
)

-- With the same fuel, the pointer that `user_list_del` returns is the head of what is left exactly
-- if the deleted node stood first or second.
pub list_del_head :
    {A : Type 0} {h : Store A} (k : ℕ) {users : Ptr} (d : Ptr) (v : A) (front rear : Cells A)
    → IsList h users (front ++ (d, v) ∷ rear)
    → length front < k
    → Returns
        (λ r g.
          IsList g (start front (head_of rear)) (front ++ rear)
          × ((r ≡ start front (head_of rear)) ↔ (length front ≤ 1)))
        (list_del k users d h)
list_del_head k d v front rear s l =
    Returns.weaken (list_del-Deleted k d v front rear s l)
      λ r g (chain, e, same). (chain, rw e (survivor-start d v front rear s))
