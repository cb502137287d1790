-- ===== src/Store/Chain.antt =====
-- Doubly linked segments and lists.
use trollbot.Prelude.{
  ◌≡◌, ◌≢◌, refl, Bool, true, false, ◌||◌, Option, none, some, List, [], ◌∷◌, ◌++◌, arith, ◌==◌,
}
use trollbot.Store.{Ptr, null, Node, node, Store, write, ok, load, set_next, set_prev, free}

-- What a list holds: address and payload of each node, in order.
abbrev pub Cells : Type 0 → Type 0
Cells A = List (Ptr × A)

abbrev pub has : {A : Type 0} → Ptr → Cells A → Bool
has a [] = false
has a ((p, _) ∷ xs) = (a == p) || has a xs

pub has-append :
    {A : Type 0} (a : Ptr) (xs ys : Cells A) → has a (xs ++ ys) ≡ (has a xs || has a ys)
has-append a [] ys = refl
has-append a ((p, v) ∷ xs) ys = ground (arith, has-append a xs ys)

-- Nothing changes but at the addresses of `xs`.
abbrev pub SameOutside : {A : Type 0} → Cells A → Store A → Store A → Type 0
SameOutside xs h g = (a : Ptr) → has a xs ≡ false → g a ≡ h a

-- `p` is a node with this payload and these neighbours.
pub record Points {A : Type 0} (h : Store A) (p : Ptr) (v : A) (b q : Ptr) : Type 0 where
  pub ne_null : p ≢ null
  pub holds : h p ≡ some (node v b q)

-- The nodes `xs` from `p` on. `b` stands before the first, and `q` behind the last. All are
-- distinct.
pub data Seg {A : Type 0} (h : Store A) (q : Ptr) : (b p : Ptr) → Cells A → Type 0 where
  nil : {b p : Ptr} → p ≡ q → Seg h q b p []
  cons :
      {b p n : Ptr} {v : A} {xs : Cells A}
      → Points h p v b n
      → has p xs ≡ false
      → Seg h q p n xs
      → Seg h q b p ((p, v) ∷ xs)

-- The address of the last node, or `b` if there is none.
abbrev pub last_of : {A : Type 0} → Ptr → Cells A → Ptr
last_of b [] = b
last_of b ((p, _) ∷ xs) = last_of p xs

abbrev pub head_of : {A : Type 0} → Cells A → Ptr
head_of [] = null
head_of ((p, _) ∷ xs) = p

-- The list with head `p`, read forwards and backwards: no node stands before the head, or behind
-- the last.
abbrev pub IsList : {A : Type 0} → Store A → Ptr → Cells A → Type 0
IsList h p xs = Seg h null null p xs

module _ {A : Type 0} {h : Store A} {p b q : Ptr} {v : A} (at : Points h p v b q) where
  pub not_null : (p == null) ≡ false
  not_null = ground arith

  pub load-ok : load p h ≡ ok (node v b q) h
  unfolding load
  load-ok = rw (not_null, at.holds)

  pub set_next-ok : (r : Ptr) → set_next p r h ≡ ok tt (write h p (some (node v b r)))
  unfolding set_next
  set_next-ok r = rw load-ok

  pub set_prev-ok : (r : Ptr) → set_prev p r h ≡ ok tt (write h p (some (node v r q)))
  unfolding set_prev
  set_prev-ok r = rw load-ok

  pub free-ok : free p h ≡ ok tt (write h p none)
  unfolding free
  free-ok = rw load-ok

module _ {A : Type 0} {h : Store A} where
  pub frame :
      {g : Store A} {q b p : Ptr} {xs : Cells A}
      → Seg h q b p xs
      → ((a : Ptr) → has a xs ≡ true → g a ≡ h a)
      → Seg g q b p xs
  frame (nil r) same = nil r
  frame (cons {p} at out s) same =
      cons (ground (arith, same p)) out (frame s λ a i. same a (ground arith))

  pub frame-write :
      {q b p : Ptr} {xs : Cells A} (a : Ptr) (c : Option (Node A))
      → Seg h q b p xs
      → has a xs ≡ false
      → Seg (write h a c) q b p xs
  unfolding write
  frame-write a c s out = frame s (ground arith)

  pub Seg-append :
      {q n b p : Ptr} {xs ys : Cells A}
      → Seg h n b p xs
      → Seg h q (last_of b xs) n ys
      → ((a : Ptr) → has a xs ≡ true → has a ys ≡ false)
      → Seg h q b p (xs ++ ys)
  Seg-append (nil r) t apart = rw r t
  Seg-append {ys} (cons {p} {xs} at out s) t apart =
      cons at (ground (arith, has-append p xs ys, apart p))
        (Seg-append s t λ a i. apart a (ground arith))

  -- The first node is the head of the list.
  pub head_of-Seg : {b p : Ptr} {xs : Cells A} → Seg h null b p xs → p ≡ head_of xs
  head_of-Seg (nil r) = r
  head_of-Seg (cons at out s) = refl

  -- NULL and a free address are no nodes of a list.
  pub not_has-none :
      {q b p : Ptr} {xs : Cells A} (a : Ptr) → Seg h q b p xs → h a ≡ none → has a xs ≡ false
  not_has-none a (nil r) free_at = refl
  not_has-none a (cons at out s) free_at = ground (arith, not_has-none a s free_at)

  pub not_has-null : {q b p : Ptr} {xs : Cells A} → Seg h q b p xs → has null xs ≡ false
  not_has-null (nil r) = refl
  not_has-null (cons at out s) = ground (arith, not_has-null s)

-- A list read up to one of its nodes, and from there on.
pub record Split {A : Type 0} (h : Store A) (q b p : Ptr) (xs ys : Cells A) : Type 0 where
  pub middle : Ptr
  pub front : Seg h middle b p xs
  pub back : Seg h q (last_of b xs) middle ys
  pub apart : (a : Ptr) → has a xs ≡ true → has a ys ≡ false

pub Seg-Split :
    {A : Type 0} {h : Store A} {q b p : Ptr} (xs ys : Cells A)
    → Seg h q b p (xs ++ ys)
    → Split h q b p xs ys
Seg-Split {p} [] ys s = record { middle = p; front = nil refl; back = s; apart = λ a i. cc }
Seg-Split ((p, v) ∷ xs) ys (cons at out s) =
    let r = Seg-Split xs ys s in
    record {
      middle = r.middle;
      front = cons at (ground (arith, has-append p xs ys)) r.front;
      back = r.back;
      apart = λ a i. ground (arith, r.apart a, has-append p xs ys);
    }
