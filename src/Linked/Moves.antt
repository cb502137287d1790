-- ===== src/Linked/Moves.antt =====
-- Where the pointer of a list goes, and what stays linked to it.
use trollbot.Prelude.{
  ℕ, suc, ◌+◌, ◌≤◌, ◌≡◌, ◌↔◌, refl, ap, Bool, true, false, All, List, [], ◌∷◌, ◌++◌, some, length,
  length-append, arith,
}
use trollbot.Linked.{Linked, append_linked, add_from, to_front, whole, step_back, del_found}

module _ {A : Type 0} where
  pub to_front-to_front :
      (front behind xs : List A)
      → to_front (to_front front behind) xs ≡ to_front behind (front ++ xs)
  unfolding to_front
  to_front-to_front [] behind xs = refl
  to_front-to_front (y ∷ front) behind xs = to_front-to_front front (y ∷ behind) xs

  pub whole-step_back : (bs xs : List A) → whole (step_back bs xs) ≡ to_front bs xs
  unfolding to_front
  whole-step_back [] xs = refl
  whole-step_back (b ∷ bs) xs = refl

  pub behind-to_front :
      (front : List A) (b : A) (bs xs : List A)
      → length (step_back (to_front front (b ∷ bs)) xs).from ≡ suc (length xs)
  unfolding to_front
  behind-to_front [] b bs xs = refl
  behind-to_front (y ∷ front) b bs xs = behind-to_front front y (b ∷ bs) xs

  -- How many elements can no more be read: the one that is deleted, or those before it without the
  -- last.
  abbrev pub lost : List A → ℕ
  lost [] = 1
  lost (y ∷ front) = length (y ∷ front)

  pub count-step_back :
      (front : List A) (x : A) (rear : List A)
      → length (step_back (to_front front []) rear).from + lost front ≡ length (front ++ x ∷ rear)
  unfolding to_front
  count-step_back [] x rear = omega arith
  count-step_back (y ∷ front) x rear =
      omega (arith, behind-to_front front y [] rear, length-append front (x ∷ rear))

  pub step_back-from :
      (front rear : List A)
      → ((step_back (to_front front []) rear).from ≡ front ++ rear) ↔ (length front ≤ 1)
  unfolding to_front
  step_back-from [] rear = ((λ e. omega arith), (λ l. refl))
  step_back-from (x ∷ []) rear = ((λ e. omega arith), (λ l. refl))
  step_back-from (x ∷ y ∷ front) rear = (
    (λ e.
        omega
          (arith, ap length e, behind-to_front front y (x ∷ []) rear, length-append front rear)),
    (λ l. absurd (omega arith)),
  )

  pub append_linked-from : (l : Linked A) (x : A) → (append_linked l x).from ≡ l.from ++ x ∷ []
  unfolding append_linked
  append_linked-from l x = go l.from
    where
      go : (from : List A) → (add_from l.behind from x).from ≡ from ++ x ∷ []
      go [] = refl
      go (y ∷ from) = refl

module _ {A : Type 0} (found : A → Bool) where
  abbrev pub Missed : List A → Type 0
  Missed xs = All (λ x. found x ≡ false) xs

  pub del_found-split :
      (front : List A) (behind : List A) (x : A) (rear : List A)
      → Missed front
      → found x ≡ true
      → del_found found behind (front ++ x ∷ rear) ≡ some (step_back (to_front front behind) rear)
  unfolding del_found to_front
  del_found-split [] behind x rear m h = rw h
  del_found-split (y ∷ front) behind x rear m h =
      rw (m.0, del_found-split front (y ∷ behind) x rear m.1 h)
