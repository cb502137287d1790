-- ===== src/Prelude/Fallible.antt =====
-- Sequencing of steps that may fail: `none` is a fault of the program.
use mathlib.Core.Path.{◌≡◌, refl, sym, subst}
use mathlib.Core.Option.{Option, none, some}

infixl 5 ◌>>=◌
abbrev pub ◌>>=◌ {ℓ κ} : {A : Type ℓ} {B : Type κ} → Option A → (A → Option B) → Option B
none >>= f = none
some a >>= f = f a

-- A fallible step returns, and what it returns satisfies `P`.
abbrev pub Gives {ℓ} : {A : Type ℓ} → (A → Type 0) → Option A → Type 0
Gives P none = ⊥
Gives P (some a) = P a

pub Gives-bind {ℓ κ} :
    {A : Type ℓ} {B : Type κ} (P : A → Type 0) (Q : B → Type 0) (m : Option A) (f : A → Option B)
    → Gives P m
    → ((a : A) → P a → Gives Q (f a))
    → Gives Q (m >>= f)
Gives-bind P Q (some a) f h k = k a h
Gives-bind P Q none f h k = absurd h

pub Gives-weaken {ℓ} :
    {A : Type ℓ} (P Q : A → Type 0) (m : Option A) → Gives P m → ((a : A) → P a → Q a) → Gives Q m
Gives-weaken P Q (some a) h k = k a h
Gives-weaken P Q none h k = absurd h

-- If a fallible step returns, what it returns satisfies `P`.
abbrev pub Yields {ℓ} : {A : Type ℓ} → (A → Type 0) → Option A → Type 0
Yields P none = Unit
Yields P (some a) = P a

pub Yields-bind {ℓ κ} :
    {A : Type ℓ} {B : Type κ} (P : A → Type 0) (Q : B → Type 0) (m : Option A) (f : A → Option B)
    → Yields P m
    → ((a : A) → P a → Yields Q (f a))
    → Yields Q (m >>= f)
Yields-bind P Q (some a) f h k = k a h
Yields-bind P Q none f h k = tt

pub Yields-weaken {ℓ} :
    {A : Type ℓ} (P Q : A → Type 0) (m : Option A) → Yields P m → ((a : A) → P a → Q a) → Yields Q m
Yields-weaken P Q (some a) h k = k a h
Yields-weaken P Q none h k = tt

-- The same of a case distinction on a result that is read before.
pub Yields-step {ℓ κ} :
    {A : Type ℓ} {B : Type κ} (Q : B → Type 0) (m : Option A) (f : A → Option B)
    → ((a : A) → Yields Q (f a))
    → Yields Q (m >>= f)
Yields-step Q (some a) f k = k a
Yields-step Q none f k = tt

-- It returns.
abbrev pub HasValue {ℓ} : {A : Type ℓ} → Option A → Type 0
HasValue none = ⊥
HasValue (some a) = Unit

pub HasValue-step {ℓ κ} :
    {A : Type ℓ} {B : Type κ} (m : Option A) (f : A → Option B)
    → HasValue m
    → ((a : A) → HasValue (f a))
    → HasValue (m >>= f)
HasValue-step (some a) f h k = k a
HasValue-step none f h k = absurd h

pub Gives-Yields {ℓ} :
    {A : Type ℓ} (P : A → Type 0) (m : Option A) → HasValue m → Yields P m → Gives P m
Gives-Yields P (some a) h y = y
Gives-Yields P none h y = absurd h

pub Yields-known {ℓ κ} :
    {A : Type ℓ} {B : Type κ} (Q : B → Type 0) (m : Option A) (f : A → Option B) {a : A}
    → m ≡ some a
    → Yields Q (f a)
    → Yields Q (m >>= f)
Yields-known Q m f e y = subst (λ m. Yields Q (m >>= f)) (sym e) y

pub Gives-known {ℓ κ} :
    {A : Type ℓ} {B : Type κ} (Q : B → Type 0) (m : Option A) (f : A → Option B) {a : A}
    → m ≡ some a
    → Gives Q (f a)
    → Gives Q (m >>= f)
Gives-known Q m f e y = subst (λ m. Gives Q (m >>= f)) (sym e) y

-- A fault of every later step is a fault of the whole.
pub bind_none {ℓ κ} :
    {A : Type ℓ} {B : Type κ} (m : Option A) (f : A → Option B)
    → ((a : A) → f a ≡ none)
    → (m >>= f) ≡ none
bind_none none f h = refl
bind_none (some a) f h = h a

pub Gives-HasValue {ℓ} : {A : Type ℓ} (P : A → Type 0) (m : Option A) → Gives P m → HasValue m
Gives-HasValue P (some a) h = tt
Gives-HasValue P none h = absurd h
