-- ===== src/Prelude/Lists.antt =====
-- Lists measured by native numbers, Boolean search, and predicates by recursion on the list.
use Prim.Native.Nat.{ℕ, suc, ◌+◌}
use mathlib.Core.Path.{◌≡◌, subst}
use mathlib.Core.Logic.{◌⊎◌, inl, inr}
use mathlib.Core.Bool.{Bool, true, false, ◌||◌}
use mathlib.Core.List.{List, [], ◌∷◌, ◌++◌}
use native.Mathlib.Omega.{arith}

module _ {ℓ} {A : Type ℓ} where
  abbrev pub length : List A → ℕ
  length [] = 0
  length (x ∷ xs) = suc (length xs)

  abbrev pub any : (A → Bool) → List A → Bool
  any p [] = false
  any p (x ∷ xs) = p x || any p xs

  -- The elements at which a test holds, in order.
  abbrev pub keep_if : (A → Bool) → List A → List A
  keep_if p [] = []
  keep_if p (x ∷ xs) = let rest = keep_if p xs in elim (p x) [ true ↦ x ∷ rest | false ↦ rest ]

  pub length-append : (xs ys : List A) → length (xs ++ ys) ≡ length xs + length ys
  length-append [] ys = omega arith
  length-append (x ∷ xs) ys = omega (arith, length-append xs ys)

module _ {ℓ} {A : Type ℓ} where
  abbrev pub All : (A → Type 0) → List A → Type 0
  All P [] = Unit
  All P (x ∷ xs) = P x × All P xs

  abbrev pub Any : (A → Type 0) → List A → Type 0
  Any P [] = ⊥
  Any P (x ∷ xs) = P x ⊎ Any P xs

  pub All-append :
      (P : A → Type 0) (front back : List A) → All P front → All P back → All P (front ++ back)
  All-append P [] back _ h = h
  All-append P (x ∷ front) back (p, ps) h = (p, All-append P front back ps h)

  pub All-map : {P Q : A → Type 0} (xs : List A) → ((x : A) → P x → Q x) → All P xs → All Q xs
  All-map [] f h = tt
  All-map (x ∷ xs) f h = (f x h.0, All-map xs f h.1)

  kept :
      (P : A → Type 0) (Q : Type 0) (b : Bool) (x : A) (rest : List A)
      → (All P rest → Q)
      → All P (elim b [ true ↦ x ∷ rest | false ↦ rest ])
      → (b ≡ true → P x) × Q
  kept P Q true x rest f h = ((λ _. h.0), f h.1)
  kept P Q false x rest f h = ((λ t. cc t), f h)

  pub All-keep_if :
      (P : A → Type 0) (p : A → Bool) (xs : List A)
      → All P (keep_if p xs)
      → All (λ x. p x ≡ true → P x) xs
  All-keep_if P p [] h = tt
  All-keep_if P p (x ∷ xs) h =
      kept P (All (λ y. p y ≡ true → P y) xs) (p x) x (keep_if p xs) (All-keep_if P p xs) h

pub All-Any :
    {A : Type 0} (P Q : A → Type 0) (xs : List A) → All P xs → Any Q xs → (x : A) × P x × Q x
All-Any P Q [] h m = absurd m
All-Any P Q (x ∷ xs) h (inl q) = (x, h.0, q)
All-Any P Q (x ∷ xs) h (inr m) = All-Any P Q xs h.1 m

pub All-at :
    {A : Type 0} (P : A → Type 0) (xs : List A) (a : A) → All P xs → Any (λ x. x ≡ a) xs → P a
All-at P [] a h m = absurd m
All-at P (x ∷ xs) a h (inl e) = subst P e h.0
All-at P (x ∷ xs) a h (inr m) = All-at P xs a h.1 m
