-- ===== src/Billing/Desk/Rows.antt =====
-- The checkouts of a business as a list: how many block, and what a change of one row does.
use mathlib.Core.Option.{some-injective}
use whatsapp_atendimentos_ag.Prelude.{
  ℕ, ◌+◌, ◌≡◌, refl, sym, ap, ◌∙◌, subst, ◌⊎◌, inl, inr, Bool, true, false, none, some, List, [],
  ◌∷◌, if◌then◌else◌, if_cases, Bool-cases, All, Any, arith,
}
use whatsapp_atendimentos_ag.Billing.Types.{Environment, Checkout}
use whatsapp_atendimentos_ag.Billing.Desk.{blocks, first, change_first}

abbrev pub bit : Bool → ℕ
bit true = 1
bit false = 0

-- How many checkouts block.
abbrev pub open_count : Environment → List Checkout → ℕ
open_count e [] = 0
open_count e (c ∷ cs) = bit (blocks e c) + open_count e cs

-- The row is the first that passes the test: this one, or one after it.
first-cases :
    {A : Type 0} (p : A → Bool) (c : A) (cs : List A) (x : A)
    → first p (c ∷ cs) ≡ some x
    → ((p c ≡ true) × (c ≡ x)) ⊎ ((p c ≡ false) × (first p cs ≡ some x))
unfolding first
first-cases {A} p c cs x h = of_test (p c) refl h
  where
    of_test :
        (b : Bool)
        → p c ≡ b
        → (if b then some c else first p cs) ≡ some x
        → ((p c ≡ true) × (c ≡ x)) ⊎ ((p c ≡ false) × (first p cs ≡ some x))
    of_test true t k = inl (t, some-injective c x k)
    of_test false t k = inr (t, k)

found_first :
    {A : Type 0} (p : A → Bool) (c : A) (cs : List A) → p c ≡ true → first p (c ∷ cs) ≡ some c
unfolding first
found_first p c cs t = rw t refl

passed_first :
    {A : Type 0} (p : A → Bool) (c : A) (cs : List A) → p c ≡ false → first p (c ∷ cs) ≡ first p cs
unfolding first
passed_first p c cs t = rw t refl

-- The row that was found is found again after a change that keeps the test.
pub first-change_first :
    {A : Type 0} (p : A → Bool) (f : A → A) (cs : List A) (x : A)
    → first p cs ≡ some x
    → p (f x) ≡ true
    → first p (change_first p f cs) ≡ some (f x)
unfolding first change_first
first-change_first p f [] x h t = cc h
first-change_first p f (c ∷ cs) x h t = elim (first-cases p c cs x h) [
  | inl (here, same) ↦
      rw here (subst (λ y. first p (f y ∷ cs) ≡ some (f x)) (sym same) (found_first p (f x) cs t))
  | inr (other, k) ↦ rw other (passed_first p c _ other ∙ first-change_first p f cs x k t)
]

pub first_holds :
    {A : Type 0} (p : A → Bool) (cs : List A) (x : A) → first p cs ≡ some x → p x ≡ true
unfolding first
first_holds p [] x h = cc h
first_holds p (c ∷ cs) x h = elim (first-cases p c cs x h) [
  | inl (t, e) ↦ subst (λ y. p y ≡ true) e t
  | inr (t, k) ↦ first_holds p cs x k
]

pub first-All :
    (P : Checkout → Type 0) (p : Checkout → Bool) (cs : List Checkout) (x : Checkout)
    → first p cs ≡ some x
    → All P cs
    → P x
unfolding first
first-All P p [] x h all = cc h
first-All P p (c ∷ cs) x h all = elim (first-cases p c cs x h) [
  | inl (t, e) ↦ subst P e all.0
  | inr (t, k) ↦ first-All P p cs x k all.1
]

-- A change of one row changes the count by what it changes of the row.
pub open_count-change_first :
    (e : Environment) (p : Checkout → Bool) (f : Checkout → Checkout) (cs : List Checkout)
    (x : Checkout)
    → first p cs ≡ some x
    → open_count e (change_first p f cs) + bit (blocks e x) ≡ open_count e cs + bit (blocks e (f x))
unfolding first change_first
open_count-change_first e p f [] x h = cc h
open_count-change_first e p f (c ∷ cs) x h = elim (first-cases p c cs x h) [
  | inl (t, same) ↦ rw t (
      subst
        (λ y.
          bit (blocks e (f c)) + open_count e cs + bit (blocks e y)
          ≡ bit (blocks e c) + open_count e cs + bit (blocks e (f y)))
        same (omega arith))
  | inr (t, k) ↦ rw t (omega (arith, open_count-change_first e p f cs x k))
]

pub open_count-none :
    (e : Environment) (cs : List Checkout) → first (blocks e) cs ≡ none → open_count e cs ≡ 0
unfolding first
open_count-none e [] h = refl
open_count-none e (c ∷ cs) h = elim (Bool-cases (blocks e c)) [
  | inl t ↦ cc (h, taken t)
  | inr t ↦ omega (arith, ap bit t, open_count-none e cs (sym (passed t) ∙ h))
]
  where
    taken : blocks e c ≡ true → first (blocks e) (c ∷ cs) ≡ some c
    taken t = rw t refl

    passed : blocks e c ≡ false → first (blocks e) (c ∷ cs) ≡ first (blocks e) cs
    passed t = rw t refl

pub change_first-All :
    (P : Checkout → Type 0) (p : Checkout → Bool) (f : Checkout → Checkout) (cs : List Checkout)
    → ((c : Checkout) → P c → P (f c))
    → All P cs
    → All P (change_first p f cs)
unfolding change_first
change_first-All P p f [] keeps all = tt
change_first-All P p f (c ∷ cs) keeps all =
    if_cases (All P) (p c) (λ _. (keeps c all.0, all.1))
      (λ _. (all.0, change_first-All P p f cs keeps all.1))

-- What a change keeps of the row that is changed, it keeps of every one.
pub change_first-Any :
    (P : Checkout → Type 0) (p : Checkout → Bool) (f : Checkout → Checkout) (cs : List Checkout)
    (x : Checkout)
    → first p cs ≡ some x
    → (P x → P (f x))
    → Any P cs
    → Any P (change_first p f cs)
unfolding first change_first
change_first-Any P p f [] x h keeps m = cc h
change_first-Any P p f (d ∷ cs) x h keeps (inl e) = elim (first-cases p d cs x h) [
  | inl (t, same) ↦ rw t (inl (subst (λ y. P y → P (f y)) (sym same) keeps e))
  | inr (t, k) ↦ rw t (inl e)
]
change_first-Any P p f (d ∷ cs) x h keeps (inr n) = elim (first-cases p d cs x h) [
  | inl (t, same) ↦ rw t (inr n)
  | inr (t, k) ↦ rw t (inr (change_first-Any P p f cs x k keeps n))
]
