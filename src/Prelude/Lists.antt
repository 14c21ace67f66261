-- ===== src/Prelude/Lists.antt =====
-- Lists measured by native numbers, with Boolean filters and membership as a family.
use Prim.Native.Nat.{ℕ, suc, ◌+◌}
use mathlib.Core.Path.{◌≡◌, refl, sym, subst, ap, ◌∙◌}
use mathlib.Core.Logic.{◌↔◌, ◌⊎◌, inl, inr}
use mathlib.Core.Bool.{Bool, true, false, ◌||◌}
use mathlib.Core.List.{List, [], ◌∷◌, ◌++◌, map}
use native.Mathlib.Omega.{arith}
use ai_business_automation.Prelude.Tests.{if◌then◌else◌, Bool-cases}

module _ {ℓ} {A : Type ℓ} where
  abbrev pub length : List A → ℕ
  length [] = 0
  length (x ∷ xs) = suc (length xs)

  pub length-append : (xs ys : List A) → length (xs ++ ys) ≡ length xs + length ys
  length-append [] ys = omega arith
  length-append (x ∷ xs) ys = omega (arith, length-append xs ys)

  -- `[x for x in xs if p(x)]`
  abbrev pub select : (A → Bool) → List A → List A
  select p [] = []
  select p (x ∷ xs) = let rest = select p xs in if p x then x ∷ rest else rest

  abbrev pub any : (A → Bool) → List A → Bool
  any p [] = false
  any p (x ∷ xs) = p x || any p xs

-- Membership, by recursion on the list.
abbrev pub Member : {A : Type 0} → A → List A → Type 0
Member a [] = ⊥
Member a (x ∷ xs) = (a ≡ x) ⊎ Member a xs

abbrev pub All : {A : Type 0} → (A → Type 0) → List A → Type 0
All P [] = Unit
All P (x ∷ xs) = P x × All P xs

pub All-mem : {A : Type 0} (P : A → Type 0) (xs : List A) {a : A} → All P xs → Member a xs → P a
All-mem P [] h m = absurd m
All-mem P (x ∷ xs) h (inl e) = subst P (sym e) h.0
All-mem P (x ∷ xs) h (inr m) = All-mem P xs h.1 m

pub All-intro :
    {A : Type 0} (P : A → Type 0) (xs : List A) → ((a : A) → Member a xs → P a) → All P xs
All-intro P [] h = tt
All-intro P (x ∷ xs) h = (h x (inl refl), All-intro P xs (λ a m. h a (inr m)))

pub append-eq-nil {ℓ} : {A : Type ℓ} (xs ys : List A) → xs ++ ys ≡ [] → (xs ≡ []) × (ys ≡ [])
append-eq-nil [] ys h = (refl, h)
append-eq-nil (x ∷ xs) ys h = cc

pub mem-map :
    {A B : Type 0} (f : A → B) (b : B) (xs : List A)
    → Member b (map f xs) ↔ ((a : A) × Member a xs × (f a ≡ b))
mem-map f b [] = (λ m. absurd m, λ (a, m, e). absurd m)
mem-map f b (x ∷ xs) = (
  λ m. elim m [
    | inl e ↦ (x, inl refl, sym e)
    | inr k ↦ let (a, l, e) = (mem-map f b xs).0 k in (a, inr l, e)
  ],
  λ (a, m, e). elim m [ inl q ↦ inl (sym e ∙ ap f q) | inr k ↦ inr ((mem-map f b xs).1 (a, k, e)) ],
)

pub mem-select :
    {A : Type 0} (p : A → Bool) (a : A) (xs : List A)
    → Member a (select p xs) ↔ (Member a xs × (p a ≡ true))
mem-select p a [] = (λ m. absurd m, λ (m, e). absurd m)
mem-select p a (x ∷ xs) = elim (Bool-cases (p x)) [
  | inl passes ↦ (
    λ m. elim (rw passes at m) [
      | inl e ↦ (inl e, rw e passes)
      | inr k ↦ (inr ((mem-select p a xs).0 k).0, ((mem-select p a xs).0 k).1)
    ],
    λ (m, e). rw passes (elim m [ inl q ↦ inl q | inr k ↦ inr ((mem-select p a xs).1 (k, e)) ]),
  )
  | inr fails ↦ (
    λ m. let (k, e) = (mem-select p a xs).0 (rw fails at m) in (inr k, e),
    λ (m, e). rw fails (elim m [ inl q ↦ cc | inr k ↦ (mem-select p a xs).1 (k, e) ]),
  )
]

pub select-append {ℓ} :
    {A : Type ℓ} (p : A → Bool) (xs ys : List A) → select p (xs ++ ys) ≡ select p xs ++ select p ys
select-append p [] ys = refl
select-append p (x ∷ xs) ys = ground (arith, select-append p xs ys)

-- A filter that drops nothing another one keeps does not change what that one finds.
pub select-select {ℓ} :
    {A : Type ℓ} (p q : A → Bool) (xs : List A)
    → ((a : A) → p a ≡ true → q a ≡ true)
    → select p (select q xs) ≡ select p xs
select-select p q [] h = refl
select-select p q (x ∷ xs) h = ground (arith, h x, select-select p q xs h)

pub any-select {ℓ} :
    {A : Type ℓ} (p q : A → Bool) (xs : List A)
    → ((a : A) → p a ≡ true → q a ≡ true)
    → any p (select q xs) ≡ any p xs
any-select p q [] h = refl
any-select p q (x ∷ xs) h = ground (arith, h x, any-select p q xs h)

pub any-append {ℓ} :
    {A : Type ℓ} (p : A → Bool) (xs ys : List A) → any p (xs ++ ys) ≡ (any p xs || any p ys)
any-append p [] ys = refl
any-append p (x ∷ xs) ys = ground (arith, any-append p xs ys)

pub any-mem :
    {A : Type 0} (p : A → Bool) (a : A) (xs : List A) → Member a xs → p a ≡ true → any p xs ≡ true
any-mem p a [] m h = absurd m
any-mem p a (x ∷ xs) (inl e) h = let q : p x ≡ true = subst (λ b. p b ≡ true) e h in ground arith
any-mem p a (x ∷ xs) (inr m) h = ground (arith, any-mem p a xs m h)

pub mem-append :
    {A : Type 0} (a : A) (xs ys : List A) → Member a (xs ++ ys) ↔ (Member a xs ⊎ Member a ys)
mem-append a [] ys = (inr, λ m. elim m [ inl k ↦ absurd k | inr k ↦ k ])
mem-append a (x ∷ xs) ys = ground (arith, mem-append a xs ys)

pub length-map {ℓ κ} :
    {A : Type ℓ} {B : Type κ} (f : A → B) (xs : List A) → length (map f xs) ≡ length xs
length-map f [] = refl
length-map f (x ∷ xs) = ap suc (length-map f xs)
