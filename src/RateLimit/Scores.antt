-- ===== src/RateLimit/Scores.antt =====
-- The scores within a window of backend/app/core/rate_limit.py, as lists of times.
use ai_business_automation.Prelude.{
  ℕ, ◌+◌, ◌≤◌, ◌<◌, Bool, Bool-cases, true, List, [], ◌∷◌, ◌++◌, ◌≡◌, refl, inl, inr, arith, ltb,
  select, All,
}
use ai_business_automation.RateLimit.{insert}

-- After `now - window_seconds`.
abbrev pub is_recent : ℕ → ℕ → ℕ → Bool
is_recent window_seconds now t = ltb now (t + window_seconds)

pub select-select :
    (q r : ℕ → Bool) (xs : List ℕ)
    → ((t : ℕ) → q t ≡ true → r t ≡ true)
    → select q (select r xs) ≡ select q xs
select-select q r [] weaker = refl
select-select q r (x ∷ xs) weaker = ground (arith, weaker x, select-select q r xs weaker)

pub select_same : (q r : ℕ → Bool) (xs : List ℕ) → ((t : ℕ) → q t ≡ r t) → select q xs ≡ select r xs
select_same q r [] same = refl
select_same q r (x ∷ xs) same = ground (arith, same x, select_same q r xs same)

pub select_all : (q : ℕ → Bool) (xs : List ℕ) → ((t : ℕ) → q t ≡ true) → select q xs ≡ xs
select_all q [] all = refl
select_all q (x ∷ xs) all = ground (arith, all x, select_all q xs all)

pub select_old :
    (window_seconds now later : ℕ) (xs : List ℕ)
    → All (λ t. t ≤ now) xs
    → now + window_seconds ≤ later
    → select (is_recent window_seconds later) xs ≡ []
select_old window_seconds now later [] old late = refl
select_old window_seconds now later (x ∷ xs) old late =
    ground (arith, select_old window_seconds now later xs old.1 late)

pub insert_last : (t : ℕ) (xs : List ℕ) → All (λ x. x < t) xs → insert t xs ≡ xs ++ t ∷ []
insert_last t [] below = refl
insert_last t (x ∷ xs) below = ground (arith, insert_last t xs below.1)

pub All-select : (P : ℕ → Type 0) (q : ℕ → Bool) (xs : List ℕ) → All P xs → All P (select q xs)
All-select P q [] all = tt
All-select P q (x ∷ xs) all = elim (Bool-cases (q x)) [
  | inl hit ↦ rw hit (all.0, All-select P q xs all.1)
  | inr miss ↦ rw miss (All-select P q xs all.1)
]

pub All-snoc : (P : ℕ → Type 0) (xs : List ℕ) (t : ℕ) → All P xs → P t → All P (xs ++ t ∷ [])
All-snoc P [] t all last = (last, tt)
All-snoc P (x ∷ xs) t all last = (all.0, All-snoc P xs t all.1 last)

pub All-weaken : (now : ℕ) (xs : List ℕ) → All (λ t. t < now) xs → All (λ t. t ≤ now) xs
All-weaken now [] all = tt
All-weaken now (x ∷ xs) all = (omega arith, All-weaken now xs all.1)
