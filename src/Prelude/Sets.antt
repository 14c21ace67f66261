-- ===== src/Prelude/Sets.antt =====
-- Python sets of texts, as lists whose order and repetitions say nothing.
use Prim.Native.Nat.{ℕ, suc, ◌≤◌, ◌<◌}
use Prim.Native.String.{String}
use mathlib.Core.Path.{◌≡◌}
use mathlib.Core.Logic.{◌↔◌, inl, inr}
use mathlib.Core.Bool.{Bool, true, false, ◌||◌}
use mathlib.Core.List.{List, [], ◌∷◌}
use native.Mathlib.Omega.{arith}
use text.Mathlib.Text.{◌==◌ as str_eq}
use text.Mathlib.TextEquality.{eq_iff}
use ai_business_automation.Prelude.Tests.{if◌then◌else◌}
use ai_business_automation.Prelude.Lists.{Member}

-- `a in xs`
abbrev pub contains : String → List String → Bool
contains a [] = false
contains a (x ∷ xs) = str_eq x a || contains a xs

-- `xs.discard(a)`
abbrev pub discard : String → List String → List String
discard a [] = []
discard a (x ∷ xs) = let rest = discard a xs in if str_eq x a then rest else x ∷ rest

pub contains_iff : (a : String) (xs : List String) → (contains a xs ≡ true) ↔ Member a xs
contains_iff a [] = ground arith
contains_iff a (x ∷ xs) = ground (arith, eq_iff x a, contains_iff a xs)

-- Exactly the given text leaves the set.
pub contains-discard :
    (a b : String) (xs : List String)
    → contains b (discard a xs) ≡ (if str_eq a b then false else contains b xs)
contains-discard a b [] = ground arith
contains-discard a b (x ∷ xs) =
    ground (arith, eq_iff a b, eq_iff x a, eq_iff x b, contains-discard a b xs)

-- How many entries of a list lie outside a set.
abbrev pub missing : List String → List String → ℕ
missing [] xs = 0
missing (u ∷ us) xs = if contains u xs then missing us xs else suc (missing us xs)

pub missing-antitone :
    (us xs ys : List String)
    → ((u : String) → contains u xs ≡ true → contains u ys ≡ true)
    → missing us ys ≤ missing us xs
missing-antitone [] xs ys h = omega arith
missing-antitone (u ∷ us) xs ys h = ground (arith, h u, missing-antitone us xs ys h)

pub missing-cons_lt :
    (us xs : List String) (a : String)
    → Member a us
    → contains a xs ≡ false
    → missing us (a ∷ xs) < missing us xs
missing-cons_lt [] xs a m h = absurd m
missing-cons_lt (u ∷ us) xs a (inl e) h =
    ground (arith, eq_iff a u, missing-antitone us xs (a ∷ xs) (λ v k. ground arith))
missing-cons_lt (u ∷ us) xs a (inr m) h = ground (arith, eq_iff a u, missing-cons_lt us xs a m h)
