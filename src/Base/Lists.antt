-- ===== src/Base/Lists.antt =====
-- Membership and the universal predicate by recursion, which compute to sums and tuples, and the
-- loop `for _, x := range xs { if x == target { return true } }; return false`.
use mathlib.Core.Path.{◌≡◌, refl}
use mathlib.Core.Logic.{◌↔◌, ◌⊎◌, inl, inr}
use mathlib.Core.Bool.{Bool, true, false, ◌||◌}
use mathlib.Core.List.{List, [], ◌∷◌, ◌++◌}
use Prim.Native.String.{String}
use native.Mathlib.Omega.{arith}
use text.Mathlib.Text.{◌==◌}
use text.Mathlib.TextEquality.{eq_iff}

-- Membership with the position kept.
abbrev pub Has : {A : Type 0} → A → List A → Type 0
Has a [] = ⊥
Has a (x ∷ xs) = (x ≡ a) ⊎ Has a xs

abbrev pub All {κ} : {A : Type 0} → (A → Type κ) → List A → Type κ
All P [] = Unit
All P (x ∷ xs) = P x × All P xs

module _ {κ} {A : Type 0} (P : A → Type κ) where
  pub All-append : (xs ys : List A) → All P xs → All P ys → All P (xs ++ ys)
  All-append [] ys hx hy = hy
  All-append (x ∷ xs) ys hx hy = (hx.0, All-append xs ys hx.1 hy)

  pub All-Has : (xs : List A) (a : A) → All P xs → Has a xs → P a
  All-Has [] a h m = absurd m
  All-Has (x ∷ xs) a h (inl e) = let p = h.0 in rw e at p
  All-Has (x ∷ xs) a h (inr m) = All-Has xs a h.1 m

  pub All-of_Has : (xs : List A) → ((a : A) → Has a xs → P a) → All P xs
  All-of_Has [] f = tt
  All-of_Has (x ∷ xs) f = (f x (inl refl), All-of_Has xs (λ a m. f a (inr m)))

pub Has-append_left : {A : Type 0} (a : A) (xs ys : List A) → Has a xs → Has a (xs ++ ys)
Has-append_left a [] ys m = absurd m
Has-append_left a (x ∷ xs) ys (inl e) = inl e
Has-append_left a (x ∷ xs) ys (inr m) = inr (Has-append_left a xs ys m)

-- Every entry of the first list stands in the second.
abbrev pub Subset : List String → List String → Type 0
Subset xs ys = (a : String) → Has a xs → Has a ys

unfoldable pub contains : List String → String → Bool
contains [] target = false
contains (x ∷ xs) target = (x == target) || contains xs target

pub contains_iff : (xs : List String) (a : String) → (contains xs a ≡ true) ↔ Has a xs
unfolding contains
contains_iff [] a = (λ h. cc, λ m. absurd m)
contains_iff (x ∷ xs) a = ground (arith, contains_iff xs a, eq_iff x a)

pub Has-dec : (xs : List String) (a : String) → Has a xs ⊎ (Has a xs → ⊥)
Has-dec xs a = split (contains xs a) refl
  where
    split : (b : Bool) → contains xs a ≡ b → Has a xs ⊎ (Has a xs → ⊥)
    split true e = inl ((contains_iff xs a).0 e)
    split false e = inr (λ m. cc (e, (contains_iff xs a).1 m))
