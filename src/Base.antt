-- ===== src/Base.antt =====
-- The names that the other modules share, and the tests and list predicates that the program's
-- loops over slices come down to.
pub mod Lists
pub mod Text
pub use Lists.{
  Has, All, All-append, All-Has, All-of_Has, Has-append_left, Subset, contains_iff, Has-dec,
}
unfoldable pub use Lists.{contains}
unfoldable pub use Text.{join}
pub use Text.{concat}
use Prim.Native.Nat.{compare, Ordering}
pub use Prim.Native.Nat.{ℕ, zero, suc, ◌+◌, ◌-◌, ◌*◌, ◌/◌, ◌%◌, ◌≤◌, ◌<◌}
pub use Prim.Native.Char.{Char}
pub use Prim.Native.String.{String}
pub use mathlib.Core.Path.{◌≡◌, refl, sym, ap, ◌∙◌, subst}
pub use mathlib.Core.Logic.{◌≢◌, ◌↔◌, ◌⊎◌, inl, inr}
pub use mathlib.Core.Bool.{Bool, true, false, not, ◌&&◌, ◌||◌}
pub use mathlib.Core.Option.{Option, none, some}
pub use mathlib.Core.List.{List, [], ◌∷◌, ◌++◌, map}
pub use native.Mathlib.Omega.{arith}
pub use text.Mathlib.Text.{◌==◌}
pub use text.Mathlib.TextEquality.{eq_iff}
pub use text.Mathlib.TextPositions.{eq_refl}

abbrev pub ltb : ℕ → ℕ → Bool
ltb a b = elim (compare a b) [ Ordering.lt ↦ true | _ ↦ false ]

abbrev pub leb : ℕ → ℕ → Bool
leb a b = elim (compare a b) [ Ordering.gt ↦ false | _ ↦ true ]

infix 1 if◌then◌else◌
abbrev pub if◌then◌else◌ {ℓ} : {A : Type ℓ} → Bool → A → A → A
if true then x else y = x
if false then x else y = y

pub Bool-cases : (b : Bool) → (b ≡ true) ⊎ (b ≡ false)
Bool-cases true = inl refl
Bool-cases false = inr refl

pub Option-cases {ℓ} : {A : Type ℓ} (o : Option A) → (o ≡ none) ⊎ ((a : A) × (o ≡ some a))
Option-cases none = inl refl
Option-cases (some a) = inr (a, refl)

pub eq-of-== : (s t : String) → (s == t) ≡ true → s ≡ t
eq-of-== s t = (eq_iff s t).0

pub ne-of-== : (s t : String) → (s == t) ≡ false → s ≢ t
ne-of-== s t h e = cc (h, (eq_iff s t).1 e)

pub ==-of-ne : (s t : String) → s ≢ t → (s == t) ≡ false
==-of-ne s t n = elim (Bool-cases (s == t)) [
  | inl same ↦ absurd (n (eq-of-== s t same))
  | inr other ↦ other
]
