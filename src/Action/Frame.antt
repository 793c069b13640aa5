-- ===== src/Action/Frame.antt =====
-- What an action leaves as it was, whether it returns or fails.
use oauth_2_0_and_open_id_co.Base.{Bool, true, false, Option, none, some, if◌then◌else◌}
use oauth_2_0_and_open_id_co.Errors.{Error}
use oauth_2_0_and_open_id_co.Action.{
  ◌>>◌, Result, ok, err, Action, pure, fail, lift, read, or_fail, check, proceed, ◌>>=◌,
}

-- A property of the state that holds before an action holds after it.
pub record Keeps {ℓ} {S A : Type ℓ} (P : S → Type ℓ) (action : Action S A) : Type ℓ where
  pub at : (before : S) → P before → P (action before).1

module _ {ℓ} {S A : Type ℓ} {P : S → Type ℓ} where
  pub Keeps-read : (look : S → A) → Keeps P (read look)
  Keeps-read look = record { at = λ before kept. kept }

  pub Keeps-lift : (result : Result A) → Keeps P (lift result)
  Keeps-lift result = record { at = λ before kept. kept }

  pub Keeps-fail : (error : Error) → Keeps P (fail {A = A} error)
  Keeps-fail error = record { at = λ before kept. kept }

  pub Keeps-pure : (a : A) → Keeps P (pure a)
  Keeps-pure a = record { at = λ before kept. kept }

  pub Keeps-or_fail : (e : Error) (o : Option A) → Keeps P (or_fail e o)
  Keeps-or_fail e none = record { at = λ s h. h }
  Keeps-or_fail e (some a) = record { at = λ s h. h }

  pub Keeps-if :
      (test : Bool) (one two : Action S A)
      → Keeps P one
      → Keeps P two
      → Keeps P (if test then one else two)
  Keeps-if true one two left right = left
  Keeps-if false one two left right = right

pub Keeps-check : {S : Type 0} {P : S → Type 0} (b : Bool) (e : Error) → Keeps P (check b e)
Keeps-check true e = record { at = λ s h. h }
Keeps-check false e = record { at = λ s h. h }

module _ {ℓ} {S A B : Type ℓ} {P : S → Type ℓ} where
  Keeps-proceed :
      (p : Result A × S) (f : A → Action S B)
      → P p.1
      → ((a : A) → Keeps P (f a))
      → P (proceed p f).1
  unfolding proceed
  Keeps-proceed (ok a, s) f h kf = (kf a).at s h
  Keeps-proceed (err e, s) f h kf = h

  pub Keeps-bind :
      (first : Action S A) (next : A → Action S B)
      → Keeps P first
      → ((a : A) → Keeps P (next a))
      → Keeps P (first >>= next)
  Keeps-bind first next kept rest = record {
    at = λ before holds. Keeps-proceed (first before) next (kept.at before holds) rest;
  }

  pub Keeps-then :
      (first : Action S A) (second : Action S B)
      → Keeps P first
      → Keeps P second
      → Keeps P (first >> second)
  Keeps-then first second kept rest = record {
    at = λ before holds.
        Keeps-proceed (first before) (λ a. second) (kept.at before holds) (λ a. rest);
  }

pub ruleset keeps_rules = (
  Keeps-pure, Keeps-fail, Keeps-lift, Keeps-read, Keeps-or_fail, Keeps-if, Keeps-check, Keeps-bind,
  Keeps-then,
)
