-- ===== src/Action.antt =====
-- A Go function that may change the state and return an `error`. What was written before an error
-- stays written, so the new state comes back beside an error too.
pub mod Frame
use oauth_2_0_and_open_id_co.Base.{
  arith, inl, inr, ◌⊎◌, ◌≡◌, refl, Bool, true, false, Option, none, some,
}
use oauth_2_0_and_open_id_co.Errors.{Error}

pub data Result {ℓ} (A : Type ℓ) : Type ℓ where
  ok : A → Result A
  err : Error → Result A

pub Result-cases {ℓ} :
    {A : Type ℓ} (r : Result A) → ((a : A) × (r ≡ ok a)) ⊎ ((e : Error) × (r ≡ err e))
Result-cases (ok a) = inl (a, refl)
Result-cases (err e) = inr (e, refl)

abbrev pub Action {ℓ} : Type ℓ → Type ℓ → Type ℓ
Action S A = S → Result A × S

module _ {ℓ} {S A : Type ℓ} where
  abbrev pub pure : A → Action S A
  pure a s = (ok a, s)

  -- return nil, e
  abbrev pub fail : Error → Action S A
  fail e s = (err e, s)

  -- The result of a call that reads no state.
  abbrev pub lift : Result A → Action S A
  lift r s = (r, s)

  abbrev pub read : (S → A) → Action S A
  read f s = (ok (f s), s)

  -- if v, ok := ...; !ok { return nil, e }
  abbrev pub or_fail : Error → Option A → Action S A
  or_fail e none s = (err e, s)
  or_fail e (some a) s = (ok a, s)

-- if !b { return nil, e }
abbrev pub check : {S : Type 0} → Bool → Error → Action S Unit
check true e s = (ok tt, s)
check false e s = (err e, s)

abbrev pub modify : {S : Type 0} → (S → S) → Action S Unit
modify f s = (ok tt, f s)

module _ {ℓ} {S A B : Type ℓ} where
  unfoldable pub proceed : Result A × S → (A → Action S B) → Result B × S
  proceed (ok a, s) f = f a s
  proceed (err e, s) f = (err e, s)

  infixl 10 ◌>>=◌ ◌>>◌
  abbrev pub ◌>>=◌ : Action S A → (A → Action S B) → Action S B
  ◌>>=◌ m f s = proceed (m s) f

  abbrev pub ◌>>◌ : Action S A → Action S B → Action S B
  ◌>>◌ m n s = proceed (m s) (λ _. n)

  -- A successful sequence is a success of each part.
  pub proceed-ok :
      (p : Result A × S) (f : A → Action S B) {b : B} {t : S}
      → proceed p f ≡ (ok b, t)
      → (a : A) × (s : S) × (p ≡ (ok a, s)) × (f a s ≡ (ok b, t))
  unfolding proceed
  proceed-ok (ok a, s) f h = (a, s, refl, h)
  proceed-ok (err e, s) f h = cc

  -- The same with the parts handed on, which keeps them short where many follow one another.
  pub then_ok {κ} :
      {C : Type κ} (p : Result A × S) (f : A → Action S B) {b : B} {t : S}
      → proceed p f ≡ (ok b, t)
      → ((a : A) (s : S) → p ≡ (ok a, s) → f a s ≡ (ok b, t) → C)
      → C
  then_ok p f h k = let (a, s, first, rest) = proceed-ok p f h in k a s first rest

  -- A failed sequence failed in its first part, or in the rest after a success.
  pub proceed-err :
      (p : Result A × S) (f : A → Action S B) {e : Error} {t : S}
      → proceed p f ≡ (err e, t)
      → (p ≡ (err e, t)) ⊎ ((a : A) × (s : S) × (p ≡ (ok a, s)) × (f a s ≡ (err e, t)))
  unfolding proceed
  proceed-err (ok a, s) f h = inr (a, s, refl, h)
  proceed-err (err e, s) f h = inl (cc)

  pub proceed_of_ok :
      (p : Result A × S) (f : A → Action S B) {a : A} {s : S} → p ≡ (ok a, s) → proceed p f ≡ f a s
  unfolding proceed
  proceed_of_ok p f e = rw e

  pub proceed_of_err :
      (p : Result A × S) (f : A → Action S B) {e : Error} {s : S}
      → p ≡ (err e, s)
      → proceed p f ≡ (err e, s)
  unfolding proceed
  proceed_of_err p f e = rw e

module _ {ℓ} {S A : Type ℓ} where
  pub or_fail-ok :
      (e : Error) (found : Option A) (s t : S) (a : A)
      → or_fail e found s ≡ (ok a, t)
      → (found ≡ some a) × (t ≡ s)
  or_fail-ok e found s t a h = ground arith

  pub lift-ok : (r : Result A) (s t : S) (a : A) → lift r s ≡ (ok a, t) → (r ≡ ok a) × (t ≡ s)
  lift-ok r s t a h = (cc, cc)

pub check-ok :
    {S : Type 0} (b : Bool) (e : Error) (s t : S) (u : Unit) → check b e s ≡ (ok u, t) → b ≡ true
check-ok b e s t u h = ground arith
