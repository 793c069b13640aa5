-- ===== src/Dict/Assoc.antt =====
-- The association lists behind the dictionaries.
use oauth_2_0_and_open_id_co.Base.{
  String, Bool, ◌≡◌, refl, ◌↔◌, ◌≢◌, Option, none, some, List, [], ◌∷◌, arith, ◌==◌, eq_iff,
  if◌then◌else◌, Has,
}

module _ {ℓ} {V : Type ℓ} where
  unfoldable pub lookup : String → List (String × V) → Option V
  lookup key [] = none
  lookup key ((name, value) ∷ entries) = if name == key then some value else lookup key entries

  unfoldable pub without : String → List (String × V) → List (String × V)
  without key [] = []
  without key ((name, value) ∷ entries) =
      let kept = without key entries in if name == key then kept else (name, value) ∷ kept

  -- Each key once, with the value that counts.
  unfoldable pub live : List (String × V) → List (String × V)
  unfolding without
  live [] = []
  live ((k, v) ∷ l) = (k, v) ∷ without k (live l)

  unfoldable pub retain_entries : (V → Bool) → List (String × V) → List (String × V)
  unfolding without
  retain_entries keep [] = []
  retain_entries keep ((k, v) ∷ l) =
      let rest = retain_entries keep l in if keep v then (k, v) ∷ rest else without k rest

  abbrev pub only : (V → Bool) → Option V → Option V
  only keep none = none
  only keep (some v) = if keep v then some v else none

  pub lookup-without :
      (gone key : String) (entries : List (String × V))
      → lookup key (without gone entries) ≡ (if gone == key then none else lookup key entries)
  unfolding lookup without
  lookup-without gone key [] = ground arith
  lookup-without gone key ((name, value) ∷ entries) =
      ground
        (arith, eq_iff gone key, eq_iff name gone, eq_iff name key, lookup-without gone key entries)

  pub lookup-retain_entries :
      (keep : V → Bool) (j : String) (l : List (String × V))
      → lookup j (retain_entries keep l) ≡ only keep (lookup j l)
  unfolding lookup retain_entries
  lookup-retain_entries keep j [] = refl
  lookup-retain_entries keep j ((k, v) ∷ l) = ground (
    arith,
    lookup-retain_entries keep j l,
    lookup-without k j (retain_entries keep l),
    eq_iff k j,
  )

module _ {V : Type 0} where
  Has-without_iff :
      (i k : String) (v : V) (l : List (String × V))
      → Has (k, v) (without i l) ↔ ((i ≢ k) × Has (k, v) l)
  unfolding without
  Has-without_iff i k v [] = ground arith
  Has-without_iff i k v ((j, w) ∷ l) =
      ground (arith, Has-without_iff i k v l, eq_iff j i, eq_iff i k)

  pub Has-live_iff :
      (k : String) (v : V) (l : List (String × V)) → Has (k, v) (live l) ↔ (lookup k l ≡ some v)
  unfolding live lookup
  Has-live_iff k v [] = ground arith
  Has-live_iff k v ((i, w) ∷ l) =
      ground (arith, Has-without_iff i k v (live l), Has-live_iff k v l, eq_iff i k)
