-- ===== src/Dict.antt =====
-- `sync.Map` and `map[string]T` with string keys, as an association list in which the first entry
-- of a key counts. Go leaves the order of an iteration open: `range` gives each key once, and what
-- is proved of it does not depend on the order.
pub mod Assoc
use oauth_2_0_and_open_id_co.Base.{
  refl, arith, ℕ, suc, String, Bool, true, false, ◌≡◌, ◌↔◌, Option, none, some, List, [], ◌∷◌, ◌==◌,
  if◌then◌else◌, Has,
}
use Assoc.{
  lookup, without, live, retain_entries, only, lookup-without, lookup-retain_entries, Has-live_iff,
}

pub record Dict {ℓ} (V : Type ℓ) : Type ℓ where
  pub entries : List (String × V)

module _ {ℓ} {V : Type ℓ} where
  unfoldable pub empty : Dict V
  empty = record { entries = [] }

  -- m.Load(k), m[k]
  unfoldable pub get : Dict V → String → Option V
  unfolding lookup
  get d k = lookup k d.entries

  -- m.Delete(k), delete(m, k)
  unfoldable pub delete : Dict V → String → Dict V
  unfolding without
  delete d k = record { entries = without k d.entries }

  -- m.Store(k, v), m[k] = v
  unfoldable pub put : Dict V → String → V → Dict V
  unfolding without
  put d k v = record { entries = (k, v) ∷ without k d.entries }

  -- m.Range with a body that deletes the entries that fail the test
  unfoldable pub retain : (V → Bool) → Dict V → Dict V
  unfolding retain_entries
  retain keep d = record { entries = retain_entries keep d.entries }

  -- The entries that m.Range visits.
  unfoldable pub range : Dict V → List (String × V)
  unfolding live
  range d = live d.entries

  entry_count : List (String × V) → ℕ
  entry_count [] = 0
  entry_count (entry ∷ entries) = suc (entry_count entries)

  -- len(m)
  unfoldable pub size : Dict V → ℕ
  unfolding entry_count range
  size d = entry_count (range d)

  pub get-empty : (k : String) → get empty k ≡ none
  unfolding get empty
  get-empty k = refl

  pub get-delete :
      (d : Dict V) (k j : String) → get (delete d k) j ≡ (if k == j then none else get d j)
  unfolding get delete
  get-delete d k j = lookup-without k j d.entries

  pub get-put :
      (d : Dict V) (k : String) (v : V) (j : String)
      → get (put d k v) j ≡ (if k == j then some v else get d j)
  unfolding get put
  get-put d k v j = simp lookup-without (ground arith)

  pub get-retain :
      (keep : V → Bool) (d : Dict V) (k : String) → get (retain keep d) k ≡ only keep (get d k)
  unfolding get retain
  get-retain keep d k = lookup-retain_entries keep k d.entries

pub Has-range_iff :
    {V : Type 0} (d : Dict V) (k : String) (v : V) → Has (k, v) (range d) ↔ (get d k ≡ some v)
unfolding get range
Has-range_iff d k v = Has-live_iff k v d.entries

pub ruleset dict_laws = (get-empty, get-delete, get-put, get-retain)
