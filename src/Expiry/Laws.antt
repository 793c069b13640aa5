-- ===== src/Expiry/Laws.antt =====
-- What a load finds, and what it and the clean-up leave for later loads.
use oauth_2_0_and_open_id_co.Base.{
  String, not, Option, none, some, if◌then◌else◌, ◌≡◌, ◌≤◌, ◌==◌, arith, eq_iff,
}
use oauth_2_0_and_open_id_co.Dict
use oauth_2_0_and_open_id_co.Dict.{Dict, dict_laws, get-delete, get-put, get-retain}
use oauth_2_0_and_open_id_co.Dict.Assoc.{only}
use oauth_2_0_and_open_id_co.Time.{Time, after}
use oauth_2_0_and_open_id_co.Expiry.{fetch, sweep}

module _ {ℓ} {V : Type ℓ} (expires_at : V → Time) where
  abbrev pub fresh : Time → Option V → Option V
  fresh now o = only (λ v. not (after now (expires_at v))) o

  -- The entry of a key, if it has not expired.
  abbrev pub view : Time → Dict V → String → Option V
  view now d key = fresh now (Dict.get d key)

  pub fetch-eq-view :
      (now : Time) (d : Dict V) (key : String) → (fetch expires_at now d key).0 ≡ view now d key
  unfolding fetch
  fetch-eq-view now d key = ground arith

  pub get-fetch :
      (now : Time) (d : Dict V) (key other : String)
      → Dict.get (fetch expires_at now d key).1 other
        ≡ (if key == other then view now d key else Dict.get d other)
  unfolding fetch
  get-fetch now d key other = ground (arith, get-delete d key other, eq_iff key other)

  pub fresh-fresh :
      (now later : Time) (o : Option V) → now ≤ later → fresh later (fresh now o) ≡ fresh later o
  fresh-fresh now later none h = ground arith
  fresh-fresh now later (some v) h = ground arith

  pub view-fetch :
      (now later : Time) (d : Dict V) (key other : String)
      → now ≤ later
      → view later (fetch expires_at now d key).1 other ≡ view later d other
  view-fetch now later d key other h =
      rw (get-fetch now d key other)
        (ground (arith, fresh-fresh now later (Dict.get d key) h, eq_iff key other))

  pub view-sweep :
      (now later : Time) (d : Dict V) (key : String)
      → now ≤ later
      → view later (sweep expires_at now d) key ≡ view later d key
  unfolding sweep
  view-sweep now later d key h =
      rw (get-retain (λ v. not (after now (expires_at v))) d key)
        (fresh-fresh now later (Dict.get d key) h)

  -- A load that finds its entry deletes nothing.
  pub get-fetch_live :
      (now : Time) (d : Dict V) (key other : String) (v : V)
      → view now d key ≡ some v
      → Dict.get (fetch expires_at now d key).1 other ≡ Dict.get d other
  get-fetch_live now d key other v h =
      rw (get-fetch now d key other) (ground (arith, eq_iff key other))
