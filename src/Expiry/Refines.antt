-- ===== src/Expiry/Refines.antt =====
-- Seen through its loads, an expiring map with lazy deletion and clean-up rounds at any moments is
-- the plain map in which nothing is deleted but on request.
use oauth_2_0_and_open_id_co.Base.{
  String, Option, none, some, List, [], ◌∷◌, if◌then◌else◌, ◌≡◌, refl, ◌∙◌, ◌≤◌, ◌==◌, arith,
  eq_iff,
}
use oauth_2_0_and_open_id_co.Dict
use oauth_2_0_and_open_id_co.Dict.{Dict, get-delete, get-put}
use oauth_2_0_and_open_id_co.Time.{Time}
use oauth_2_0_and_open_id_co.Expiry.{fetch, sweep}
use oauth_2_0_and_open_id_co.Expiry.Laws.{fresh, view, fetch-eq-view, view-fetch, view-sweep}

pub data Call {ℓ} (V : Type ℓ) : Type ℓ where
  creates : String → V → Call V
  fetches deletes : String → Call V
  sweeps : Call V

module _ {ℓ} {V : Type ℓ} where
  abbrev pub update : (String → Option V) → String → Option V → String → Option V
  update f key o other = if key == other then o else f other

module _ {ℓ} {V : Type ℓ} (expires_at : V → Time) where
  -- The answers of the loads in a history of calls, each with its time.
  pub serve : Dict V → List (Time × Call V) → List (Option V)
  serve d [] = []
  serve d ((now, creates key v) ∷ calls) = serve (Dict.put d key v) calls
  serve d ((now, fetches key) ∷ calls) =
      (fetch expires_at now d key).0 ∷ serve (fetch expires_at now d key).1 calls
  serve d ((now, deletes key) ∷ calls) = serve (Dict.delete d key) calls
  serve d ((now, sweeps) ∷ calls) = serve (sweep expires_at now d) calls

  -- The contract: a map in which a load returns what was last stored, if it has not expired.
  pub promise : (String → Option V) → List (Time × Call V) → List (Option V)
  promise f [] = []
  promise f ((now, creates key v) ∷ calls) = promise (update f key (some v)) calls
  promise f ((now, fetches key) ∷ calls) = fresh expires_at now (f key) ∷ promise f calls
  promise f ((now, deletes key) ∷ calls) = promise (update f key none) calls
  promise f ((now, sweeps) ∷ calls) = promise f calls

-- The clock does not run backwards.
abbrev pub IsOrdered {ℓ} : {V : Type ℓ} → Time → List (Time × Call V) → Type 0
IsOrdered t [] = Unit
IsOrdered t ((now, c) ∷ calls) = (t ≤ now) × IsOrdered now calls

module _ {ℓ} {V : Type ℓ} (expires_at : V → Time) where
  abbrev Agrees : Time → Dict V → (String → Option V) → Type ℓ
  Agrees t d f =
      (later : Time) (key : String)
      → t ≤ later
      → view expires_at later d key ≡ fresh expires_at later (f key)

  serve-eq-promise_of :
      (t : Time) (d : Dict V) (f : String → Option V) (calls : List (Time × Call V))
      → Agrees t d f
      → IsOrdered t calls
      → serve expires_at d calls ≡ promise expires_at f calls
  unfolding serve promise
  serve-eq-promise_of t d f [] h o = refl
  serve-eq-promise_of t d f ((now, creates key v) ∷ calls) h (p, o) =
      serve-eq-promise_of now (Dict.put d key v) (update f key (some v)) calls
        (λ later j q. rw (get-put d key v j) (ground (arith, h later j, eq_iff key j))) o
  serve-eq-promise_of t d f ((now, fetches key) ∷ calls) h (p, o) =
      let head = fetch-eq-view expires_at now d key ∙ h now key p in
      let rest =
        serve-eq-promise_of now (fetch expires_at now d key).1 f calls
          (λ later j q. view-fetch expires_at now later d key j q ∙ h later j (omega arith)) o in
      cc (head, rest)
  serve-eq-promise_of t d f ((now, deletes key) ∷ calls) h (p, o) =
      serve-eq-promise_of now (Dict.delete d key) (update f key none) calls
        (λ later j q. rw (get-delete d key j) (ground (arith, h later j, eq_iff key j))) o
  serve-eq-promise_of t d f ((now, sweeps) ∷ calls) h (p, o) =
      serve-eq-promise_of now (sweep expires_at now d) f calls
        (λ later j q. view-sweep expires_at now later d j q ∙ h later j (omega arith)) o

  -- A store that starts empty answers every load of any history of stores, loads, deletions and
  -- clean-up rounds, in the order of time, as the contract does.
  pub serve-eq-promise :
      (calls : List (Time × Call V))
      → IsOrdered 0 calls
      → serve expires_at Dict.empty calls ≡ promise expires_at (λ key. none) calls
  serve-eq-promise calls o =
      serve-eq-promise_of 0 Dict.empty (λ key. none) calls
        (λ later key q. rw (Dict.get-empty {V = V} key) refl) o
