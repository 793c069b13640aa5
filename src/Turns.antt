-- ===== src/Turns.antt =====
-- Calls that are served at once, each a call of the shared stores at a time: net/http runs every
-- request of the server in a goroutine of its own, and nothing holds from one call of a store to the
-- next.
use mathlib.Core.Logic.{ite}
use native.Mathlib.Decide.{ℕ_discrete}
use oauth_2_0_and_open_id_co.Base.{◌++◌, ap, ◌∙◌, ℕ, ◌+◌, ◌-◌, ◌≤◌, ◌≡◌, refl, List, [], ◌∷◌, arith}
use oauth_2_0_and_open_id_co.Server.{World}

-- The calls, by number, over one world; `C` says where a call stands.
pub record Race (C : Type 0) : Type 0 where
  pub calls : ℕ → C
  pub world : World

-- How often a call has its turn.
abbrev pub times : ℕ → List ℕ → ℕ
times i [] = 0
times i (j ∷ order) = ite (ℕ_discrete j i) 1 0 + times i order

module _ {C : Type 0} where
  abbrev update : (ℕ → C) → ℕ → C → ℕ → C
  update calls i call j = ite (ℕ_discrete i j) call (calls j)

  -- What a call acts on.
  abbrev pub seen : ℕ → Race C → C × World
  seen i r = (r.calls i, r.world)

  ite_lem :
      {P : Type 0} (Q : C → Type 0) (d : Dec P) (moved call : C)
      → (P → Q moved)
      → Q call
      → Q (ite d moved call)
  ite_lem Q (yes p) moved call own other = own p
  ite_lem Q (no n) moved call own other = other

module _ {C : Type 0} (step : C → World → C × World) where
  -- A turn of one call.
  unfoldable pub turn : ℕ → Race C → Race C
  turn i r =
      let moved = step (r.calls i) r.world in
      record { calls = update r.calls i moved.0; world = moved.1 }

  -- The calls take turns in a given order.
  unfoldable pub run : List ℕ → Race C → Race C
  run [] r = r
  run (i ∷ order) r = run order (turn i r)

  abbrev pub onward : C × World → C × World
  onward (call, w) = step call w

  pub seen-turn : (i : ℕ) (r : Race C) → seen i (turn i r) ≡ onward (seen i r)
  unfolding turn
  seen-turn i r = ground arith

  pub run-append :
      (first second : List ℕ) (r : Race C) → run (first ++ second) r ≡ run second (run first r)
  unfolding run
  run-append [] second r = refl
  run-append (i ∷ first) second r = run-append first second (turn i r)

  -- What every step keeps of a call, in a world of which every step keeps something, the turns keep.
  pub run_keeps :
      (P : World → Type 0) (Q : C → Type 0)
      → ((call : C) (w : World) → P w → P (step call w).1)
      → ((call : C) (w : World) → P w → Q call → Q (step call w).0)
      → (order : List ℕ) (r : Race C) (i : ℕ) → P r.world
      → Q (r.calls i)
      → Q ((run order r).calls i)
  unfolding run turn
  run_keeps P Q keeps_world keeps_call [] r i here holds = holds
  run_keeps P Q keeps_world keeps_call (j ∷ order) r i here holds =
      run_keeps P Q keeps_world keeps_call order (turn j r) i (keeps_world (r.calls j) r.world here)
        (ite_lem Q (ℕ_discrete j i) _ (r.calls i)
          (λ same. keeps_call (r.calls j) r.world here (rw same holds)) holds)

  -- A measure that every step lowers is lowered by a call's own turns.
  pub run_lowers :
      (left : C → ℕ)
      → ((call : C) (w : World) → left (step call w).0 ≤ left call - 1)
      → (order : List ℕ) (r : Race C) (i : ℕ)
      → left ((run order r).calls i) ≤ left (r.calls i) - times i order
  unfolding run turn
  run_lowers left lowers [] r i = omega arith
  run_lowers left lowers (j ∷ order) r i =
      ground (arith, lowers (r.calls j) r.world, run_lowers left lowers order (turn j r) i)

  -- Four turns of one call, with no other call between them.
  pub seen-run_four :
      (i : ℕ) (r : Race C)
      → seen i (run (i ∷ i ∷ i ∷ i ∷ []) r) ≡ onward (onward (onward (onward (seen i r))))
  unfolding run
  seen-run_four i r =
      let r1 = turn i r in
      let r2 = turn i r1 in
      let r3 = turn i r2 in
      seen-turn i r3
      ∙ ap onward (seen-turn i r2 ∙ ap onward (seen-turn i r1 ∙ ap onward (seen-turn i r)))
