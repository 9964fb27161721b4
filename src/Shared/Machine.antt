-- ===== src/Shared/Machine.antt =====
-- An XState machine as a step function: one event takes the snapshot (state and context) to the
-- next, with the effects that its actions emit. An event that no transition of the state names is
-- dropped. `run` feeds a list of events; its lemmas carry facts about one step to every run.
use mirai_app.Prelude.{All, All-append, ℕ, ◌+◌, ◌≤◌, ◌≡◌, refl, List, [], ◌∷◌, ◌++◌, arith}

-- What the events of a list are worth.
unfoldable pub credits : {E : Type 0} → (E → ℕ) → List E → ℕ
credits credit [] = 0
credits credit (e ∷ es) = credit e + credits credit es

module _ {S E X : Type 0} (step : S → E → S × List X) where
  unfoldable pub run : S → List E → S × List X
  run s [] = (s, [])
  run s (e ∷ es) = let (s', xs) = step s e in let (s'', ys) = run s' es in (s'', xs ++ ys)

  -- The snapshot after one list of events and another.
  pub run-append : (s : S) (es fs : List E) → (run s (es ++ fs)).0 ≡ (run (run s es).0 fs).0
  unfolding run
  run-append s [] fs = refl
  run-append s (e ∷ es) fs = run-append (step s e).0 es fs

  -- A property that every step keeps holds after every run.
  pub run_inv :
      (P : S → Type 0)
      → ((s : S) (e : E) → P s → P (step s e).0)
      → (s : S) (es : List E) → P s
      → P (run s es).0
  unfolding run
  run_inv P keep s [] h = h
  run_inv P keep s (e ∷ es) h = run_inv P keep (step s e).0 es (keep s e h)

  -- The same for runs over events that satisfy `R`.
  pub run_inv_on :
      (R : E → Type 0) (P : S → Type 0)
      → ((s : S) (e : E) → R e → P s → P (step s e).0)
      → (s : S) (es : List E) → All R es
      → P s
      → P (run s es).0
  unfolding run
  run_inv_on R P keep s [] r h = h
  run_inv_on R P keep s (e ∷ es) r h = run_inv_on R P keep (step s e).0 es r.1 (keep s e r.0 h)

  -- Where every event leaves the snapshot and emits nothing, every run does.
  pub run_stuck : (s : S) → ((e : E) → step s e ≡ (s, [])) → (es : List E) → run s es ≡ (s, [])
  unfolding run
  run_stuck s still [] = refl
  run_stuck s still (e ∷ es) = rw (still e) (run_stuck s still es)

  -- A count of the effects that each step pays for out of a potential and its event's credit.
  pub run_potential :
      (count : List X → ℕ)
      → ((xs ys : List X) → count (xs ++ ys) ≡ count xs + count ys)
      → count [] ≡ 0
      → (P : S → Type 0) → ((s : S) (e : E) → P s → P (step s e).0)
      → (potential : S → ℕ) (credit : E → ℕ)
      → ((s : S) (e : E)
          → P s
          → count (step s e).1 + potential (step s e).0 ≤ potential s + credit e)
      → (s : S) (es : List E) → P s
      → count (run s es).1 + potential (run s es).0 ≤ potential s + credits credit es
  unfolding run credits
  run_potential count additive empty P keep potential credit pay s [] h = omega (arith, empty)
  run_potential count additive empty P keep potential credit pay s (e ∷ es) h = omega (
    arith,
    pay s e h,
    additive (step s e).1 (run (step s e).0 es).1,
    run_potential count additive empty P keep potential credit pay (step s e).0 es (keep s e h),
  )

  -- A count of the effects that each step accounts for by a weight of the snapshot.
  pub run_balance :
      (count : List X → ℕ)
      → ((xs ys : List X) → count (xs ++ ys) ≡ count xs + count ys)
      → count [] ≡ 0
      → (P : S → Type 0) → ((s : S) (e : E) → P s → P (step s e).0)
      → (weight : S → ℕ)
      → ((s : S) (e : E) → P s → count (step s e).1 + weight s ≡ weight (step s e).0)
      → (s : S) (es : List E) → P s
      → count (run s es).1 + weight s ≡ weight (run s es).0
  unfolding run
  run_balance count additive empty P keep weight pay s [] h = omega (arith, empty)
  run_balance count additive empty P keep weight pay s (e ∷ es) h = omega (
    arith,
    pay s e h,
    additive (step s e).1 (run (step s e).0 es).1,
    run_balance count additive empty P keep weight pay (step s e).0 es (keep s e h),
  )

  -- What every step's effects satisfy, all effects of a run satisfy.
  pub run-All :
      (P : S → Type 0) (Q : X → Type 0)
      → ((s : S) (e : E) → P s → P (step s e).0)
      → ((s : S) (e : E) → P s → All Q (step s e).1)
      → (s : S) (es : List E) → P s
      → All Q (run s es).1
  unfolding run
  run-All P Q keep good s [] h = tt
  run-All P Q keep good s (e ∷ es) h =
      All-append Q (step s e).1 (run (step s e).0 es).1 (good s e h)
        (run-All P Q keep good (step s e).0 es (keep s e h))

  -- The same for runs over events that satisfy `R`.
  pub run-All_on :
      (R : E → Type 0) (P : S → Type 0) (Q : X → Type 0)
      → ((s : S) (e : E) → R e → P s → P (step s e).0)
      → ((s : S) (e : E) → R e → P s → All Q (step s e).1)
      → (s : S) (es : List E) → All R es
      → P s
      → All Q (run s es).1
  unfolding run
  run-All_on R P Q keep good s [] r h = tt
  run-All_on R P Q keep good s (e ∷ es) r h =
      All-append Q (step s e).1 (run (step s e).0 es).1 (good s e r.0 h)
        (run-All_on R P Q keep good (step s e).0 es r.1 (keep s e r.0 h))
