-- ===== src/Tasks/History/Walks.antt =====
-- workflow_tasks.py and state_machine.py: the states of the workflows over a run of the service,
-- and the frame that relates them by walks.
use eldridge.Prelude.{
  ℕ, ◌+◌, ◌≡◌, some, List, arith, ◌==◌, nat_eq, Bool-cases, inl, inr, Option-cases,
}
use eldridge.Domain.{WorkflowState}
use eldridge.StateMachine.Graph.{Walk}
use eldridge.Persistence.{
  Workflow, get_elem?, modify, append_row, length, get_elem?-modify, get_elem?-append_row,
  get_elem?-length,
}
use eldridge.Tx.Frame.{Frame}

unfoldable pub walk_length : {s t : WorkflowState} → Walk s t → ℕ
walk_length Walk.here = 0
walk_length (Walk.step u w h) = walk_length w + 1

-- A walk from a state at a version to the state of a workflow, each step of which is one version.
unfoldable pub Reached : WorkflowState → ℕ → Workflow → Type 0
Reached s v w = (p : Walk s w.state) × (w.version ≡ v + walk_length p)

-- Every workflow of the first session is in the second, reached by a walk.
abbrev pub Onward : List Workflow → List Workflow → Type 0
Onward xs ys =
    (i : ℕ) (w : Workflow)
    → get_elem? xs i ≡ some w
    → (w' : Workflow) × (get_elem? ys i ≡ some w') × Reached w.state w.version w'

module _ where
  join_walks :
      {r s t : WorkflowState} (p : Walk r s) (q : Walk s t)
      → (w : Walk r t) × (walk_length w ≡ walk_length p + walk_length q)
  unfolding walk_length
  join_walks p Walk.here = (p, omega arith)
  join_walks p (Walk.step u q h) =
      let (w, e) = join_walks p q in (Walk.step u w h, omega (arith, e))

  pub Onward-refl : (xs : List Workflow) → Onward xs xs
  unfolding Reached walk_length
  Onward-refl xs i w h = (w, h, (Walk.here, omega arith))

  pub Onward-trans : (xs ys zs : List Workflow) → Onward xs ys → Onward ys zs → Onward xs zs
  unfolding Reached
  Onward-trans xs ys zs f g i w h =
      let (w', h', (p, e)) = f i w h in
      let (w'', h'', (q, e')) = g i w' h' in
      let (r, l) = join_walks p q in (w'', h'', (r, omega (arith, e, e', l)))

  -- A change of one row.
  pub Onward-modify :
      (wid : ℕ) (g : Workflow → Workflow) (xs : List Workflow)
      → ((w : Workflow) → get_elem? xs wid ≡ some w → Reached w.state w.version (g w))
      → Onward xs (modify wid g xs)
  unfolding Reached walk_length
  Onward-modify wid g xs f i w h = elim (Bool-cases (wid == i)) [
    | inl same ↦
        let e : wid ≡ i = (nat_eq.equals_iff wid i).0 same in
        let found : get_elem? (modify wid g xs) i ≡ some (g w) =
          ground (arith, get_elem?-modify wid g xs i, h, same) in
        (g w, found, f w (rw e h))
    | inr other ↦
        let found : get_elem? (modify wid g xs) i ≡ some w =
          ground (arith, get_elem?-modify wid g xs i, h, other) in
        (w, found, (Walk.here, omega arith))
  ]

  pub Onward-append_row : (xs : List Workflow) (w : Workflow) → Onward xs (append_row xs w)
  unfolding Reached walk_length
  Onward-append_row xs new i w h = elim (Bool-cases (length xs == i)) [
    | inl same ↦
        let e : length xs ≡ i = (nat_eq.equals_iff (length xs) i).0 same in
        let h' : get_elem? xs (length xs) ≡ some w = rw e h in
        absurd (ground (arith, get_elem?-length xs, h'))
    | inr other ↦
        let found : get_elem? (append_row xs new) i ≡ some w =
          ground (arith, get_elem?-append_row xs new i, h, other) in
        (w, found, (Walk.here, omega arith))
  ]

-- Every workflow came from CREATED at version 1.
unfoldable pub AllStarted : List Workflow → Type 0
unfolding Reached
AllStarted xs = (i : ℕ) (w : Workflow) → get_elem? xs i ≡ some w → Reached WorkflowState.created 1 w

module _ where
  pub AllStarted-modify :
      (wid : ℕ) (g : Workflow → Workflow) (xs : List Workflow)
      → ((w : Workflow) → get_elem? xs wid ≡ some w → Reached w.state w.version (g w))
      → AllStarted xs
      → AllStarted (modify wid g xs)
  unfolding AllStarted Reached
  AllStarted-modify wid g xs f started i w' h = elim (Bool-cases (wid == i)) [
    | inl same ↦
        let e : wid ≡ i = (nat_eq.equals_iff wid i).0 same in
        elim (Option-cases (get_elem? xs i)) [
          | inl missing ↦ absurd (ground (arith, get_elem?-modify wid g xs i, h, missing, same))
          | inr (w, found) ↦
              let e' : g w ≡ w' = ground (arith, get_elem?-modify wid g xs i, h, found, same) in
              let (p, l) = started i w found in
              let (q, m) = f w (rw e found) in
              let (r, n) = join_walks p q in rw (← e') (r, omega (arith, l, m, n))
        ]
    | inr other ↦ started i w' (ground (arith, get_elem?-modify wid g xs i, h, other))
  ]

  pub AllStarted-append_row :
      (xs : List Workflow) (w : Workflow)
      → Reached WorkflowState.created 1 w
      → AllStarted xs
      → AllStarted (append_row xs w)
  unfolding AllStarted
  AllStarted-append_row xs new fresh started i w h = elim (Bool-cases (length xs == i)) [
    | inl same ↦
        let e : new ≡ w = ground (arith, get_elem?-append_row xs new i, h, same) in rw (← e) fresh
    | inr other ↦ started i w (ground (arith, get_elem?-append_row xs new i, h, other))
  ]

abbrev pub walk_frame : Frame
walk_frame = record {
  Rel = λ s t. Onward s.workflows t.workflows × (AllStarted s.workflows → AllStarted t.workflows);
  local = λ s t e _ _. rw (← e) (Onward-refl s.workflows, λ h. h);
  transitive = λ s t u (f, f') (g, g'). (Onward-trans _ _ _ f g, λ h. g' (f' h));
}
