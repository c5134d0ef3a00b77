-- ===== src/Platform/Approvals.antt =====
-- service.py: the approvals over a run of the platform.
use eldridge.Prelude.{
  ℕ, String, true, ◌≡◌, refl, Option, some, List, ◌==◌, nat_eq, arith, Bool-cases, inl, inr,
}
use eldridge.Domain.{WorkflowState}
use eldridge.Result.{ok}
use eldridge.Persistence.Json.{Fields}
use eldridge.Persistence.{
  Session, Workflow, Approval, get_elem?, modify, append_row, length, get_elem?-modify,
  get_elem?-append_row, get_elem?-length,
}
use eldridge.Env.{Env}
use eldridge.Tx.{Tx}
use eldridge.Tx.Frame.{Frame, Ensures}
use eldridge.Audit.{append_audit_event}
use eldridge.Tasks.Store.{set_workflow, add_workflow}
use eldridge.Tasks.Steps.{transition}
use eldridge.Tasks.Human.{is_some}
use eldridge.Tasks.Approvals.{add_approval, consume}
use eldridge.Tasks.Frames.{Supports, row_rules}
use eldridge.Platform.Service.{Platform, PlatformCall, at_platform, run_platform}
use eldridge.Platform.History.{run_platform-Rel, AllReach-total}

-- An approval but for the moment at which it was consumed.
abbrev pub consumed_as : Option ℕ → Approval → Approval
consumed_as c a = record a { consumed_at = c }

-- Every approval of the first table stands in the second under its key, changed in the moment of
-- its consumption alone, and stays consumed if it was.
abbrev pub Kept : List Approval → List Approval → Type 0
Kept xs ys =
    (i : ℕ) (a : Approval)
    → get_elem? xs i ≡ some a
    → (c : Option ℕ) × (get_elem? ys i ≡ some (consumed_as c a))
      × (is_some a.consumed_at ≡ true → is_some c ≡ true)

Kept-refl : (xs : List Approval) → Kept xs xs
Kept-refl xs i a h = (a.consumed_at, h, λ e. e)

Kept-trans : (xs ys zs : List Approval) → Kept xs ys → Kept ys zs → Kept xs zs
Kept-trans xs ys zs f g i a h =
    let (c, h1, k1) = f i a h in
    let (d, h2, k2) = g i (consumed_as c a) h1 in (d, h2, λ e. k2 (k1 e))

Kept-append : (xs : List Approval) (x : Approval) → Kept xs (append_row xs x)
Kept-append xs x i a h = elim (Bool-cases (length xs == i)) [
  | inl same ↦
      let e : length xs ≡ i = (nat_eq.equals_iff (length xs) i).0 same in
      let h' : get_elem? xs (length xs) ≡ some a = rw e h in
      absurd (ground (arith, get_elem?-length xs, h'))
  | inr other ↦
      let found : get_elem? (append_row xs x) i ≡ some a =
        ground (arith, get_elem?-append_row xs x i, h, other) in
      (a.consumed_at, found, λ e. e)
]

Kept-consume : (xs : List Approval) (id now : ℕ) → Kept xs (modify id (consumed_as (some now)) xs)
unfolding is_some
Kept-consume xs id now i a h = elim (Bool-cases (id == i)) [
  | inl same ↦
      let found : get_elem? (modify id (consumed_as (some now)) xs) i
          ≡ some (consumed_as (some now) a) =
        ground (arith, get_elem?-modify id (consumed_as (some now)) xs i, h, same) in
      (some now, found, λ e. refl)
  | inr other ↦
      let found : get_elem? (modify id (consumed_as (some now)) xs) i ≡ some a =
        ground (arith, get_elem?-modify id (consumed_as (some now)) xs i, h, other) in
      (a.consumed_at, found, λ e. e)
]

abbrev approval_frame : Frame
approval_frame = record {
  Rel = λ s t. Kept s.approvals t.approvals;
  local = λ s t _ _ e. rw (← e) (Kept-refl s.approvals);
  transitive = λ s t u f g. Kept-trans _ _ _ f g;
}

-- A step that leaves the approvals alone.
untouched :
    {A : Type 0} (m : Tx A)
    → ((s t : Session) (a : A) → m s ≡ ok (a, t) → s.approvals ≡ t.approvals)
    → Ensures approval_frame m
untouched m same = record {
  at = λ s t a h. let e = same s t a h in rw (← e) (Kept-refl s.approvals);
}

module _ (env : Env) where
  Ensures-append :
      (wid : ℕ) (event_type actor resource_type : String) (resource : ℕ) (outcome : String)
      (payload : Fields)
      → Ensures approval_frame
          (append_audit_event env wid event_type actor resource_type resource outcome payload)
  unfolding append_audit_event
  Ensures-append wid e a k n o p = untouched _ (λ s t u h. cc)

  Ensures-set_workflow :
      (wid : ℕ) (g : Workflow → Workflow) → Ensures approval_frame (set_workflow wid g)
  unfolding set_workflow
  Ensures-set_workflow wid g = untouched _ (λ s t u h. cc)

  Ensures-add_workflow : (w : Workflow) → Ensures approval_frame (add_workflow w)
  unfolding add_workflow
  Ensures-add_workflow w = untouched _ (λ s t u h. cc)

  Ensures-moves :
      (wid : ℕ) (target : WorkflowState) (actor reason : String) (extra : Fields)
      → Ensures approval_frame (transition env wid target actor reason extra)
  unfolding transition
  Ensures-moves wid target actor reason extra =
      search (row_rules, Ensures-append, Ensures-set_workflow) depth 12

  Ensures-add_approval : (a : Approval) → Ensures approval_frame (add_approval a)
  unfolding add_approval
  Ensures-add_approval a = record {
    at = λ s t b h.
        let e : append_row s.approvals a ≡ t.approvals = cc in rw (← e) (Kept-append s.approvals a);
  }

  Ensures-consume : (id : ℕ) → Ensures approval_frame (consume env id)
  unfolding consume
  Ensures-consume id = record {
    at = λ s t b h.
        let e : modify id (consumed_as (some env.now)) s.approvals ≡ t.approvals = cc in
        rw (← e) (Kept-consume s.approvals id env.now);
  }

  approval_support : Supports env approval_frame (λ t. Unit)
  approval_support = record {
    appends = Ensures-append;
    rewrites = λ wid g same. Ensures-set_workflow wid g;
    creates = λ w h v. Ensures-add_workflow w;
    moves = λ wid target actor reason extra h. Ensures-moves wid target actor reason extra;
    approves = λ a fresh. Ensures-add_approval a;
    consumes = Ensures-consume;
  }

-- Over any sequence of the platform's transactions an approval stays under its key, nothing of it
-- changes but the moment at which it was consumed, and once it is consumed it stays so.
pub approvals_are_kept :
    (env : Env) (p : Platform) (cs : List PlatformCall) (s : Session) (id : ℕ) (a : Approval)
    → get_elem? s.approvals id ≡ some a
    → (c : Option ℕ) × (get_elem? (run_platform env p cs s).approvals id ≡ some (consumed_as c a))
      × (is_some a.consumed_at ≡ true → is_some c ≡ true)
approvals_are_kept env p cs s =
    run_platform-Rel env (λ c. approval_support (at_platform env c)) (λ t h. tt) p cs
      (AllReach-total (λ t. tt) cs) s
