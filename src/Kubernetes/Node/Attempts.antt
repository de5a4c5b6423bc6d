-- ===== src/Kubernetes/Node/Attempts.antt =====
-- updateNodeStatus and registerWithAPIServer of pkg/kubernetes/node_status.go: how often and after
-- which waits they try.
use rocklet.Base.{
  ℕ, zero, suc, ◌≤◌, ◌<◌, List, [], ◌∷◌, Bool, true, false, if◌then◌else◌, ◌≡◌, ◌⊎◌, inl, inr, refl,
  arith, All, Bool-cases,
}
use rocklet.Kubernetes.Node.{
  UpdateAnswers, try_update_node_status, update_tries, update_node_status, node_status_update_retry,
  RegisterAnswers, try_register_with_api_server, next_step, register_passes,
  register_with_api_server,
}

-- A result and a number of tries, at most n: all of them fail, or the last one succeeds and those
-- before it fail.
abbrev Tries : ℕ → (ℕ → Bool) → Bool × ℕ → Type 0
Tries n f r =
    ((r ≡ (false, n)) × ((j : ℕ) → j < n → f j ≡ false))
    ⊎ ((k : ℕ) × (k < n) × (r ≡ (true, suc k)) × (f k ≡ true) × ((j : ℕ) → j < k → f j ≡ false))

failures_from_zero :
    (f : ℕ → Bool) (n : ℕ)
    → f 0 ≡ false
    → ((j : ℕ) → j < n → f (suc j) ≡ false)
    → (j : ℕ) → j < suc n
    → f j ≡ false
failures_from_zero f n first rest zero h = first
failures_from_zero f n first rest (suc j) h = rest j (omega arith)

update_tries_lem :
    (n : ℕ) (answers : ℕ → UpdateAnswers)
    → Tries n (λ j. try_update_node_status (answers j)) (update_tries n answers)
unfolding update_tries
update_tries_lem zero answers = inl (refl, λ j h. elim h [ ])
update_tries_lem (suc n) answers = elim (Bool-cases (try_update_node_status (answers 0))) [
  | inl success ↦ inr (0, omega arith, rw success refl, success, λ j h. elim h [ ])
  | inr failure ↦ elim (update_tries_lem n (λ i. answers (suc i))) [
    | inl (e, rest) ↦ inl (rw (failure, e) refl, failures_from_zero _ n failure rest)
    | inr (k, lt, e, success, rest) ↦
        inr (suc k, omega arith, rw (failure, e) refl, success, failures_from_zero _ k failure rest)
  ]
]

-- k - 1, …, 1, 0
abbrev pub below : ℕ → List ℕ
below zero = []
below (suc k) = k ∷ below k

All-below :
    (f : ℕ → Bool) (n : ℕ) → ((j : ℕ) → j < n → f j ≡ false) → All (λ j. f j ≡ false) (below n)
All-below f zero h = tt
All-below f (suc n) h = (h n (omega arith), All-below f n (λ j lt. h j (omega arith)))

-- updateNodeStatus tries at most five times: it returns an error after five failures, and else it
-- stops at the first try that succeeds.
pub update_node_status_lem :
    (answers : ℕ → UpdateAnswers)
    → ((update_node_status answers ≡ (false, node_status_update_retry))
        × All (λ j. try_update_node_status (answers j) ≡ false) (below node_status_update_retry))
      ⊎ ((k : ℕ) × (k < node_status_update_retry)
          × (update_node_status answers ≡ (true, suc k))
          × (try_update_node_status (answers k) ≡ true)
          × All (λ j. try_update_node_status (answers j) ≡ false) (below k))
unfolding update_node_status
update_node_status_lem answers = elim (update_tries_lem node_status_update_retry answers) [
  | inl (e, rest) ↦ inl (e, All-below _ node_status_update_retry rest)
  | inr (k, lt, e, success, rest) ↦ inr (k, lt, e, success, All-below _ k rest)
]

abbrev IsWait : ℕ → Type 0
IsWait t = (100 ≤ t) × (t ≤ 7000)

-- Whether a pass registers the node.
abbrev pub registers : List ℕ → List RegisterAnswers → Bool
registers external_id [] = false
registers external_id (a ∷ rest) =
    if (try_register_with_api_server external_id a).0 then true else registers external_id rest

-- The waits are in range, and the result is the given one.
abbrev pub Waits : Bool → List ℕ × Bool → Type 0
Waits b r = All IsWait r.0 × (r.1 ≡ b)

register_passes_lem :
    (external_id : List ℕ) (step : ℕ) (answers : List RegisterAnswers)
    → IsWait step
    → Waits (registers external_id answers) (register_passes external_id step answers)
unfolding register_passes
register_passes_lem external_id step [] h = (tt, refl)
register_passes_lem external_id step (a ∷ rest) h =
    waits (try_register_with_api_server external_id a).0 _ _
      (register_passes_lem external_id (next_step step) rest (ground (arith, h)))
  where
    waits :
        (b c : Bool) (r : List ℕ × Bool)
        → Waits c r
        → Waits (if b then true else c) (if b then (step ∷ [], true) else (step ∷ r.0, r.1))
    waits true c r more = ((h, tt), refl)
    waits false c r more = ((h, more.0), more.1)

-- Between two attempts to register, registerWithAPIServer waits between a tenth of a second and
-- seven seconds, and the node is registered exactly if one of the attempts succeeds; once it has
-- been registered nothing is tried.
pub register_with_api_server-Waits :
    (external_id : List ℕ) (completed : Bool) (answers : List RegisterAnswers)
    → Waits
        (if completed then true else registers external_id answers)
        (register_with_api_server external_id completed answers)
unfolding register_with_api_server
register_with_api_server-Waits external_id true answers = (tt, refl)
register_with_api_server-Waits external_id false answers =
    register_passes_lem external_id 100 answers (omega arith, omega arith)
