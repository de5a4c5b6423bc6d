-- ===== src/Kubernetes/Node/Ready.antt =====
-- setNodeReadyCondition of pkg/kubernetes/node_status.go: which conditions a node has afterwards.
use rocklet.Base.{
  ℕ, List, [], ◌∷◌, Option, none, some, Bool, true, false, not, bytes_eq, bytes_eq_self,
  bytes_eq_ne, bytes_eq→≡, if◌then◌else◌, ◌≡◌, ◌≢◌, refl, sym, ap, ◌∙◌, Bool-cases, inl, inr,
}
use rocklet.Kubernetes.Node.{
  NodeCondition, node_ready, condition_true, new_node_ready_condition, set_node_ready_condition,
}

-- The first condition of a type.
abbrev pub condition : List ℕ → List NodeCondition → Option NodeCondition
condition t [] = none
condition t (c ∷ cs) = if bytes_eq c.type t then some c else condition t cs

-- When the node became ready, as its conditions had it.
abbrev pub transition : ℕ → Option NodeCondition → ℕ
transition now none = now
transition now (some c) = if bytes_eq c.status condition_true then c.last_transition_time else now

abbrev pub became_ready : Option NodeCondition → Bool
became_ready none = false
became_ready (some c) = not (bytes_eq c.status condition_true)

-- The list with the ready condition set, and the event.
abbrev pub Sets : ℕ → List NodeCondition → List NodeCondition × Bool → Type 0
Sets now cs r =
    (condition node_ready r.0
      ≡ some (new_node_ready_condition now (transition now (condition node_ready cs))))
    × (r.1 ≡ became_ready (condition node_ready cs))
    × ((t : List ℕ) → t ≢ node_ready → condition t r.0 ≡ condition t cs)

other_type : (t : List ℕ) → t ≢ node_ready → bytes_eq node_ready t ≡ false
other_type t ne = bytes_eq_ne node_ready t (λ e. ne (sym e))

other_than :
    (c : NodeCondition) (t : List ℕ)
    → bytes_eq c.type node_ready ≡ true
    → t ≢ node_ready
    → bytes_eq c.type t ≡ false
other_than c t same ne =
    ap (λ k. bytes_eq k t) (bytes_eq→≡ c.type node_ready same) ∙ other_type t ne

pub set_node_ready_condition-Sets :
    (now : ℕ) (cs : List NodeCondition) → Sets now cs (set_node_ready_condition now cs)
unfolding set_node_ready_condition
set_node_ready_condition-Sets now [] =
    (rw (bytes_eq_self node_ready) refl, refl, λ t ne. rw (other_type t ne) refl)
set_node_ready_condition-Sets now (c ∷ cs) =
    let rest = set_node_ready_condition-Sets now cs in
    elim (Bool-cases (bytes_eq c.type node_ready)) [
      | inl same ↦ elim (Bool-cases (bytes_eq c.status condition_true)) [
        | inl already ↦ (
          rw (same, already, bytes_eq_self node_ready) refl,
          rw (same, already) refl,
          λ t ne. rw (same, already, other_than c t same ne, other_type t ne) refl,
        )
        | inr newly ↦ (
          rw (same, newly, bytes_eq_self node_ready) refl,
          rw (same, newly) refl,
          λ t ne. rw (same, newly, other_than c t same ne, other_type t ne) refl,
        )
      ]
      | inr other ↦ (
        rw (other, other) rest.0,
        rw other rest.1,
        λ t ne. rw other (ap (λ x. if bytes_eq c.type t then some c else x) (rest.2 t ne)),
      )
    ]

-- setNodeReadyCondition leaves a node with a ready condition that is true and has the time of this
-- heartbeat; its transition time stays if the condition was true before, and an event is recorded
-- exactly if it was there and was not true. The conditions of the other types are as they were.
pub set_node_ready_condition_lem :
    (now : ℕ) (cs : List NodeCondition) (t : List ℕ)
    → t ≢ node_ready
    → (condition node_ready (set_node_ready_condition now cs).0
        ≡ some (new_node_ready_condition now (transition now (condition node_ready cs))))
      × ((set_node_ready_condition now cs).1 ≡ became_ready (condition node_ready cs))
      × (condition t (set_node_ready_condition now cs).0 ≡ condition t cs)
set_node_ready_condition_lem now cs t ne =
    let sets = set_node_ready_condition-Sets now cs in (sets.0, sets.1, sets.2 t ne)
