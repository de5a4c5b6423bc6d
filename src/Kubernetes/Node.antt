-- ===== src/Kubernetes/Node.antt =====
-- pkg/kubernetes/node_status.go: setNodeReadyCondition, updateNodeStatus, registerWithAPIServer
-- and tryRegisterWithAPIServer. What the API server answers is an argument; times are numbers,
-- steps of waiting in milliseconds.

pub mod Ready
pub mod Attempts
pub mod Status
use rocklet.Base.{
  ℕ, zero, suc, ◌+◌, ◌*◌, List, [], ◌∷◌, Option, none, some, Bool, true, false, ltb, bytes_eq,
  if◌then◌else◌,
}
use rocklet.Base.Text.{codes}

-- v1.NodeCondition
pub record NodeCondition : Type 0 where
  pub type : List ℕ
  pub status : List ℕ
  pub reason : List ℕ
  pub message : List ℕ
  pub last_heartbeat_time : ℕ
  pub last_transition_time : ℕ

abbrev pub node_ready : List ℕ
node_ready = codes "Ready"

abbrev pub condition_true : List ℕ
condition_true = codes "True"

abbrev pub new_node_ready_condition : ℕ → ℕ → NodeCondition
new_node_ready_condition now transition = record {
  type = node_ready;
  status = condition_true;
  reason = codes "KubeletReady";
  message = codes "kubelet is posting ready status";
  last_heartbeat_time = now;
  last_transition_time = transition;
}

-- setNodeReadyCondition: the conditions, and whether an event is recorded. The loop stops at the
-- first condition of the type; without one the condition is added at the end.
unfoldable pub set_node_ready_condition : ℕ → List NodeCondition → List NodeCondition × Bool
set_node_ready_condition now [] = (new_node_ready_condition now now ∷ [], false)
set_node_ready_condition now (c ∷ cs) =
    let (rest, event) = set_node_ready_condition now cs in
    if bytes_eq c.type node_ready
    then (if bytes_eq c.status condition_true
        then (new_node_ready_condition now c.last_transition_time ∷ cs, false)
        else (new_node_ready_condition now now ∷ cs, true))
    else (c ∷ rest, event)

abbrev pub node_status_update_retry : ℕ
node_status_update_retry = 5

-- What the API server answers in one call of tryUpdateNodeStatus: Get, then UpdateStatus.
pub record UpdateAnswers : Type 0 where
  pub get_succeeds : Bool
  pub update_succeeds : Bool

abbrev pub try_update_node_status : UpdateAnswers → Bool
try_update_node_status a = if a.get_succeeds then a.update_succeeds else false

-- The loop of updateNodeStatus on the answers of its passes: whether it returns no error, and how
-- often it has tried.
unfoldable pub update_tries : ℕ → (ℕ → UpdateAnswers) → Bool × ℕ
update_tries zero answers = (false, 0)
update_tries (suc n) answers =
    let (result, tries) = update_tries n (λ i. answers (suc i)) in
    if try_update_node_status (answers 0) then (true, 1) else (result, suc tries)

unfoldable pub update_node_status : (ℕ → UpdateAnswers) → Bool × ℕ
unfolding update_tries
update_node_status answers = update_tries node_status_update_retry answers

-- What Create answers.
pub data Created : Type 0 where
  created : Created
  already_exists : Created
  create_failed : Created

-- The answers in one call of tryRegisterWithAPIServer; an existing node has an external id.
pub record RegisterAnswers : Type 0 where
  pub on_create : Created
  pub existing_node : Option (List ℕ)  -- none where Get fails or returns no node

abbrev reconcile : List ℕ → Option (List ℕ) → Bool × Bool
reconcile external_id none = (false, false)
reconcile external_id (some id) = if bytes_eq id external_id then (true, false) else (false, true)

abbrev on_created : List ℕ → Created → Option (List ℕ) → Bool × Bool
on_created external_id created existing = (true, false)
on_created external_id create_failed existing = (false, false)
on_created external_id already_exists existing = reconcile external_id existing

-- tryRegisterWithAPIServer: whether the node is registered, and whether Delete is called on it.
unfoldable pub try_register_with_api_server : List ℕ → RegisterAnswers → Bool × Bool
try_register_with_api_server external_id a = on_created external_id a.on_create a.existing_node

abbrev pub max_step : ℕ
max_step = 7000

abbrev pub next_step : ℕ → ℕ
next_step step = if ltb (step * 2) max_step then step * 2 else max_step

-- The loop of registerWithAPIServer on the answers of its passes: the time waited in each pass,
-- and whether the node is registered at the end.
unfoldable pub register_passes : List ℕ → ℕ → List RegisterAnswers → List ℕ × Bool
unfolding try_register_with_api_server
register_passes external_id step [] = ([], false)
register_passes external_id step (a ∷ rest) =
    let (waits, registered) = register_passes external_id (next_step step) rest in
    if (try_register_with_api_server external_id a).0
    then (step ∷ [], true)
    else (step ∷ waits, registered)

-- registerWithAPIServer
unfoldable pub register_with_api_server : List ℕ → Bool → List RegisterAnswers → List ℕ × Bool
unfolding register_passes
register_with_api_server external_id true answers = ([], true)
register_with_api_server external_id false answers = register_passes external_id 100 answers
