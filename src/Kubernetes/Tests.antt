-- ===== src/Kubernetes/Tests.antt =====
-- pkg/kubernetes on concrete answers of the API server.
use rocklet.Base.{
  bytes_eq, ℕ, suc, ◌≡◌, List, [], ◌∷◌, none, some, true, false, ◌==◌, ==_iff, refl, arith,
}
use rocklet.Base.Text.{codes}
use rocklet.Kubernetes.Vacuum.{Vacuum, Server, not_found, try_update_vacuum_status}
use rocklet.Kubernetes.Vacuum.Cached.{IsServer, Follows, try_update_vacuum_status-Follows}
use rocklet.Kubernetes.Node.{
  update_node_status, register_with_api_server, already_exists, created, NodeCondition,
  set_node_ready_condition, UpdateAnswers,
}

-- An API server that takes everything and knows no vacuum yet.
abbrev server : Server ℕ
server = record { get = not_found; create = λ v. some v; update = λ v. some v }

some_status : (v u : Vacuum ℕ) → some v ≡ some u → u.status ≡ v.status
some_status v u e = ground (arith, e)

server-IsServer : IsServer server
server-IsServer = record { create-status = some_status; update-status = some_status }

try_update_vacuum_status-Follows_example :
    Follows 8 (try_update_vacuum_status ◌==◌ server [] none 8)
try_update_vacuum_status-Follows_example =
    try_update_vacuum_status-Follows ◌==◌ server [] server-IsServer (λ s t. (==_iff s t).0) none 8

abbrev conditions : List NodeCondition
conditions =
    record {
      type = codes "DiskPressure";
      status = codes "False";
      reason = [];
      message = [];
      last_heartbeat_time = 3;
      last_transition_time = 2;
    }
    ∷ record {
      type = codes "Ready";
      status = codes "False";
      reason = [];
      message = [];
      last_heartbeat_time = 3;
      last_transition_time = 2;
    }
    ∷ []

-- The node becomes ready, and an event is recorded.
set_node_ready_condition-conditions : (set_node_ready_condition 9 conditions).1 ≡ true
unfolding set_node_ready_condition bytes_eq
set_node_ready_condition-conditions = refl

-- The third try succeeds.
abbrev third : ℕ → UpdateAnswers
third (suc (suc i)) = record { get_succeeds = true; update_succeeds = true }
third i = record { get_succeeds = true; update_succeeds = false }

update_node_status-third : update_node_status third ≡ (true, 3)
unfolding update_node_status
update_node_status-third = refl

-- The old node is deleted, and the second attempt registers the new one.
register_with_api_server-recreated :
    register_with_api_server (codes "new") false (
      record { on_create = already_exists; existing_node = some (codes "old") }
      ∷ record { on_create = created; existing_node = none }
      ∷ [])
    ≡ (100 ∷ 200 ∷ [], true)
unfolding register_with_api_server bytes_eq
register_with_api_server-recreated = refl
