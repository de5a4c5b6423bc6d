-- ===== src/Kubernetes/Pods.antt =====
-- pkg/kubernetes/pods_controller.go: processNextItem, sendNotify and handleErr. `WorkQueue` is the
-- rate-limiting queue of client-go, as the controller uses it; what the API server and the robot
-- answer are arguments.
pub mod Retries
pub mod Commands
pub mod Controller
use rocklet.Base.{
  ℕ, suc, ◌+◌, ◌≡◌, ◌≢◌, List, [], ◌∷◌, ◌++◌, Option, none, some, Bool, true, false, ltb,
  if◌then◌else◌,
}

-- A queue `Q` of keys `K`.
pub record WorkQueue (K Q : Type 0) : Type 0 where
  pub num_requeues : Q → K → ℕ
  pub add : K → Q → Q
  pub add_rate_limited : K → Q → Q
  pub forget : K → Q → Q

-- What client-go documents: NumRequeues is the number of calls of AddRateLimited for the key since
-- it was forgotten.
pub record IsWorkQueue (K Q : Type 0) (w : WorkQueue K Q) : Type 0 where
  pub requeues-add :
      (k : K) (q : Q) → w.num_requeues (w.add_rate_limited k q) k ≡ suc (w.num_requeues q k)
  pub requeues-forget : (k : K) (q : Q) → w.num_requeues (w.forget k q) k ≡ 0

-- What becomes of a key.
pub data Fate : Type 0 where
  done : Fate
  retried : Fate
  dropped : Fate

abbrev pub max_retries : ℕ
max_retries = 5

pub data Phase : Type 0 where
  pending : Phase
  running : Phase
  succeeded : Phase
  failed : Phase

pub record Container : Type 0 where
  pub image : List ℕ
  pub args : List (List ℕ)

pub record Pod : Type 0 where
  pub is_mirror : Bool  -- has the annotation of a mirror pod
  pub phase : Phase
  pub containers : List Container

-- indexer.GetByKey
pub data Found : Type 0 where
  lookup_failed : Found
  missing : Found
  found : Pod → Found

pub data NotifyError : Type 0 where
  store_error : NotifyError
  timed_out : NotifyError
  command_failed : NotifyError

-- What a call of sendNotify does: the commands of the goroutine that it starts, the phase that it reports, its
-- error.
pub record Notified : Type 0 where
  pub commands : List (List ℕ × List ℕ)
  pub reported : Option Phase
  pub error : Option NotifyError

abbrev pub nothing : Option NotifyError → Notified
nothing e = record { commands = []; reported = none; error = e }

-- The first argument, or none at all.
abbrev pub command_args : Container → List ℕ
command_args c = elim c.args [ [] ↦ [] | a ∷ rest ↦ a ]

-- The goroutine that sends the commands, up to the first that fails; `answer` tells whether
-- AppCommand returns no error.
unfoldable pub run_commands :
    (List ℕ × List ℕ → Bool) → List Container → List (List ℕ × List ℕ) × Bool
run_commands answer [] = ([], true)
run_commands answer (c ∷ cs) =
    let command : List ℕ × List ℕ = (c.image, command_args c) in
    let (sent, result) = run_commands answer cs in
    if answer command then (command ∷ sent, result) else (command ∷ [], false)

abbrev pub finished : List (List ℕ × List ℕ) → Bool → Notified
finished sent true = record { commands = sent; reported = some succeeded; error = none }
finished sent false = record {
  commands = sent;
  reported = some failed;
  error = some command_failed;
}

-- A pod that is pending: the commands of the goroutine that is started. When the time is up it goes
-- on, so all its commands count, those too that it sends later.
unfoldable pub act : (List ℕ × List ℕ → Bool) → Bool → Pod → Notified
unfolding run_commands
act answer in_time p =
    let (sent, result) = run_commands answer p.containers in
    if in_time
    then finished sent result
    else record { commands = sent; reported = none; error = some timed_out }

abbrev pub is_pending : Phase → Bool
is_pending pending = true
is_pending _ = false

-- sendNotify; `in_time` tells whether the commands are done within five seconds.
unfoldable pub send_notify : (List ℕ × List ℕ → Bool) → Bool → Found → Notified
unfolding act
send_notify answer in_time lookup_failed = nothing (some store_error)
send_notify answer in_time missing = nothing none
send_notify answer in_time (found p) =
    if p.is_mirror
    then nothing none
    else if is_pending p.phase
    then act answer in_time p
    else nothing none

module _ {K Q : Type 0} (w : WorkQueue K Q) where
  unfoldable pub handle_err : Q → K → Option NotifyError → Q × Fate
  handle_err q k none = (w.forget k q, done)
  handle_err q k (some e) =
      if ltb (w.num_requeues q k) max_retries
      then (w.add_rate_limited k q, retried)
      else (w.forget k q, dropped)

  -- processNextItem on a key, with what sendNotify returns for it.
  unfoldable pub process_next_item : Q → K → Notified → Q × Fate
  unfolding handle_err
  process_next_item q k n = handle_err q k n.error

  -- A key that comes back to the queue is processed again.
  unfoldable pub process_all : Q → K → List Notified → Q × List Fate
  unfolding process_next_item
  process_all q k [] = (q, [])
  process_all q k (n ∷ ns) =
      let (r, fate) = process_next_item q k n in
      let (s, fates) = process_all r k ns in (s, fate ∷ fates)
