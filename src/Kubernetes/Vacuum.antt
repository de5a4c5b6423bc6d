-- ===== src/Kubernetes/Vacuum.antt =====
-- pkg/kubernetes/vacuum_status.go: UpdateVaccumStatus. `S` is a v1alpha1.VacuumStatus and
-- `same` reflect.DeepEqual on it; what the API server answers is an argument.
pub mod Cached
use rocklet.Base.{ℕ, List, [], ◌∷◌, Option, none, some, Bool, true, false, if◌then◌else◌}

pub record Vacuum (S : Type 0) : Type 0 where
  pub name : List ℕ  -- the name in ObjectMeta
  pub cloud : Bool
  pub status : S

-- client.Get
pub data Got (S : Type 0) : Type 0 where
  got : Vacuum S → Got S
  not_found : Got S
  get_failed : Got S

pub record Server (S : Type 0) : Type 0 where
  pub get : Got S
  pub create : Vacuum S → Option (Vacuum S)
  pub update : Vacuum S → Option (Vacuum S)

-- A call of the client.
pub data Request (S : Type 0) : Type 0 where
  get_request : Request S
  create_request : Vacuum S → Request S
  update_request : Vacuum S → Request S

-- k.vacuumObj after a call, the requests it has made, and whether it returns no error.
pub record Updated (S : Type 0) : Type 0 where
  pub vacuum_obj : Option (Vacuum S)
  pub requests : List (Request S)
  pub succeeds : Bool

module _ {S : Type 0} (same : S → S → Bool) (server : Server S) (name : List ℕ) where
  abbrev after_update : List (Request S) → Option (Vacuum S) → Updated S
  after_update requests none = record { vacuum_obj = none; requests = requests; succeeds = false }
  after_update requests (some v) = record {
    vacuum_obj = some v;
    requests = requests;
    succeeds = true;
  }

  -- From the comparison on; `before` is the request made until then, `after` with the update.
  abbrev bring_up_to_date : S → Vacuum S → (before after : List (Request S)) → Updated S
  bring_up_to_date status v before after =
      if same status v.status
      then record { vacuum_obj = some v; requests = before; succeeds = true }
      else after_update after (server.update (record v { status = status }))

  abbrev update_of : S → Vacuum S → Request S
  update_of status v = update_request (record v { status = status })

  abbrev created : Vacuum S → Option (Vacuum S) → Updated S
  created v none = record {
    vacuum_obj = none;
    requests = get_request ∷ create_request v ∷ [];
    succeeds = false;
  }
  created v (some u) = record {
    vacuum_obj = some u;
    requests = get_request ∷ create_request v ∷ [];
    succeeds = true;
  }

  abbrev looked_up : S → Got S → Updated S
  looked_up status (got v) =
      bring_up_to_date status v (get_request ∷ []) (get_request ∷ update_of status v ∷ [])
  looked_up status not_found =
      let v : Vacuum S = record { name = name; cloud = false; status = status } in
      created v (server.create v)
  looked_up status get_failed = record {
    vacuum_obj = none;
    requests = get_request ∷ [];
    succeeds = false;
  }

  -- tryUpdateVaccumStatus, once Run has set vacuumClient; before that, or when Run has returned an
  -- error first, the nil client is dereferenced.
  unfoldable pub try_update_vacuum_status : Option (Vacuum S) → S → Updated S
  try_update_vacuum_status none status = looked_up status server.get
  try_update_vacuum_status (some v) status = bring_up_to_date status v [] (update_of status v ∷ [])
