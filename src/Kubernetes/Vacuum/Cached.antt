-- ===== src/Kubernetes/Vacuum/Cached.antt =====
-- tryUpdateVaccumStatus of pkg/kubernetes/vacuum_status.go: what the cached object says.
use rocklet.Base.{
  ℕ, List, [], Option, none, some, Bool, true, false, ◌≡◌, ◌⊎◌, ◌∙◌, sym, if◌then◌else◌, refl, inl,
  inr,
}
use rocklet.Kubernetes.Vacuum.{
  Vacuum, Got, got, not_found, get_failed, Server, Updated, Request, after_update, bring_up_to_date,
  created, looked_up, try_update_vacuum_status,
}

-- What the API server documents: the object that Create or Update returns has the status that was
-- sent.
pub record IsServer {S : Type 0} (server : Server S) : Type 0 where
  pub create-status : (v u : Vacuum S) → server.create v ≡ some u → u.status ≡ v.status
  pub update-status : (v u : Vacuum S) → server.update v ≡ some u → u.status ≡ v.status

-- A call that succeeds has left an object with the status in the cache; a call that fails has left
-- the cache empty.
abbrev pub Follows : {S : Type 0} → S → Updated S → Type 0
Follows {S} status r =
    ((r.succeeds ≡ true) × ((v : Vacuum S) × (r.vacuum_obj ≡ some v) × (v.status ≡ status)))
    ⊎ ((r.succeeds ≡ false) × (r.vacuum_obj ≡ none))

module _ {S : Type 0} (same : S → S → Bool) (server : Server S) (name : List ℕ)
    (laws : IsServer server) (sound : (s t : S) → same s t ≡ true → s ≡ t) where
  after_update-Follows :
      (status : S) (v : Vacuum S) (requests : List (Request S)) (answer : Option (Vacuum S))
      → server.update (record v { status = status }) ≡ answer
      → Follows status (after_update same server name requests answer)
  after_update-Follows status v requests none e = inr (refl, refl)
  after_update-Follows status v requests (some u) e =
      inl (refl, (u, refl, laws.update-status (record v { status = status }) u e))

  Follows-if :
      (status : S) (b : Bool) (r q : Updated S)
      → (b ≡ true → Follows status r)
      → Follows status q
      → Follows status (if b then r else q)
  Follows-if status true r q h k = h refl
  Follows-if status false r q h k = k

  bring_up_to_date-Follows :
      (status : S) (v : Vacuum S) (before after : List (Request S))
      → Follows status (bring_up_to_date same server name status v before after)
  bring_up_to_date-Follows status v before after =
      Follows-if status (same status v.status) _ _
        (λ e. inl (refl, (v, refl, sym (sound status v.status e))))
        (after_update-Follows status v after _ refl)

  created-Follows :
      (status : S) (v : Vacuum S) (answer : Option (Vacuum S))
      → v.status ≡ status
      → server.create v ≡ answer
      → Follows status (created same server name v answer)
  created-Follows status v none h e = inr (refl, refl)
  created-Follows status v (some u) h e = inl (refl, (u, refl, laws.create-status v u e ∙ h))

  looked_up-Follows :
      (status : S) (answer : Got S) → Follows status (looked_up same server name status answer)
  looked_up-Follows status (got v) = bring_up_to_date-Follows status v _ _
  looked_up-Follows status not_found =
      created-Follows status (record { name = name; cloud = false; status = status }) _ refl refl
  looked_up-Follows status get_failed = inr (refl, refl)

  -- Whatever the API server answers: a call of tryUpdateVaccumStatus that succeeds has left an
  -- object with the new status in the cache, and a call that fails has left the cache empty, so
  -- that the next call asks for the object again.
  pub try_update_vacuum_status-Follows :
      (cached : Option (Vacuum S)) (status : S)
      → Follows status (try_update_vacuum_status same server name cached status)
  unfolding try_update_vacuum_status
  try_update_vacuum_status-Follows none status = looked_up-Follows status server.get
  try_update_vacuum_status-Follows (some v) status = bring_up_to_date-Follows status v _ _

  asks_nothing :
      (status : S) (r : Updated S)
      → same status status ≡ true
      → Follows status r
      → r.succeeds ≡ true
      → try_update_vacuum_status same server name r.vacuum_obj status
        ≡ record { vacuum_obj = r.vacuum_obj; requests = []; succeeds = true }
  unfolding try_update_vacuum_status
  asks_nothing status r own (inr (failed, empty)) ok = absurd (cc (failed, ok))
  asks_nothing status r own (inl (done, (v, held, e))) ok = rw (held, e, own) refl

  -- After a call that has succeeded, a call with the same status makes no request and keeps the
  -- cache.
  pub repeated_update_asks_nothing :
      (cached : Option (Vacuum S)) (status : S)
      → same status status ≡ true
      → (try_update_vacuum_status same server name cached status).succeeds ≡ true
      → try_update_vacuum_status same server name
          (try_update_vacuum_status same server name cached status).vacuum_obj
          status
        ≡ record {
          vacuum_obj = (try_update_vacuum_status same server name cached status).vacuum_obj;
          requests = [];
          succeeds = true;
        }
  repeated_update_asks_nothing cached status own ok =
      asks_nothing status (try_update_vacuum_status same server name cached status) own
        (try_update_vacuum_status-Follows cached status) ok
