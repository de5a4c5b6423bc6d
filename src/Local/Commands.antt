-- ===== src/Local/Commands.antt =====
-- pkg/rockrobo/local_connection.go, LocalSetStatus and the LocalApp functions, and
-- pkg/rockrobo/rpc/rpc.go, which offers them over RPC. A float64 is a value of the parameter `F`;
-- `finite` tells which ones json.Marshal accepts. The channel outgoingQueueAppProxy is the list of
-- what was sent on it; the parameters of a message are kept as the values that are marshalled.
pub mod Sequence
use rocklet.Base.{ℕ, ◌+◌, List, [], ◌∷◌, ◌++◌, Option, none, some, Bool, not, ◌&&◌, if◌then◌else◌}
use rocklet.Base.Int.{ℤ, pos}
use rocklet.Protocol

pub record MethodParamsRequestAppRc (F : Type 0) : Type 0 where
  pub velocity : Option F
  pub omega_speed : Option F
  pub duration : Option ℤ
  pub sequence_number : ℕ

pub data Params (F : Type 0) : Type 0 where
  no_params : Params F
  status : List ℕ → Params F
  rc : List (MethodParamsRequestAppRc F) → Params F

pub record Message (F : Type 0) : Type 0 where
  pub method : List ℕ
  pub id : ℕ
  pub params : Params F

pub record Robot (F : Type 0) : Type 0 where
  pub app_rc_sequence_number : ℕ
  pub outgoing_queue_app_proxy : List (Message F)

pub data Error : Type 0 where
  unsupported_value : Error

-- What a Go function with an `error` result leaves.
abbrev pub Done : Type 0 → Type 0
Done F = Robot F × Option Error

module _ {F : Type 0} where
  send : Robot F → Message F → Robot F
  send r m = record r { outgoing_queue_app_proxy = r.outgoing_queue_app_proxy ++ m ∷ [] }

  -- A message with a method and an id and nothing else.
  simple : Robot F → List ℕ → ℕ → Done F
  unfolding send
  simple r method id = (send r (record { method = method; id = id; params = no_params }), none)

  unfoldable pub local_set_status : Robot F → List ℕ → Done F
  unfolding send
  local_set_status r text = (
    send r (record { method = Protocol.method_local_status; id = 0; params = status text }),
    none,
  )

  unfoldable pub local_app_rc_start : Robot F → ℕ → Done F
  unfolding simple
  local_app_rc_start r id =
      simple (record r { app_rc_sequence_number = 1 }) Protocol.method_local_app_rc_start id

  -- The message is sent with the number that the counter had before it was raised.
  unfoldable pub local_app_rc_end : Robot F → ℕ → Done F
  unfolding send
  local_app_rc_end r id =
      let params : MethodParamsRequestAppRc F = record {
        velocity = none;
        omega_speed = none;
        duration = none;
        sequence_number = r.app_rc_sequence_number;
      } in
      (
        send (record r { app_rc_sequence_number = r.app_rc_sequence_number + 1 })
            (record {
              method = Protocol.method_local_app_rc_end;
              id = id;
              params = rc (params ∷ []);
            }),
        none,
      )

  unfoldable pub local_app_rc_move : (F → Bool) → Robot F → F → F → ℤ → ℕ → Done F
  unfolding send
  local_app_rc_move finite r velocity omega_speed duration id =
      let params : MethodParamsRequestAppRc F = record {
        velocity = some velocity;
        omega_speed = some omega_speed;
        duration = some duration;
        sequence_number = r.app_rc_sequence_number;
      } in
      if not (finite omega_speed && finite velocity) then (r, some unsupported_value) else (
        send (record r { app_rc_sequence_number = r.app_rc_sequence_number + 1 })
            (record {
              method = Protocol.method_local_app_rc_move;
              id = id;
              params = rc (params ∷ []);
            }),
        none,
      )

  unfoldable pub local_app_start : Robot F → ℕ → Done F
  unfolding simple
  local_app_start r id = simple r Protocol.method_local_app_start id

  unfoldable pub local_app_stop : Robot F → ℕ → Done F
  unfolding simple
  local_app_stop r id = simple r Protocol.method_local_app_stop id

  unfoldable pub local_app_pause : Robot F → ℕ → Done F
  unfolding simple
  local_app_pause r id = simple r Protocol.method_local_app_pause id

  unfoldable pub local_app_spot : Robot F → ℕ → Done F
  unfolding simple
  local_app_spot r id = simple r Protocol.method_local_app_spot id

  unfoldable pub local_app_charge : Robot F → ℕ → Done F
  unfolding simple
  local_app_charge r id = simple r Protocol.method_local_app_charge id

-- The methods that rpc.NewServer registers.
pub data Call (F : Type 0) : Type 0 where
  app_rc_move : F → F → ℤ → Call F
  app_rc_start : Call F
  app_rc_end : Call F
  app_start : Call F
  app_stop : Call F
  app_pause : Call F
  app_spot : Call F
  app_charge : Call F

module _ {F : Type 0} (finite : F → Bool) where
  -- A call and what it writes to Result.Err; `id` is what rand.Int returns in it.
  unfoldable pub serve : Robot F → Call F → ℕ → Done F
  unfolding local_app_rc_move local_app_rc_start local_app_rc_end local_app_start local_app_stop
      local_app_pause local_app_spot local_app_charge
  serve r (app_rc_move velocity omega_speed duration) id =
      local_app_rc_move finite r velocity omega_speed duration id
  serve r app_rc_start id = local_app_rc_start r id
  serve r app_rc_end id = local_app_rc_end r id
  serve r app_start id = local_app_start r id
  serve r app_stop id = local_app_stop r id
  serve r app_pause id = local_app_pause r id
  serve r app_spot id = local_app_spot r id
  serve r app_charge id = local_app_charge r id

  -- RPC calls of which each begins after the one before it has returned; net/rpc also serves calls
  -- at the same time, which then share the counter without a lock.
  unfoldable pub serve_all : Robot F → List (Call F × ℕ) → Robot F
  serve_all r [] = r
  serve_all r ((c, id) ∷ rest) = serve_all (serve r c id).0 rest
