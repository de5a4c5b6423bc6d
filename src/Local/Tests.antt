-- ===== src/Local/Tests.antt =====
-- pkg/rockrobo/local_connection.go and retrieve of pkg/rockrobo/rockrobo.go on concrete messages.
use rocklet.Base.{ℕ, ◌≤◌, ◌≡◌, List, [], ◌∷◌, ◌++◌, true, refl}
use rocklet.Base.Assoc.{string_eq}
use rocklet.Base.Int.{pos}
use rocklet.Base.Text.{codes}
use rocklet.Protocol.{Method, method_response_token, method_hello}
use rocklet.Local.Queues.{Queues, Call}
use rocklet.Local.Connection
use rocklet.Local.Connection.Ready.{ready_closes-le-one}
use rocklet.Local.Commands.{Robot, app_rc_start, app_rc_move, app_rc_end, app_spot, serve_all}
use rocklet.Local.Commands.Sequence.{
  sequence_numbers, count_from, count_numbered, remote_control_counts,
}

abbrev message : List ℕ → ℕ → Method
message name id = record { method = name; params = []; result = []; id = pos id; partner_id = [] }

-- GetToken and a call with an id, as the local connection makes them.
abbrev token_call : Call
token_call = record {
  request = message (codes "_internal.request_dtoken") 0;
  response = method_response_token;
  channel = 1;
}

abbrev status_call : Call
status_call = record { request = message (codes "get_status") 17; response = []; channel = 2 }

abbrev table : Queues
table = (codes "cloud", 9) ∷ []

abbrev internal_client : List Connection.Event
internal_client =
    Connection.received table (message method_hello 0)
    ∷ Connection.see_ready
    ∷ Connection.received table (message method_hello 0)
    ∷ Connection.take_internal (message (codes "x") 1)
    ∷ []

ready_closes-le-one_example : (Connection.run Connection.new internal_client).ready_closes ≤ 1
ready_closes-le-one_example = ready_closes-le-one internal_client

abbrev robot : Robot ℕ
robot = record { app_rc_sequence_number = 40; outgoing_queue_app_proxy = [] }

remote_control_counts_example :
    sequence_numbers
      (serve_all
        (λ v. true)
        robot
        ((app_rc_start, 5)
          ∷ (app_rc_move 1 2 (pos 3), 6)
          ∷ (app_spot, 7)
          ∷ (app_rc_end, 8)
          ∷ [])).outgoing_queue_app_proxy
    ≡ []
      ++ count_from 1 (
          count_numbered {F = ℕ}
            ((app_rc_move 1 2 (pos 3), 6) ∷ (app_spot, 7) ∷ (app_rc_end, 8) ∷ []))
unfolding sequence_numbers
remote_control_counts_example =
    remote_control_counts (λ v. true) robot 5
      ((app_rc_move 1 2 (pos 3), 6) ∷ (app_spot, 7) ∷ (app_rc_end, 8) ∷ [])
      ((refl, refl), (tt, (tt, tt)))
