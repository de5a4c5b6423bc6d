-- ===== src/Cloud/Receiver/Sessions.antt =====
-- runCloudReceiver of pkg/rockrobo/cloud.go: how many answers a waiting call gets.
use rocklet.Base.{
  ℕ, ◌+◌, ◌≤◌, ◌≡◌, List, [], ◌∷◌, ◌++◌, Option, none, some, Bool, true, false, ◌==◌, refl, arith,
}
use rocklet.Base.Assoc.{Assoc, lookup, insert, delete}
use rocklet.Base.Int.{ℤ, int_equality}
use rocklet.Protocol.{Method}
use rocklet.Cloud.Message.{Crypto, ReadResult, returned, crashed, read}
use rocklet.Cloud.Receiver.{
  Receiver, State, Event, reading, sending, queueing, stopped, packet, read_failed, socket_closed,
  register, receive, time_out, queue, take_keep_alive, step, run, new, hand_over, handle_message,
  cloud_register_id, rendezvous, enqueue, on_reading, zero_message,
}

abbrev one_if : Bool → ℕ
one_if true = 1
one_if false = 0

-- The answers that the caller with this channel has received.
abbrev pub answers_on : ℕ → List (ℕ × List ℕ) → ℕ
answers_on ch [] = 0
answers_on ch ((j, body) ∷ rest) = one_if (j == ch) + answers_on ch rest

-- The registrations of the channel among the events.
abbrev registered : ℕ → Event → ℕ
registered ch (register id j) = one_if (j == ch)
registered ch _ = 0

abbrev pub registrations : ℕ → List Event → ℕ
registrations ch [] = 0
registrations ch (e ∷ es) = registered ch e + registrations ch es

abbrev in_flight : ℕ → Receiver → ℕ
in_flight ch (sending j body) = one_if (j == ch)
in_flight ch _ = 0

abbrev held : ℕ → Assoc ℤ ℕ → ℕ
held ch [] = 0
held ch ((id, j) ∷ rest) = one_if (j == ch) + held ch rest

-- An answer is received, in flight, or still to come from a session.
potential : ℕ → State → ℕ
potential ch s = answers_on ch s.answers + (in_flight ch s.receiver + held ch s.cloud_sessions)

answers_on-append :
    (ch j : ℕ) (body : List ℕ) (xs : List (ℕ × List ℕ))
    → answers_on ch (xs ++ (j, body) ∷ []) ≡ answers_on ch xs + one_if (j == ch)
answers_on-append ch j body [] = omega arith
answers_on-append ch j body (x ∷ xs) = omega (arith, answers_on-append ch j body xs)

held-delete-le : (ch : ℕ) (id : ℤ) (m : Assoc ℤ ℕ) → held ch (delete id m) ≤ held ch m
unfolding delete
held-delete-le ch id [] = omega arith
held-delete-le ch id ((i, j) ∷ m) = ground (arith, held-delete-le ch id m)

-- Deleting a session takes its channel out.
held-delete :
    (ch : ℕ) (id : ℤ) (m : Assoc ℤ ℕ) (j : ℕ)
    → lookup id m ≡ some j
    → held ch (delete id m) + one_if (j == ch) ≤ held ch m
unfolding lookup delete
held-delete ch id [] j h = cc
held-delete ch id ((i, k) ∷ m) j h = ground (arith, held-delete ch id m j, held-delete-le ch id m)

potential-hand_over :
    (ch : ℕ) (s : State) (id : ℤ) (body : List ℕ) (o : Option ℕ)
    → s.receiver ≡ reading
    → lookup id s.cloud_sessions ≡ o
    → potential ch (hand_over s id body o) ≤ potential ch s
unfolding potential hand_over
potential-hand_over ch s id body none r h = omega arith
potential-hand_over ch s id body (some j) r h =
    ground (arith, held-delete ch id s.cloud_sessions j h)

potential-handle_message :
    (ch : ℕ) (unmarshal : List ℕ → Method) (s : State) (address : ℕ) (result : ReadResult)
    → s.receiver ≡ reading
    → potential ch (handle_message unmarshal s address result) ≤ potential ch s
unfolding potential handle_message
potential-handle_message ch unmarshal s address crashed r = ground arith
potential-handle_message ch unmarshal s address (returned msg error) r = ground (
  arith,
  potential-hand_over ch s (unmarshal msg.body).id msg.body
      (lookup (unmarshal msg.body).id s.cloud_sessions) r refl,
)

potential-rendezvous :
    (ch : ℕ) (s : State) (r : Receiver)
    → s.receiver ≡ r
    → potential ch (rendezvous s r) ≤ potential ch s
unfolding potential rendezvous
potential-rendezvous ch s (sending j body) r = ground (arith, answers_on-append ch j body s.answers)
potential-rendezvous ch s _ r = omega arith

potential-enqueue :
    (ch : ℕ) (s : State) (r : Receiver)
    → s.receiver ≡ r
    → potential ch (enqueue s r) ≤ potential ch s
unfolding potential enqueue
potential-enqueue ch s (queueing a) r = ground arith
potential-enqueue ch s _ r = omega arith

potential-register :
    (ch : ℕ) (s : State) (id : ℤ) (j : ℕ)
    → potential ch (cloud_register_id s id j) ≤ one_if (j == ch) + potential ch s
unfolding potential cloud_register_id insert
potential-register ch s id j = omega (arith, held-delete-le ch id s.cloud_sessions)

on_reading_le :
    (ch : ℕ) (s next : State) (r : Receiver)
    → (r ≡ reading → potential ch next ≤ potential ch s)
    → potential ch (on_reading r s next) ≤ potential ch s
unfolding on_reading
on_reading_le ch s next reading h = h refl
on_reading_le ch s next _ h = omega arith

module _ (c : Crypto) (unmarshal : List ℕ → Method) (key : List ℕ) (ch : ℕ) where
  potential-step :
      (s : State) (e : Event)
      → potential ch (step c unmarshal key s e) ≤ registered ch e + potential ch s
  unfolding step
  potential-step s (packet bytes address) = omega (
    arith,
    on_reading_le ch s _ s.receiver
        (potential-handle_message ch unmarshal s address (read c zero_message bytes key)),
  )
  potential-step s read_failed = omega arith
  potential-step s socket_closed = omega (
    arith,
    on_reading_le ch s (record s { receiver = stopped }) s.receiver
        (unfold potential in λ r. omega arith),
  )
  potential-step s (register id j) = potential-register ch s id j
  potential-step s receive = omega (arith, potential-rendezvous ch s s.receiver refl)
  potential-step s (time_out j) = unfold potential in omega arith
  potential-step s queue = omega (arith, potential-enqueue ch s s.receiver refl)
  potential-step s take_keep_alive = unfold potential in omega arith

  potential-run :
      (s : State) (es : List Event)
      → potential ch (run c unmarshal key s es) ≤ registrations ch es + potential ch s
  unfolding run
  potential-run s [] = omega arith
  potential-run s (e ∷ es) =
      omega (arith, potential-step s e, potential-run (step c unmarshal key s e) es)

  -- Whatever packets arrive, in whatever order the goroutines run, a channel gets at most as many
  -- answers as it was registered times.
  pub answers-le-registrations :
      (es : List Event) → answers_on ch (run c unmarshal key new es).answers ≤ registrations ch es
  unfolding potential
  answers-le-registrations es = omega (arith, potential-run new es)
