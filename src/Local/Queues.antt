-- ===== src/Local/Queues.antt =====
-- pkg/rockrobo/rockrobo.go, retrieve, and pkg/rockrobo/local_connection.go, the choice of the
-- channel for an incoming message. Both work on incomingQueues, a map from texts to channels.
pub mod Routing
pub mod Overlap
use rocklet.Base.{
  ℕ, List, [], ◌∷◌, ◌++◌, Option, none, some, Bool, true, false, not, ◌||◌, bytes_eq, if◌then◌else◌,
}
use rocklet.Base.Assoc.{Assoc, lookup, insert, delete, string_eq}
use rocklet.Base.Int.{ℤ, pos, int_eq}
use rocklet.Base.Text.{codes}
use rocklet.Base.Decimal.{itoa}
use rocklet.Protocol.{Method, method_hello}

abbrev pub Queues : Type 0
Queues = Assoc (List ℕ) ℕ

-- fmt.Sprintf("id=%d", id)
unfoldable pub id_key : ℤ → List ℕ
id_key id = codes "id=" ++ itoa id

-- A call of retrieve: the request, the method of the response ("" for none), and the channel that
-- the call has made.
pub record Call : Type 0 where
  pub request : Method
  pub response : List ℕ
  pub channel : ℕ

abbrev pub has_id : Method → Bool
has_id m = not (int_eq m.id (pos 0))

abbrev pub has_name : List ℕ → Bool
has_name name = not (bytes_eq name [])

-- retrieve up to the send: it registers the channel under the id and under the method of the
-- response. `none` is the error that no callback is set up; nothing is registered then.
unfoldable pub register : Queues → Call → Option Queues
unfolding insert
register q c =
    let q1 = if has_id c.request then insert (id_key c.request.id) c.channel q else q in
    let q2 = if has_name c.response then insert c.response c.channel q1 else q1 in
    if has_id c.request || has_name c.response then some q2 else none

-- The deferred functions of retrieve, the last one first.
unfoldable pub unregister : Queues → Call → Queues
unfolding delete
unregister q c =
    let q1 = if has_name c.response then delete c.response q else q in
    if has_id c.request then delete (id_key c.request.id) q1 else q1

-- The channel for an incoming message: by its id, and else by its method.
abbrev pub or_name : Option ℕ → Option ℕ → Option ℕ
or_name none by_name = by_name
or_name (some ch) by_name = some ch

unfoldable pub route : Queues → Method → Option ℕ
unfolding lookup
route q m = or_name (if has_id m then lookup (id_key m.id) q else none) (lookup m.method q)

-- What the reading goroutine of a connection does with a message.
pub data Action : Type 0 where
  signal_ready : Action  -- close(readyCh)
  ignore : Action
  drop : Action  -- no channel to handle this method
  deliver : ℕ → Method → Action  -- in a goroutine of its own

abbrev pub deliver_or_drop : Option ℕ → Method → Action
deliver_or_drop none m = drop
deliver_or_drop (some ch) m = deliver ch m

-- The flag is readySent.
unfoldable pub on_message : Queues → Bool → Method → Bool × Action
unfolding route
on_message q ready_sent m =
    if bytes_eq m.method method_hello
    then (true, if ready_sent then ignore else signal_ready)
    else (ready_sent, deliver_or_drop (route q m) m)
