-- ===== src/Robot/Accept.antt =====
-- The loops that accept connections: pkg/rockrobo/local_connection.go, runLocalConnectionHandler,
-- and pkg/rockrobo/rpc.go, the second goroutine of runRPCServer. `C` is a connection; a loop is
-- given what Accept returns, call by call. What net/rpc does with a nil connection is left out.
pub mod Served
use rocklet.Base.{
  ℕ, List, [], ◌∷◌, Option, none, some, Bool, true, false, ◌&&◌, bytes_eq, if◌then◌else◌,
}
use rocklet.Base.Text.{codes}

-- An error: whether it is a net.OpError, and then its Op and the text of its Err.
pub record Failure : Type 0 where
  pub is_op_error : Bool
  pub op : List ℕ
  pub text : List ℕ

pub data Accepted (C : Type 0) : Type 0 where
  accepted : C → Accepted C
  failed : Failure → Accepted C

-- What has been handed to a goroutine of its own, none for nil, and whether the loop is left.
pub record Loop (C : Type 0) : Type 0 where
  pub served : List (Option C)
  pub left : Bool

abbrev pub serving : {C : Type 0} → Option C → Loop C → Loop C
serving c l = record l { served = c ∷ l.served }

abbrev pub over : {C : Type 0} → Loop C
over = record { served = []; left = true }

abbrev pub is_accept : Failure → Bool
is_accept f = f.is_op_error && bytes_eq f.op (codes "accept")

abbrev pub is_closed : Failure → Bool
is_closed f = f.is_op_error && bytes_eq f.text (codes "use of closed network connection")

unfoldable pub run_local_connection_handler : {C : Type 0} → List (Accepted C) → Loop C
run_local_connection_handler [] = record { served = []; left = false }
run_local_connection_handler (accepted c ∷ rest) =
    serving (some c) (run_local_connection_handler rest)
run_local_connection_handler (failed f ∷ rest) =
    let more = run_local_connection_handler rest in if is_accept f then over else more

-- After an error the connection is nil.
unfoldable pub rpc_loop : {C : Type 0} → List (Accepted C) → Loop C
rpc_loop [] = record { served = []; left = false }
rpc_loop (accepted c ∷ rest) = serving (some c) (rpc_loop rest)
rpc_loop (failed f ∷ rest) =
    let more = rpc_loop rest in if is_closed f then over else serving none more
