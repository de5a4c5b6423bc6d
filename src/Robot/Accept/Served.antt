-- ===== src/Robot/Accept/Served.antt =====
-- The loops that accept connections: which ones they serve.
use rocklet.Base.{◌≡◌, List, [], ◌∷◌, ◌++◌, none, some, true, false, map, refl, ap}
use rocklet.Robot.Accept.{
  Failure, Accepted, accepted, failed, serving, is_accept, is_closed, run_local_connection_handler,
  rpc_loop,
}

module _ {C : Type 0} where
  abbrev all_accepted : List C → List (Accepted C) → List (Accepted C)
  all_accepted [] rest = rest
  all_accepted (c ∷ cs) rest = accepted c ∷ all_accepted cs rest

  -- The first error of Accept that is a net.OpError of the operation accept, whatever its cause,
  -- ends the handler of the local connections: the connections before it have been handled, and
  -- none that come later are.
  first_failure_ends :
      (cs : List C) (f : Failure) (rest : List (Accepted C))
      → is_accept f ≡ true
      → run_local_connection_handler (all_accepted cs (failed f ∷ rest))
        ≡ record { served = map some cs; left = true }
  unfolding run_local_connection_handler
  first_failure_ends [] f rest ends = rw ends refl
  first_failure_ends (c ∷ cs) f rest ends =
      ap (serving (some c)) (first_failure_ends cs f rest ends)

  closed_ends :
      (cs : List C) (g : Failure) (rest : List (Accepted C))
      → is_closed g ≡ true
      → rpc_loop (all_accepted cs (failed g ∷ rest)) ≡ record { served = map some cs; left = true }
  unfolding rpc_loop
  closed_ends [] g rest closed = rw closed refl
  closed_ends (c ∷ cs) g rest closed = ap (serving (some c)) (closed_ends cs g rest closed)

  -- An error that is not the closed socket makes the loop of the RPC server serve a nil connection
  -- between those before and after it, up to the closed socket.
  failure_serves_nil :
      (cs ds : List C) (f g : Failure) (rest : List (Accepted C))
      → is_closed f ≡ false
      → is_closed g ≡ true
      → rpc_loop (all_accepted cs (failed f ∷ all_accepted ds (failed g ∷ rest)))
        ≡ record { served = map some cs ++ none ∷ map some ds; left = true }
  unfolding rpc_loop
  failure_serves_nil [] ds f g rest not_closed closed =
      rw not_closed (ap (serving none) (closed_ends ds g rest closed))
  failure_serves_nil (c ∷ cs) ds f g rest not_closed closed =
      ap (serving (some c)) (failure_serves_nil cs ds f g rest not_closed closed)
