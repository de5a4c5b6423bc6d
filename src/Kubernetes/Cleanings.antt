-- ===== src/Kubernetes/Cleanings.antt =====
-- pkg/kubernetes/cleanings.go, and the cases of the loop in pkg/kubernetes/kubernetes.go that take
-- a cleaning: each is made sure of by a goroutine of its own. `C` is a v1alpha1.Cleaning, `S` what
-- the API server holds.
pub mod Posted
mod Tests
use rocklet.Base.{ℕ, List, [], ◌∷◌, ◌≡◌, Bool, true, false}

-- What a call of the client reports.
pub data Answer : Type 0 where
  done : Answer
  not_found : Answer
  failed : Answer

-- The client of the API server. A call may change what the server holds.
pub record Client (C S : Type 0) : Type 0 where
  pub name : C → List ℕ
  pub get : S → List ℕ → Answer
  pub create : S → C → S × Answer

-- What the API server documents: a cleaning that was created is there, and the others stay as they
-- are.
pub record IsClient {C S : Type 0} (k : Client C S) : Type 0 where
  pub get-create :
      (s : S) (c : C) → (k.create s c).1 ≡ done → k.get (k.create s c).0 (k.name c) ≡ done
  pub get-create_other :
      (s : S) (c : C) (n : List ℕ) → k.get s n ≡ done → k.get (k.create s c).0 n ≡ done

module _ {C S : Type 0} (k : Client C S) where
  on_got : S → C → Answer → S × Answer
  on_got s c done = (s, done)
  on_got s c not_found = k.create s c
  on_got s c failed = (s, failed)

  -- ensureCleaning
  unfoldable pub ensure_cleaning : S → C → S × Answer
  unfolding on_got
  ensure_cleaning s c = on_got s c (k.get s (k.name c))

  -- The goroutines that the loop starts, one after the other.
  unfoldable pub ensure_all : S → List C → S
  unfolding ensure_cleaning
  ensure_all s [] = s
  ensure_all s (c ∷ cs) = ensure_all (ensure_cleaning s c).0 cs
