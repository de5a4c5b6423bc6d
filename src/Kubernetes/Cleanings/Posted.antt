-- ===== src/Kubernetes/Cleanings/Posted.antt =====
-- ensureCleaning of pkg/kubernetes/cleanings.go: what is on the API server afterwards.
use rocklet.Base.{ℕ, ◌≡◌, ◌≢◌, List, [], ◌∷◌, All, refl, arith}
use rocklet.Kubernetes.Cleanings.{
  Answer, done, not_found, failed, Client, IsClient, on_got, ensure_cleaning, ensure_all,
}

module _ {C S : Type 0} (k : Client C S) (laws : IsClient k) where
  -- By what `get` has answered.
  on_got_lem :
      (s : S) (c : C) (a : Answer)
      → k.get s (k.name c) ≡ a
      → ((on_got k s c a).1 ≡ done → k.get (on_got k s c a).0 (k.name c) ≡ done)
        × ((n : List ℕ) → k.get s n ≡ done → k.get (on_got k s c a).0 n ≡ done)
        × (a ≢ not_found → (on_got k s c a).0 ≡ s)
  unfolding on_got
  on_got_lem s c done g = (λ e. g, λ n h. h, λ ne. refl)
  on_got_lem s c not_found g =
      (laws.get-create s c, laws.get-create_other s c, λ ne. absurd (ne refl))
  on_got_lem s c failed g = (λ e. ground (arith, e), λ n h. h, λ ne. refl)

  -- ensureCleaning, whatever the API server answers: when it returns no error, the cleaning is on
  -- the server; what was there stays there; and nothing is created unless `Get` says that it is
  -- not found.
  pub ensure_cleaning_lem :
      (s : S) (c : C)
      → ((ensure_cleaning k s c).1 ≡ done → k.get (ensure_cleaning k s c).0 (k.name c) ≡ done)
        × ((n : List ℕ) → k.get s n ≡ done → k.get (ensure_cleaning k s c).0 n ≡ done)
        × (k.get s (k.name c) ≢ not_found → (ensure_cleaning k s c).0 ≡ s)
  unfolding ensure_cleaning
  ensure_cleaning_lem s c = on_got_lem s c (k.get s (k.name c)) refl

  ensure_all-stays :
      (s : S) (cs : List C) (n : List ℕ) → k.get s n ≡ done → k.get (ensure_all k s cs) n ≡ done
  unfolding ensure_all
  ensure_all-stays s [] n h = h
  ensure_all-stays s (c ∷ cs) n h =
      ensure_all-stays (ensure_cleaning k s c).0 cs n ((ensure_cleaning_lem s c).1 n h)

  -- No goroutine reports an error.
  abbrev pub AllDone : S → List C → Type 0
  AllDone s [] = Unit
  AllDone s (c ∷ cs) = ((ensure_cleaning k s c).1 ≡ done) × AllDone (ensure_cleaning k s c).0 cs

  abbrev pub Posted : S → C → Type 0
  Posted s c = k.get s (k.name c) ≡ done

  ensure_all-Posted : (s : S) (cs : List C) → AllDone s cs → All (Posted (ensure_all k s cs)) cs
  unfolding ensure_all
  ensure_all-Posted s [] h = tt
  ensure_all-Posted s (c ∷ cs) h =
      let after = (ensure_cleaning k s c).0 in
      (
        ensure_all-stays after cs (k.name c) ((ensure_cleaning_lem s c).0 h.0),
        ensure_all-Posted after cs h.1,
      )

  ensure_all_same : (s : S) (cs : List C) → All (Posted s) cs → ensure_all k s cs ≡ s
  unfolding ensure_all
  ensure_all_same s [] h = refl
  ensure_all_same s (c ∷ cs) h =
      let still : (ensure_cleaning k s c).0 ≡ s =
        (ensure_cleaning_lem s c).2 (λ e. ground (arith, e, h.0)) in
      rw still (ensure_all_same s cs h.1)

  -- A list of cleanings that are made sure of without an error is on the API server as a whole,
  -- and after a restart, which goes through the same list again, the server holds what it held.
  pub ensure_all-again :
      (s : S) (cs : List C)
      → AllDone s cs
      → All (Posted (ensure_all k s cs)) cs
        × (ensure_all k (ensure_all k s cs) cs ≡ ensure_all k s cs)
  ensure_all-again s cs h =
      let posted = ensure_all-Posted s cs h in
      (posted, ensure_all_same (ensure_all k s cs) cs posted)
