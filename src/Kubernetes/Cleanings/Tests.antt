-- ===== src/Kubernetes/Cleanings/Tests.antt =====
-- pkg/kubernetes/cleanings.go on an API server that knows names.
use rocklet.Base.{
  ℕ, ◌≡◌, List, [], ◌∷◌, Bool, true, false, if◌then◌else◌, refl, bytes_eq, bytes_eq_self,
}
use rocklet.Base.Text.{codes}
use rocklet.Kubernetes.Cleanings.{
  Answer, done, not_found, Client, IsClient, ensure_cleaning, ensure_all,
}

names : Client (List ℕ) (List ℕ → Answer)
names = record {
  name = λ c. c;
  get = λ s n. s n;
  create = λ s c. (λ n. if bytes_eq c n then done else s n, done);
}

names_laws : IsClient names
unfolding names
names_laws = record {
  get-create = λ s c e. rw (bytes_eq_self c) refl;
  get-create_other = λ s c n h. still (bytes_eq c n) (s n) h;
}
  where
    still : (b : Bool) (a : Answer) → a ≡ done → (if b then done else a) ≡ done
    still true a h = refl
    still false a h = h

abbrev empty : List ℕ → Answer
empty n = not_found

abbrev cleanings : List (List ℕ)
cleanings = codes "vacuum-100" ∷ codes "vacuum-200" ∷ codes "vacuum-100" ∷ []

ensure_all-names : ensure_all names empty cleanings (codes "vacuum-200") ≡ done
unfolding names ensure_all ensure_cleaning bytes_eq
ensure_all-names = refl
