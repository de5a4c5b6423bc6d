-- ===== src/Gencert/Sans.antt =====
-- The command of cmd/gencert.go: the names and addresses in the certificate.
use mathlib.Core.List.{append-nil, append_assoc}
use rocklet.Base.{ℕ, ◌≡◌, List, [], ◌∷◌, ◌++◌, Option, none, some, sym, ◌∙◌}
use rocklet.Gencert.{Flags, Library, Template, World, add_san, add_sans, template}

module _ {Key Cert : Type 0} (l : Library Key Cert) where
  -- The hosts that are no addresses, and the addresses.
  abbrev pub name_in : List ℕ → Option (List ℕ) → List (List ℕ)
  name_in h none = h ∷ []
  name_in h (some ip) = []

  abbrev pub address_in : Option (List ℕ) → List (List ℕ)
  address_in none = []
  address_in (some ip) = ip ∷ []

  abbrev pub names : List (List ℕ) → List (List ℕ)
  names [] = []
  names (h ∷ hs) = name_in h (l.parse_ip h) ++ names hs

  abbrev pub addresses : List (List ℕ) → List (List ℕ)
  addresses [] = []
  addresses (h ∷ hs) = address_in (l.parse_ip h) ++ addresses hs

  abbrev Adds : List (List ℕ) → Template → Template → Type 0
  Adds hs t u =
      (u.dns_names ≡ t.dns_names ++ names hs) × (u.ip_addresses ≡ t.ip_addresses ++ addresses hs)

  extend :
      (h : List ℕ) (o : Option (List ℕ)) (hs : List (List ℕ)) (t u : Template)
      → Adds hs (add_san l t h o) u
      → (u.dns_names ≡ t.dns_names ++ (name_in h o ++ names hs))
        × (u.ip_addresses ≡ t.ip_addresses ++ (address_in o ++ addresses hs))
  extend h none hs t u (ns, is) = (ns ∙ append_assoc t.dns_names (h ∷ []) (names hs), is)
  extend h (some ip) hs t u (ns, is) =
      (ns, is ∙ append_assoc t.ip_addresses (ip ∷ []) (addresses hs))

  add_sans-Adds : (hs : List (List ℕ)) (t : Template) → Adds hs t (add_sans l hs t)
  unfolding add_sans
  add_sans-Adds [] t = (sym (append-nil t.dns_names), sym (append-nil t.ip_addresses))
  add_sans-Adds (h ∷ hs) t =
      let u = add_san l t h (l.parse_ip h) in
      extend h (l.parse_ip h) hs t (add_sans l hs u) (add_sans-Adds hs u)

  -- The certificate has the name of the node and then, in their order, the hosts that are no
  -- addresses as DNS names, and the addresses of the others.
  pub template-Adds :
      (f : Flags) (w : World Key) (serial : ℕ)
      → ((template l f w serial).dns_names ≡ f.node_name ∷ names f.hosts)
        × ((template l f w serial).ip_addresses ≡ addresses f.hosts)
  unfolding template
  template-Adds f w serial = add_sans-Adds f.hosts _
