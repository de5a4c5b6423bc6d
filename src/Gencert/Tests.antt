-- ===== src/Gencert/Tests.antt =====
-- The command of cmd/gencert.go with numbers as keys, and blocks that are their bytes.
use rocklet.Base.{
  ℕ, ◌≡◌, ◌≢◌, List, [], ◌∷◌, Option, none, some, true, refl, bytes_eq, if◌then◌else◌, ◌==◌,
}
use rocklet.Base.Text.{codes}
use rocklet.Gencert.{content, not_exist, Store, Flags, Library, World, ok, load_key, gencert}
use rocklet.Gencert.Files.{Changes, gencert-Changes}
use rocklet.Gencert.Twice.{IsLibrary, gencert_again}

first : List ℕ → Option ℕ
first [] = none
first (k ∷ rest) = some k

-- An address starts with a 1.
address : List ℕ → Option (List ℕ)
address [] = none
address (d ∷ rest) = if d == b'1' then some rest else none

library : Library ℕ ℕ
unfolding first address
library = record {
  pem_encode = λ t b. b;
  pem_decode = λ b. some b;
  parse_certificate = first;
  parse_key = first;
  marshal_key = λ k. k ∷ [];
  create_certificate = λ t ca_cert k ca_key. some (ca_cert ∷ k ∷ ca_key ∷ []);
  parse_ip = address;
}

library-IsLibrary : IsLibrary library
unfolding library
library-IsLibrary = record { pem_decode-encode = λ t b. refl; parse-marshal_key = λ k. refl }

abbrev flags : Flags
flags = record {
  ca_cert_path = codes "ca";
  ca_key_path = codes "ca-key";
  key_path = codes "key";
  cert_path = codes "cert";
  node_name = codes "robot";
  hosts = codes "vacuum" ∷ codes "10.0.0.2" ∷ codes "home" ∷ [];
  validity = 1000;
}

abbrev world : ℕ → World ℕ
world k = record {
  new_key = some k;
  serial = some 9;
  now = 100000000000000;
  later = 100000000000001;
  writable = λ p. true;
  arrives = λ p b. b;
}

abbrev files : Store
files p =
    if bytes_eq p (codes "ca")
    then content (4 ∷ [])
    else if bytes_eq p (codes "ca-key")
    then content (5 ∷ [])
    else not_exist

gencert-files : (gencert library flags (world 7) files).0 (codes "cert") ≡ content (4 ∷ 7 ∷ 5 ∷ [])
unfolding gencert library bytes_eq
gencert-files = refl

gencert-Changes_example :
    Changes library flags (world 7) (codes "key") files (gencert library flags (world 7) files)
gencert-Changes_example = gencert-Changes library flags (world 7) (codes "key") files

apart : codes "key" ≢ codes "cert"
apart e = cc

gencert_again_example :
    let t = (gencert library flags (world 7) files).0 in
    (load_key library flags (world 8) t (t (codes "key")) ≡ (t, ok 7))
    × ((gencert library flags (world 8) t).0 (codes "key") ≡ t (codes "key"))
gencert_again_example =
    gencert_again library flags (world 7) 7 refl (λ p b. refl) apart files (world 8)
      library-IsLibrary (unfold bytes_eq in refl) (unfold gencert library bytes_eq in refl)
