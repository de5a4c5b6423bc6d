-- ===== src/Gencert/Twice.antt =====
-- The command of cmd/gencert.go, run again.
use mathlib.Core.Path.{subst}
use rocklet.Base.{
  ℕ, ◌≡◌, ◌≢◌, List, Option, none, some, Bool, true, false, bytes_eq_self, bytes_eq_ne, refl, sym,
  ap, ◌∙◌, inl, inr, arith, Bool-cases,
}
use rocklet.Base.Text.{codes}
use rocklet.Gencert.{
  content, not_exist, Store, Fatal, key_not_writable, key_pem, key_malformed, Flags, Library, World,
  Result, ok, fatal, ◌>>=◌, or_fatal, parse_pem, with_file, write_key, create_key, load_key,
  load_ca_cert, load_ca_key, signed, write_cert, with_key, with_ca, gencert,
}
use rocklet.Gencert.Files.{gencert-Changes}

-- What the libraries document: what is encoded is decoded.
pub record IsLibrary {Key Cert : Type 0} (l : Library Key Cert) : Type 0 where
  pub pem_decode-encode : (t b : List ℕ) → l.pem_decode (l.pem_encode t b) ≡ some b
  pub parse-marshal_key : (k : Key) → l.parse_key (l.marshal_key k) ≡ some k

module _ {Key Cert : Type 0} (l : Library Key Cert) (f : Flags) where
  abbrev pub key_file : Key → List ℕ
  key_file k = l.pem_encode (codes "RSA PRIVATE KEY") (l.marshal_key k)

  parse_key_file :
      IsLibrary l → (k : Key) → parse_pem l l.parse_key key_pem key_malformed (key_file k) ≡ ok k
  parse_key_file laws k =
      ap (λ o. or_fatal o key_pem >>= λ block. or_fatal (l.parse_key block) key_malformed)
        (laws.pem_decode-encode (codes "RSA PRIVATE KEY") (l.marshal_key k))
      ∙ ap (λ o. or_fatal o key_malformed) (laws.parse-marshal_key k)

  module _ (w : World Key) (g : Key) (new : w.new_key ≡ some g)
      (whole : (path bytes : List ℕ) → w.arrives path bytes ≡ bytes)
      (apart : f.key_path ≢ f.cert_path) where
    -- The certificate is another file.
    cert_apart :
        (t : Store) (r : Result (List ℕ)) → (write_cert l f w t r).0 f.key_path ≡ t f.key_path
    cert_apart t (fatal e) = refl
    cert_apart t (ok der) = elim (Bool-cases (w.writable f.cert_path)) [
      | inl yes_writable ↦ rw (yes_writable, bytes_eq_ne f.key_path f.cert_path apart) refl
      | inr refused ↦ rw refused refl
    ]

    abbrev Written : Store × Option Fatal → Type 0
    Written r = r.1 ≡ none → r.0 f.key_path ≡ content (key_file g)

    write_key-Written :
        (s : Store) (ca_cert : Cert) (ca_key : Key)
        → Written (with_key l f w ca_cert ca_key (write_key l f w s g))
    write_key-Written s ca_cert ca_key = by_test (w.writable f.key_path) refl
      where
        by_test :
            (b : Bool)
            → w.writable f.key_path ≡ b
            → Written (with_key l f w ca_cert ca_key (write_key l f w s g))
        by_test true writable success =
            let file = w.arrives f.key_path (key_file g) in
            let t = with_file s f.key_path file in
            let stored : t f.key_path ≡ content (key_file g) =
              rw (bytes_eq_self f.key_path) (ap content (whole f.key_path (key_file g))) in
            rw writable (cert_apart t (signed l f w ca_cert ca_key g) ∙ stored)
        by_test false refused success =
            let ends : some key_not_writable ≡ none = rw refused at success in ground (arith, ends)

    with_ca-Written :
        (s : Store) (ca_cert : Result Cert) (ca_key : Result Key)
        → s f.key_path ≡ not_exist
        → Written (with_ca l f w s ca_cert ca_key)
    with_ca-Written s (fatal e) ca_key missing success = ground (arith, success)
    with_ca-Written s (ok ca_cert) (fatal e) missing success = ground (arith, success)
    with_ca-Written s (ok ca_cert) (ok ca_key) missing success =
        subst (λ k. Written (with_key l f w ca_cert ca_key k))
          (sym (ap (load_key l f w s) missing ∙ ap (create_key l f w s) new))
          (write_key-Written s ca_cert ca_key) success

    -- If the key and the certificate have different paths, the key's file is not there, the command succeeds and what it writes arrives, then the
    -- file of the key holds the new key: whenever the command is run again, it reads that key,
    -- whatever the random source answers then, and leaves the file as it is.
    pub gencert_again :
        (s : Store) (w' : World Key)
        → IsLibrary l
        → s f.key_path ≡ not_exist
        → (gencert l f w s).1 ≡ none
        → let t = (gencert l f w s).0 in
          (load_key l f w' t (t f.key_path) ≡ (t, ok g))
          × ((gencert l f w' t).0 f.key_path ≡ t f.key_path)
    unfolding gencert
    gencert_again s w' laws missing success =
        let t = (gencert l f w s).0 in
        let stored : t f.key_path ≡ content (key_file g) =
          with_ca-Written s (load_ca_cert l f s) (load_ca_key l f s) missing success in
        (
          ap (load_key l f w' t) stored ∙ ap (λ r. (t, r)) (parse_key_file laws g),
          elim (gencert-Changes l f w' f.key_path t) [
            | inl same ↦ same
            | inr (inl (_, gone)) ↦ ground (arith, stored, gone)
            | inr (inr (path, _)) ↦ absurd (apart path)
          ],
        )
