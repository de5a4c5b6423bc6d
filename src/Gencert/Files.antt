-- ===== src/Gencert/Files.antt =====
-- The command of cmd/gencert.go: which files it changes.
use rocklet.Base.{
  ℕ, ◌≡◌, ◌⊎◌, inl, inr, List, Option, none, some, bytes_eq, bytes_eq→≡, refl, ◌∙◌, Bool-cases,
}
use rocklet.Gencert.{
  File, content, not_exist, unreadable, Store, Fatal, Flags, Library, World, Result, ok, fatal,
  ◌>>=◌, with_file, write_key, create_key, load_key, load_ca_cert, load_ca_key, signed, write_cert,
  with_key, with_ca, gencert,
}

with_file-cases :
    (s : Store) (path bytes p : List ℕ) → (with_file s path bytes p ≡ s p) ⊎ (p ≡ path)
with_file-cases s path bytes p = elim (Bool-cases (bytes_eq p path)) [
  | inl same ↦ inr (bytes_eq→≡ p path same)
  | inr other ↦ inl (rw other refl)
]

module _ {Key Cert : Type 0} (l : Library Key Cert) (f : Flags) (w : World Key) (p : List ℕ) where
  -- The file is as it was, or it is the key's, which was not there.
  abbrev KeyOnly : File → Store → Store → Type 0
  KeyOnly before s t = (t p ≡ s p) ⊎ ((p ≡ f.key_path) × (before ≡ not_exist))

  write_key-KeyOnly : (s : Store) (key : Key) → KeyOnly not_exist s (write_key l f w s key).0
  write_key-KeyOnly s key = elim (Bool-cases (w.writable f.key_path)) [
    | inl yes_writable ↦ rw yes_writable (elim (with_file-cases s f.key_path _ p) [
      | inl same ↦ inl same
      | inr path ↦ inr (path, refl)
    ])
    | inr refused ↦ rw refused (inl refl)
  ]

  load_key-KeyOnly : (s : Store) (o : File) → KeyOnly o s (load_key l f w s o).0
  load_key-KeyOnly s not_exist = created w.new_key
    where
      created : (o : Option Key) → KeyOnly not_exist s (create_key l f w s o).0
      created none = inl refl
      created (some key) = write_key-KeyOnly s key
  load_key-KeyOnly s unreadable = inl refl
  load_key-KeyOnly s (content bytes) = inl refl

  -- The file is as it was, or it is the certificate's and the command has succeeded.
  abbrev CertOnly : Store → Store × Option Fatal → Type 0
  CertOnly s r = (r.0 p ≡ s p) ⊎ ((p ≡ f.cert_path) × (r.1 ≡ none))

  write_cert-CertOnly : (s : Store) (r : Result (List ℕ)) → CertOnly s (write_cert l f w s r)
  write_cert-CertOnly s (fatal e) = inl refl
  write_cert-CertOnly s (ok der) = elim (Bool-cases (w.writable f.cert_path)) [
    | inl yes_writable ↦ rw yes_writable (elim (with_file-cases s f.cert_path _ p) [
      | inl same ↦ inl same
      | inr path ↦ inr (path, refl)
    ])
    | inr refused ↦ rw refused (inl refl)
  ]

  abbrev pub Changes : Store → Store × Option Fatal → Type 0
  Changes s r =
      (r.0 p ≡ s p)
      ⊎ ((p ≡ f.key_path) × (s f.key_path ≡ not_exist))
      ⊎ ((p ≡ f.cert_path) × (r.1 ≡ none))

  both :
      (s : Store) (before : File) (k : Store × Result Key) (ca_cert : Cert) (ca_key : Key)
      → s f.key_path ≡ before
      → KeyOnly before s k.0
      → Changes s (with_key l f w ca_cert ca_key k)
  both s before (t, key) ca_cert ca_key e (inr (path, missing)) = inr (inl (path, e ∙ missing))
  both s before (t, key) ca_cert ca_key e (inl same) =
      elim (write_cert-CertOnly t (key >>= λ k. signed l f w ca_cert ca_key k)) [
        | inl kept ↦ inl (kept ∙ same)
        | inr cert ↦ inr (inr cert)
      ]

  with_ca-Changes :
      (s : Store) (ca_cert : Result Cert) (ca_key : Result Key)
      → Changes s (with_ca l f w s ca_cert ca_key)
  with_ca-Changes s (fatal e) ca_key = inl refl
  with_ca-Changes s (ok ca_cert) (fatal e) = inl refl
  with_ca-Changes s (ok ca_cert) (ok ca_key) =
      both s (s f.key_path) (load_key l f w s (s f.key_path)) ca_cert ca_key refl
        (load_key-KeyOnly s (s f.key_path))

  -- However the command ends, a file that it leaves changed is the key's, which then was not there
  -- before, or the certificate's, and then the command has succeeded.
  pub gencert-Changes : (s : Store) → Changes s (gencert l f w s)
  unfolding gencert
  gencert-Changes s = with_ca-Changes s (load_ca_cert l f s) (load_ca_key l f s)
