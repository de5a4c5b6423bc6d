-- ===== src/Gencert.antt =====
-- cmd/gencert.go: the command that issues the certificate of the node. `Key` is a private RSA key,
-- `Cert` a certificate. The encodings, the signature and the random source are parameters; a file
-- system is a function of the path. logger.Fatal ends the command. Times are nanoseconds from a
-- time that is long past.
pub mod Files
pub mod Twice
pub mod Sans
mod Tests
use rocklet.Base.{
  ℕ, ◌+◌, ◌-◌, ◌*◌, ◌≡◌, List, [], ◌∷◌, ◌++◌, Option, none, some, Bool, true, false, bytes_eq,
  if◌then◌else◌,
}
use rocklet.Base.Text.{codes}

-- What ReadFile finds under a path.
pub data File : Type 0 where
  content : List ℕ → File
  not_exist : File
  unreadable : File

abbrev pub Store : Type 0
Store = List ℕ → File

-- The calls of logger.Fatal.
pub data Fatal : Type 0 where
  no_ca_cert : Fatal
  ca_cert_pem : Fatal
  ca_cert_malformed : Fatal
  no_ca_key : Fatal
  ca_key_pem : Fatal
  ca_key_malformed : Fatal
  no_new_key : Fatal
  key_not_writable : Fatal
  key_unreadable : Fatal
  key_pem : Fatal
  key_malformed : Fatal
  no_serial_number : Fatal
  not_signed : Fatal
  cert_not_writable : Fatal

pub record Flags : Type 0 where
  pub ca_cert_path : List ℕ
  pub ca_key_path : List ℕ
  pub key_path : List ℕ
  pub cert_path : List ℕ
  pub node_name : List ℕ
  pub hosts : List (List ℕ)
  pub validity : ℕ

-- x509.Certificate, as far as it is filled in; the usages are constants.
pub record Template : Type 0 where
  pub serial_number : ℕ
  pub common_name : List ℕ
  pub organization : List (List ℕ)
  pub not_before : ℕ
  pub not_after : ℕ
  pub dns_names : List (List ℕ)
  pub ip_addresses : List (List ℕ)

-- encoding/pem, crypto/x509 and net.ParseIP. A certificate is signed for a public key.
pub record Library (Key Cert : Type 0) : Type 0 where
  pub pem_encode : List ℕ → List ℕ → List ℕ
  pub pem_decode : List ℕ → Option (List ℕ)
  pub parse_certificate : List ℕ → Option Cert
  pub parse_key : List ℕ → Option Key
  pub marshal_key : Key → List ℕ
  pub create_certificate : Template → Cert → Key → Key → Option (List ℕ)
  pub parse_ip : List ℕ → Option (List ℕ)

-- What the world answers in one run: the random source, the clock when it is read first and then,
-- whether a path can be opened for
-- writing, and what of the bytes that are written there arrives, since errors of pem.Encode and
-- Close are not looked at.
pub record World (Key : Type 0) : Type 0 where
  pub new_key : Option Key
  pub serial : Option ℕ
  pub now : ℕ
  pub later : ℕ
  pub writable : List ℕ → Bool
  pub arrives : List ℕ → List ℕ → List ℕ

-- A value, or the call of logger.Fatal.
pub data Result (A : Type 0) : Type 0 where
  ok : A → Result A
  fatal : Fatal → Result A

infixl 5 ◌>>=◌
abbrev pub ◌>>=◌ : {A B : Type 0} → Result A → (A → Result B) → Result B
ok a >>= f = f a
fatal e >>= f = fatal e

abbrev pub day : ℕ
day = 24 * 3600 * 1000000000

abbrev pub or_fatal : {A : Type 0} → Option A → Fatal → Result A
or_fatal none e = fatal e
or_fatal (some a) e = ok a

abbrev pub with_file : Store → List ℕ → List ℕ → Store
with_file s path bytes p = if bytes_eq p path then content bytes else s p

abbrev pub read_file : File → Fatal → Result (List ℕ)
read_file (content bytes) e = ok bytes
read_file not_exist e = fatal e
read_file unreadable e = fatal e

module _ {Key Cert : Type 0} (l : Library Key Cert) where
  -- A PEM block that is parsed.
  abbrev pub parse_pem : {A : Type 0} → (List ℕ → Option A) → Fatal → Fatal → List ℕ → Result A
  parse_pem parse no_block malformed bytes =
      or_fatal (l.pem_decode bytes) no_block >>= λ block. or_fatal (parse block) malformed

  abbrev pub load_ca_cert : Flags → Store → Result Cert
  load_ca_cert f s =
      read_file (s f.ca_cert_path) no_ca_cert
      >>= parse_pem l.parse_certificate ca_cert_pem ca_cert_malformed

  abbrev pub load_ca_key : Flags → Store → Result Key
  load_ca_key f s =
      read_file (s f.ca_key_path) no_ca_key >>= parse_pem l.parse_key ca_key_pem ca_key_malformed

  -- A new key is written before it is used.
  abbrev pub write_key : Flags → World Key → Store → Key → Store × Result Key
  write_key f w s key =
      if w.writable f.key_path
      then (
        with_file s f.key_path
            (w.arrives f.key_path (l.pem_encode (codes "RSA PRIVATE KEY") (l.marshal_key key))),
        ok key,
      )
      else (s, fatal key_not_writable)

  abbrev pub create_key : Flags → World Key → Store → Option Key → Store × Result Key
  create_key f w s none = (s, fatal no_new_key)
  create_key f w s (some key) = write_key f w s key

  -- The key is read if its file exists.
  abbrev pub load_key : Flags → World Key → Store → File → Store × Result Key
  load_key f w s not_exist = create_key f w s w.new_key
  load_key f w s unreadable = (s, fatal key_unreadable)
  load_key f w s (content bytes) = (s, parse_pem l.parse_key key_pem key_malformed bytes)

  abbrev pub add_san : Template → List ℕ → Option (List ℕ) → Template
  add_san t h (some ip) = record t { ip_addresses = t.ip_addresses ++ ip ∷ [] }
  add_san t h none = record t { dns_names = t.dns_names ++ h ∷ [] }

  -- The loop over genCertHosts.
  unfoldable pub add_sans : List (List ℕ) → Template → Template
  add_sans [] t = t
  add_sans (h ∷ hs) t = add_sans hs (add_san t h (l.parse_ip h))

  unfoldable pub template : Flags → World Key → ℕ → Template
  unfolding add_sans
  template f w serial = add_sans f.hosts (record {
    serial_number = serial;
    common_name = codes "system:node:" ++ f.node_name;
    organization = codes "system:nodes" ∷ [];
    not_before = w.now - day;
    not_after = w.later + f.validity;
    dns_names = f.node_name ∷ [];
    ip_addresses = [];
  })

  -- From the serial number to the signed certificate.
  abbrev pub signed : Flags → World Key → Cert → Key → Key → Result (List ℕ)
  signed f w ca_cert ca_key key = or_fatal w.serial no_serial_number >>= λ serial.
      or_fatal (l.create_certificate (template f w serial) ca_cert key ca_key) not_signed

  abbrev pub write_cert : Flags → World Key → Store → Result (List ℕ) → Store × Option Fatal
  write_cert f w s (fatal e) = (s, some e)
  write_cert f w s (ok der) =
      if w.writable f.cert_path
      then (
        with_file s f.cert_path (w.arrives f.cert_path (l.pem_encode (codes "CERTIFICATE") der)),
        none,
      )
      else (s, some cert_not_writable)

  abbrev pub with_key : Flags → World Key → Cert → Key → Store × Result Key → Store × Option Fatal
  with_key f w ca_cert ca_key (s, key) = write_cert f w s (key >>= λ k. signed f w ca_cert ca_key k)

  abbrev pub with_ca : Flags → World Key → Store → Result Cert → Result Key → Store × Option Fatal
  with_ca f w s (fatal e) ca_key = (s, some e)
  with_ca f w s (ok ca_cert) (fatal e) = (s, some e)
  with_ca f w s (ok ca_cert) (ok ca_key) =
      with_key f w ca_cert ca_key (load_key f w s (s f.key_path))

  -- genCertCmd: the files it leaves, and the call of logger.Fatal that ended it, if any.
  unfoldable pub gencert : Flags → World Key → Store → Store × Option Fatal
  unfolding template
  gencert f w s = with_ca f w s (load_ca_cert f s) (load_ca_key f s)
