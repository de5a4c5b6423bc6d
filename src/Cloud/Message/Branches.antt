-- ===== src/Cloud/Message/Branches.antt =====
-- Read of pkg/rockrobo/cloud.go on packets that nobody need have written with Write.
use mathlib.Core.Path.{subst}
use rocklet.Base.{
  ℕ, ◌+◌, ◌≤◌, ◌≡◌, ◌⊎◌, inl, inr, List, ◌++◌, none, ap, sym, ◌∙◌, arith, length, take, drop,
  Outcome, ltb, bytes_eq→≡, length-drop, Bool-cases,
}
use rocklet.Base.Bytes.{u16}
use rocklet.Cloud.Message.{
  Crypto, CloudMessageHeader, CloudMessage, Error, encode_header, decode_header, header_size, unpad,
  compute_checksum, read, verify, check_size, decrypt, unpadded, returned,
}

unpadded-head :
    (m m' : CloudMessage) (r : Outcome Error (List ℕ))
    → unpadded m r ≡ returned m' none
    → m'.head ≡ m.head
unfolding unpadded
unpadded-head m m' r h = ground arith

module _ (c : Crypto) (m : CloudMessage) (key : List ℕ) where
  decrypt-head : (m' : CloudMessage) → decrypt c m key ≡ returned m' none → m'.head ≡ m.head
  unfolding decrypt
  decrypt-head m' h = ground (
    arith,
    unpadded-head m m'
        (unpad (c.cbc_decrypt (c.md5_sum key) (c.md5_sum (c.md5_sum key ++ key)) m.body)),
  )

  verify_accepts :
      (m' : CloudMessage)
      → verify c m key (compute_checksum c m key) ≡ returned m' none
      → (m'.head ≡ m.head) × (m.sum ≡ c.md5_sum (take 16 (encode_header m.head) ++ (key ++ m.body)))
  unfolding verify compute_checksum
  verify_accepts m' h = ground (
    arith,
    decrypt-head m',
    bytes_eq→≡ m.sum (c.md5_sum (take 16 (encode_header m.head) ++ (key ++ m.body))),
  )

  -- The digest that Read compares with.
  abbrev expected : List ℕ
  expected = c.md5_sum (take 16 (encode_header m.head) ++ (key ++ m.body))

  check_size_accepts :
      (m' : CloudMessage)
      → check_size c m key ≡ returned m' none
      → (m'.head ≡ m.head)
        × (u16 (header_size + length m.body) ≡ m.length_field)
        × ((m.length_field ≡ header_size) ⊎ (m.sum ≡ expected))
  unfolding check_size
  check_size_accepts m' h = ground (arith, verify_accepts m')

module _ (c : Crypto) (m0 : CloudMessage) (packet key : List ℕ) where
  -- A packet that Read accepts has the size that its length field states modulo 2^16, and either
  -- that field says that there is no body, or the checksum is the digest of the first 16 header
  -- bytes, the key and the body as they arrived.
  pub read_accepts :
      (m : CloudMessage)
      → read c m0 packet key ≡ returned m none
      → (header_size ≤ length packet)
        × (m.head ≡ decode_header packet)
        × (u16 (length packet) ≡ m.length_field)
        × ((m.length_field ≡ header_size)
            ⊎ (m.sum
                ≡ c.md5_sum (take 16 (encode_header m.head) ++ (key ++ drop header_size packet))))
  unfolding read
  read_accepts m h = elim (Bool-cases (ltb (length packet) header_size)) [
    | inl short ↦ ground arith
    | inr long ↦
        let full : header_size ≤ length packet = ground arith in
        let accepted =
          check_size_accepts c
            (record { head = decode_header packet; body = drop header_size packet }) key m
            (rw long at h) in
        let same : decode_header packet ≡ m.head = sym accepted.0 in
        (
          full,
          accepted.0,
          subst (λ (d : CloudMessageHeader). u16 (length packet) ≡ d.length) same
              (ap u16 (omega (arith, length-drop header_size packet)) ∙ accepted.1),
          subst
              (λ (d : CloudMessageHeader).
                (d.length ≡ header_size)
                ⊎ (d.checksum
                    ≡ c.md5_sum (take 16 (encode_header d) ++ (key ++ drop header_size packet))))
              same accepted.2,
        )
  ]
