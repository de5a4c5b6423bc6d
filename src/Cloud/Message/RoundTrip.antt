-- ===== src/Cloud/Message/RoundTrip.antt =====
-- Write and Read of pkg/rockrobo/cloud.go: what one side writes, the other reads.
use rocklet.Base.{
  ℕ, ◌+◌, ◌%◌, ◌<◌, ◌≤◌, ◌≡◌, ◌≢◌, List, [], ◌∷◌, ◌++◌, none, refl, ap, sym, ◌∙◌, arith, true,
  length, take, ok, All, lt→ltb, le→ltb, Bool-cases, inl, inr, ◌==◌, ==_iff, bytes_eq_self,
  length-append, drop-append_eq,
}
use rocklet.Base.Bytes.{IsByte, u16}
use rocklet.Cloud.Message.{
  Crypto, IsCrypto, CloudMessageHeader, CloudMessage, encode_header, header_size, pad, unpad,
  valid_key_size, compute_checksum, write, read, verify, trim, returned, trim_right, block_size,
}
use rocklet.Cloud.Message.Header.{
  IsHeader, length-encode_header, decode-encode_header, take-encode_header-checksum,
}
use rocklet.Cloud.Message.Padding.{pad_length, pad-IsByte, unpad-pad}

module _ (c : Crypto) (laws : IsCrypto c) where
  -- A derived key always has a valid size.
  pub valid_key_size-md5_sum : (key : List ℕ) → valid_key_size (c.md5_sum key) ≡ true
  unfolding valid_key_size
  valid_key_size-md5_sum key = rw (laws.length-md5_sum key) refl

  -- The checksum of a well-formed header never fails.
  pub compute_checksum_ok :
      (m : CloudMessage) (key : List ℕ)
      → IsHeader m.head
      → compute_checksum c m key
        ≡ ok (c.md5_sum (take 16 (encode_header m.head) ++ (key ++ m.body)))
  unfolding compute_checksum
  compute_checksum_ok m key wf =
      rw (le→ltb (length (encode_header m.head)) 16 (omega (arith, length-encode_header m.head wf)))

  abbrev ciphertext : CloudMessage → List ℕ → List ℕ
  ciphertext m key = c.cbc_encrypt (c.md5_sum key) (c.md5_sum (c.md5_sum key ++ key)) (pad m.body)

  abbrev sized : CloudMessage → List ℕ → CloudMessage
  sized m key = record m {
    head = record m.head { length = u16 (header_size + length (ciphertext m key)) };
    body = ciphertext m key;
  }

  abbrev digest : CloudMessage → List ℕ → List ℕ
  digest m key = c.md5_sum (take 16 (encode_header (sized m key).head) ++ (key ++ ciphertext m key))

  abbrev sealed_head : CloudMessage → List ℕ → CloudMessageHeader
  sealed_head m key = record (sized m key).head { checksum = digest m key }

  module _ (m : CloudMessage) (key : List ℕ) (wf : IsHeader m.head) where
    sized-IsHeader : IsHeader (sized m key).head
    sized-IsHeader = record {
      header_length = wf.header_length;
      length_range = omega arith;
      unknown_length = wf.unknown_length;
      device_id_range = wf.device_id_range;
      epoch_range = wf.epoch_range;
      checksum_length = wf.checksum_length;
    }

    sealed-IsHeader : IsHeader (sealed_head m key)
    sealed-IsHeader = record {
      header_length = wf.header_length;
      length_range = omega arith;
      unknown_length = wf.unknown_length;
      device_id_range = wf.device_id_range;
      epoch_range = wf.epoch_range;
      checksum_length = laws.length-md5_sum _;
    }

    write_body :
        0 < length m.body
        → write c m key ≡ ok (encode_header (sealed_head m key) ++ ciphertext m key)
    unfolding write
    write_body h = rw (
      lt→ltb 0 (length m.body) h,
      valid_key_size-md5_sum key,
      compute_checksum_ok (sized m key) key sized-IsHeader,
    )

  -- Read of a whole packet whose length field, checksum and blocks are right.
  module _ (m : CloudMessage) (key : List ℕ) (wf : IsHeader m.head)
      (fits : m.length_field ≡ u16 (header_size + length m.body)) where
    pub length-packet : length (encode_header m.head ++ m.body) ≡ header_size + length m.body
    length-packet =
        omega (arith, length-append (encode_header m.head) m.body, length-encode_header m.head wf)

    -- Past the tests on the size, what is left is the comparison of the checksums.
    pub read_sized :
        (m0 : CloudMessage)
        → m.length_field ≢ header_size
        → read c m0 (encode_header m.head ++ m.body) key
          ≡ verify c m key (ok (c.md5_sum (take 16 (encode_header m.head) ++ (key ++ m.body))))
    unfolding read
    read_sized m0 ne =
        rw
          (
            le→ltb (length (encode_header m.head ++ m.body)) header_size
                (omega (arith, length-packet)),
            decode-encode_header m.head wf m.body,
            drop-append_eq header_size (encode_header m.head) m.body
                (length-encode_header m.head wf),
            (==_iff (u16 (header_size + length m.body)) m.length_field).1 (sym fits),
            compute_checksum_ok m key wf,
          )
          (elim (Bool-cases (m.length_field == header_size)) [
            | inl e ↦ absurd (ne ((==_iff _ _).0 e))
            | inr e ↦ rw e
          ])

    read_sealed :
        (m0 : CloudMessage) (plain : List ℕ)
        → m.length_field ≢ header_size
        → m.sum ≡ c.md5_sum (take 16 (encode_header m.head) ++ (key ++ m.body))
        → length m.body % block_size ≡ 0
        → unpad (c.cbc_decrypt (c.md5_sum key) (c.md5_sum (c.md5_sum key ++ key)) m.body) ≡ ok plain
        → read c m0 (encode_header m.head ++ m.body) key
          ≡ returned (record m { body = trim 0 plain }) none
    unfolding verify
    read_sealed m0 plain ne sum blocks un =
        read_sized m0 ne
        ∙ rw (
          ← sum,
          bytes_eq_self m.sum,
          valid_key_size-md5_sum key,
          (==_iff (length m.body % block_size) 0).1 blocks,
          un,
        )

  -- Write then Read with the same key, for a body of bytes that is not empty and leaves the size
  -- in the 16-bit length field: Write succeeds; Read reports no error, and returns the device id,
  -- epoch, magic and unknown field that were written, the body with the null bytes at its ends
  -- removed, and in the length field the length of the packet, which is longer than a header and
  -- at most 48 bytes longer than the body.
  pub read-write :
      (m m0 : CloudMessage) (key : List ℕ)
      → IsHeader m.head
      → All IsByte m.body
      → 0 < length m.body
      → length m.body + 48 < 65536
      → (packet : List ℕ) × (sealed : CloudMessage) × (write c m key ≡ ok packet)
        × (read c m0 packet key ≡ returned sealed none)
        × (sealed.body ≡ trim 0 m.body)
        × (sealed.header ≡ m.header)
        × (sealed.unknown ≡ m.unknown)
        × (sealed.device_id ≡ m.device_id)
        × (sealed.epoch ≡ m.epoch)
        × (sealed.length_field ≡ length packet)
        × (header_size < length packet)
        × (length packet ≤ length m.body + 48)
  read-write m m0 key wf bytes some_body small = (
    encode_header (sealed_head m key) ++ ciphertext m key,
    record { head = sealed_head m key; body = trim 0 m.body },
    write_body m key wf some_body,
    read_sealed (record { head = sealed_head m key; body = ciphertext m key }) key
        (sealed-IsHeader m key wf) refl m0 m.body (omega (arith, size, bounds))
        (ap (λ p. c.md5_sum (p ++ (key ++ ciphertext m key)))
          (sym (take-encode_header-checksum _ _ (sized-IsHeader m key wf) (laws.length-md5_sum _))))
        (omega (arith, size, bounds.0))
        (rw
          (laws.decrypt-encrypt _ _ (pad m.body) (laws.length-md5_sum _) (laws.length-md5_sum _)
            bounds.0 (pad-IsByte m.body bytes))
          (unpad-pad m.body)),
    refl,
    refl,
    refl,
    refl,
    refl,
    omega (arith, size, bounds, total),
    omega (arith, size, bounds, total),
    omega (arith, size, bounds, total),
  )
    where
      size : length (ciphertext m key) ≡ length (pad m.body)
      size = laws.length-cbc_encrypt _ _ (pad m.body)

      bounds :
          (length (pad m.body) % block_size ≡ 0)
          × (length m.body < length (pad m.body))
          × (length (pad m.body) ≤ length m.body + block_size)
      bounds = pad_length m.body

      total :
          length (encode_header (sealed_head m key) ++ ciphertext m key)
          ≡ header_size + length (ciphertext m key)
      total = omega (
        arith,
        length-append (encode_header (sealed_head m key)) (ciphertext m key),
        length-encode_header (sealed_head m key) (sealed-IsHeader m key wf),
      )

-- A text whose ends are not null is not trimmed.
trim_right-append : (xs : List ℕ) (y : ℕ) → y ≢ 0 → trim_right 0 (xs ++ y ∷ []) ≡ xs ++ y ∷ []
unfolding trim_right
trim_right-append [] y h = ground arith
trim_right-append (x ∷ []) y h = rw (trim_right-append [] y h, trim_right)
trim_right-append (x ∷ z ∷ xs) y h = rw (trim_right-append (z ∷ xs) y h, trim_right)

pub trim_self :
    (x y : ℕ) (mid : List ℕ) → x ≢ 0 → y ≢ 0 → trim 0 (x ∷ (mid ++ y ∷ [])) ≡ x ∷ (mid ++ y ∷ [])
unfolding trim
trim_self x y mid hx hy = elim (Bool-cases (x == 0)) [
  | inl e ↦ absurd (hx ((==_iff x 0).0 e))
  | inr e ↦ rw e (trim_right-append (x ∷ mid) y hy)
]
