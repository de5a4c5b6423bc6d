-- ===== src/Cloud/Message/Forged.antt =====
-- Read of pkg/rockrobo/cloud.go on packets whose checksum nobody computed, and on headers alone.
use rocklet.Base.{
  ℕ, ◌+◌, ◌%◌, ◌<◌, ◌≡◌, ◌≢◌, inl, inr, ◌↔◌, List, [], ◌++◌, Option, none, some, refl, ap, sym, ◌∙◌,
  arith, false, length, take, ok, le→ltb, ◌==◌, ==_iff, bytes_eq, bytes_eq→≡, bytes_eq_ne,
  bytes_eq_self, Bool-cases, drop-append_eq, length-append,
}
use rocklet.Base.Bytes.{u16}
use rocklet.Cloud.Message.{
  Crypto, IsCrypto, CloudMessageHeader, CloudMessage, encode_header, header_size, unpad, read,
  write, verify, check_size, decrypt, unpadded, Error, ReadResult, returned, crashed, block_size,
  checksum_mismatch, aes_params_from_key,
}
use rocklet.Cloud.Message.Header.{IsHeader, decode-encode_header, length-encode_header}
use rocklet.Cloud.Message.RoundTrip.{read_sized, valid_key_size-md5_sum}
use rocklet.Cloud.Message.Padding.{unpad_cases}

-- The digest that Read expects in the checksum field.
abbrev pub digest : Crypto → CloudMessage → List ℕ → List ℕ
digest c m key = c.md5_sum (take 16 (encode_header m.head) ++ (key ++ m.body))

module _ (c : Crypto) (laws : IsCrypto c) (m m0 : CloudMessage) (key : List ℕ)
    (wf : IsHeader m.head) where
  -- A packet of the stated size with a wrong checksum is refused, and its body stays in the
  -- message as it arrived.
  pub read_forged :
      m.length_field ≡ u16 (header_size + length m.body)
      → m.length_field ≢ header_size
      → m.sum ≢ digest c m key
      → read c m0 (encode_header m.head ++ m.body) key ≡ returned m (some checksum_mismatch)
  unfolding verify
  read_forged fits ne wrong = read_sized c laws m key wf fits m0 ne ∙ rw (bytes_eq_ne _ _ wrong)

  unpadded-crashed : (src : List ℕ) → unpadded m (unpad src) ≡ crashed → src ≡ []
  unfolding unpadded
  unpadded-crashed src h = elim (unpad_cases src) [
    | inl (empty, e) ↦ empty
    | inr (u, at, inl (lt, e)) ↦ absurd (cc (ap (unpadded m) e, h))
    | inr (u, at, inr (le, e)) ↦ absurd (cc (ap (unpadded m) e, h))
  ]

  decrypt-crashed :
      0 < length m.body → (decrypt c m key ≡ crashed) ↔ (length m.body % block_size ≢ 0)
  unfolding decrypt aes_params_from_key
  decrypt-crashed some_body = elim (Bool-cases (length m.body % block_size == 0)) [
    | inl whole ↦ (
      λ h.
          let plain : List ℕ =
            c.cbc_decrypt (c.md5_sum key) (c.md5_sum (c.md5_sum key ++ key)) m.body in
          let empty : plain ≡ [] =
            unpadded-crashed plain (rw (valid_key_size-md5_sum c laws key, whole) at h) in
          absurd (
            omega (
              arith,
              laws.length-cbc_decrypt (c.md5_sum key) (c.md5_sum (c.md5_sum key ++ key)) m.body,
              ap length empty,
            )),
      λ h. absurd (h ((==_iff _ _).0 whole)),
    )
    | inr part ↦
        (λ _ e. cc ((==_iff _ _).1 e, part), λ _. rw (valid_key_size-md5_sum c laws key, part))
  ]

  -- A packet whose length field says that there is no body is accepted with no further test.
  read_header_only :
      m.length_field ≡ u16 (header_size + length m.body)
      → m.length_field ≡ header_size
      → read c m0 (encode_header m.head ++ m.body) key ≡ returned m none
  unfolding read check_size
  read_header_only fits bare = rw (
    le→ltb (length (encode_header m.head ++ m.body)) header_size (
        omega (arith, length-append (encode_header m.head) m.body, length-encode_header m.head wf)),
    decode-encode_header m.head wf m.body,
    drop-append_eq header_size (encode_header m.head) m.body (length-encode_header m.head wf),
    (==_iff (u16 (header_size + length m.body)) m.length_field).1 (sym fits),
    (==_iff m.length_field header_size).1 bare,
  )

  read_verified :
      m.length_field ≡ u16 (header_size + length m.body)
      → m.length_field ≢ header_size
      → m.sum ≡ digest c m key
      → read c m0 (encode_header m.head ++ m.body) key ≡ decrypt c m key
  unfolding verify
  read_verified fits ne right =
      read_sized c laws m key wf fits m0 ne ∙ rw (← right, bytes_eq_self m.sum)

  returned-ne-crashed :
      (m' : CloudMessage) (e : Option Error) {r : ReadResult} → r ≡ returned m' e → r ≡ crashed → ⊥
  returned-ne-crashed m' e p q = cc

  body_length :
      m.length_field ≡ u16 (header_size + length m.body)
      → m.length_field ≢ header_size
      → 0 < length m.body
  body_length fits ne = ground arith

  -- Read of a packet of the stated size panics exactly when there is a body, the checksum is
  -- right, and the body is not made of whole blocks.
  pub read_crashed :
      m.length_field ≡ u16 (header_size + length m.body)
      → (read c m0 (encode_header m.head ++ m.body) key ≡ crashed) ↔ (
          (m.length_field ≢ header_size)
          × (m.sum ≡ digest c m key)
          × (length m.body % block_size ≢ 0))
  read_crashed fits = (
    λ h.
        let ne : m.length_field ≢ header_size =
          λ bare. returned-ne-crashed m none (read_header_only fits bare) h in
        elim (Bool-cases (bytes_eq m.sum (digest c m key))) [
          | inl right ↦
              let same : m.sum ≡ digest c m key = bytes_eq→≡ _ _ right in
              (
                ne,
                same,
                (decrypt-crashed (body_length fits ne)).0 (sym (read_verified fits ne same) ∙ h),
              )
          | inr wrong ↦ absurd (
              returned-ne-crashed m (some checksum_mismatch)
                (read_forged fits ne (λ e. differ wrong e)) h)
        ],
    λ h. read_verified fits h.0 h.1 ∙ (decrypt-crashed (body_length fits h.0)).1 h.2,
  )
    where
      differ : bytes_eq m.sum (digest c m key) ≡ false → m.sum ≡ digest c m key → ⊥
      differ wrong e = cc (wrong, e, bytes_eq_self m.sum)

-- A message without a body is written as a bare header, which Read accepts with any key: no
-- checksum is computed or compared. The length field is set to 32, the rest is as it was.
pub read-write_bare :
    (c : Crypto) (laws : IsCrypto c) (h : CloudMessageHeader) (m0 : CloudMessage)
    (key key' : List ℕ)
    → IsHeader h
    → (packet : List ℕ) × (write c (record { head = h; body = [] }) key ≡ ok packet)
      × (read c m0 packet key'
          ≡ returned (record { head = record h { length = header_size }; body = [] }) none)
unfolding write
read-write_bare c laws h m0 key key' wf = (
  encode_header (record h { length = header_size }) ++ [],
  refl,
  read_header_only c laws (record { head = record h { length = header_size }; body = [] }) m0 key'
      (record {
        header_length = wf.header_length;
        length_range = omega arith;
        unknown_length = wf.unknown_length;
        device_id_range = wf.device_id_range;
        epoch_range = wf.epoch_range;
        checksum_length = wf.checksum_length;
      })
      refl refl,
)
