-- ===== src/Cloud/Message.antt =====
-- pkg/rockrobo/cloud.go, the packets: CloudMessage with Read, Write, Checksum, pad and unpad.
-- A byte slice is a list of numbers. MD5 and AES-CBC are parameters (`Crypto`, `IsCrypto`).
pub mod Header
pub mod Padding
pub mod RoundTrip
pub mod Branches
pub mod Forged
use rocklet.Base.{
  ℕ, zero, suc, ◌+◌, ◌-◌, ◌*◌, ◌%◌, ◌≡◌, List, [], ◌∷◌, ◌++◌, Option, none, some, Bool, true, not,
  ◌||◌, ◌&&◌, ◌==◌, ltb, if◌then◌else◌, bytes_eq, length, take, drop, replicate, get_elem?, Outcome,
  ok, err, panic, ◌>>=◌, All,
}
use rocklet.Base.Bytes.{be16, be32, be_value, u16, IsByte}

-- crypto/md5, crypto/aes and crypto/cipher, as the code calls them. A key or an
-- initialisation vector comes before the text.
pub record Crypto : Type 0 where
  pub md5_sum : List ℕ → List ℕ
  pub cbc_encrypt : List ℕ → List ℕ → List ℕ → List ℕ
  pub cbc_decrypt : List ℕ → List ℕ → List ℕ → List ℕ

abbrev pub block_size : ℕ
block_size = 16

-- What those packages document: digests have 16 bytes, CBC keeps the length of a text, and
-- decryption undoes encryption on whole blocks of bytes.
pub record IsCrypto (c : Crypto) : Type 0 where
  pub length-md5_sum : (xs : List ℕ) → length (c.md5_sum xs) ≡ 16
  pub length-cbc_encrypt : (k iv xs : List ℕ) → length (c.cbc_encrypt k iv xs) ≡ length xs
  pub length-cbc_decrypt : (k iv xs : List ℕ) → length (c.cbc_decrypt k iv xs) ≡ length xs
  pub decrypt-encrypt :
      (k iv xs : List ℕ)
      → length k ≡ 16
      → length iv ≡ 16
      → length xs % block_size ≡ 0
      → All IsByte xs
      → c.cbc_decrypt k iv (c.cbc_encrypt k iv xs) ≡ xs

pub record CloudMessageHeader : Type 0 where
  pub header : List ℕ  -- [2]byte
  pub length : ℕ  -- uint16
  pub unknown : List ℕ  -- [4]byte
  pub device_id : ℕ  -- uint32
  pub epoch : ℕ  -- uint32
  pub checksum : List ℕ  -- [16]byte

pub record CloudMessage : Type 0 where
  pub head : CloudMessageHeader
  pub open head use {header, length as length_field, unknown, device_id, epoch, checksum as sum}
  pub body : List ℕ

abbrev pub cloud_message_header_magic : List ℕ
cloud_message_header_magic = 0x21 ∷ 0x31 ∷ []

-- `now` is `uint32(time.Now().UTC().Unix())`.
unfoldable pub new_cloud_message : ℕ → CloudMessage
new_cloud_message now = record {
  head = record {
    header = cloud_message_header_magic;
    length = 0;
    unknown = replicate 4 0;
    device_id = 0;
    epoch = now;
    checksum = replicate 16 0;
  };
  body = [];
}

unfoldable pub new_hello_cloud_message : ℕ → CloudMessage
unfolding new_cloud_message
new_hello_cloud_message now =
    let m = new_cloud_message now in
    record m { head = record m.head { device_id = 0xffffffff; unknown = replicate 4 0xff } }

-- binary.Size of the header.
abbrev pub header_size : ℕ
header_size = 32

-- binary.Write of the header, big-endian, its fields in order.
unfoldable pub encode_header : CloudMessageHeader → List ℕ
encode_header h =
    h.header ++ (be16 h.length ++ (h.unknown ++ (be32 h.device_id ++ (be32 h.epoch ++ h.checksum))))

-- binary.Read of the header from its 32 bytes.
unfoldable pub decode_header : List ℕ → CloudMessageHeader
decode_header bs =
    let r2 = drop 2 bs in
    let r4 = drop 2 r2 in
    let r8 = drop 4 r4 in
    let r12 = drop 4 r8 in
    let r16 = drop 4 r12 in
    record {
      header = take 2 bs;
      length = be_value 0 (take 2 r2);
      unknown = take 4 r4;
      device_id = be_value 0 (take 4 r8);
      epoch = be_value 0 (take 4 r12);
      checksum = take 16 r16;
    }

-- The padded text; the amount of padding is at most 16, so it fits a byte.
unfoldable pub pad : List ℕ → List ℕ
pad src =
    let padding = block_size - length src % block_size in src ++ replicate padding (padding % 256)

pub data Error : Type 0 where
  reading_header : Error
  size_mismatch : Error
  checksum_mismatch : Error
  short_buffer : Error
  key_size : Error
  bad_padding : Error

-- The last byte of an empty slice is an index out of range.
unfoldable pub unpad : List ℕ → Outcome Error (List ℕ)
unpad src = elim (get_elem? src (length src - 1)) [
  | none ↦ panic
  | some unpadding ↦
      if ltb (length src) unpadding then err bad_padding else ok (take (length src - unpadding) src)
]

-- The AES key and the initialisation vector.
unfoldable pub aes_params_from_key : Crypto → List ℕ → List ℕ × List ℕ
aes_params_from_key c key = let aes_key = c.md5_sum key in (aes_key, c.md5_sum (aes_key ++ key))

-- aes.NewCipher fails on other key sizes than these.
unfoldable pub valid_key_size : List ℕ → Bool
valid_key_size k = length k == 16 || length k == 24 || length k == 32

-- The method Checksum.
unfoldable pub compute_checksum : Crypto → CloudMessage → List ℕ → Outcome Error (List ℕ)
compute_checksum c m key =
    let buf = encode_header m.head in
    if ltb (length buf) 16
    then err short_buffer
    else ok (c.md5_sum (take 16 buf ++ (key ++ m.body)))

-- Write to a writer that does not fail, such as the bytes.Buffer of every caller.
unfoldable pub write : Crypto → CloudMessage → List ℕ → Outcome Error (List ℕ)
unfolding pad aes_params_from_key valid_key_size compute_checksum
write c m key =
    let (aes_key, aes_iv) = aes_params_from_key c key in
    let has_body = ltb 0 (length m.body) in
    if has_body && not (valid_key_size aes_key)
    then err key_size
    else (let body = if has_body then c.cbc_encrypt aes_key aes_iv (pad m.body) else [] in
        let sized = record m {
          head = record m.head { length = u16 (header_size + length body) };
          body = body;
        } in
        if has_body
        then (compute_checksum c sized key >>= λ digest.
            ok (encode_header (record sized.head { checksum = digest }) ++ body))
        else ok (encode_header sized.head ++ body))

trim_left : ℕ → List ℕ → List ℕ
trim_left b [] = []
trim_left b (x ∷ xs) = let rest = trim_left b xs in if x == b then rest else x ∷ xs

trim_right : ℕ → List ℕ → List ℕ
trim_right b [] = []
trim_right b (x ∷ xs) = elim (trim_right b xs) [
  | [] ↦ if x == b then [] else x ∷ []
  | y ∷ ys ↦ x ∷ y ∷ ys
]

-- bytes.Trim with a cutset of one byte.
unfoldable pub trim : ℕ → List ℕ → List ℕ
unfolding trim_left trim_right
trim b xs = trim_right b (trim_left b xs)

-- What a call of Read leaves: the message as far as it was filled in, and the error.
pub data ReadResult : Type 0 where
  returned : CloudMessage → Option Error → ReadResult
  crashed : ReadResult

-- After decryption: remove the padding and the null bytes. On an error `m.Body` is nil.
unpadded : CloudMessage → Outcome Error (List ℕ) → ReadResult
unpadded m (ok plain) = returned (record m { body = trim 0 plain }) none
unpadded m (err e) = returned (record m { body = [] }) (some e)
unpadded m panic = crashed

-- CryptBlocks panics unless it is given whole blocks.
decrypt : Crypto → CloudMessage → List ℕ → ReadResult
unfolding unpadded unpad aes_params_from_key valid_key_size
decrypt c m key =
    let (aes_key, aes_iv) = aes_params_from_key c key in
    if not (valid_key_size aes_key)
    then returned m (some key_size)
    else if not (length m.body % block_size == 0)
    then crashed
    else unpadded m (unpad (c.cbc_decrypt aes_key aes_iv m.body))

-- The comparison of the checksums.
pub verify : Crypto → CloudMessage → List ℕ → Outcome Error (List ℕ) → ReadResult
unfolding decrypt
verify c m key (err e) = returned m (some e)
verify c m key panic = crashed
verify c m key (ok expected) =
    if not (bytes_eq m.sum expected) then returned m (some checksum_mismatch) else decrypt c m key

-- The test on the size, and the way out for a packet that is a header alone.
check_size : Crypto → CloudMessage → List ℕ → ReadResult
unfolding verify compute_checksum
check_size c m key =
    if not (u16 (header_size + length m.body) == m.length_field)
    then returned m (some size_mismatch)
    else if m.length_field == header_size
    then returned m none
    else verify c m key (compute_checksum c m key)

-- The method Read on a packet that arrives whole. binary.Read leaves the header as it was when the
-- packet is too short.
unfoldable pub read : Crypto → CloudMessage → List ℕ → List ℕ → ReadResult
unfolding check_size
read c m0 packet key =
    if ltb (length packet) header_size
    then returned m0 (some reading_header)
    else check_size c (record { head = decode_header packet; body = drop header_size packet }) key
