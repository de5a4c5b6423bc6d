-- ===== src/Cloud/Tests.antt =====
-- pkg/rockrobo/cloud.go on concrete packets, with a toy cipher in place of MD5 and AES-CBC.
use rocklet.Base.{
  ℕ, suc, ◌+◌, ◌%◌, ◌≤◌, ◌<◌, ◌≡◌, ◌≢◌, ◌⊎◌, ◌↔◌, List, [], ◌∷◌, ◌++◌, none, some, true, false, ok,
  refl, ap, arith, All, length, take, drop, replicate, map, length-append, length-take,
  length-replicate, bytes_eq,
}
use rocklet.Base.Assoc.{lookup}
use rocklet.Base.Bytes.{u16, IsByte, be16, be32, be_value}
use rocklet.Base.Int.{pos, int_equality}
use rocklet.Protocol.{Method}
use rocklet.Cloud.Message.{
  Crypto, IsCrypto, CloudMessage, CloudMessageHeader, returned, crashed, checksum_mismatch, read,
  write, trim, unpad, header_size, block_size, encode_header, decode_header, compute_checksum,
  aes_params_from_key, valid_key_size,
}
use rocklet.Cloud.Message.Header.{IsHeader}
use rocklet.Cloud.Message.RoundTrip.{read-write}
use rocklet.Cloud.Message.Branches.{read_accepts}
use rocklet.Cloud.Message.Forged.{digest, read_forged, read_crashed}
use rocklet.Cloud.Receiver
use rocklet.Cloud.Receiver.Blocking.{late_answer_blocks, forged_answer}

unfoldable pub toy : Crypto
toy = record {
  md5_sum = λ xs. take 16 (xs ++ replicate 16 0);
  cbc_encrypt = λ k iv xs. map (λ b. (b + 1) % 256) xs;
  cbc_decrypt = λ k iv xs. map (λ b. (b + 255) % 256) xs;
}

length-map_bytes : (f : ℕ → ℕ) (xs : List ℕ) → length (map f xs) ≡ length xs
length-map_bytes f [] = refl
length-map_bytes f (x ∷ xs) = ap suc (length-map_bytes f xs)

decrypt-encrypt_toy :
    (xs : List ℕ) → All IsByte xs → map (λ b. (b + 255) % 256) (map (λ b. (b + 1) % 256) xs) ≡ xs
decrypt-encrypt_toy [] h = refl
decrypt-encrypt_toy (x ∷ xs) h =
    let same : ((x + 1) % 256 + 255) % 256 ≡ x = omega (arith, h.0) in
    rw (same, decrypt-encrypt_toy xs h.1)

pub toy_laws : IsCrypto toy
unfolding toy
toy_laws = record {
  length-md5_sum = λ xs. omega (
    arith,
    length-take 16 (xs ++ replicate 16 0),
    length-append xs (replicate 16 0),
    length-replicate {A = ℕ} 16 0,
  );
  length-cbc_encrypt = λ k iv xs. length-map_bytes _ xs;
  length-cbc_decrypt = λ k iv xs. length-map_bytes _ xs;
  decrypt-encrypt = λ k iv xs hk hiv whole bytes. decrypt-encrypt_toy xs bytes;
}

abbrev pub letter : CloudMessage
letter = record {
  head = record {
    header = 0x21 ∷ 0x31 ∷ [];
    length = 51;
    unknown = replicate 4 0;
    device_id = 1000;
    epoch = 1500000000;
    checksum = replicate 16 9;
  };
  body = 0 ∷ 1 ∷ 2 ∷ [];
}

pub letter-IsHeader : IsHeader letter.head
letter-IsHeader = record {
  header_length = refl;
  length_range = omega arith;
  unknown_length = refl;
  device_id_range = omega arith;
  epoch_range = omega arith;
  checksum_length = refl;
}

-- The same, as it is on the wire with a body that is not encrypted, and the length that fits.
abbrev forged : CloudMessage
forged = record letter { head = record letter.head { length = 35 } }

forged-IsHeader : IsHeader forged.head
forged-IsHeader = record {
  header_length = refl;
  length_range = omega arith;
  unknown_length = refl;
  device_id_range = omega arith;
  epoch_range = omega arith;
  checksum_length = refl;
}

abbrev pub key : List ℕ
key = 7 ∷ 8 ∷ []

abbrev torn : List ℕ
torn = 3 ∷ 200 ∷ []

read-write_example :
    (packet : List ℕ) × (sealed : CloudMessage) × (write toy letter key ≡ ok packet)
    × (read toy letter packet key ≡ returned sealed none)
    × (sealed.body ≡ trim 0 letter.body)
    × (sealed.header ≡ letter.header)
    × (sealed.unknown ≡ letter.unknown)
    × (sealed.device_id ≡ letter.device_id)
    × (sealed.epoch ≡ letter.epoch)
    × (sealed.length_field ≡ length packet)
    × (header_size < length packet)
    × (length packet ≤ length letter.body + 48)
read-write_example =
    read-write toy toy_laws letter letter key letter-IsHeader
      (omega arith, (omega arith, (omega arith, tt))) (omega arith) (omega arith)

-- A packet with one block, encrypted with the toy cipher: fourteen fives and the padding.
abbrev pub sealed_head : CloudMessageHeader
sealed_head = record letter.head {
  length = 48;
  checksum = 33 ∷ 49 ∷ 0 ∷ 48 ∷ 0 ∷ 0 ∷ 0 ∷ 0 ∷ 0 ∷ 0 ∷ 3 ∷ 232 ∷ 89 ∷ 104 ∷ 47 ∷ 0 ∷ [];
}

abbrev sealed_block : List ℕ
sealed_block = replicate 14 6 ++ 3 ∷ 3 ∷ []

abbrev opened : CloudMessage
opened = record { head = sealed_head; body = replicate 14 5 }

read_accepts_example :
    (header_size ≤ length (encode_header sealed_head ++ sealed_block))
    × (sealed_head ≡ decode_header (encode_header sealed_head ++ sealed_block))
    × (u16 (length (encode_header sealed_head ++ sealed_block)) ≡ sealed_head.length)
    × ((sealed_head.length ≡ header_size)
        ⊎ (sealed_head.checksum
            ≡ toy.md5_sum (
                take 16 (encode_header sealed_head)
                ++ (key ++ drop header_size (encode_header sealed_head ++ sealed_block)))))
unfolding encode_header decode_header read toy trim be16 be32 be_value unpad bytes_eq
    compute_checksum aes_params_from_key valid_key_size
read_accepts_example =
    read_accepts toy letter (encode_header sealed_head ++ sealed_block) key opened refl

wrong_sum : forged.sum ≢ digest toy forged key
unfolding toy encode_header
wrong_sum e = absurd (ground (arith, e))

read_crashed_example :
    (read toy letter (encode_header forged.head ++ forged.body) key ≡ crashed) ↔ (
      (forged.length_field ≢ header_size)
      × (forged.sum ≡ digest toy forged key)
      × (length forged.body % block_size ≢ 0))
read_crashed_example = read_crashed toy toy_laws forged letter key forged-IsHeader refl

-- What the receiver's json.Unmarshal makes of a text: the first byte is the id.
unfoldable pub first_byte : List ℕ → Method
first_byte [] = record { method = []; params = []; result = []; id = pos 0; partner_id = [] }
first_byte (b ∷ bs) = record { method = []; params = []; result = []; id = pos b; partner_id = [] }

abbrev question : Receiver.State
question = record Receiver.new { cloud_sessions = (pos 0, 4) ∷ []; waiting = λ ch. true }

abbrev packet_of : CloudMessage → Receiver.Event
packet_of m = Receiver.packet (encode_header m.head ++ m.body) 1

abbrev events : List Receiver.Event
events = Receiver.register (pos 0) 4 ∷ packet_of forged ∷ Receiver.receive ∷ packet_of forged ∷ []

forged_answer_example :
    (Receiver.run toy first_byte key question (
      Receiver.packet (encode_header forged.head ++ forged.body) 1 ∷ Receiver.receive ∷ [])).answers
    ≡ [] ++ (4, forged.body) ∷ []
unfolding first_byte lookup
forged_answer_example =
    forged_answer toy first_byte key question 1 4 toy_laws forged forged-IsHeader refl (omega arith)
      wrong_sum refl refl refl

late_answer_blocks_example :
    (Receiver.run toy first_byte key
      (Receiver.step toy first_byte key
        (record question { waiting = λ ch. false })
        (packet_of forged))
      (packet_of forged ∷ Receiver.register (pos 3) 5 ∷ Receiver.receive ∷ [])).receiver
    ≡ Receiver.sending 4 forged.body
unfolding first_byte lookup
late_answer_blocks_example =
    late_answer_blocks toy first_byte key (record question { waiting = λ ch. false }) 1 4
      (encode_header forged.head ++ forged.body) forged (some checksum_mismatch) refl
      (read_forged toy toy_laws forged Receiver.zero_message key forged-IsHeader refl (omega arith)
        wrong_sum)
      (omega arith) refl refl
      (packet_of forged ∷ Receiver.register (pos 3) 5 ∷ Receiver.receive ∷ [])
      (tt, ((omega arith), (tt, tt)))
