-- ===== src/Cloud/Message/Header.antt =====
-- The 32-byte header of pkg/rockrobo/cloud.go: what is written is read back.
use mathlib.Core.List.{append_assoc}
use rocklet.Base.{ℕ, ◌≡◌, List, ◌++◌, arith, sym, ◌∙◌, take, length, length-append}
use rocklet.Base.{take-append_eq, drop-append_eq}
use rocklet.Base.Bytes.{
  IsU16, IsU32, be16, be32, length-be16, length-be32, be_value-be16, be_value-be32,
}
use rocklet.Cloud.Message.{CloudMessageHeader, encode_header, decode_header, header_size}

-- The sizes and ranges of the Go types.
pub record IsHeader (h : CloudMessageHeader) : Type 0 where
  pub header_length : length h.header ≡ 2
  pub length_range : IsU16 h.length
  pub unknown_length : length h.unknown ≡ 4
  pub device_id_range : IsU32 h.device_id
  pub epoch_range : IsU32 h.epoch
  pub checksum_length : length h.checksum ≡ 16

module _ (h : CloudMessageHeader) (wf : IsHeader h) where
  pub length-encode_header : length (encode_header h) ≡ header_size
  unfolding encode_header
  length-encode_header = omega (
    arith,
    length-append h.header
        (be16 h.length ++ (h.unknown ++ (be32 h.device_id ++ (be32 h.epoch ++ h.checksum)))),
    length-append (be16 h.length) (h.unknown ++ (be32 h.device_id ++ (be32 h.epoch ++ h.checksum))),
    length-append h.unknown (be32 h.device_id ++ (be32 h.epoch ++ h.checksum)),
    length-append (be32 h.device_id) (be32 h.epoch ++ h.checksum),
    length-append (be32 h.epoch) h.checksum,
    length-be16 h.length,
    length-be32 h.device_id,
    length-be32 h.epoch,
  )

  pub decode-encode_header : (rest : List ℕ) → decode_header (encode_header h ++ rest) ≡ h
  unfolding encode_header decode_header
  decode-encode_header rest = simp (
    append_assoc,
    drop-append_eq 2 h.header _ wf.header_length,
    take-append_eq 2 h.header _ wf.header_length,
    drop-append_eq 2 (be16 h.length) _ (length-be16 h.length),
    take-append_eq 2 (be16 h.length) _ (length-be16 h.length),
    drop-append_eq 4 h.unknown _ wf.unknown_length,
    take-append_eq 4 h.unknown _ wf.unknown_length,
    drop-append_eq 4 (be32 h.device_id) _ (length-be32 h.device_id),
    take-append_eq 4 (be32 h.device_id) _ (length-be32 h.device_id),
    drop-append_eq 4 (be32 h.epoch) _ (length-be32 h.epoch),
    take-append_eq 4 (be32 h.epoch) _ (length-be32 h.epoch),
    take-append_eq 16 h.checksum _ wf.checksum_length,
    be_value-be16 h.length wf.length_range,
    be_value-be32 h.device_id wf.device_id_range,
    be_value-be32 h.epoch wf.epoch_range,
  )

-- The part of the header that the checksum covers.
prefix : CloudMessageHeader → List ℕ
prefix h = h.header ++ (be16 h.length ++ (h.unknown ++ (be32 h.device_id ++ be32 h.epoch)))

prefix-append : (h : CloudMessageHeader) → encode_header h ≡ prefix h ++ h.checksum
unfolding encode_header prefix
prefix-append h = simp append_assoc

length-prefix : (h : CloudMessageHeader) → IsHeader h → length (prefix h) ≡ 16
unfolding prefix
length-prefix h wf = omega (
  arith,
  length-append h.header (be16 h.length ++ (h.unknown ++ (be32 h.device_id ++ be32 h.epoch))),
  length-append (be16 h.length) (h.unknown ++ (be32 h.device_id ++ be32 h.epoch)),
  length-append h.unknown (be32 h.device_id ++ be32 h.epoch),
  length-append (be32 h.device_id) (be32 h.epoch),
  length-be16 h.length,
  length-be32 h.device_id,
  length-be32 h.epoch,
)

take-encode_header : (h : CloudMessageHeader) → IsHeader h → take 16 (encode_header h) ≡ prefix h
take-encode_header h wf =
    rw (prefix-append h) (take-append_eq 16 (prefix h) h.checksum (length-prefix h wf))

-- The checksum field is outside the part that the checksum covers.
pub take-encode_header-checksum :
    (h : CloudMessageHeader) (sum : List ℕ)
    → IsHeader h
    → length sum ≡ 16
    → take 16 (encode_header (record h { checksum = sum })) ≡ take 16 (encode_header h)
unfolding prefix
take-encode_header-checksum h sum wf l =
    take-encode_header (record h { checksum = sum })
      (record {
        header_length = wf.header_length;
        length_range = wf.length_range;
        unknown_length = wf.unknown_length;
        device_id_range = wf.device_id_range;
        epoch_range = wf.epoch_range;
        checksum_length = l;
      })
    ∙ sym (take-encode_header h wf)
