-- ===== src/Protocol/Header/RoundTrip.antt =====
-- What is marshalled is unmarshalled to itself, whatever follows it in the buffer.
use udp_measure.Prelude.{
  ℕ, ◌+◌, ◌*◌, ◌/◌, ◌%◌, ◌^◌, ◌<◌, arith, none, some, ◌++◌, length, length-append, Bytes, ok, ◌≡◌,
  ap, ◌∙◌, refl,
}
use udp_measure.Prelude.Int.{ℤ, pos, negsuc, to_u64, of_u64, IsInt64}
use udp_measure.Protocol.Header.{
  ProbeHeader, InRange, encode_header, decode_header, marshal_binary, unmarshal_binary,
}

be16_lem : (x : ℕ) → x < 2 ^ 16 → x / 2 ^ 8 % 2 ^ 8 * 2 ^ 8 + x / 2 ^ 0 % 2 ^ 8 ≡ x
be16_lem x h = omega arith

be32_lem :
    (x : ℕ)
    → x < 2 ^ 32
    → x / 2 ^ 24 % 2 ^ 8 * 2 ^ 24
        + x / 2 ^ 16 % 2 ^ 8 * 2 ^ 16
        + x / 2 ^ 8 % 2 ^ 8 * 2 ^ 8
        + x / 2 ^ 0 % 2 ^ 8
      ≡ x
be32_lem x h = omega arith

be64_lem :
    (x : ℕ)
    → x < 2 ^ 64
    → x / 2 ^ 56 % 2 ^ 8 * 2 ^ 56
        + x / 2 ^ 48 % 2 ^ 8 * 2 ^ 48
        + x / 2 ^ 40 % 2 ^ 8 * 2 ^ 40
        + x / 2 ^ 32 % 2 ^ 8 * 2 ^ 32
        + x / 2 ^ 24 % 2 ^ 8 * 2 ^ 24
        + x / 2 ^ 16 % 2 ^ 8 * 2 ^ 16
        + x / 2 ^ 8 % 2 ^ 8 * 2 ^ 8
        + x / 2 ^ 0 % 2 ^ 8
      ≡ x
be64_lem x h = omega arith

nano_lem : (n : ℤ) → IsInt64 n → of_u64 (to_u64 n) ≡ n
nano_lem (pos n) h = ground arith
nano_lem (negsuc n) h = ground arith

to_u64-lt : (n : ℤ) → to_u64 n < 2 ^ 64
to_u64-lt (pos n) = omega arith
to_u64-lt (negsuc n) = omega arith

be64-to_u64 :
    (n : ℤ)
    → IsInt64 n
    → (let x = to_u64 n in
        of_u64 (
          x / 2 ^ 56 % 2 ^ 8 * 2 ^ 56
          + x / 2 ^ 48 % 2 ^ 8 * 2 ^ 48
          + x / 2 ^ 40 % 2 ^ 8 * 2 ^ 40
          + x / 2 ^ 32 % 2 ^ 8 * 2 ^ 32
          + x / 2 ^ 24 % 2 ^ 8 * 2 ^ 24
          + x / 2 ^ 16 % 2 ^ 8 * 2 ^ 16
          + x / 2 ^ 8 % 2 ^ 8 * 2 ^ 8
          + x / 2 ^ 0 % 2 ^ 8))
      ≡ n
be64-to_u64 n h = ap of_u64 (be64_lem (to_u64 n) (to_u64-lt n)) ∙ nano_lem n h

pub length-encode_header : (h : ProbeHeader) → length (encode_header h) ≡ 48
unfolding encode_header
length-encode_header h = refl

pub decode-encode_header :
    (h : ProbeHeader) (rest : Bytes) → InRange h → decode_header (encode_header h ++ rest) ≡ h
unfolding decode_header encode_header
decode-encode_header h rest r = λ i. record {
  version = h.version;
  session_id = be32_lem h.session_id r.session_id_u32 i;
  test_id = be32_lem h.test_id r.test_id_u32 i;
  direction = h.direction;
  family = h.family;
  udp_port = be16_lem h.udp_port r.udp_port_u16 i;
  payload_size = be16_lem h.payload_size r.payload_size_u16 i;
  sequence = be32_lem h.sequence r.sequence_u32 i;
  send_unix_nano = be64-to_u64 h.send_unix_nano r.send_unix_nano_i64 i;
}

pub unmarshal-encode_header :
    (h target : ProbeHeader) (rest : Bytes)
    → InRange h
    → unmarshal_binary target (encode_header h ++ rest) ≡ (h, none)
unfolding unmarshal_binary
unmarshal-encode_header h target rest r = ground (
  arith,
  length-append (encode_header h) rest,
  length-encode_header h,
  decode-encode_header h rest r,
)

-- A header whose fields lie within their types is marshalled without error, and unmarshalling the
-- bytes, with anything behind them and into any header, gives back exactly that header.
pub unmarshal-marshal_binary :
    (h target : ProbeHeader) (rest : Bytes)
    → InRange h
    → (bs : Bytes) × (marshal_binary (some h) ≡ ok bs)
      × (unmarshal_binary target (bs ++ rest) ≡ (h, none))
unfolding marshal_binary
unmarshal-marshal_binary h target rest r =
    (encode_header h, refl, unmarshal-encode_header h target rest r)
