-- ===== src/Protocol/Header.antt =====
-- internal/protocol/probe_header.go: the header of a UDP probe. The blank fields of the struct
-- cannot be read or written, so the record has none. The fields are the numbers that the unsigned
-- types hold; `send_unix_nano` is signed. A buffer is a list of bytes.
pub mod Layout
pub mod RoundTrip
pub mod Valid
use udp_measure.Prelude.{
  ℕ, zero, suc, ◌+◌, ◌*◌, ◌/◌, ◌%◌, ◌^◌, ◌≤◌, ◌<◌, Bool, true, false, not, ◌&&◌, ◌||◌, Option, none,
  some, List, [], ◌∷◌, length, get_or, replicate, Bytes, Outcome, ok, err, ltb, ◌==◌, if◌then◌else◌,
  codes,
}
use udp_measure.Prelude.Int.{ℤ, pos, to_u8, to_u64, of_u64, IsInt64}
use udp_measure.Protocol.Types.{
  Direction, Family, direction_uplink, direction_downlink, family_ipv4, family_ipv6,
}

abbrev pub probe_header_version : ℕ
probe_header_version = 1

abbrev pub probe_header_size : ℕ
probe_header_size = 48

pub record ProbeHeader : Type 0 where
  pub version : ℕ  -- uint8
  pub session_id : ℕ  -- uint32
  pub test_id : ℕ  -- uint32
  pub direction : ℕ  -- uint8
  pub family : ℕ  -- uint8
  pub udp_port : ℕ  -- uint16
  pub payload_size : ℕ  -- uint16
  pub sequence : ℕ  -- uint32
  pub send_unix_nano : ℤ  -- int64

-- The values that the Go types of the fields can hold.
pub record InRange (h : ProbeHeader) : Type 0 where
  pub version_u8 : h.version < 2 ^ 8
  pub session_id_u32 : h.session_id < 2 ^ 32
  pub test_id_u32 : h.test_id < 2 ^ 32
  pub direction_u8 : h.direction < 2 ^ 8
  pub family_u8 : h.family < 2 ^ 8
  pub udp_port_u16 : h.udp_port < 2 ^ 16
  pub payload_size_u16 : h.payload_size < 2 ^ 16
  pub sequence_u32 : h.sequence < 2 ^ 32
  pub send_unix_nano_i64 : IsInt64 h.send_unix_nano

-- `new(ProbeHeader)`
abbrev pub zero_header : ProbeHeader
zero_header = record {
  version = 0;
  session_id = 0;
  test_id = 0;
  direction = 0;
  family = 0;
  udp_port = 0;
  payload_size = 0;
  sequence = 0;
  send_unix_nano = pos 0;
}

-- `copy(buf[i:], src)`, as far as the buffer reaches.
abbrev pub put : Bytes → ℕ → Bytes → Bytes
put [] i src = []
put (b ∷ buf) zero [] = b ∷ buf
put (b ∷ buf) zero (s ∷ src) = s ∷ put buf zero src
put (b ∷ buf) (suc i) src = b ∷ put buf i src

-- `byte(x >> k)`, for k a multiple of 8
abbrev octet : ℕ → ℕ → ℕ
octet k x = x / 2 ^ k % 2 ^ 8

-- `binary.BigEndian.AppendUint16` and its siblings: the bytes that `PutUint16` stores.
abbrev pub be16 : ℕ → Bytes
be16 x = octet 8 x ∷ octet 0 x ∷ []

abbrev pub be32 : ℕ → Bytes
be32 x = octet 24 x ∷ octet 16 x ∷ octet 8 x ∷ octet 0 x ∷ []

abbrev pub be64 : ℕ → Bytes
be64 x =
    octet 56 x
    ∷ octet 48 x
    ∷ octet 40 x
    ∷ octet 32 x
    ∷ octet 24 x
    ∷ octet 16 x
    ∷ octet 8 x
    ∷ octet 0 x
    ∷ []

-- `data[i]`; every use lies within a length that was checked before.
abbrev at : Bytes → ℕ → ℕ
at bs i = get_or bs i 0

-- `binary.BigEndian.Uint16(data[i:i+2])` and its siblings.
abbrev get16 : Bytes → ℕ → ℕ
get16 bs i = at bs i * 2 ^ 8 + at bs (i + 1)

abbrev get32 : Bytes → ℕ → ℕ
get32 bs i = at bs i * 2 ^ 24 + at bs (i + 1) * 2 ^ 16 + at bs (i + 2) * 2 ^ 8 + at bs (i + 3)

abbrev get64 : Bytes → ℕ → ℕ
get64 bs i =
    at bs i * 2 ^ 56
    + at bs (i + 1) * 2 ^ 48
    + at bs (i + 2) * 2 ^ 40
    + at bs (i + 3) * 2 ^ 32
    + at bs (i + 4) * 2 ^ 24
    + at bs (i + 5) * 2 ^ 16
    + at bs (i + 6) * 2 ^ 8
    + at bs (i + 7)

pub data HeaderError : Type 0 where
  nil_header : HeaderError
  buffer_too_short : ℕ → HeaderError
  version_mismatch : ℕ → HeaderError
  invalid_direction : ℕ → HeaderError
  invalid_family : ℕ → HeaderError

-- The stores of `MarshalBinary`, in order.
unfoldable pub encode_header : ProbeHeader → Bytes
encode_header h =
    let buf = replicate probe_header_size 0 in
    let buf = put buf 0 (h.version ∷ []) in
    let buf = put buf 4 (be32 h.session_id) in
    let buf = put buf 8 (be32 h.test_id) in
    let buf = put buf 12 (h.direction ∷ []) in
    let buf = put buf 13 (h.family ∷ []) in
    let buf = put buf 14 (be16 h.udp_port) in
    let buf = put buf 16 (be16 h.payload_size) in
    let buf = put buf 18 (be32 h.sequence) in put buf 22 (be64 (to_u64 h.send_unix_nano))

-- `MarshalBinary`; `none` is a nil receiver.
unfoldable pub marshal_binary : Option ProbeHeader → Outcome HeaderError Bytes
unfolding encode_header
marshal_binary none = err nil_header
marshal_binary (some h) = ok (encode_header h)

-- The loads of `UnmarshalBinary`, which set every field.
unfoldable pub decode_header : Bytes → ProbeHeader
decode_header bs = record {
  version = at bs 0;
  session_id = get32 bs 4;
  test_id = get32 bs 8;
  direction = at bs 12;
  family = at bs 13;
  udp_port = get16 bs 14;
  payload_size = get16 bs 16;
  sequence = get32 bs 18;
  send_unix_nano = of_u64 (get64 bs 22);
}

-- `UnmarshalBinary`: the header after the call, and the error.
unfoldable pub unmarshal_binary : ProbeHeader → Bytes → ProbeHeader × Option HeaderError
unfolding decode_header
unmarshal_binary h bs =
    if ltb (length bs) probe_header_size
    then (h, some (buffer_too_short (length bs)))
    else (decode_header bs, none)

-- `SetFromParams`, which sets every field; `now` is `time.Now().UnixNano()`.
unfoldable pub set_from_params : ℕ → ℕ → Direction → Family → ℕ → ℕ → ℕ → ℤ → ProbeHeader
set_from_params session test dir fam port size seq now = record {
  version = probe_header_version;
  session_id = session;
  test_id = test;
  direction = to_u8 dir;
  family = to_u8 fam;
  udp_port = port;
  payload_size = size;
  sequence = seq;
  send_unix_nano = now;
}

-- `Validate`: nil is `none`.
unfoldable pub validate : ProbeHeader → Option HeaderError
validate h =
    if not (h.version == probe_header_version)
    then some (version_mismatch h.version)
    else if not (h.direction == to_u8 direction_uplink)
        && not (h.direction == to_u8 direction_downlink)
    then some (invalid_direction h.direction)
    else if not (h.family == to_u8 family_ipv4) && not (h.family == to_u8 family_ipv6)
    then some (invalid_family h.family)
    else none
