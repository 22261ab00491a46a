-- ===== src/Examples/Codec.antt =====
-- A small codec in place of JSON: it knows most of the structs, writes a number as its sign and its
-- size and the session behind the numbers, and has no place for a test, for a text or for a fraction.
use udp_measure.Prelude.{
  ℕ, length, sym, zero, suc, arith, Option, none, some, [], ◌∷◌, Bytes, ◌≡◌, refl, ap, ◌∙◌, List,
}
use udp_measure.Prelude.Int.{ℤ, pos, negsuc}
use udp_measure.Protocol.Types.{MessageType}
use udp_measure.Protocol.Envelope.{
  BaseMessage, Start, Prepare, Envelope, Shape, hello_shape, prepare_shape, start_shape,
  send_complete_shape, fetch_result_shape, ready_shape, result_shape, busy_shape, cancel_shape,
  invalid_request_shape, internal_error_shape, Struct, Json,
}
use udp_measure.Protocol.Envelope.RoundTrip.{IsLawful}

abbrev pub put_int : ℤ → Bytes → Bytes
put_int (pos n) rest = 0 ∷ n ∷ rest
put_int (negsuc n) rest = 1 ∷ n ∷ rest

abbrev pub get_int : Bytes → ℤ × Bytes
get_int (zero ∷ n ∷ rest) = (pos n, rest)
get_int (suc _ ∷ n ∷ rest) = (negsuc n, rest)
get_int _ = (pos 0, [])

get-put_int : (a : ℤ) (rest : Bytes) → get_int (put_int a rest) ≡ (a, rest)
get-put_int (pos n) rest = refl
get-put_int (negsuc n) rest = refl

unfoldable pub write_start : Start → Bytes
write_start m =
    put_int m.base.version
      (put_int m.base.type (put_int m.base.sequence (put_int m.base.timestamp m.base.session_id)))

unfoldable pub read_start : Bytes → Start
read_start b0 =
    let (version, b1) = get_int b0 in
    let (type, b2) = get_int b1 in
    let (sequence, b3) = get_int b2 in
    let (timestamp, b4) = get_int b3 in
    record {
      base = record {
        version = version;
        type = type;
        session_id = b4;
        test_id = [];
        sequence = sequence;
        timestamp = timestamp;
      };
    }

read-write_start : (m : Start) → m.base.test_id ≡ [] → read_start (write_start m) ≡ m
unfolding read_start write_start
read-write_start m e = rw (get-put_int, get-put_int, get-put_int, get-put_int, e) refl

-- Numbers one after the other.
abbrev pub put_all : List ℤ → Bytes → Bytes
put_all [] rest = rest
put_all (a ∷ more) rest = put_int a (put_all more rest)

unfoldable get_all : ℕ → Bytes → List ℤ × Bytes
get_all zero b = ([], b)
get_all (suc n) b = let (a, b1) = get_int b in let (more, rest) = get_all n b1 in (a ∷ more, rest)

get-put_all : (xs : List ℤ) (rest : Bytes) → get_all (length xs) (put_all xs rest) ≡ (xs, rest)
unfolding get_all
get-put_all [] rest = refl
get-put_all (a ∷ xs) rest = rw (get-put_int, get-put_all xs rest) refl

abbrev pub with_base : BaseMessage → Start
with_base b = record { base = b }

-- What the codec has a place for.
abbrev pub IsPlain : (k : Shape) → Struct (Unit {0}) k → Type 0
IsPlain hello_shape m = (m.base.test_id ≡ []) × (m.capability ≡ [])
IsPlain prepare_shape m = m.base.test_id ≡ []
IsPlain start_shape m = m.base.test_id ≡ []
IsPlain send_complete_shape m = m.base.test_id ≡ []
IsPlain fetch_result_shape m = m.base.test_id ≡ []
IsPlain ready_shape m = m.base.test_id ≡ []
IsPlain result_shape m = m.base.test_id ≡ []
IsPlain busy_shape m = (m.base.test_id ≡ []) × (m.base.session_id ≡ m.current_session)
IsPlain _ m = Unit

abbrev pub prepare_numbers : Prepare → List ℤ
prepare_numbers m =
    m.direction ∷ m.family ∷ m.udp_port ∷ m.payload_size ∷ m.packet_count ∷ m.interval_ms
    ∷ m.client_receive_port ∷ []

abbrev pub packed : List ℤ → BaseMessage → Option Bytes
packed numbers b = some (put_all numbers (write_start (with_base b)))

abbrev pub small_marshal : (k : Shape) → Struct (Unit {0}) k → Option Bytes
small_marshal hello_shape m = packed (m.client_version ∷ []) m.base
small_marshal prepare_shape m = packed (prepare_numbers m) m.base
small_marshal start_shape m = packed [] m.base
small_marshal send_complete_shape m = packed [] m.base
small_marshal fetch_result_shape m = packed [] m.base
small_marshal ready_shape m = packed (m.server_port ∷ []) m.base
small_marshal result_shape m = packed (m.sent ∷ m.received ∷ m.critical_size ∷ []) m.base
small_marshal busy_shape m = packed [] m.base
small_marshal _ m = none

-- A struct from its numbers and its base.
abbrev rebuild : (k : Shape) → List ℤ → BaseMessage → Option (Struct (Unit {0}) k)
rebuild hello_shape (v ∷ []) b = some (record { base = b; client_version = v; capability = [] })
rebuild prepare_shape (d ∷ f ∷ u ∷ y ∷ c ∷ i ∷ r ∷ []) b = some (record {
  base = b;
  direction = d;
  family = f;
  udp_port = u;
  payload_size = y;
  packet_count = c;
  interval_ms = i;
  client_receive_port = r;
})
rebuild start_shape [] b = some (record { base = b })
rebuild send_complete_shape [] b = some (record { base = b })
rebuild fetch_result_shape [] b = some (record { base = b })
rebuild ready_shape (p ∷ []) b = some (record { base = b; server_port = p })
rebuild result_shape (s ∷ r ∷ c ∷ []) b =
    some (record { base = b; sent = s; received = r; loss_rate = tt; critical_size = c })
rebuild busy_shape [] b = some (record { base = b; current_session = b.session_id })
rebuild _ _ b = none

abbrev count : Shape → ℕ
count hello_shape = 1
count prepare_shape = 7
count ready_shape = 1
count result_shape = 3
count _ = 0

unfoldable pub small_unmarshal : (k : Shape) → Bytes → Option (Struct (Unit {0}) k)
unfolding get_all
small_unmarshal k b =
    let (numbers, rest) = get_all (count k) b in rebuild k numbers (read_start rest).base

abbrev pub open_envelope : ℤ × Bytes → Envelope
open_envelope (t, b) = record { type = t; payload = b }

abbrev pub small : Json
small = record {
  Float = Unit;
  marshal = small_marshal;
  unmarshal = small_unmarshal;
  marshal_envelope = λ env. some (put_int env.type env.payload);
  unmarshal_envelope = λ b. some (open_envelope (get_int b));
}

-- What is packed is unpacked.
unpacked :
    (k : Shape) (numbers : List ℤ) (base : BaseMessage) (b : Bytes)
    → length numbers ≡ count k
    → base.test_id ≡ []
    → packed numbers base ≡ some b
    → small_unmarshal k b ≡ rebuild k numbers base
unfolding small_unmarshal
unpacked k numbers base b size plain h =
    let same : b ≡ put_all numbers (write_start (with_base base)) = ground (arith, h) in
    let got = rw size at (get-put_all numbers (write_start (with_base base))) in
    rw (same, got, read-write_start (with_base base) plain) refl

pub small_law :
    (k : Shape) (m : Struct (Unit {0}) k) (b : Bytes)
    → IsPlain k m
    → small_marshal k m ≡ some b
    → small_unmarshal k b ≡ some m
small_law hello_shape m b (plain, own) h =
    unpacked hello_shape (m.client_version ∷ []) m.base b refl plain h
    ∙ ap (λ c. some (record m { capability = c })) (sym own)
small_law prepare_shape m b plain h =
    unpacked prepare_shape (prepare_numbers m) m.base b refl plain h
small_law start_shape m b plain h = unpacked start_shape [] m.base b refl plain h
small_law send_complete_shape m b plain h = unpacked send_complete_shape [] m.base b refl plain h
small_law fetch_result_shape m b plain h = unpacked fetch_result_shape [] m.base b refl plain h
small_law ready_shape m b plain h = unpacked ready_shape (m.server_port ∷ []) m.base b refl plain h
small_law result_shape m b plain h =
    unpacked result_shape (m.sent ∷ m.received ∷ m.critical_size ∷ []) m.base b refl plain h
small_law busy_shape m b (plain, own) h =
    unpacked busy_shape [] m.base b refl plain h
    ∙ ap (λ c. some (record m { current_session = c })) own
small_law cancel_shape m b plain h = absurd (ground (arith, h))
small_law invalid_request_shape m b plain h = absurd (ground (arith, h))
small_law internal_error_shape m b plain h = absurd (ground (arith, h))

pub small_envelope_law :
    (k : Shape) (m : Struct (Unit {0}) k) (t : MessageType) (b e : Bytes)
    → small_marshal k m ≡ some b
    → some (put_int t b) ≡ some e
    → some (open_envelope (get_int e)) ≡ some (record { type = t; payload = b })
small_envelope_law k m t b e h f =
    let same : e ≡ put_int t b = ground arith in
    rw same (ap (λ x. some (open_envelope x)) (get-put_int t b))

unfoldable pub small-IsLawful : IsLawful small
small-IsLawful = record {
  IsUtf8 = IsPlain;
  unmarshal-marshal = small_law;
  unmarshal_envelope-marshal = small_envelope_law;
}
