-- ===== src/Control/Frame.antt =====
-- session.go: `readMessage` and `writeMessage`, which client.go repeats as `readMsg` and `writeMsg`.
-- A message is preceded by its length in four bytes. What arrives on a connection is a list of
-- segments: one `conn.Read` returns at most the first of them, as TCP does, and the code uses one
-- call of Read for the length and one for the data.
pub mod Whole
use udp_measure.Prelude.{
  ℕ, suc, ◌+◌, ◌*◌, ◌-◌, ◌/◌, ◌%◌, ◌^◌, Bool, true, false, ◌||◌, List, [], ◌∷◌, ◌++◌, length, take,
  drop, replicate, get_or, Bytes, Outcome, ok, err, leb, if◌then◌else◌,
}
use udp_measure.Prelude.Int.{ℤ, pos, negsuc, pos_part, leb_ℤ, ltb_ℤ}

-- The errors of `conn.Read` that the program tells apart.
pub data ReadError : Type 0 where
  eof timed_out other_error : ReadError

pub data Arrival : Type 0 where
  segment : Bytes → Arrival
  failure : ReadError → Arrival

pub data FrameError : Type 0 where
  read_failed : ReadError → FrameError
  invalid_length : ℤ → FrameError

abbrev pub max_message : ℕ
max_message = 1024 * 1024

-- What is left of a segment after a read.
abbrev pub leftover : Bytes → List Arrival → List Arrival
leftover [] rest = rest
leftover (b ∷ s) rest = segment (b ∷ s) ∷ rest

-- `conn.Read(buf)` into a fresh buffer of n bytes: the buffer after the call, whose tail stays zero,
-- and what is left to read. If nothing more arrives the read deadline passes.
unfoldable pub read_conn : ℕ → List Arrival → List Arrival × Outcome ReadError Bytes
read_conn n [] = ([], err timed_out)
read_conn n (failure e ∷ rest) = (failure e ∷ rest, err e)
read_conn n (segment s ∷ rest) =
    (leftover (drop n s) rest, ok (take n s ++ replicate (n - length s) 0))

-- The int32 that four bytes spell.
abbrev int32 : ℕ → ℤ
int32 bits = if leb (2 ^ 31) bits then negsuc (2 ^ 32 - suc bits) else pos bits

unfoldable pub parse_length : Bytes → ℤ
parse_length b =
    int32 (get_or b 0 0 * 2 ^ 24 + get_or b 1 0 * 2 ^ 16 + get_or b 2 0 * 2 ^ 8 + get_or b 3 0)

-- The second read of `readMessage`, once the length is known.
read_data : ℤ → List Arrival → List Arrival × Outcome FrameError Bytes
read_data len arrivals =
    if leb_ℤ len (pos 0) || ltb_ℤ (pos max_message) len
    then (arrivals, err (invalid_length len))
    else let (rest, r) = read_conn (pos_part len) arrivals in
      (rest, elim r [ ok bytes ↦ ok bytes | err e ↦ err (read_failed e) ])

unfoldable pub read_message : List Arrival → List Arrival × Outcome FrameError Bytes
unfolding read_data parse_length
read_message arrivals =
    let (rest, r) = read_conn 4 arrivals in
    elim r [
      | ok header ↦ read_data (parse_length header) rest
      | err e ↦ (rest, err (read_failed e))
    ]

-- `byte(length >> k)` of an int32
abbrev octet : ℕ → ℕ → ℕ
octet k x = x / 2 ^ k % 2 ^ 8

-- `lengthBuf`, where `int32(len(data))` keeps the low 32 bits.
unfoldable pub length_bytes : Bytes → Bytes
length_bytes bytes =
    let len = length bytes % 2 ^ 32 in octet 24 len ∷ octet 16 len ∷ octet 8 len ∷ octet 0 len ∷ []

-- `writeMessage`: the two writes, on a connection that takes them.
unfoldable pub write_message : Bytes → List Bytes
write_message bytes = length_bytes bytes ∷ bytes ∷ []
