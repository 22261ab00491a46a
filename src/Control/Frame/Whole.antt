-- ===== src/Control/Frame/Whole.antt =====
-- When a message is read as it was written, and when it is not.
use mathlib.Core.Path.{ap₂}
use udp_measure.Prelude.{
  zero, ap, ◌∙◌, ℕ, suc, ◌-◌, ◌^◌, ◌≤◌, ◌<◌, arith, List, [], ◌∷◌, ◌++◌, length, length-append,
  take, drop, take-append, drop-append, replicate, append-nil, Bytes, ok, err, ◌≡◌, refl,
}
use udp_measure.Prelude.Int.{pos}
use udp_measure.Control.Frame.{
  Arrival, segment, invalid_length, max_message, leftover, read_conn, parse_length, read_data,
  read_message, length_bytes,
}

parse-length_bytes :
    (bytes : Bytes) → length bytes < 2 ^ 31 → parse_length (length_bytes bytes) ≡ pos (length bytes)
unfolding parse_length length_bytes
parse-length_bytes bytes h = ground arith

no_padding : (xs ys : Bytes) → replicate {A = ℕ} (length xs - length (xs ++ ys)) 0 ≡ []
no_padding xs ys =
    let none_left : length xs - length (xs ++ ys) ≡ 0 = omega (arith, length-append {0} xs ys) in
    rw none_left

drop_all : (xs : Bytes) (n : ℕ) → length xs ≤ n → drop n xs ≡ []
drop_all [] zero h = refl
drop_all [] (suc n) h = refl
drop_all (x ∷ xs) zero h = absurd (omega arith)
drop_all (x ∷ xs) (suc n) h = drop_all xs n (omega arith)

take_all : (xs : Bytes) (n : ℕ) → length xs ≤ n → take n xs ≡ xs
take_all [] zero h = refl
take_all [] (suc n) h = refl
take_all (x ∷ xs) zero h = absurd (omega arith)
take_all (x ∷ xs) (suc n) h = ap (◌∷◌ x) (take_all xs n (omega arith))

-- Reading exactly what a segment begins with.
read_conn_prefix :
    (xs ys : Bytes) (rest : List Arrival)
    → read_conn (length xs) (segment (xs ++ ys) ∷ rest) ≡ (leftover ys rest, ok xs)
unfolding read_conn
read_conn_prefix xs ys rest =
    ap₂ (λ left got. (leftover left rest, ok got)) (drop-append xs ys)
      (ap₂ ◌++◌ (take-append xs ys) (no_padding xs ys) ∙ append-nil xs)

-- Reading more than a segment holds: the rest of the buffer stays zero.
read_conn_short :
    (xs : Bytes) (n : ℕ) (rest : List Arrival)
    → length xs ≤ n
    → read_conn n (segment xs ∷ rest) ≡ (rest, ok (xs ++ replicate (n - length xs) 0))
unfolding read_conn
read_conn_short xs n rest h =
    ap₂ (λ left got. (leftover left rest, ok (got ++ replicate (n - length xs) 0)))
      (drop_all xs n h) (take_all xs n h)

length-length_bytes : (bytes : Bytes) → length (length_bytes bytes) ≡ 4
unfolding length_bytes
length-length_bytes bytes = refl

-- The length is read first, and then the data, from what is left.
read_header :
    (bytes ys : Bytes) (rest : List Arrival)
    → length bytes < 2 ^ 31
    → read_message (segment (length_bytes bytes ++ ys) ∷ rest)
      ≡ read_data (pos (length bytes)) (leftover ys rest)
unfolding read_message
read_header bytes ys rest h = ground (
  arith,
  length-length_bytes bytes,
  read_conn_prefix (length_bytes bytes) ys rest,
  parse-length_bytes bytes h,
)

leftover_some :
    (xs ys : Bytes) (rest : List Arrival)
    → 0 < length xs
    → leftover (xs ++ ys) rest ≡ segment (xs ++ ys) ∷ rest
leftover_some [] ys rest h = absurd (omega arith)
leftover_some (x ∷ xs) ys rest h = refl

module _ (bytes : Bytes) (some_bytes : 0 < length bytes) (few : length bytes ≤ max_message) where
  read_data_prefix :
      (more : Bytes) (rest : List Arrival)
      → read_data (pos (length bytes)) (segment (bytes ++ more) ∷ rest)
        ≡ (leftover more rest, ok bytes)
  unfolding read_data
  read_data_prefix more rest = ground (arith, read_conn_prefix bytes more rest)

  -- A message of 1 to 1048576 bytes is read as it was written, and what follows it is left, if its
  -- length and its data arrive in one segment, or in one segment each.
  pub read_message_whole :
      (more : Bytes) (rest : List Arrival)
      → (read_message (segment (length_bytes bytes ++ (bytes ++ more)) ∷ rest)
          ≡ (leftover more rest, ok bytes))
        × (read_message (segment (length_bytes bytes) ∷ segment (bytes ++ more) ∷ rest)
            ≡ (leftover more rest, ok bytes))
  read_message_whole more rest = (
    read_header bytes (bytes ++ more) rest (omega arith)
        ∙ rw (leftover_some bytes more rest some_bytes) (read_data_prefix more rest),
    rw (append-nil (length_bytes bytes)) at
          (read_header bytes [] (segment (bytes ++ more) ∷ rest) (omega arith))
        ∙ read_data_prefix more rest,
  )

read_data_short :
    (begin missing : Bytes) (rest : List Arrival)
    → 0 < length begin
    → length (begin ++ missing) ≤ max_message
    → read_data (pos (length (begin ++ missing))) (segment begin ∷ rest)
      ≡ (rest, ok (begin ++ replicate (length missing) 0))
unfolding read_data
read_data_short begin missing rest some_bytes few =
    let total = length-append {0} begin missing in
    let left : length (begin ++ missing) - length begin ≡ length missing = omega arith in
    ground (arith, read_conn_short begin (length (begin ++ missing)) rest)

-- If only the beginning of the data is there when it is read, the missing bytes are taken to be
-- zero, without an error, and what arrives of them later is read as the next message.
pub read_message_split :
    (begin missing : Bytes) (rest : List Arrival)
    → 0 < length begin
    → length (begin ++ missing) ≤ max_message
    → read_message (segment (length_bytes (begin ++ missing)) ∷ segment begin ∷ rest)
      ≡ (rest, ok (begin ++ replicate (length missing) 0))
read_message_split begin missing rest some_bytes few =
    rw (append-nil (length_bytes (begin ++ missing))) at
      (read_header (begin ++ missing) [] (segment begin ∷ rest) (omega arith))
    ∙ read_data_short begin missing rest some_bytes few

-- A message of more than 1048576 bytes can be written, and is refused by the reader with its length,
-- its data left unread.
pub read_message_too_long :
    (bytes : Bytes) (rest : List Arrival)
    → max_message < length bytes
    → length bytes < 2 ^ 31
    → read_message (segment (length_bytes bytes ++ bytes) ∷ rest)
      ≡ (segment bytes ∷ rest, err (invalid_length (pos (length bytes))))
unfolding read_data
read_message_too_long bytes rest long fits =
    read_header bytes bytes rest fits
    ∙ ground (arith, append-nil bytes, leftover_some bytes [] rest (omega arith))
