-- ===== src/Protocol/Header/Layout.antt =====
-- The bytes of a marshalled header.
use udp_measure.Prelude.{
  ℕ, ◌^◌, ◌≤◌, ◌<◌, arith, none, some, ◌∷◌, length, All, take, drop, replicate, Bytes, ok, ◌≡◌, ◌⊎◌,
  refl,
}
use udp_measure.Protocol.Header.{
  ProbeHeader, InRange, encode_header, marshal_binary, unmarshal_binary, probe_header_size,
  buffer_too_short,
}

abbrev pub IsByte : ℕ → Type 0
IsByte b = b < 2 ^ 8

-- A marshalled header has 48 bytes, each below 256; the version stands first, and the bytes 1 to 3
-- and 30 to 47, which no field occupies, are zero.
pub marshal_binary_layout :
    (h : ProbeHeader)
    → InRange h
    → (bs : Bytes) × (marshal_binary (some h) ≡ ok bs)
      × (length bs ≡ probe_header_size)
      × All IsByte bs
      × (take 4 bs ≡ h.version ∷ replicate 3 0)
      × (drop 30 bs ≡ replicate 18 0)
unfolding marshal_binary
marshal_binary_layout h r = (encode_header h, refl, refl, omega arith, refl, refl)

-- A buffer shorter than a header is refused with its length and leaves the target as it was; every
-- other buffer is read, whatever its bytes are, and what was in the target is lost.
pub unmarshal_binary_cases :
    (h g : ProbeHeader) (bs : Bytes)
    → ((length bs < probe_header_size)
          × (unmarshal_binary h bs ≡ (h, some (buffer_too_short (length bs))))
        ⊎ (probe_header_size ≤ length bs)
          × ((unmarshal_binary h bs).1 ≡ none)
          × (unmarshal_binary h bs ≡ unmarshal_binary g bs))
unfolding unmarshal_binary
unmarshal_binary_cases h g bs = ground arith
