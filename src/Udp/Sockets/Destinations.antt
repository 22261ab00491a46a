-- ===== src/Udp/Sockets/Destinations.antt =====
-- Where a sender sends to: the client's sender is given the bare address of the server, and the
-- server's the address of the client with a port.
use udp_measure.Prelude.{
  ℕ, ◌<◌, arith, Bool, true, false, ◌||◌, none, some, [], ◌∷◌, ◌++◌, All, Bytes, show_int, ◌≡◌,
  refl, ◌∙◌,
}
use udp_measure.Prelude.Int.{pos}
use udp_measure.Config.Text.{contains}
use udp_measure.Config.Text.Printed.{IsDigit, show_int-IsDigit}
use udp_measure.Net.{join_host_port, behind, plain_port, splits}
use udp_measure.Control.Session.{Target}
use udp_measure.Control.Session.Addresses.{target_text}
use udp_measure.Udp.Sender.{SenderConfig}
use udp_measure.Udp.Sockets.{destination}

-- An address without a bracket.
abbrev pub IsBare : Bytes → Type 0
IsBare host = (contains b'[' host ≡ false) × (contains b']' host ≡ false)

contains-digits_above : (sep : ℕ) (s : Bytes) → b'9' < sep → All IsDigit s → contains sep s ≡ false
unfolding contains
contains-digits_above sep [] high h = refl
contains-digits_above sep (c ∷ s) high h = ground (arith, contains-digits_above sep s)

contains-append :
    (sep : ℕ) (s t : Bytes) → contains sep (s ++ t) ≡ (contains sep s || contains sep t)
unfolding contains
contains-append sep [] t = refl
contains-append sep (c ∷ s) t = ground (arith, contains-append sep s t)

-- What follows a byte that does not occur before.
behind_first : (c : ℕ) (s t : Bytes) → contains c s ≡ false → behind c (s ++ c ∷ t) ≡ some t
unfolding behind contains
behind_first c [] t h = ground arith
behind_first c (d ∷ s) t h = ground (arith, behind_first c s t)

behind-none : (c : ℕ) (s : Bytes) → contains c s ≡ false → behind c s ≡ none
unfolding behind contains
behind-none c [] h = refl
behind-none c (d ∷ s) h = ground (arith, behind-none c s)

-- A port in decimal.
port-plain :
    (n : ℕ)
    → (contains b':' (show_int (pos n)) ≡ false)
      × (contains b'[' (show_int (pos n)) ≡ false)
      × (contains b']' (show_int (pos n)) ≡ false)
port-plain n =
    let d = show_int-IsDigit n in
    (
      contains-digits_above b':' (show_int (pos n)) (omega arith) d,
      contains-digits_above b'[' (show_int (pos n)) (omega arith) d,
      contains-digits_above b']' (show_int (pos n)) (omega arith) d,
    )

behind-append :
    (c : ℕ) (s t rest : Bytes) → behind c s ≡ some rest → behind c (s ++ t) ≡ some (rest ++ t)
unfolding behind
behind-append c [] t rest h = absurd (ground (arith, h))
behind-append c (d ∷ s) t rest h = ground (arith, behind-append c s t rest)

behind-contains : (c : ℕ) (s rest : Bytes) → behind c s ≡ some rest → contains c s ≡ true
unfolding behind contains
behind-contains c [] rest h = absurd (ground (arith, h))
behind-contains c (d ∷ s) rest h = ground (arith, behind-contains c s rest)

-- A text that does not begin with a bracket.
splits_plain :
    (s : Bytes)
    → contains b'[' s ≡ false
    → contains b']' s ≡ false
    → splits s ≡ plain_port (behind b':' s)
unfolding splits contains behind
splits_plain [] h k = refl
splits_plain (c ∷ s) h k = ground (arith, h, k)

module _ (host : Bytes) (n : ℕ) (bare : IsBare host) where
  splits_bracketed : splits (b'[' ∷ host ++ b']' ∷ b':' ∷ show_int (pos n)) ≡ true
  unfolding splits contains
  splits_bracketed =
      let (colon, left, right) = port-plain n in
      let found = behind_first b']' host (b':' ∷ show_int (pos n)) bare.1 in
      let free = contains-append b'[' host (b']' ∷ b':' ∷ show_int (pos n)) in
      ground (arith, found, free, colon, left, right, bare.0)

  with_port-IsBare : IsBare (host ++ b':' ∷ show_int (pos n))
  unfolding contains
  with_port-IsBare =
      let (colon, left, right) = port-plain n in
      let in_left = contains-append b'[' host (b':' ∷ show_int (pos n)) in
      let in_right = contains-append b']' host (b':' ∷ show_int (pos n)) in
      (ground (arith, in_left, left, bare.0), ground (arith, in_right, right, bare.1))

  splits_with_port : contains b':' host ≡ false → splits (host ++ b':' ∷ show_int (pos n)) ≡ true
  splits_with_port free =
      let (colon, left, right) = port-plain n in
      let (no_left, no_right) = with_port-IsBare in
      let found = behind_first b':' host (show_int (pos n)) free in
      splits_plain (host ++ b':' ∷ show_int (pos n)) no_left no_right
      ∙ rw found (rw (colon, left, right) refl)

  splits_without_port : contains b':' host ≡ false → splits host ≡ false
  splits_without_port free = splits_plain host bare.0 bare.1 ∙ rw (behind-none b':' host free) refl

  module _ (rest : Bytes) (first : behind b':' host ≡ some rest) where
    splits_two_colons : contains b':' rest ≡ true → splits host ≡ false
    splits_two_colons second = splits_plain host bare.0 bare.1 ∙ rw first (rw second refl)

    splits_unbracketed : splits (host ++ b':' ∷ show_int (pos n)) ≡ false
    unfolding contains
    splits_unbracketed =
        let (no_left, no_right) = with_port-IsBare in
        let found = behind-append b':' host (b':' ∷ show_int (pos n)) rest first in
        let more = contains-append b':' rest (b':' ∷ show_int (pos n)) in
        splits_plain (host ++ b':' ∷ show_int (pos n)) no_left no_right
        ∙ rw found (ground (arith, more))

-- "host:port" and "[host]:port".
abbrev pub plain_address : Bytes → ℕ → Bytes
plain_address host n = host ++ b':' ∷ show_int (pos n)

abbrev pub bracketed_address : Bytes → ℕ → Bytes
bracketed_address host n = b'[' ∷ host ++ b']' ∷ b':' ∷ show_int (pos n)

abbrev pub target : Bool → Bytes → ℕ → Target
target bracketed host n = record { bracketed = bracketed; host = host; port = pos n }

module _ (c : SenderConfig) (host : Bytes) (n : ℕ) (bare : IsBare host) where
  -- For an address without a colon or a bracket, as IPv4 addresses are: the client's sender, which is
  -- given the address alone, resolves it with the port of its configuration, and the server's
  -- sender, in a test that is not for IPv6, resolves it with the port that it was given, whatever
  -- the port of its configuration is.
  pub destination-ipv4 :
      contains b':' host ≡ false
      → (destination c host ≡ plain_address host c.udp_port)
        × (destination c (target_text (target false host n)) ≡ plain_address host n)
  unfolding destination join_host_port target_text
  destination-ipv4 free = (
    rw (splits_without_port host n bare free, free) refl,
    rw (splits_with_port host n bare free) refl,
  )

  -- For an address with at least two colons and no bracket, as IPv6 addresses are: the client's
  -- sender resolves it in brackets with the port of its configuration, and the server's sender, in an
  -- IPv6 test, resolves it in brackets with the port that it was given. In an IPv4 test over an IPv6
  -- connection the server's sender takes address and port together for an address, and resolves
  -- that in brackets.
  pub destination-ipv6 :
      (rest : Bytes)
      → behind b':' host ≡ some rest
      → contains b':' rest ≡ true
      → (destination c host ≡ bracketed_address host c.udp_port)
        × (destination c (target_text (target true host n)) ≡ bracketed_address host n)
        × (destination c (target_text (target false host n))
            ≡ bracketed_address (plain_address host n) c.udp_port)
  unfolding destination join_host_port target_text
  destination-ipv6 rest first second =
      let colon = behind-contains b':' host rest first in
      let whole : contains b':' (plain_address host n) ≡ true =
        contains-append b':' host (b':' ∷ show_int (pos n)) ∙ rw colon refl in
      (
        rw (splits_two_colons host n bare rest first second, colon) refl,
        rw (splits_bracketed host n bare) refl,
        rw (splits_unbracketed host n bare rest first, whole) refl,
      )
