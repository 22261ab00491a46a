-- ===== src/Net.antt =====
-- What the program uses of Go's package net on addresses that are texts.
use udp_measure.Prelude.{
  ℕ, Bool, false, not, ◌&&◌, [], ◌∷◌, ◌++◌, Option, none, some, Bytes, ◌==◌, if◌then◌else◌,
}
use udp_measure.Config.Text.{contains}

-- `net.JoinHostPort`
unfoldable pub join_host_port : Bytes → Bytes → Bytes
join_host_port host port =
    if contains b':' host then b'[' ∷ host ++ b']' ∷ b':' ∷ port else host ++ b':' ∷ port

-- What follows the first of these bytes.
unfoldable pub behind : ℕ → Bytes → Option Bytes
behind c [] = none
behind c (d ∷ s) = let rest = behind c s in if d == c then some s else rest

-- A port behind a colon: neither another colon nor a bracket.
abbrev pub is_plain : Bytes → Bool
is_plain s = not (contains b':' s) && (not (contains b'[' s) && not (contains b']' s))

abbrev pub colon_port : Option Bytes → Bool
colon_port none = false
colon_port (some []) = false
colon_port (some (c ∷ port)) = c == b':' && is_plain port

abbrev pub plain_port : Option Bytes → Bool
plain_port none = false
plain_port (some port) = is_plain port

-- Whether `net.SplitHostPort` succeeds: on "[host]:port", where the host holds no bracket, and on
-- "host:port", where it holds neither a bracket nor a colon.
unfoldable pub splits : Bytes → Bool
unfolding behind
splits [] = false
splits (c ∷ s) =
    if c == b'['
    then not (contains b'[' s) && colon_port (behind b']' s)
    else (not (contains b'[' (c ∷ s)) && not (contains b']' (c ∷ s)))
      && plain_port (behind b':' (c ∷ s))
