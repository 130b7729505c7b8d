-- ===== src/Config/Address/Display.antt =====
-- `Display` of `std::net::SocketAddr`, for an address without a scope.
use honey_mind.Base.{
  ◌==◌, ltb, if◌then◌else◌, Bytes, codes, ℕ, zero, suc, ◌+◌, ◌/◌, ◌%◌, ◌^◌, Option, none, some,
  List, [], ◌∷◌, ◌++◌, take, drop,
}
use honey_mind.Base.Decimal.{decimal}
use honey_mind.Config.Address.{IpAddr, SocketAddr, v4, v6, to_ipv4_mapped}

-- `{:x}` of a number below 2 ^ 16
hex_digit : ℕ → ℕ
hex_digit n = if ltb n 10 then 48 + n else 87 + n

hex : ℕ → Bytes
unfolding hex_digit
hex n =
    if ltb n 16
    then hex_digit n ∷ []
    else if ltb n 256
    then hex_digit (n / 16) ∷ hex_digit (n % 16) ∷ []
    else if ltb n 4096
    then hex_digit (n / 256) ∷ hex_digit (n / 16 % 16) ∷ hex_digit (n % 16) ∷ []
    else hex_digit (n / 4096)
      ∷ hex_digit (n / 256 % 16)
      ∷ hex_digit (n / 16 % 16)
      ∷ hex_digit (n % 16)
      ∷ []

octet : ℕ → ℕ → ℕ
octet k a = a / 2 ^ k % 256

ipv4 : ℕ → Bytes
unfolding octet
ipv4 a =
    decimal (octet 24 a)
    ++ b'.' ∷ decimal (octet 16 a)
    ++ b'.' ∷ decimal (octet 8 a)
    ++ b'.' ∷ decimal (octet 0 a)

segments : ℕ → List ℕ
segments a =
    a / 2 ^ 112 % 2 ^ 16
    ∷ a / 2 ^ 96 % 2 ^ 16
    ∷ a / 2 ^ 80 % 2 ^ 16
    ∷ a / 2 ^ 64 % 2 ^ 16
    ∷ a / 2 ^ 48 % 2 ^ 16
    ∷ a / 2 ^ 32 % 2 ^ 16
    ∷ a / 2 ^ 16 % 2 ^ 16
    ∷ a % 2 ^ 16
    ∷ []

-- The segments, each after a colon but the first.
colons : List ℕ → Bytes
colons [] = []
colons (s ∷ ss) = b':' ∷ hex s ++ colons ss

joined : List ℕ → Bytes
joined [] = []
joined (s ∷ ss) = hex s ++ colons ss

-- A run of zeros, by where it starts and how long it is.
abbrev Span : Type 0
Span = ℕ × ℕ

abbrev longer : Span → Span → Span
longer best current = if ltb best.1 current.1 then current else best

-- The first longest run, from the segment `i` on.
longest : ℕ → Span → Span → List ℕ → Span
longest i best current [] = best
longest i best (start, len) (zero ∷ ss) =
    let current = if len == 0 then (i, 1) else (start, len + 1) in
    longest (i + 1) (longer best current) current ss
longest i best current (suc n ∷ ss) = longest (i + 1) best (0, 0) ss

compressed : List ℕ → Span → Bytes
compressed ss (start, len) =
    if ltb 1 len
    then joined (take start ss) ++ codes "::" ++ joined (drop (start + len) ss)
    else joined ss

ipv6 : Option ℕ → ℕ → Bytes
ipv6 (some mapped) a = codes "::ffff:" ++ ipv4 mapped
ipv6 none a = compressed (segments a) (longest 0 (0, 0) (0, 0) (segments a))

display_with_port : IpAddr → ℕ → Bytes
display_with_port (v4 a) port = ipv4 a ++ b':' ∷ decimal port
display_with_port (v6 a) port = b'[' ∷ ipv6 (to_ipv4_mapped a) a ++ codes "]:" ++ decimal port

pub display : SocketAddr → Bytes
unfolding display_with_port
display a = display_with_port a.ip a.port
