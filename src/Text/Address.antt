-- ===== src/Text/Address.antt =====
-- `IpAddr` and `SocketAddr` of the standard library: the forms that `to_string` writes, here, and
-- `SocketAddr::from_str`, in the child `Parse`.
pub mod Parse
use go_arti.Prelude.{
  ℕ, zero, suc, ◌+◌, ◌*◌, ◌/◌, ◌%◌, ◌≡◌, refl, Bool, ◌&&◌, List, [], ◌∷◌, ◌++◌, ltb, ◌==◌,
  if◌then◌else◌, Bytes, Text, codes, get_or, take, drop,
}
use go_arti.Text.Number.{decimal, hex_u16}

abbrev pub at : Bytes → ℕ → ℕ
at b i = get_or b i 0

-- Four octets of an IPv4 address, in dotted decimal.
unfoldable pub ipv4_to_string : Bytes → Text
unfolding decimal
ipv4_to_string b =
    decimal (at b 0)
    ++ (b'.' ∷ decimal (at b 1))
    ++ (b'.' ∷ decimal (at b 2))
    ++ (b'.' ∷ decimal (at b 3))

-- The eight groups of sixteen octets.
pub segments : Bytes → List ℕ
segments (hi ∷ lo ∷ rest) = (hi * 256 + lo) ∷ segments rest
segments _ = []

-- A run of zero groups.
pub record Span : Type 0 where
  pub first : ℕ
  pub len : ℕ

abbrev no_span : Span
no_span = record { first = 0; len = 0 }

extend_span : Span → ℕ → Span
extend_span s i = if s.len == 0 then record { first = i; len = 1 } else record s { len = s.len + 1 }

-- The first of the longest runs of zeros.
longest_span : List ℕ → ℕ → Span → Span → Span
unfolding extend_span
longest_span [] i current longest = longest
longest_span (zero ∷ gs) i current longest =
    let c = extend_span current i in
    longest_span gs (i + 1) c (if ltb longest.len c.len then c else longest)
longest_span (suc g ∷ gs) i current longest = longest_span gs (i + 1) no_span longest

join_groups : List ℕ → Text
join_groups [] = []
join_groups (g ∷ []) = hex_u16 g
join_groups (g ∷ h ∷ gs) = hex_u16 g ++ (b':' ∷ join_groups (h ∷ gs))

compressed : List ℕ → Span → Text
unfolding join_groups
compressed gs s =
    if ltb 1 s.len
    then join_groups (take s.first gs) ++ codes "::" ++ join_groups (drop (s.first + s.len) gs)
    else join_groups gs

is_ipv4_mapped : List ℕ → Bool
is_ipv4_mapped gs =
    at gs 0 == 0
    && at gs 1 == 0
    && at gs 2 == 0
    && at gs 3 == 0
    && at gs 4 == 0
    && at gs 5 == 0xffff

-- The groups of an IPv6 address.
unfoldable pub groups_to_string : List ℕ → Text
unfolding is_ipv4_mapped compressed longest_span hex_u16 ipv4_to_string
groups_to_string gs =
    if is_ipv4_mapped gs
    then codes "::ffff:"
      ++ ipv4_to_string (at gs 6 / 256 ∷ at gs 6 % 256 ∷ at gs 7 / 256 ∷ at gs 7 % 256 ∷ [])
    else compressed gs (longest_span gs 0 no_span no_span)

unfoldable pub ipv6_to_string : Bytes → Text
unfolding groups_to_string segments
ipv6_to_string b = groups_to_string (segments b)

-- The flow label of a parsed address is 0 and is left out.
pub data SocketAddr : Type 0 where
  v4 : Bytes → ℕ → SocketAddr
  v6 : List ℕ → ℕ → ℕ → SocketAddr

scope_suffix : ℕ → Text
scope_suffix s = if s == 0 then [] else b'%' ∷ decimal s

unfoldable pub socket_to_string : SocketAddr → Text
unfolding ipv4_to_string groups_to_string scope_suffix
socket_to_string (v4 ip port) = ipv4_to_string ip ++ (b':' ∷ decimal port)
socket_to_string (v6 ip scope port) =
    (b'[' ∷ groups_to_string ip) ++ scope_suffix scope ++ codes "]:" ++ decimal port

ipv6_loopback :
    ipv6_to_string (0 ∷ 0 ∷ 0 ∷ 0 ∷ 0 ∷ 0 ∷ 0 ∷ 0 ∷ 0 ∷ 0 ∷ 0 ∷ 0 ∷ 0 ∷ 0 ∷ 0 ∷ 1 ∷ [])
    ≡ codes "::1"
unfolding ipv6_to_string
ipv6_loopback = refl

ipv4_home : ipv4_to_string (127 ∷ 0 ∷ 0 ∷ 1 ∷ []) ≡ codes "127.0.0.1"
unfolding ipv4_to_string
ipv4_home = refl
