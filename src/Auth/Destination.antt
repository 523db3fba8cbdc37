-- ===== src/Auth/Destination.antt =====
-- auth/destination.rs: the addresses that a token may be sent to. The tests of `Ipv4Addr` are those
-- that the standard library documents.
use ripmcp.Base.{ℕ, Bool, not, ◌&&◌, ◌||◌, List, ltb, leb, ◌==◌, any, is_empty}

abbrev pub is_private : ℕ → ℕ → Bool
is_private a b = a == 10 || (a == 172 && leb 16 b && leb b 31) || (a == 192 && b == 168)

abbrev pub is_documentation : ℕ → ℕ → ℕ → Bool
is_documentation a b c =
    (a == 192 && b == 0 && c == 2)
    || (a == 198 && b == 51 && c == 100)
    || (a == 203 && b == 0 && c == 113)

-- `public_v4`
unfoldable pub public_v4 : ℕ → ℕ → ℕ → ℕ → Bool
public_v4 a b c d =
    not (is_private a b)
    && not (a == 127)
    && not (a == 169 && b == 254)
    && not (is_documentation a b c)
    && not (a == 0)
    && ltb a 224
    && not (a == 100 && leb 64 b && leb b 127)
    && not (a == 198 && leb 18 b && leb b 19)
    && not (a == 192 && b == 0)

-- The branch of `public` for version 6, by its first two segments of 16 bits: the mask keeps the
-- first three bits.
unfoldable pub public_v6 : ℕ → ℕ → Bool
public_v6 s t =
    (leb 8192 s && ltb s 16384)
    && not (s == 8194)
    && not (s == 8193 && ltb t 512)
    && not (s == 8193 && t == 3512)
    && not (s == 16383 && ltb t 4096)

pub data IpAddr : Type 0 where
  v4 : ℕ → ℕ → ℕ → ℕ → IpAddr
  -- the segments
  v6 : ℕ → ℕ → List ℕ → IpAddr

-- `public`
unfoldable pub public : IpAddr → Bool
unfolding public_v4 public_v6
public (IpAddr.v4 a b c d) = public_v4 a b c d
public (IpAddr.v6 s t rest) = public_v6 s t

-- Whether `resolve` gives the addresses that it looked up.
unfoldable pub resolves : List IpAddr → Bool
resolves addresses = not (is_empty addresses || any (λ a. not (public a)) addresses)
