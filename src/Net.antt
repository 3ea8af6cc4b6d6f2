-- ===== src/Net.antt =====
-- What the program uses of Go's net and strings packages: IP addresses as bytes, and the calls
-- that ask the host (name lookup, interfaces) or parse texts, which are the fields of `Host`.
use trimon.Base.{
  ℕ, String, Bool, true, false, ◌&&◌, Option, none, some, List, [], ◌∷◌, ◌==◌, if◌then◌else◌,
  length, take, drop, any, codes,
}

-- `net.IP`: 4 or 16 bytes.
abbrev pub Ip : Type 0
Ip = List ℕ

abbrev pub bytes_eq : List ℕ → List ℕ → Bool
bytes_eq [] [] = true
bytes_eq (x ∷ xs) (y ∷ ys) = (x == y) && bytes_eq xs ys
bytes_eq _ _ = false

-- `bytes.HasPrefix(b, prefix)`.
abbrev pub has_prefix : List ℕ → List ℕ → Bool
has_prefix b [] = true
has_prefix [] (p ∷ ps) = false
has_prefix (x ∷ b) (p ∷ ps) = (x == p) && has_prefix b ps

abbrev v4_prefix : List ℕ
v4_prefix = 0 ∷ 0 ∷ 0 ∷ 0 ∷ 0 ∷ 0 ∷ 0 ∷ 0 ∷ 0 ∷ 0 ∷ 255 ∷ 255 ∷ []

-- `ip.To4()`: the 4-byte form of an IPv4 address, also of a mapped one; `none` is nil.
abbrev pub to4 : Ip → Option Ip
to4 ip =
    if length ip == 4
    then some ip
    else if (length ip == 16) && bytes_eq (take 12 ip) v4_prefix
    then some (drop 12 ip)
    else none

-- `ip.Equal(other)`: an IPv4 address equals its mapped form.
abbrev pub ip_equal : Ip → Ip → Bool
ip_equal a b =
    if length a == length b
    then bytes_eq a b
    else if (length a == 4) && (length b == 16)
    then bytes_eq (take 12 b) v4_prefix && bytes_eq a (drop 12 b)
    else if (length a == 16) && (length b == 4)
    then bytes_eq (take 12 a) v4_prefix && bytes_eq (drop 12 a) b
    else false

-- A `net.Addr` of an interface, by its dynamic type.
pub data Addr : Type 0 where
  ip_net : Ip → Addr
  ip_addr : Ip → Addr
  other_addr : Addr

-- The host and the library during one call: `none` is a non-nil error, or nil for `parse_ip`.
pub record Host : Type 0 where
  pub parse_ip : String → Option Ip
  pub lookup_host : String → Option (List String)
  pub interface_addrs : Option (List Addr)
  pub resolve_tcp_addr : String → Option (Unit {0})
  pub to_lower : String → String
  pub to_upper : String → String

-- `strings.ContainsAny`, for a set of ASCII characters.
abbrev pub contains_any : String → List ℕ → Bool
contains_any s chars = any (λ c. any (λ d. c == d) chars) (codes s)

abbrev pub is_some {ℓ} : {A : Type ℓ} → Option A → Bool
is_some none = false
is_some (some _) = true
