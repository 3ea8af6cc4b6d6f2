-- ===== src/Probe/Tcp/Segment/Replies.antt =====
-- The reading of received bytes: `stripIPv4Header`, `parseTCPSegment` and `classifyReply`.
use trimon.Base.{
  true, zero, suc, ◌-◌, ℕ, ◌+◌, ◌*◌, ◌/◌, ◌%◌, ◌^◌, ◌<◌, ◌≤◌, ◌≡◌, refl, none, some, List, [], ◌∷◌,
  ◌++◌, arith, length, drop, ltb, ◌∙◌, ap,
}
use mathlib.Core.Option
use trimon.Net.{Ip, to4}
use trimon.Probe.Tcp.Segment.{parse_tcp_segment, strip_ipv4_header, build_syn, flag_syn}

-- What `buildSYN` writes, `parseTCPSegment` reads back: the ports, the sequence number, no
-- acknowledgement and the flag SYN alone.
pub parse_tcp_segment-build_syn :
    (src dst s4 d4 : Ip) (src_port dst_port seq : ℕ)
    → to4 src ≡ some s4
    → to4 dst ≡ some d4
    → src_port < 2 ^ 16
    → dst_port < 2 ^ 16
    → seq < 2 ^ 32
    → Option.map parse_tcp_segment (build_syn src dst src_port dst_port seq)
      ≡ some (
          some (record {
            src_port = src_port;
            dst_port = dst_port;
            seq = seq;
            ack = 0;
            flags = flag_syn;
          }))
unfolding build_syn parse_tcp_segment
parse_tcp_segment-build_syn src dst s4 d4 src_port dst_port seq h k p q r =
    rw (h, Option.map) (rw (k, Option.map) (ap some (ground arith)))

length-append_ge : (xs ys : List ℕ) → length xs ≤ length (xs ++ ys)
length-append_ge [] ys = omega arith
length-append_ge (x ∷ xs) ys = let h = length-append_ge xs ys in omega (arith, h)

length-drop : (n : ℕ) (xs : List ℕ) → length (drop n xs) ≡ length xs - n
length-drop zero xs = omega arith
length-drop (suc n) [] = omega arith
length-drop (suc n) (x ∷ xs) = let h = length-drop n xs in omega (arith, h)

drop-append : (n : ℕ) (xs ys : List ℕ) → length xs ≡ n → drop n (xs ++ ys) ≡ ys
drop-append zero [] ys h = refl
drop-append zero (x ∷ xs) ys h = absurd (omega (arith, h))
drop-append (suc n) [] ys h = absurd (omega (arith, h))
drop-append (suc n) (x ∷ xs) ys h = drop-append n xs ys (omega (arith, h))

module _ (ihl : ℕ) (h : 5 ≤ ihl) (k : ihl < 16) where
  strip_ipv4_header-drop :
      (rest : List ℕ)
      → ihl * 4 ≤ length rest + 1
      → strip_ipv4_header ((64 + ihl) ∷ rest) ≡ drop (ihl * 4) ((64 + ihl) ∷ rest)
  unfolding strip_ipv4_header
  strip_ipv4_header-drop rest l =
      let a : (64 + ihl) % 16 ≡ ihl = omega arith in
      let b : (64 + ihl) / 16 ≡ 4 = omega arith in rw a (ground arith)

  -- A packet with its IPv4 header, of any length that the header's first byte gives, is cut to its
  -- payload.
  pub strip_ipv4_header-append :
      (rest payload : List ℕ)
      → length rest + 1 ≡ ihl * 4
      → strip_ipv4_header ((64 + ihl) ∷ (rest ++ payload)) ≡ payload
  strip_ipv4_header-append rest payload e =
      let c = length-append_ge rest payload in
      strip_ipv4_header-drop (rest ++ payload) (omega (arith, c, e))
      ∙ drop-append (ihl * 4) ((64 + ihl) ∷ rest) payload (omega (arith, e))

-- A segment that arrives without an IP header, from a source port whose upper byte is 64 + ihl, with ihl
-- from 5 to 15, and with at least ihl * 4 bytes and fewer than 20 more: it loses its first ihl * 4 bytes as
-- if they were such a header, and what is left does not parse.
pub strip_ipv4_header_loses :
    (ihl : ℕ) (rest : List ℕ)
    → 5 ≤ ihl
    → ihl < 16
    → ihl * 4 ≤ length rest + 1
    → length rest + 1 < ihl * 4 + 20
    → (strip_ipv4_header ((64 + ihl) ∷ rest) ≡ drop (ihl * 4) ((64 + ihl) ∷ rest))
      × (parse_tcp_segment (strip_ipv4_header ((64 + ihl) ∷ rest)) ≡ none)
unfolding parse_tcp_segment
strip_ipv4_header_loses ihl rest h k l m = (
  strip_ipv4_header-drop ihl h k rest l,
  rw (strip_ipv4_header-drop ihl h k rest l) (
      let e = length-drop (ihl * 4) ((64 + ihl) ∷ rest) in
      let q : ltb (length (drop (ihl * 4) ((64 + ihl) ∷ rest))) 20 ≡ true = ground (arith, e) in
      rw q refl),
)
