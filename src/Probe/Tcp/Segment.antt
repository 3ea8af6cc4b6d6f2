-- ===== src/Probe/Tcp/Segment.antt =====
-- internal/probe/tcp/syn.go: the bytes of a segment, the checksum, and the reading of replies.
-- A byte is a number below 256; sums of uint32 wrap.
pub mod Checksum
pub mod Replies
use Prim.Native.Nat.{bit_and}
use native.Mathlib.Decide.{dec_lt}
use mathlib.Core.Logic.{dite}
use mathlib.Core.WellFounded.{Acc, WellFounded}
use trimon.Base.{
  ℕ, zero, suc, ◌+◌, ◌-◌, ◌*◌, ◌/◌, ◌%◌, ◌^◌, ◌<◌, Bool, true, false, not, ◌&&◌, ◌||◌, Option, none,
  some, List, [], ◌∷◌, ◌++◌, arith, length, drop, leb, ltb, ◌==◌, if◌then◌else◌,
}
use trimon.Net.{Ip, to4}
use trimon.Probe.Ports.{PortState, state_open, state_closed}

abbrev pub flag_syn : ℕ
flag_syn = 2

abbrev pub flag_rst : ℕ
flag_rst = 4

abbrev pub flag_ack : ℕ
flag_ack = 16

abbrev pub tcp_header_len : ℕ
tcp_header_len = 20

pub record SynSegment : Type 0 where
  pub src_port : ℕ
  pub dst_port : ℕ
  pub seq : ℕ
  pub ack : ℕ
  pub flags : ℕ

-- `binary.BigEndian`.
abbrev pub be16 : ℕ → List ℕ
be16 n = n / 256 % 256 ∷ n % 256 ∷ []

abbrev pub be32 : ℕ → List ℕ
be32 n = n / 16777216 % 256 ∷ n / 65536 % 256 ∷ n / 256 % 256 ∷ n % 256 ∷ []

-- The header with the given checksum field; the data offset is 5 words, the window 0xFFFF.
abbrev pub syn_header : ℕ → ℕ → ℕ → ℕ → List ℕ
syn_header src_port dst_port seq checksum =
    be16 src_port
    ++ (be16 dst_port
        ++ (be32 seq
            ++ (0 ∷ 0 ∷ 0 ∷ 0 ∷ 0x50 ∷ flag_syn ∷ 0xff ∷ 0xff ∷ (be16 checksum ++ 0 ∷ 0 ∷ []))))

-- `addBytes`.
unfoldable pub add_bytes : ℕ → List ℕ → ℕ
add_bytes sum [] = sum
add_bytes sum (a ∷ []) = (sum + a * 256) % 2 ^ 32
add_bytes sum (a ∷ b ∷ rest) = add_bytes ((sum + (a * 256 + b)) % 2 ^ 32) rest

Acc-below : (k n : ℕ) → n < k → Acc ◌<◌ n
Acc-below zero n h = elim h [ ]
Acc-below (suc k) n h = Acc.intro n (λ m hm. Acc-below k m (omega arith))

-- `for sum>>16 != 0 { sum = (sum & 0xFFFF) + (sum >> 16) }`; the sum falls in each round.
unfoldable pub fold_acc : (sum : ℕ) → Acc ◌<◌ sum → ℕ
fold_acc sum (Acc.intro _ smaller) =
    dite (dec_lt 0 (sum / 65536))
      (λ h.
        fold_acc (sum % 65536 + sum / 65536) (smaller (sum % 65536 + sum / 65536) (omega arith)))
      (λ _. sum)

unfoldable pub fold_carries : ℕ → ℕ
unfolding fold_acc Acc-below
fold_carries sum = fold_acc sum (Acc-below (suc sum) sum (omega arith))

abbrev pub pseudo_header : Ip → Ip → ℕ → List ℕ
pseudo_header src dst len = src ++ (dst ++ (0 ∷ 6 ∷ be16 len))

-- `^uint16(sum)` at the end. The addresses have 4 bytes.
unfoldable pub tcp_checksum : Ip → Ip → List ℕ → ℕ
tcp_checksum src dst seg =
    let sum = add_bytes (add_bytes 0 (pseudo_header src dst (length seg))) seg in
    65535 - fold_carries sum % 65536

-- `none` where an address is not IPv4.
unfoldable pub build_syn : Ip → Ip → ℕ → ℕ → ℕ → Option (List ℕ)
build_syn src_ip dst_ip src_port dst_port seq = elim (to4 src_ip) [
  | none ↦ none
  | some s4 ↦ elim (to4 dst_ip) [
    | none ↦ none
    | some d4 ↦
        some (
          syn_header src_port dst_port seq
            (tcp_checksum s4 d4 (syn_header src_port dst_port seq 0)))
  ]
]

abbrev pub get_or : List ℕ → ℕ → ℕ
get_or [] i = 0
get_or (b ∷ bs) zero = b
get_or (b ∷ bs) (suc i) = get_or bs i

abbrev pub read16 : List ℕ → ℕ → ℕ
read16 b i = get_or b i * 256 + get_or b (suc i)

abbrev pub read32 : List ℕ → ℕ → ℕ
read32 b i = read16 b i * 65536 + read16 b (suc (suc i))

-- `none` is the error of a short segment, so that no index is out of range.
unfoldable pub parse_tcp_segment : List ℕ → Option SynSegment
parse_tcp_segment b =
    if ltb (length b) tcp_header_len
    then none
    else some (record {
      src_port = read16 b 0;
      dst_port = read16 b 2;
      seq = read32 b 4;
      ack = read32 b 8;
      flags = get_or b 13;
    })

-- `b[0]>>4` and `b[0]&0x0F` of a byte.
unfoldable pub strip_ipv4_header : List ℕ → List ℕ
strip_ipv4_header b =
    let ihl = get_or b 0 % 16 * 4 in
    if leb 20 (length b) && get_or b 0 / 16 == 4
    then (if leb 20 ihl && leb ihl (length b) then drop ihl b else b)
    else b

abbrev pub has_flag : ℕ → ℕ → Bool
has_flag flags flag = not (bit_and flags flag == 0)

-- `none` is `(_, false)`: traffic of somebody else.
unfoldable pub classify_reply : SynSegment → ℕ → ℕ → ℕ → Option PortState
classify_reply seg src_port dst_port expect_ack =
    if not (seg.src_port == dst_port) || not (seg.dst_port == src_port)
    then none
    else if has_flag seg.flags flag_syn && has_flag seg.flags flag_ack && seg.ack == expect_ack
    then some state_open
    else if has_flag seg.flags flag_rst
    then some state_closed
    else none
