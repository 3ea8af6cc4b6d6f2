-- ===== src/Probe/Tcp/Segment/Checksum.antt =====
-- The checksum of the segments that `buildSYN` makes.
use native.Mathlib.Decide.{dec_lt}
use mathlib.Core.Logic.{dite}
use mathlib.Core.WellFounded.{Acc}
use trimon.Base.{
  ℕ, suc, ◌+◌, ◌-◌, ◌*◌, ◌/◌, ◌%◌, ◌^◌, ◌<◌, ◌≤◌, ◌≡◌, ◌∙◌, ap, refl, some, List, [], ◌∷◌, arith,
}
use mathlib.Core.Option
use trimon.Net.{Ip, to4}
use trimon.Probe.Tcp.Segment.{
  Acc-below, fold_acc, fold_carries, add_bytes, tcp_checksum, build_syn, syn_header, pseudo_header,
}

-- A folded sum has 16 bits, keeps its rest by 65535, and is 0 only for 0.
record Folded (sum f : ℕ) : Type 0 where
  bits : f < 65536
  rest : f % 65535 ≡ sum % 65535
  nonzero : 0 < sum → 0 < f

dite-split {ℓ ℓ1} :
    {A : Type ℓ} {C : Type 0} (P : C → Type ℓ1) (d : Dec A) (f : A → C) (g : ¬ A → C)
    → ((h : A) → P (f h))
    → ((h : ¬ A) → P (g h))
    → P (dite d f g)
dite-split P (yes h) f g on_yes on_no = on_yes h
dite-split P (no h) f g on_yes on_no = on_no h

Folded-round : (sum f : ℕ) → 0 < sum / 65536 → Folded (sum % 65536 + sum / 65536) f → Folded sum f
Folded-round sum f h r = record {
  bits = r.bits;
  rest = r.rest ∙ (omega arith);
  nonzero = λ p. r.nonzero (omega arith);
}

fold_acc-Folded : (sum : ℕ) → (a : Acc ◌<◌ sum) → Folded sum (fold_acc sum a)
unfolding fold_acc
fold_acc-Folded sum (Acc.intro _ smaller) =
    dite-split (Folded sum) (dec_lt 0 (sum / 65536)) _ _
      (λ h. Folded-round sum _ h (fold_acc-Folded (sum % 65536 + sum / 65536) (smaller _ _)))
      (λ h. record { bits = omega arith; rest = refl; nonzero = λ p. p })

fold_carries-Folded : (sum : ℕ) → Folded sum (fold_carries sum)
unfolding fold_carries
fold_carries-Folded sum = fold_acc-Folded sum (Acc-below (suc sum) sum (omega arith))

-- Added to a sum, the complement of its fold gives a sum that folds to 65535.
fold_carries-complement :
    (sum : ℕ) → 0 < sum → fold_carries (sum + (65535 - fold_carries sum % 65536)) ≡ 65535
fold_carries-complement sum h =
    let a = fold_carries-Folded sum in
    let b = fold_carries-Folded (sum + (65535 - fold_carries sum % 65536)) in
    let p = b.nonzero (omega arith) in omega (arith, a.bits, a.rest, b.bits, b.rest, p)

-- The sum of the 16-bit words, without wrap-around.
abbrev words : List ℕ → ℕ
words [] = 0
words (a ∷ []) = a * 256
words (a ∷ b ∷ rest) = (a * 256 + b) + words rest

add_bytes-words : (sum : ℕ) (b : List ℕ) → sum + words b < 2 ^ 32 → add_bytes sum b ≡ sum + words b
unfolding add_bytes
add_bytes-words sum [] h = omega arith
add_bytes-words sum (a ∷ []) h = omega (arith, h)
add_bytes-words sum (a ∷ b ∷ rest) h =
    let e : (sum + (a * 256 + b)) % 2 ^ 32 ≡ sum + (a * 256 + b) = omega (arith, h) in
    rw e (add_bytes-words (sum + (a * 256 + b)) rest (omega (arith, h)) ∙ (omega arith))

-- An IPv4 address by its four bytes.
pub record Octets : Type 0 where
  pub w : ℕ
  pub x : ℕ
  pub y : ℕ
  pub z : ℕ
  pub IsByte : (w < 256) × (x < 256) × (y < 256) × (z < 256)

abbrev pub to_bytes : Octets → Ip
to_bytes o = o.w ∷ o.x ∷ o.y ∷ o.z ∷ []

module _ (s d : Octets) (src_port dst_port seq : ℕ) where
  abbrev segment : ℕ → List ℕ
  segment c = syn_header src_port dst_port seq c

  abbrev total : ℕ
  total = words (pseudo_header (to_bytes s) (to_bytes d) 20) + words (segment 0)

  total-bounds : (0 < total) × (total < 2 ^ 31)
  total-bounds =
      let p = s.IsByte in
      let q = d.IsByte in (omega arith, omega (arith, p.0, p.1, p.2, p.3, q.0, q.1, q.2, q.3))

  checksum-total :
      (c : ℕ)
      → c < 65536
      → tcp_checksum (to_bytes s) (to_bytes d) (segment c)
        ≡ 65535 - fold_carries (total + c) % 65536
  unfolding tcp_checksum
  checksum-total c h =
      let b = total-bounds in
      let e1 : words (segment c) ≡ words (segment 0) + c = omega arith in
      let p1 : words (pseudo_header (to_bytes s) (to_bytes d) 20) ≤ total = omega arith in
      let e2 : add_bytes 0 (pseudo_header (to_bytes s) (to_bytes d) 20)
          ≡ words (pseudo_header (to_bytes s) (to_bytes d) 20) =
        add_bytes-words 0 (pseudo_header (to_bytes s) (to_bytes d) 20) (omega (arith, b.1, p1))
        ∙ (omega arith) in
      let e3 =
        add_bytes-words (words (pseudo_header (to_bytes s) (to_bytes d) 20)) (segment c)
          (omega (arith, b.1, e1)) in
      let e4 : add_bytes (add_bytes 0 (pseudo_header (to_bytes s) (to_bytes d) 20)) (segment c)
          ≡ total + c =
        ap (λ n. add_bytes n (segment c)) e2 ∙ (e3 ∙ (omega (arith, e1))) in
      ap (λ n. 65535 - fold_carries n % 65536) e4

  checksum-verifies :
      tcp_checksum
        (to_bytes s)
        (to_bytes d)
        (segment (tcp_checksum (to_bytes s) (to_bytes d) (segment 0)))
      ≡ 0
  checksum-verifies =
      let e : tcp_checksum (to_bytes s) (to_bytes d) (segment 0)
          ≡ 65535 - fold_carries total % 65536 =
        checksum-total 0 (omega arith) ∙ ap (λ n. 65535 - fold_carries n % 65536) (omega arith) in
      rw e (
        checksum-total (65535 - fold_carries total % 65536) (omega arith)
        ∙ rw (fold_carries-complement total total-bounds.0) refl)

-- The receiver's check of a SYN that `buildSYN` makes comes out: the checksum of the finished
-- segment, its checksum field included, is 0, for all IPv4 addresses, ports and sequence numbers.
pub build_syn-checksum :
    (src dst : Ip) (s d : Octets) (src_port dst_port seq : ℕ)
    → to4 src ≡ some (to_bytes s)
    → to4 dst ≡ some (to_bytes d)
    → Option.map (tcp_checksum (to_bytes s) (to_bytes d)) (build_syn src dst src_port dst_port seq)
      ≡ some 0
unfolding build_syn
build_syn-checksum src dst s d src_port dst_port seq h k =
    rw (h, Option.map) (rw (k, Option.map) (ap some (checksum-verifies s d src_port dst_port seq)))
