-- ===== src/Probe/Udp/Answers.antt =====
-- The answers of `udpAttempt`.
use trimon.Base.{
  ◌∷◌, [], ◌<◌, sym, subst, ◌∙◌, ltb, ◌==◌, false, ◌≢◌, Result-cases, Bool-cases, ℕ, ◌≤◌, ◌≡◌, ◌↔◌,
  inl, inr, refl, true, none, List, arith, length, ok,
}
use trimon.Base.Int.{ℤ, pos}
use trimon.Probe.Ports.{Answer, PortState, state_unreachable, state_closed, state_open}
use trimon.Net.{has_prefix}
use trimon.Probe.Udp.{refused, other_error, Socket, after_read, after_setup, udp_attempt}

-- The socket was set up.
pub record IsReady (s : Socket) : Type 0 where
  pub dial : s.dial ≡ none
  pub deadline : s.deadline ≡ none

-- All of the payload went out and a reply that starts with the expected bytes came back.
pub record IsReplied (payload expected : List ℕ) (s : Socket) : Type 0 where
  pub n : ℕ
  pub reply : List ℕ
  pub sent : s.write ≡ ok n
  pub whole : length payload ≤ n
  pub got : s.read ≡ ok reply
  pub matches : has_prefix reply expected ≡ true

-- What is said of an answer: it is no error, and open exactly after a whole write and a matching reply.
pub record Judged (payload expected : List ℕ) (s : Socket) (answer : Answer) : Type 0 where
  pub no_error : (rtt : ℤ) × (state : PortState) × (answer ≡ ok (rtt, state))
  pub open_iff : (answer ≡ ok (s.read_time, state_open)) ↔ IsReplied payload expected s

nonempty :
    (reply expected : List ℕ) → has_prefix reply expected ≡ false → (length expected == 0) ≡ false
nonempty reply [] h = cc
nonempty reply (x ∷ xs) h = ground arith

module _ (payload expected : List ℕ) (s : Socket) where
  -- An answer other than an open port, when there was no matching reply.
  not_open :
      (rtt : ℤ) (state : PortState)
      → state ≢ state_open
      → ¬ IsReplied payload expected s
      → Judged payload expected s (ok (rtt, state))
  not_open rtt state h k = record {
    no_error = (rtt, state, refl);
    open_iff = (
      λ e.
          absurd
            (h (let p : Path Answer (ok (rtt, state)) (ok (s.read_time, state_open)) = e in cc)),
      λ i. absurd (k i),
    );
  }

  after_read-Judged :
      (n : ℕ)
      → s.write ≡ ok n
      → length payload ≤ n
      → Judged payload expected s (after_read expected s)
  unfolding after_read
  after_read-Judged n w h = elim (Result-cases s.read) [
    | inr (refused, e) ↦
        let q : after_read expected s ≡ ok (s.read_time, state_closed) = rw e refl in
        subst (Judged payload expected s) (sym q)
          (not_open s.read_time state_closed (λ x. cc) (λ i. let g = i.got in cc))
    | inr (other_error, e) ↦
        let q : after_read expected s ≡ ok (pos 0, state_unreachable) = rw e refl in
        subst (Judged payload expected s) (sym q)
          (not_open (pos 0) state_unreachable (λ x. cc) (λ i. let g = i.got in cc))
    | inl (reply, e) ↦ elim (Bool-cases (has_prefix reply expected)) [
      | inl m ↦
          let q : after_read expected s ≡ ok (s.read_time, state_open) = rw e (ground (arith, m)) in
          subst (Judged payload expected s) (sym q) (record {
            no_error = (s.read_time, state_open, refl);
            open_iff = (
              λ x. record { n = n; reply = reply; sent = w; whole = h; got = e; matches = m },
              λ i. refl,
            );
          })
      | inr m ↦
          let q : after_read expected s ≡ ok (pos 0, state_unreachable) = rw e (
            let z : (length expected == 0) ≡ false = nonempty reply expected m in
            ground (arith, m, z)) in
          subst (Judged payload expected s) (sym q) (
            not_open (pos 0) state_unreachable (λ x. cc)
              (λ i. let g = i.got in let k = i.matches in cc))
    ]
  ]

  after_setup-Judged : Judged payload expected s (after_setup payload expected s)
  unfolding after_setup
  after_setup-Judged = elim (Result-cases s.write) [
    | inr (refused, e) ↦
        let q : after_setup payload expected s ≡ ok (s.write_time, state_closed) = rw e refl in
        subst (Judged payload expected s) (sym q)
          (not_open s.write_time state_closed (λ x. cc) (λ i. let g = i.sent in cc))
    | inr (other_error, e) ↦
        let q : after_setup payload expected s ≡ ok (pos 0, state_unreachable) = rw e refl in
        subst (Judged payload expected s) (sym q)
          (not_open (pos 0) state_unreachable (λ x. cc) (λ i. let g = i.sent in cc))
    | inl (n, e) ↦ elim (Bool-cases (ltb n (length payload))) [
      | inl m ↦
          let q : after_setup payload expected s ≡ ok (pos 0, state_unreachable) =
            rw e (rw m refl) in
          subst (Judged payload expected s) (sym q) (
            not_open (pos 0) state_unreachable (λ x. cc)
              (λ i.
                let p : ok n ≡ ok i.n = sym e ∙ i.sent in
                let r : n ≡ i.n = cc in
                let g = i.whole in
                absurd
                  (let lt : n < length payload = ground (arith, m) in omega (arith, g, r, lt))))
      | inr m ↦
          let q : after_setup payload expected s ≡ after_read expected s = rw e (rw m refl) in
          subst (Judged payload expected s) (sym q) (after_read-Judged n e (ground (arith, m)))
    ]
  ]

  -- With a socket set up, an attempt is never an error, and the port counts as open exactly if all of
  -- the payload was written and a reply that starts with the expected bytes was read.
  pub udp_attempt-Judged : IsReady s → Judged payload expected s (udp_attempt payload expected s)
  unfolding udp_attempt
  udp_attempt-Judged ready =
      let q : udp_attempt payload expected s ≡ after_setup payload expected s =
        simp (udp_attempt, ready.dial, ready.deadline) in
      subst (Judged payload expected s) (sym q) after_setup-Judged
