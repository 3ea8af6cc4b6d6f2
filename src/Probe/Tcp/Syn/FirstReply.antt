-- ===== src/Probe/Tcp/Syn/FirstReply.antt =====
-- The reading loop of `synAttempt`.
use trimon.Base.{
  subst, sym, Option, Bool, true, false, Bool-cases, arith, ◌↔◌, ◌==◌, not, ◌&&◌, if◌then◌else◌, ℕ,
  ◌≡◌, ◌⊎◌, inl, inr, refl, ap, ◌∙◌, none, some, List, [], ◌∷◌, ◌++◌, All, Option-cases,
}
use trimon.Base.Int.{ℤ, pos}
use trimon.Net.{Ip, ip_equal}
use trimon.Probe.Ports.{PortState, state_open, state_closed, state_unreachable}
use trimon.Probe.Tcp.Segment.{
  SynSegment, has_flag, flag_syn, flag_ack, flag_rst, parse_tcp_segment, strip_ipv4_header,
  classify_reply,
}
use trimon.Probe.Tcp.Syn.{Packet, read_reply, await_reply}

module _ (dst : Ip) (src_port dst_port expect_ack : ℕ) where
  -- The segment acknowledges the SYN.
  abbrev pub IsSynAck : SynSegment → Type 0
  IsSynAck seg =
      (has_flag seg.flags flag_syn ≡ true)
      × (has_flag seg.flags flag_ack ≡ true)
      × (seg.ack ≡ expect_ack)

  -- From the target's port to the port of the probe: an acknowledgement of the SYN, for an open port, or
  -- else a segment with the flag RST, for a closed one.
  abbrev pub SegmentShows : SynSegment → PortState → Type 0
  SegmentShows seg state =
      (seg.src_port ≡ dst_port)
      × (seg.dst_port ≡ src_port)
      × (((state ≡ state_open) × IsSynAck seg)
          ⊎ ((state ≡ state_closed) × (¬ IsSynAck seg) × (has_flag seg.flags flag_rst ≡ true)))

  -- The packet comes from the target, and holds such a segment.
  abbrev pub ShowsState : Packet → PortState → Type 0
  ShowsState p state =
      (seg : SynSegment) × (ip_equal p.from dst ≡ true)
      × (parse_tcp_segment (strip_ipv4_header p.bytes) ≡ some seg)
      × SegmentShows seg state

  -- A packet that shows no state.
  abbrev pub IsForeign : Packet → Type 0
  IsForeign p = (state : PortState) → ¬ ShowsState p state

  abbrev is_syn_ack : SynSegment → Bool
  is_syn_ack seg =
      has_flag seg.flags flag_syn && has_flag seg.flags flag_ack && seg.ack == expect_ack

  is_syn_ack_iff : (seg : SynSegment) → (is_syn_ack seg ≡ true) ↔ IsSynAck seg
  is_syn_ack_iff seg = (λ h. ground (arith, h), λ (x, y, z). ground (arith, x, y, z))

  classify_reply-SegmentShows :
      (seg : SynSegment) (state : PortState)
      → (classify_reply seg src_port dst_port expect_ack ≡ some state) ↔ SegmentShows seg state
  unfolding classify_reply
  classify_reply-SegmentShows seg state = elim (Bool-cases (is_syn_ack seg)) [
    | inl e ↦
        let k = (is_syn_ack_iff seg).0 e in
        (
          λ h. (ground (arith, h), ground (arith, h), inl (ground (arith, h, e), k)),
          λ (s, d, o). elim o [
            | inl x ↦ let q = x.0 in ground (arith, s, d, q, e)
            | inr x ↦ absurd (x.1 k)
          ],
        )
    | inr e ↦
        let k : ¬ IsSynAck seg = λ y. let z = (is_syn_ack_iff seg).1 y in cc in
        (
          λ h. (
            ground (arith, h),
            ground (arith, h),
            inr (ground (arith, h, e), k, ground (arith, h, e)),
          ),
          λ (s, d, o). elim o [
            | inl x ↦ absurd (k x.1)
            | inr x ↦ let q = x.0 in let f = x.2 in ground (arith, s, d, q, e, f)
          ],
        )
  ]

  -- The segment in it, if any, shows the state.
  abbrev ShowsIn : PortState → Option SynSegment → Type 0
  ShowsIn state none = Unit
  ShowsIn state (some seg) = SegmentShows seg state

  -- What read_reply makes of the address test and the segment.
  abbrev picked : Bool → Option SynSegment → Option PortState
  picked b o =
      if not b
      then none
      else elim o [ none ↦ none | some seg ↦ classify_reply seg src_port dst_port expect_ack ]

  picked_iff :
      (b : Bool) (o : Option SynSegment) (state : PortState)
      → (picked b o ≡ some state)
        ↔ ((seg : SynSegment) × (b ≡ true) × (o ≡ some seg) × SegmentShows seg state)
  picked_iff false o state =
      (λ h. absurd (ground (arith, h)), λ (seg, e, q, r). absurd (ground (arith, e)))
  picked_iff true none state =
      (λ h. absurd (ground (arith, h)), λ (seg, e, q, r). absurd (ground (arith, q)))
  picked_iff true (some seg) state = (
    λ h. (seg, refl, refl, (classify_reply-SegmentShows seg state).0 h),
    λ (seg', e, q, r). (classify_reply-SegmentShows seg state).1 (subst (ShowsIn state) (sym q) r),
  )

  read_reply-ShowsState :
      (p : Packet) (state : PortState)
      → (read_reply dst src_port dst_port expect_ack p ≡ some state) ↔ ShowsState p state
  unfolding read_reply
  read_reply-ShowsState p state =
      picked_iff (ip_equal p.from dst) (parse_tcp_segment (strip_ipv4_header p.bytes)) state

  skipped-IsForeign :
      (p : Packet) → read_reply dst src_port dst_port expect_ack p ≡ none → IsForeign p
  skipped-IsForeign p e state shows =
      let x = (read_reply-ShowsState p state).1 shows in absurd (ground (arith, e, x))

  -- The packets hold a first reply, with this state.
  pub record FirstReply (packets : List Packet) (answer : ℤ × PortState) : Type 0 where
    pub before : List Packet
    pub reply : Packet
    pub after : List Packet
    pub state : PortState
    pub split : packets ≡ before ++ reply ∷ after
    pub foreign : All IsForeign before
    pub shows : ShowsState reply state
    pub answered : answer ≡ (reply.rtt, state)

  -- A packet that is not a reply is skipped.
  await_reply-foreign :
      (p : Packet) (ps : List Packet)
      → read_reply dst src_port dst_port expect_ack p ≡ none
      → await_reply dst src_port dst_port expect_ack (p ∷ ps)
        ≡ await_reply dst src_port dst_port expect_ack ps
  unfolding await_reply
  await_reply-foreign p ps e = rw (e, await_reply) refl

  await_reply-reply :
      (p : Packet) (ps : List Packet) (state : PortState)
      → read_reply dst src_port dst_port expect_ack p ≡ some state
      → await_reply dst src_port dst_port expect_ack (p ∷ ps) ≡ (p.rtt, state)
  unfolding await_reply
  await_reply-reply p ps state e = rw (e, await_reply) refl

  -- The loop answers with the time and the state of the first packet that is a reply to this probe, skipping
  -- all before it; without one it ends at the deadline with no reply. A reply comes from the target,
  -- from its port to that of the probe, and acknowledges the SYN, for an open port, or else has the
  -- flag RST, for a closed one.
  pub await_reply-FirstReply :
      (packets : List Packet)
      → (All IsForeign packets
          × (await_reply dst src_port dst_port expect_ack packets ≡ (pos 0, state_unreachable)))
        ⊎ FirstReply packets (await_reply dst src_port dst_port expect_ack packets)
  unfolding await_reply
  await_reply-FirstReply [] = inl (tt, refl)
  await_reply-FirstReply (p ∷ ps) =
      elim (Option-cases (read_reply dst src_port dst_port expect_ack p)) [
        | inr (state, e) ↦ inr (record {
          before = [];
          reply = p;
          after = ps;
          state = state;
          split = refl;
          foreign = tt;
          shows = (read_reply-ShowsState p state).0 e;
          answered = await_reply-reply p ps state e;
        })
        | inl e ↦
            let skip = await_reply-foreign p ps e in
            elim (await_reply-FirstReply ps) [
              | inl l ↦ inl ((skipped-IsForeign p e, l.0), skip ∙ l.1)
              | inr r ↦ inr (record {
                before = p ∷ r.before;
                reply = r.reply;
                after = r.after;
                state = r.state;
                split = ap (◌∷◌ p) r.split;
                foreign = (skipped-IsForeign p e, r.foreign);
                shows = r.shows;
                answered = skip ∙ r.answered;
              })
            ]
      ]
