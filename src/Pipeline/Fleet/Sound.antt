-- ===== src/Pipeline/Fleet/Sound.antt =====
-- What holds of the goroutines, the channel and `Run` at any time, also in a run with reloads during
-- the shutdown.
use mathlib.Core.List.{append_assoc}
use trimon.Base.{
  count_if, count_if-append, ℕ, ◌+◌, ◌<◌, ◌≤◌, ◌≡◌, ◌≢◌, refl, sym, ap, ◌∙◌, String, Bool, true,
  false, List, [], ◌∷◌, ◌++◌, length, length-append, arith, if◌then◌else◌,
}
use trimon.Pipeline.{Channel, panicked, stored, send}
use trimon.Pipeline.Fleet.{
  running, returned, Hold, tabled, lost, is_main, is_tabled, by_main, by_reload, Worker, Fleet,
  at_start, Step, launch, stop_reload, stop_main, cancel_worker, move, send_result, drop_result,
  cancel, receive, see_done, see_empty, close, Steps, here, step,
}

module _ {R : Type 0} where
  -- What a send that succeeds does.
  pub record IsStored (ch : Channel R) (r : R) (ch' : Channel R) : Type 0 where
    items : ch'.items ≡ ch.items ++ r ∷ []
    capacity : ch'.capacity ≡ ch.capacity
    room : length ch.items < ch.capacity
    was_open : ch.closed ≡ false
    pub still_open : ch'.closed ≡ false

  pub send-IsStored :
      (ch : Channel R) (r : R) (ch' : Channel R) → send ch r ≡ stored ch' → IsStored ch r ch'
  unfolding send
  send-IsStored ch r ch' h = record {
    items = ground arith;
    capacity = ground arith;
    room = ground arith;
    was_open = ground arith;
    still_open = ground arith;
  }

  pub send_open : (ch : Channel R) (r : R) → ch.closed ≡ false → send ch r ≢ panicked
  unfolding send
  send_open ch r h e = ground arith

  -- As often as a result was tried, it was taken or dropped.
  abbrev pub Counted : Fleet R → Type 0
  Counted f =
      (p : R → Bool) → count_if p f.tried ≡ count_if p f.taken + count_if (λ d. p d.1) f.dropped

  -- What every step keeps, whoever is stopped and started when.
  pub record IsSound (f : Fleet R) : Type 0 where
    pub ordered : f.cancelled ≡ true → f.stopping ≡ true
    pub waits : f.phase ≢ running → f.cancelled ≡ true
    pub opened : f.phase ≢ returned → f.channel.closed ≡ false
    pub shut : f.phase ≡ returned → f.channel.closed ≡ true
    pub kept : f.taken ≡ f.dispatched ++ f.channel.items
    pub bounded : length f.channel.items ≤ f.channel.capacity
    pub counted : Counted f

pub taken_by_main :
    (h : Hold) (n : ℕ)
    → n ≡ (if is_tabled h then n else 0)
    → n ≤ (if is_main (if is_tabled h then by_main else h) then n else 0)
taken_by_main tabled n e = omega arith
taken_by_main by_reload n e = omega (arith, e)
taken_by_main by_main n e = omega arith
taken_by_main lost n e = omega (arith, e)

pub taken_by_reload :
    (h : Hold) (n : ℕ)
    → n ≤ (if is_main h then n else 0)
    → n ≤ (if is_main (if is_tabled h then by_reload else h) then n else 0)
taken_by_reload tabled n e = omega (arith, e)
taken_by_reload by_reload n e = omega (arith, e)
taken_by_reload by_main n e = omega arith
taken_by_reload lost n e = omega (arith, e)

module _ {R : Type 0} (owner : R → String) where
  module _ (f : Fleet R) (i : IsSound f) where
    -- The workers may change.
    re_worked : (ws : List (Worker R)) → IsSound (record f { workers = ws })
    re_worked ws = record {
      ordered = i.ordered;
      waits = i.waits;
      opened = i.opened;
      shut = i.shut;
      kept = i.kept;
      bounded = i.bounded;
      counted = i.counted;
    }

    not_returned : (ch : Channel R) (r : R) → send f.channel r ≡ stored ch → f.phase ≢ returned
    not_returned ch r e h =
        let c = i.shut h in
        let o = (send-IsStored f.channel r ch e).was_open in let x : true ≡ false = sym c ∙ o in cc

  Step-IsSound : {f g : Fleet R} → Step owner f g → IsSound f → IsSound g
  Step-IsSound (launch f name) i = re_worked f i _
  Step-IsSound (stop_reload f) i = re_worked f i _
  Step-IsSound (stop_main f e) i = record {
    ordered = λ x. refl;
    waits = i.waits;
    opened = i.opened;
    shut = i.shut;
    kept = i.kept;
    bounded = i.bounded;
    counted = i.counted;
  }
  Step-IsSound (cancel_worker f us ws w e h) i = re_worked f i _
  Step-IsSound (move f us ws w w' e m) i = re_worked f i _
  Step-IsSound (send_result f us ws w r rs ch e a s) i =
      let d = send-IsStored f.channel r ch s in
      let l = length-append f.channel.items (r ∷ []) in
      let m = ap length d.items in
      record {
        ordered = i.ordered;
        waits = i.waits;
        opened = λ x. d.still_open;
        shut = λ x. absurd (not_returned f i ch r s x);
        kept =
            ap (λ xs. xs ++ r ∷ []) i.kept
            ∙ (append_assoc f.dispatched f.channel.items (r ∷ [])
                ∙ ap (λ xs. f.dispatched ++ xs) (sym d.items));
        bounded = omega (arith, l, m, d.capacity, d.room);
        counted = λ p.
            let a = count_if-append p f.taken (r ∷ []) in
            let b = count_if-append p f.tried (r ∷ []) in omega (arith, a, b, i.counted p);
      }
  Step-IsSound (drop_result f us ws w r rs e a s) i = record {
    ordered = i.ordered;
    waits = i.waits;
    opened = i.opened;
    shut = i.shut;
    kept = i.kept;
    bounded = i.bounded;
    counted = λ p.
        let a = count_if-append (λ d. p d.1) f.dropped ((w.name, r) ∷ []) in
        let b = count_if-append p f.tried (r ∷ []) in omega (arith, a, b, i.counted p);
  }
  Step-IsSound (cancel f e n) i = record {
    ordered = λ x. e;
    waits = λ x. refl;
    opened = i.opened;
    shut = i.shut;
    kept = i.kept;
    bounded = i.bounded;
    counted = i.counted;
  }
  Step-IsSound (receive f r rs p e) i =
      let l = ap length e in
      record {
        ordered = i.ordered;
        waits = i.waits;
        opened = i.opened;
        shut = i.shut;
        kept =
            i.kept
            ∙ (ap (λ xs. f.dispatched ++ xs) e ∙ sym (append_assoc f.dispatched (r ∷ []) rs));
        bounded = omega (arith, l, i.bounded);
        counted = i.counted;
      }
  Step-IsSound (see_done f p e) i = record {
    ordered = i.ordered;
    waits = λ x. e;
    opened = λ x. i.opened (λ y. cc);
    shut = λ x. cc;
    kept = i.kept;
    bounded = i.bounded;
    counted = i.counted;
  }
  Step-IsSound (see_empty f p e) i = record {
    ordered = i.ordered;
    waits = λ x. i.waits (λ y. cc);
    opened = λ x. i.opened (λ y. cc);
    shut = λ x. cc;
    kept = i.kept;
    bounded = i.bounded;
    counted = i.counted;
  }
  Step-IsSound (close f p) i = record {
    ordered = i.ordered;
    waits = λ x. i.waits (λ y. cc);
    opened = λ x. absurd (x refl);
    shut = λ x. refl;
    kept = i.kept;
    bounded = i.bounded;
    counted = i.counted;
  }

  pub Steps-IsSound : (capacity : ℕ) {f : Fleet R} → Steps owner (at_start capacity) f → IsSound f
  Steps-IsSound capacity (here _) = record {
    ordered = λ x. cc;
    waits = λ x. absurd (x refl);
    opened = λ x. refl;
    shut = λ x. cc;
    kept = refl;
    bounded = omega arith;
    counted = λ p. omega arith;
  }
  Steps-IsSound capacity (step first last) = Step-IsSound last (Steps-IsSound capacity first)
