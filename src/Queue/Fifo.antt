-- ===== src/Queue/Fifo.antt =====
-- src/realtime_queue.rs: what the receiver sees of any sequence of calls of the two endpoints.
use mathlib.Core.List.{append_assoc}
use mathlib.Core.Option.{some-injective, none-ne-some}
use freewheeling_plus.Prelude.{
  ℕ, ◌+◌, ◌%◌, ◌^◌, ◌≤◌, ◌≡◌, refl, sym, ap, ◌∙◌, List, [], ◌∷◌, ◌++◌, Option, none, some, length,
  length-append, arith, dec_lt, ◌==◌, ltb, subst, Bool-cases, if◌then◌else◌, inl, inr, Bool, true,
  false, List-cases, Result, ok, err,
}
use freewheeling_plus.Queue.{Queue, count_one, bounded, try_send, try_recv}
use freewheeling_plus.Queue.Ring.{RingBuffer}
use freewheeling_plus.Queue.Calls.{
  contents, size, try_send_room, try_send_full, try_recv_front, try_recv_empty,
}

-- What the endpoints saw, oldest first: values sent, values received, values given back.
pub record History (T : Type 0) : Type 0 where
  pub accepted : List T
  pub delivered : List T
  pub refused : List T

pub data Call (T : Type 0) : Type 0 where
  sends : T → Call T
  receives : Call T

count_one_lem : (n k : ℕ) → n ≡ k % 2 ^ 64 → count_one n ≡ (k + 1) % 2 ^ 64
unfolding count_one
count_one_lem n k h = omega (arith, h)

-- What a guard lets through.
guarded {ℓ} : {A : Type ℓ} (b : Bool) (x y : A) → (if b then none else some x) ≡ some y → x ≡ y
guarded true x y e = absurd (none-ne-some y e)
guarded false x y e = some-injective x y e

module _ {T : Type 0} (R : RingBuffer T) where
  pub after_send : History T → T → Result T (Unit {0}) → History T
  after_send h v (ok _) = record h { accepted = h.accepted ++ v ∷ [] }
  after_send h v (err w) = record h { refused = h.refused ++ w ∷ [] }

  pub after_recv : History T → Option T → History T
  after_recv h none = h
  after_recv h (some v) = record h { delivered = h.delivered ++ v ∷ [] }

  pub step : Queue R → History T → Call T → Queue R × History T
  step q h (sends v) = let r = try_send R q v in (r.0, after_send h v r.1)
  step q h receives = let r = try_recv R q in (r.0, after_recv h r.1)

  pub play : Queue R → History T → List (Call T) → Queue R × History T
  play q h [] = (q, h)
  play q h (c ∷ cs) = let r = step q h c in play r.0 r.1 cs

  -- The values received are the first of those sent, in order, and the rest wait in the ring, which
  -- is within its capacity; each counter counts its values modulo 2^64.
  pub record IsConsistent (q : Queue R) (h : History T) : Type 0 where
    pub fifo : h.accepted ≡ h.delivered ++ contents R q
    pub within : length (contents R q) ≤ size R q
    pub sent : q.metrics.sent ≡ length h.accepted % 2 ^ 64
    pub received : q.metrics.received ≡ length h.delivered % 2 ^ 64
    pub rejected : q.metrics.rejected ≡ length h.refused % 2 ^ 64

  counted :
      (n : ℕ) (xs : List T) (v : T)
      → n ≡ length xs % 2 ^ 64
      → count_one n ≡ length (xs ++ v ∷ []) % 2 ^ 64
  counted n xs v e =
      count_one_lem n (length xs) e ∙ ap (λ k. k % 2 ^ 64) (sym (length-append xs (v ∷ [])))

  send-IsConsistent :
      (q : Queue R) (h : History T) (v : T)
      → IsConsistent q h
      → IsConsistent (step q h (sends v)).0 (step q h (sends v)).1
  unfolding step after_send
  send-IsConsistent q h v c = elim (dec_lt (length (contents R q)) (size R q)) [
    | yes room ↦
        let s = try_send_room R q v room in
        rw s.1 (record {
          fifo =
              rw s.2
                (ap (λ xs. xs ++ v ∷ []) c.fifo ∙ append_assoc h.delivered (contents R q) (v ∷ []));
          within = omega (arith, ap length s.2, length-append (contents R q) (v ∷ []), s.3);
          sent = rw s.4 (counted q.metrics.sent h.accepted v c.sent);
          received = rw s.4 c.received;
          rejected = rw s.4 c.rejected;
        })
    | no full ↦ rw (try_send_full R q v (omega (arith, full))) (record {
      fifo = c.fifo;
      within = c.within;
      sent = c.sent;
      received = c.received;
      rejected = counted q.metrics.rejected h.refused v c.rejected;
    })
  ]

  recv-IsConsistent :
      (q : Queue R) (h : History T)
      → IsConsistent q h
      → IsConsistent (step q h receives).0 (step q h receives).1
  unfolding step after_recv
  recv-IsConsistent q h c = elim (List-cases (contents R q)) [
    | inl empty ↦ rw (try_recv_empty R q empty) c
    | inr front ↦
        let s = try_recv_front R q front.0 front.1 front.2 in
        rw s.1 (record {
          fifo = rw s.2 (
              c.fifo
              ∙ (ap (λ xs. h.delivered ++ xs) front.2
                  ∙ sym (append_assoc h.delivered (front.0 ∷ []) front.1)));
          within = omega (arith, ap length s.2, ap length front.2, s.3, c.within);
          sent = rw s.4 c.sent;
          received = rw s.4 (counted q.metrics.received h.delivered front.0 c.received);
          rejected = rw s.4 c.rejected;
        })
  ]

  play-IsConsistent :
      (q : Queue R) (h : History T) (cs : List (Call T))
      → IsConsistent q h
      → IsConsistent (play q h cs).0 (play q h cs).1
  unfolding play
  play-IsConsistent q h [] c = c
  play-IsConsistent q h (sends v ∷ cs) c =
      play-IsConsistent (step q h (sends v)).0 (step q h (sends v)).1 cs (send-IsConsistent q h v c)
  play-IsConsistent q h (receives ∷ cs) c =
      play-IsConsistent (step q h receives).0 (step q h receives).1 cs (recv-IsConsistent q h c)

  -- The reference: a list of at most `n` values. A value goes to its end if there is room, and is
  -- refused if not; a value is taken from its front.
  pub reference_step : ℕ → List T → History T → Call T → List T × History T
  reference_step n held h (sends v) =
      if ltb (length held) n
      then (held ++ v ∷ [], record h { accepted = h.accepted ++ v ∷ [] })
      else (held, record h { refused = h.refused ++ v ∷ [] })
  reference_step n [] h receives = ([], h)
  reference_step n (v ∷ held) h receives = (held, record h { delivered = h.delivered ++ v ∷ [] })

  pub reference : ℕ → List T → History T → List (Call T) → List T × History T
  reference n held h [] = (held, h)
  reference n held h (c ∷ cs) = let r = reference_step n held h c in reference n r.0 r.1 cs

  -- A queue of `n` places that holds the values of the reference.
  Holds : ℕ → Queue R → List T → Type 0
  Holds n q held = (size R q ≡ n) × (contents R q ≡ held)

  step-reference :
      (n : ℕ) (q : Queue R) (held : List T) (h : History T) (c : Call T)
      → Holds n q held
      → Holds n (step q h c).0 (reference_step n held h c).0
        × ((step q h c).1 ≡ (reference_step n held h c).1)
  unfolding step after_send after_recv reference_step Holds
  step-reference n q held h (sends v) (sized, same) = elim (Bool-cases (ltb (length held) n)) [
    | inl room ↦
        let s = try_send_room R q v (ground (arith, room, sized, ap length same)) in
        rw room (rw s.1 ((s.3 ∙ sized, s.2 ∙ ap (λ xs. xs ++ v ∷ []) same), refl))
    | inr full ↦
        let s = try_send_full R q v (ground (arith, full, sized, ap length same)) in
        rw full (rw s ((sized, same), refl))
  ]
  step-reference n q [] h receives (sized, same) =
      rw (try_recv_empty R q same) ((sized, same), refl)
  step-reference n q (x ∷ xs) h receives (sized, same) =
      let s = try_recv_front R q x xs same in rw s.1 ((s.3 ∙ sized, s.2), refl)

  play-reference :
      (n : ℕ) (q : Queue R) (held : List T) (h : History T) (cs : List (Call T))
      → Holds n q held
      → Holds n (play q h cs).0 (reference n held h cs).0
        × ((play q h cs).1 ≡ (reference n held h cs).1)
  unfolding play reference
  play-reference n q held h [] w = (w, refl)
  play-reference n q held h (c ∷ cs) w =
      let s = step-reference n q held h c w in
      let next = (reference_step n held h c).0 in
      subst
        (λ k.
          Holds n (play (step q h c).0 (step q h c).1 cs).0 (reference n next k cs).0
          × ((play (step q h c).0 (step q h c).1 cs).1 ≡ (reference n next k cs).1))
        s.1 (play-reference n (step q h c).0 next (step q h c).1 cs s.0)

  -- A queue that `bounded` gives has the places that were asked for, is empty and has counted nothing.
  pub bounded_some :
      (n : ℕ) (q : Queue R)
      → bounded R n ≡ some q
      → (size R q ≡ n)
        × (contents R q ≡ [])
        × (q.metrics ≡ record { rejected = 0; received = 0; sent = 0 })
  unfolding bounded
  bounded_some n q made =
      let same = guarded (n == 0) _ q made in
      (
        sym (ap (λ r. size R r) same) ∙ R.capacity-new n,
        sym (ap (λ r. contents R r) same) ∙ R.items-new n,
        sym (ap (λ r. r.metrics) same),
      )

  abbrev pub no_history : History T
  no_history = record { accepted = []; delivered = []; refused = [] }

  -- For a ring that keeps its documentation and any sequence of calls of the endpoints of a new queue
  -- of `n` places: what was taken, given and refused, in order, is what a list of at most `n` values
  -- takes, gives and refuses, and the rest waits within the `n` places; the counters hold how many
  -- values were sent, received and given back, modulo 2^64.
  pub bounded-play :
      (n : ℕ) (q : Queue R) (cs : List (Call T))
      → bounded R n ≡ some q
      → ((play q no_history cs).1 ≡ (reference n [] no_history cs).1)
        × (contents R (play q no_history cs).0 ≡ (reference n [] no_history cs).0)
        × (size R (play q no_history cs).0 ≡ n)
        × IsConsistent (play q no_history cs).0 (play q no_history cs).1
  unfolding Holds
  bounded-play n q cs made =
      let (sized, empty, zeros) = bounded_some n q made in
      let w = play-reference n q [] no_history cs (sized, empty) in
      (
        w.1,
        w.0.1,
        w.0.0,
        play-IsConsistent q no_history cs (record {
          fifo = sym empty;
          within = omega (arith, ap length empty);
          sent = rw zeros refl;
          received = rw zeros refl;
          rejected = rw zeros refl;
        }),
      )
