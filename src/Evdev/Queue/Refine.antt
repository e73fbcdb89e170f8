-- ===== src/Evdev/Queue/Refine.antt =====
-- A client's ring behaves as its queue.
use mathlib.Core.Option.{some-injective}
use my_posts.Prelude.{
  ℕ, zero, suc, ◌+◌, ◌-◌, ◌^◌, ◌≤◌, ◌<◌, ◌≡◌, refl, sym, ap, ◌∙◌, inl, inr, true, false, not, ◌&&◌,
  some, List, [], ◌∷◌, ◌++◌, ◌==◌, if◌then◌else◌, length, get_elem?, get_elem?-snoc, get_elem?-lt,
  length-append, set, set-same, set-other, arith, Bool-cases,
}
use my_posts.Evdev.Ring.{
  Event, Client, mask, is_report, dropped, stamp, store, overrun, report, pass_event,
  fetch_next_event,
}
use my_posts.Evdev.Queue.{Queue, put, pass, take}
use my_posts.Evdev.Queue.Mask.{wrap, Divides, mask-wrap, mask_back}

-- The ring holds the queue.
pub record Holds (c : Client) (q : Queue) : Type 0 where
  pub size : Divides c.bufsize
  pub tail_in : c.tail < c.bufsize
  pub few : length q.events < c.bufsize
  pub head_at : c.head ≡ wrap c.bufsize (c.tail + length q.events)
  pub ready_in : q.ready ≤ length q.events
  pub packet_at : c.packet_head ≡ wrap c.bufsize (c.tail + q.ready)
  pub entry :
      (i : ℕ) (e : Event)
      → get_elem? q.events i ≡ some e
      → c.buffer (wrap c.bufsize (c.tail + i)) ≡ e
  pub wake : c.use_wake_lock ≡ true → c.awake ≡ not (q.ready == 0)

-- One event more, in a ring that has room for it.
store-Holds :
    (c : Client) (q : Queue) (e : Event)
    → Holds c q
    → length q.events + 1 < c.bufsize
    → Holds (store c e) (record q { events = q.events ++ (e ∷ []) })
unfolding store
store-Holds c q e h room =
    let n = length q.events in
    let len : length (q.events ++ (e ∷ [])) ≡ n + 1 =
      length-append q.events (e ∷ []) ∙ omega arith in
    let head_in : c.head < c.bufsize = ground (arith, h.head_at, h.few, h.tail_in) in
    let m = mask-wrap c.bufsize (c.head + 1) h.size (omega (arith, head_in, h.size.big)) in
    record {
      size = h.size;
      tail_in = h.tail_in;
      few = rw len room;
      head_at = rw len (m ∙ ground (arith, h.head_at, h.tail_in, h.few));
      ready_in = rw len (omega (arith, h.ready_in));
      packet_at = h.packet_at;
      entry = λ i x g. elim (get_elem?-snoc q.events e x i g) [
        | inl (lt, old) ↦
            set-other c.buffer c.head (wrap c.bufsize (c.tail + i)) e
              (λ w. ground (arith, w, h.head_at, h.tail_in, h.few, lt))
            ∙ h.entry i x old
        | inr (at_end, same) ↦
            let p : wrap c.bufsize (c.tail + i) ≡ c.head =
              ap (λ k. wrap c.bufsize (c.tail + k)) at_end ∙ sym h.head_at in
            ap (λ k. set c.buffer c.head e k) p ∙ set-same c.buffer c.head e ∙ same
      ];
      wake = h.wake;
    }

-- The head meets the tail exactly if the ring had one free place.
store-head :
    (c : Client) (q : Queue) (e : Event)
    → Holds c q
    → ((store c e).head == (store c e).tail) ≡ (length q.events + 1 == c.bufsize)
unfolding store
store-head c q e h =
    let head_in : c.head < c.bufsize = ground (arith, h.head_at, h.few, h.tail_in) in
    let m = mask-wrap c.bufsize (c.head + 1) h.size (omega (arith, head_in, h.size.big)) in
    ground (arith, m, h.head_at, h.tail_in, h.few)

pair_entry :
    (f : ℕ → Event) (b t : ℕ) (x y : Event)
    → f (wrap b (t + 0)) ≡ x
    → f (wrap b (t + 1)) ≡ y
    → (i : ℕ) (z : Event) → get_elem? (x ∷ y ∷ []) i ≡ some z
    → f (wrap b (t + i)) ≡ z
pair_entry f b t x y p q zero z g = p ∙ some-injective x z g
pair_entry f b t x y p q (suc zero) z g = q ∙ some-injective y z g
pair_entry f b t x y p q (suc (suc i)) z g = ground (arith, g)

overrun-Holds :
    (c : Client) (q : Queue) (e : Event)
    → Holds c q
    → length q.events + 1 ≡ c.bufsize
    → Holds (overrun (store c e) e) (record { events = dropped e.time ∷ e ∷ []; ready = 0 })
unfolding overrun store
overrun-Holds c q e h full =
    let b = c.bufsize in
    let head_in : c.head < b = ground (arith, h.head_at, h.few, h.tail_in) in
    let m = mask-wrap b (c.head + 1) h.size (omega (arith, head_in, h.size.big)) in
    let at_tail : mask b (c.head + 1) ≡ c.tail = m ∙ ground (arith, h.head_at, h.tail_in, full) in
    let new : mask b (mask b (c.head + 1) + 2 ^ 32 - 2) ≡ wrap b (c.tail + b - 2) =
      ap (λ z. mask b (z + 2 ^ 32 - 2)) at_tail ∙ mask_back b c.tail h.size h.tail_in in
    let t = mask b (mask b (c.head + 1) + 2 ^ 32 - 2) in
    let t_in : t < b = ground (arith, new, h.tail_in, h.size.big) in
    let one : wrap b (t + 1) ≡ c.head =
      ground (arith, new, h.tail_in, h.size.big, h.head_at, full) in
    let two : wrap b (t + 2) ≡ mask b (c.head + 1) =
      ground (arith, new, at_tail, h.tail_in, h.size.big) in
    let here : wrap b (t + 0) ≡ t = ground (arith, t_in) in
    let stored = set c.buffer c.head e in
    record {
      size = h.size;
      tail_in = t_in;
      few = omega (arith, h.size.big);
      head_at = sym two;
      ready_in = omega arith;
      packet_at = ground (arith, t_in);
      entry =
          pair_entry (set stored t (dropped e.time)) b t (dropped e.time) e
            (ap (set stored t (dropped e.time)) here ∙ set-same stored t (dropped e.time))
            (ap (set stored t (dropped e.time)) one
              ∙ set-other stored t c.head (dropped e.time)
                  (λ w. ground (arith, w, new, h.tail_in, h.size.big, h.head_at, full))
              ∙ set-same c.buffer c.head e);
      wake = λ u. rw u;
    }

report-Holds :
    (c : Client) (q : Queue)
    → Holds c q
    → 1 ≤ length q.events
    → Holds (report c) (record q { ready = length q.events })
unfolding report
report-Holds c q h some_left = record {
  size = h.size;
  tail_in = h.tail_in;
  few = h.few;
  head_at = h.head_at;
  ready_in = omega arith;
  packet_at = h.head_at;
  entry = h.entry;
  wake = λ u. rw u (ground (arith, some_left));
}

length-put : (b : ℕ) (e : Event) (q : Queue) → 1 ≤ length (put b e q).events
unfolding put
length-put b e q = elim (Bool-cases (length q.events + 1 == b)) [
  | inl x ↦ rw x (omega arith)
  | inr x ↦ rw x (omega (arith, length-append q.events (e ∷ [])))
]

-- What pass_event does before it looks for SYN_REPORT.
abbrev kept : Client → Event → Client
kept c e = if (store c e).head == (store c e).tail then overrun (store c e) e else store c e

put-Holds : (c : Client) (q : Queue) (e : Event) → Holds c q → Holds (kept c e) (put c.bufsize e q)
unfolding put
put-Holds c q e h = elim (Bool-cases (length q.events + 1 == c.bufsize)) [
  | inl x ↦ rw (store-head c q e h, x) (overrun-Holds c q e h (ground arith))
  | inr x ↦ rw (store-head c q e h, x) (store-Holds c q e h (ground (arith, h.few)))
]

-- A client's ring that holds a queue of events holds, after evdev_pass_event, the queue with the
-- event added as the client's clock stamps it: a queue that would fill the ring is replaced by a
-- SYN_DROPPED mark and the event, and with SYN_REPORT all events become ready. The wake lock,
-- where the client uses one, is held exactly if events are ready. The ring has at least 3 places,
-- and its size divides 2 ^ 32 and is at most half of it.
pub pass_event-Holds :
    (c : Client) (q : Queue) (event : Event) (mono real : ℕ)
    → Holds c q
    → Holds (pass_event c event mono real) (pass c.bufsize (stamp c event mono real) q)
unfolding pass_event pass
pass_event-Holds c q event mono real h =
    let e = stamp c event mono real in
    let p = put-Holds c q e h in
    elim (Bool-cases (is_report e)) [
      | inl x ↦ rw x (report-Holds (kept c e) (put c.bufsize e q) p (length-put c.bufsize e q))
      | inr x ↦ rw x p
    ]

-- The reader has caught up exactly if no complete packet is left.
pub packet_head-ready :
    (c : Client) (q : Queue) → Holds c q → (c.packet_head == c.tail) ≡ (q.ready == 0)
packet_head-ready c q h = ground (arith, h.packet_at, h.ready_in, h.few, h.tail_in)

-- The first of several events is read.
advance-Holds :
    (c : Client) (e : Event) (es : List Event) (k : ℕ)
    → Holds c (record { events = e ∷ es; ready = suc k })
    → let tail = mask c.bufsize (c.tail + 1) in
      Holds
        (record c {
          tail = tail;
          awake = if c.use_wake_lock && (c.packet_head == tail) then false else c.awake;
        })
        (record { events = es; ready = k })
advance-Holds c e es k h =
    let b = c.bufsize in
    let m : mask b (c.tail + 1) ≡ wrap b (c.tail + 1) =
      mask-wrap b (c.tail + 1) h.size (omega (arith, h.tail_in, h.size.big)) in
    let t = mask b (c.tail + 1) in
    let t_in : t < b = ground (arith, m, h.tail_in) in
    let few : length es + 1 < b = omega (arith, h.few) in
    let step : (i : ℕ) → i < length es + 1 → wrap b (t + i) ≡ wrap b (c.tail + suc i) =
      λ i lt. ground (arith, m, h.tail_in, few, lt) in
    let at : c.packet_head ≡ wrap b (t + k) =
      h.packet_at ∙ sym (step k (omega (arith, h.ready_in))) in
    let caught : (c.packet_head == t) ≡ (k == 0) = ground (arith, at, t_in, h.ready_in, few) in
    record {
      size = h.size;
      tail_in = t_in;
      few = omega (arith, few);
      head_at = h.head_at ∙ sym (step (length es) (omega arith));
      ready_in = omega (arith, h.ready_in);
      packet_at = at;
      entry = λ i x g.
          ap c.buffer (step i (omega (arith, get_elem?-lt es x i g))) ∙ h.entry (suc i) x g;
      wake = λ u. rw (caught, u) (ground (arith, h.wake u));
    }

fetch-Holds :
    (c : Client) (es : List Event) (k : ℕ)
    → Holds c (record { events = es; ready = k })
    → ((fetch_next_event c).0 ≡ (take (record { events = es; ready = k })).0)
      × Holds (fetch_next_event c).1 (take (record { events = es; ready = k })).1
unfolding fetch_next_event take
fetch-Holds c [] k h =
    let e : (c.packet_head == c.tail) ≡ true =
      ground (arith, packet_head-ready c (record { events = []; ready = k }) h, h.ready_in) in
    rw e (refl, h)
fetch-Holds c (x ∷ es) zero h =
    rw (packet_head-ready c (record { events = x ∷ es; ready = 0 }) h) (refl, h)
fetch-Holds c (x ∷ es) (suc k) h =
    let z : (suc k == 0) ≡ false = ground arith in
    let first : c.buffer c.tail ≡ x =
      ap c.buffer (let w : c.tail ≡ wrap c.bufsize (c.tail + 0) = ground (arith, h.tail_in) in w)
      ∙ h.entry 0 x refl in
    let pred : suc k - 1 ≡ k = omega arith in
    rw (packet_head-ready c (record { events = x ∷ es; ready = suc k }) h, z, pred)
      (ap (λ y. some y) first, advance-Holds c x es k h)

-- evdev_fetch_next_event on a ring that holds a queue returns the queue's first event if it is
-- ready, and none otherwise; the ring then holds the queue without it.
pub fetch_next_event-Holds :
    (c : Client) (q : Queue)
    → Holds c q
    → ((fetch_next_event c).0 ≡ (take q).0) × Holds (fetch_next_event c).1 (take q).1
fetch_next_event-Holds c q h = fetch-Holds c q.events q.ready h
