-- ===== src/Evdev/Read/Rounds.antt =====
-- The rounds of the loop that reads, and what they deliver.
use mathlib.Core.Path.{subst}
use my_posts.Prelude.{
  ℕ, zero, suc, ◌+◌, ◌-◌, ◌*◌, ◌≤◌, ◌<◌, ◌≡◌, refl, sym, ap, ◌∙◌, Bool, true, false, Option, none,
  some, List, [], ◌∷◌, leb, ◌==◌, if◌then◌else◌, arith, drop,
}
use my_posts.Prelude.{take as first}
use my_posts.Evdev.Ring.{Event, Client, fetch_next_event}
use my_posts.Evdev.Queue.{Queue, take}
use my_posts.Evdev.Queue.Refine.{Holds, fetch_next_event-Holds}
use my_posts.Evdev.Read.{Outcome, done, efault, read_loop, prepend}

abbrev pub min : ℕ → ℕ → ℕ
min a b = if leb a b then a else b

-- The queue without its first `m` events, which were ready.
abbrev pub rest : ℕ → Queue → Queue
rest m q = record { events = drop m q.events; ready = q.ready - m }

-- A read that delivers the first `m` events.
pub record IsRead (q : Queue) (m bytes : ℕ) (o : Option (Outcome × Client)) : Type 0 where
  pub client : Client
  pub result : o ≡ some (done bytes (first m q.events), client)
  pub holds : Holds client (rest m q)

stopped :
    (copy : ℕ → Bool) (size count fuel retval : ℕ) (c : Client)
    → leb (retval + size) count ≡ false
    → read_loop copy size count (suc fuel) retval c ≡ some (done retval [], c)
unfolding read_loop
stopped copy size count fuel retval c x = rw x refl

-- What a round makes of the event that was fetched and of the rounds that follow.
abbrev pub after :
    Bool → ℕ → Option Event → Client → Option (Outcome × Client) → Option (Outcome × Client)
after writable retval o c more = elim o as (λ _. Option (Outcome × Client)) [
  | none ↦ some (done retval [], c)
  | some e ↦
      if writable
      then (elim more as (λ _. Option (Outcome × Client)) [
        | none ↦ none
        | some r ↦ some (prepend e r)
      ])
      else some (efault, c)
]

pub round :
    (copy : ℕ → Bool) (size count fuel retval : ℕ) (c : Client)
    → leb (retval + size) count ≡ true
    → read_loop copy size count (suc fuel) retval c
      ≡ after
          (copy retval)
          retval
          (fetch_next_event c).0
          (fetch_next_event c).1
          (read_loop copy size count fuel (retval + size) (fetch_next_event c).1)
unfolding read_loop
round copy size count fuel retval c x = rw x refl

-- Nothing is delivered.
none-IsRead :
    (q : Queue) (c : Client) (retval size k : ℕ) (o : Option (Outcome × Client))
    → k ≡ 0
    → Holds c q
    → o ≡ some (done retval [], c)
    → IsRead q k (retval + size * k) o
none-IsRead q c retval size k o z h e =
    let nothing : IsRead q 0 (retval + size * 0) o = record {
      client = c;
      result =
          rw e
            (ap (λ n. some (done n [], c)) (let w : retval ≡ retval + size * 0 = omega arith in w));
      holds =
          subst (λ n. Holds c (record { events = q.events; ready = n }))
            (let w : q.ready ≡ q.ready - 0 = omega arith in w) h;
    } in
    subst (λ j. IsRead q j (retval + size * j) o) (sym z) nothing

some-IsRead :
    (e : Event) (es : List Event) (k m retval size : ℕ) (c : Client)
    (more : Option (Outcome × Client))
    → IsRead (record { events = es; ready = k }) m (retval + size + size * m) more
    → IsRead
        (record { events = e ∷ es; ready = suc k })
        (suc m)
        (retval + size * suc m)
        (after true retval (some e) c more)
some-IsRead e es k m retval size c more r = record {
  client = r.client;
  result = rw r.result (
      ap (λ n. some (done n (e ∷ first m es), r.client))
        (let w : retval + size + size * m ≡ retval + size * suc m = omega arith in w));
  holds =
      subst (λ n. Holds r.client (record { events = drop m es; ready = n }))
        (let w : k - m ≡ suc k - suc m = omega arith in w) r.holds;
}

min-suc : (a b : ℕ) → min (suc a) (suc b) ≡ suc (min a b)
min-suc a b = ground arith

fits :
    (retval size room count : ℕ)
    → retval + size * suc room ≤ count
    → leb (retval + size) count ≡ true
fits retval size room count le =
    let e : size * suc room ≡ size + size * room = omega arith in ground (arith, e, le)

-- No complete packet is left.
caught_up :
    (copy : ℕ → Bool) (size count fuel retval k : ℕ) (c : Client) (q : Queue)
    → Holds c q
    → leb (retval + size) count ≡ true
    → take q ≡ (none, q)
    → k ≡ 0
    → IsRead q k (retval + size * k) (read_loop copy size count (suc fuel) retval c)
caught_up copy size count fuel retval k c q h x t z =
    let f = fetch_next_event-Holds c q h in
    let c' = (fetch_next_event c).1 in
    let more = read_loop copy size count fuel (retval + size) c' in
    none-IsRead q c' retval size k (read_loop copy size count (suc fuel) retval c) z
      (subst (λ p. Holds c' p) (ap (λ p. p.1) t) f.1)
      (round copy size count fuel retval c x
        ∙ ap (λ o. after (copy retval) retval o c' more) (f.0 ∙ ap (λ p. p.0) t))

take_nil :
    (k : ℕ) → take (record { events = []; ready = k }) ≡ (none, record { events = []; ready = k })
unfolding take
take_nil k = refl

take_unready :
    (e : Event) (es : List Event)
    → take (record { events = e ∷ es; ready = 0 }) ≡ (none, record { events = e ∷ es; ready = 0 })
unfolding take
take_unready e es = refl

take_ready :
    (e : Event) (es : List Event) (k : ℕ)
    → take (record { events = e ∷ es; ready = suc k }) ≡ (some e, record { events = es; ready = k })
unfolding take
take_ready e es k =
    let z : (suc k == 0) ≡ false = ground arith in
    let pred : suc k - 1 ≡ k = omega arith in rw (z, pred) refl

empty_ready : (c : Client) (k : ℕ) → Holds c (record { events = []; ready = k }) → k ≡ 0
empty_ready c k h = omega (arith, h.ready_in)

pub min_zero : (room k : ℕ) → k ≡ 0 → min room k ≡ 0
min_zero room k z = ground (arith, z)

fits_after :
    (retval size room count : ℕ)
    → retval + size * suc room ≤ count
    → retval + size + size * room ≤ count
fits_after retval size room count le =
    let e : size * suc room ≡ size + size * room = omega arith in omega (arith, e, le)

full_after :
    (retval size room count : ℕ)
    → count < retval + size * (suc room + 1)
    → count < retval + size + size * (room + 1)
full_after retval size room count lt =
    let e : size * (suc room + 1) ≡ size + size * (room + 1) = omega arith in omega (arith, e, lt)

-- The loop, by the events of the queue.
pub loop :
    (copy : ℕ → Bool) (size count fuel retval room : ℕ) (c : Client) (es : List Event) (k : ℕ)
    → ((n : ℕ) → copy n ≡ true)
    → Holds c (record { events = es; ready = k })
    → k < fuel
    → retval + size * room ≤ count
    → count < retval + size * (room + 1)
    → IsRead
        (record { events = es; ready = k })
        (min room k)
        (retval + size * min room k)
        (read_loop copy size count fuel retval c)
loop copy size count zero retval room c es k ok h f low high = ground (arith, f)
loop copy size count (suc fuel) retval zero c es k ok h f low high =
    let full : leb (retval + size) count ≡ false = ground (arith, high) in
    none-IsRead (record { events = es; ready = k }) c retval size (min zero k)
      (read_loop copy size count (suc fuel) retval c) (ground arith) h
      (stopped copy size count fuel retval c full)
loop copy size count (suc fuel) retval (suc room) c [] k ok h f low high =
    caught_up copy size count fuel retval (min (suc room) k) c (record { events = []; ready = k }) h
      (fits retval size room count low) (take_nil k) (min_zero (suc room) k (empty_ready c k h))
loop copy size count (suc fuel) retval (suc room) c (e ∷ es) zero ok h f low high =
    caught_up copy size count fuel retval (min (suc room) 0) c
      (record { events = e ∷ es; ready = 0 }) h (fits retval size room count low)
      (take_unready e es) (min_zero (suc room) 0 refl)
loop copy size count (suc fuel) retval (suc room) c (e ∷ es) (suc k) ok h f low high =
    let q : Queue = record { events = e ∷ es; ready = suc k } in
    let t = fetch_next_event-Holds c q h in
    let c' = (fetch_next_event c).1 in
    let more = read_loop copy size count fuel (retval + size) c' in
    let h' : Holds c' (record { events = es; ready = k }) =
      subst (λ p. Holds c' p) (ap (λ p. p.1) (take_ready e es k)) t.1 in
    let r =
      loop copy size count fuel (retval + size) room c' es k ok h' (omega (arith, f))
        (fits_after retval size room count low) (full_after retval size room count high) in
    let step : read_loop copy size count (suc fuel) retval c ≡ after true retval (some e) c' more =
      round copy size count fuel retval c (fits retval size room count low)
      ∙ ap (λ o. after (copy retval) retval o c' more) (t.0 ∙ ap (λ p. p.0) (take_ready e es k))
      ∙ ap (λ b. after b retval (some e) c' more) (ok retval) in
    subst (λ o. IsRead q (min (suc room) (suc k)) (retval + size * min (suc room) (suc k)) o)
      (sym step)
      (subst (λ j. IsRead q j (retval + size * j) (after true retval (some e) c' more))
        (sym (min-suc room k)) (some-IsRead e es k (min room k) retval size c' more r))
