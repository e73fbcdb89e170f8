-- ===== src/Evdev/Queue/Run.antt =====
-- Any sequence of the steps that a client's buffer_lock keeps apart.
use mathlib.Core.Path.{subst}
use my_posts.Prelude.{
  ℕ, ◌≡◌, refl, ap, ◌∙◌, inl, inr, Bool, true, false, not, Option, List, [], ◌∷◌, ◌==◌,
  if◌then◌else◌, arith, Bool-cases, if_both,
}
use my_posts.Evdev.Ring.{
  Event, Client, stamp, store, overrun, report, pass_event, fetch_next_event, enable_suspend_block,
  disable_suspend_block, is_report, clock_monotonic,
}
use my_posts.Evdev.Queue.{Queue, pass, take}
use my_posts.Evdev.Queue.Refine.{Holds, pass_event-Holds, fetch_next_event-Holds, packet_head-ready}

-- An event passed by the device at a time of each clock, a fetch by a reader, and the suspend block.
pub data Step : Type 0 where
  passed : Event → (mono real : ℕ) → Step
  fetched : Step
  enabled : Step
  disabled : Step

-- The steps on a client, with what the fetches return.
unfoldable pub run : List Step → Client → List (Option Event) × Client
run [] c = ([], c)
run (passed e mono real ∷ ss) c = run ss (pass_event c e mono real)
run (fetched ∷ ss) c = let f = fetch_next_event c in let r = run ss f.1 in (f.0 ∷ r.0, r.1)
run (enabled ∷ ss) c = run ss (enable_suspend_block c)
run (disabled ∷ ss) c = run ss (disable_suspend_block c)

-- The same on a queue.
unfoldable pub run_queue : (bufsize clkid : ℕ) → List Step → Queue → List (Option Event) × Queue
run_queue bufsize clkid [] q = ([], q)
run_queue bufsize clkid (passed e mono real ∷ ss) q =
    run_queue bufsize clkid ss
      (pass bufsize (record e { time = if clkid == clock_monotonic then mono else real }) q)
run_queue bufsize clkid (fetched ∷ ss) q =
    let t = take q in let r = run_queue bufsize clkid ss t.1 in (t.0 ∷ r.0, r.1)
run_queue bufsize clkid (enabled ∷ ss) q = run_queue bufsize clkid ss q
run_queue bufsize clkid (disabled ∷ ss) q = run_queue bufsize clkid ss q

-- No step changes the clock or the size of the ring.
record IsKept (c d : Client) : Type 0 where
  pub clkid : d.clkid ≡ c.clkid
  pub bufsize : d.bufsize ≡ c.bufsize

pass_event-IsKept : (c : Client) (e : Event) (mono real : ℕ) → IsKept c (pass_event c e mono real)
unfolding pass_event store overrun report
pass_event-IsKept c e mono real =
    let s = stamp c e mono real in
    let stored = store c s in
    let kept : Client = if stored.head == stored.tail then overrun stored s else stored in
    let k : IsKept c kept =
      if_both (IsKept c) (stored.head == stored.tail) (overrun stored s) stored
        (record { clkid = refl; bufsize = refl }) (record { clkid = refl; bufsize = refl }) in
    if_both (IsKept c) (is_report s) (report kept) kept
      (record { clkid = k.clkid; bufsize = k.bufsize }) k

fetch_next_event-IsKept : (c : Client) → IsKept c (fetch_next_event c).1
unfolding fetch_next_event
fetch_next_event-IsKept c = elim (Bool-cases (c.packet_head == c.tail)) [
  | inl x ↦ rw x (record { clkid = refl; bufsize = refl })
  | inr x ↦ rw x (record { clkid = refl; bufsize = refl })
]

enable_suspend_block-IsKept : (c : Client) → IsKept c (enable_suspend_block c)
unfolding enable_suspend_block
enable_suspend_block-IsKept c =
    if_both (IsKept c) c.use_wake_lock c
      (record c { use_wake_lock = true; awake = not (c.packet_head == c.tail) })
      (record { clkid = refl; bufsize = refl }) (record { clkid = refl; bufsize = refl })

disable_suspend_block-IsKept : (c : Client) → IsKept c (disable_suspend_block c)
unfolding disable_suspend_block
disable_suspend_block-IsKept c =
    if_both (IsKept c) c.use_wake_lock (record c { use_wake_lock = false; awake = false }) c
      (record { clkid = refl; bufsize = refl }) (record { clkid = refl; bufsize = refl })

-- Only the wake lock changes.
relocked :
    (c : Client) (q : Queue) (lock awake : Bool)
    → Holds c q
    → (lock ≡ true → awake ≡ not (q.ready == 0))
    → Holds (record c { use_wake_lock = lock; awake = awake }) q
relocked c q lock awake h w = record {
  size = h.size;
  tail_in = h.tail_in;
  few = h.few;
  head_at = h.head_at;
  ready_in = h.ready_in;
  packet_at = h.packet_at;
  entry = h.entry;
  wake = w;
}

enable_suspend_block-Holds : (c : Client) (q : Queue) → Holds c q → Holds (enable_suspend_block c) q
unfolding enable_suspend_block
enable_suspend_block-Holds c q h =
    let awake = not (c.packet_head == c.tail) in
    if_both (λ d. Holds d q) c.use_wake_lock c (record c { use_wake_lock = true; awake = awake }) h
      (relocked c q true awake h (λ e. ap not (packet_head-ready c q h)))

disable_suspend_block-Holds :
    (c : Client) (q : Queue) → Holds c q → Holds (disable_suspend_block c) q
unfolding disable_suspend_block
disable_suspend_block-Holds c q h =
    if_both (λ d. Holds d q) c.use_wake_lock (record c { use_wake_lock = false; awake = false }) c
      (relocked c q false false h (λ e. ground (arith, e))) h

abbrev Agree : (bufsize clkid : ℕ) → List Step → Client → Queue → Type 0
Agree bufsize clkid ss c q =
    ((run ss c).0 ≡ (run_queue bufsize clkid ss q).0)
    × Holds (run ss c).1 (run_queue bufsize clkid ss q).1

carried :
    (c d : Client) (ss : List Step) (q : Queue)
    → IsKept c d
    → Agree d.bufsize d.clkid ss d q
    → Agree c.bufsize c.clkid ss d q
carried c d ss q k g =
    subst (λ b. Agree b c.clkid ss d q) k.bufsize (subst (λ n. Agree d.bufsize n ss d q) k.clkid g)

-- Over any sequence of events passed, events fetched and the suspend block set or cleared, a
-- client returns to its readers what its queue returns, and its ring goes on holding the queue.
pub run-Holds :
    (ss : List Step) (c : Client) (q : Queue)
    → Holds c q
    → ((run ss c).0 ≡ (run_queue c.bufsize c.clkid ss q).0)
      × Holds (run ss c).1 (run_queue c.bufsize c.clkid ss q).1
unfolding run run_queue stamp
run-Holds [] c q h = (refl, h)
run-Holds (passed e mono real ∷ ss) c q h =
    let d = pass_event c e mono real in
    let q' = pass c.bufsize (stamp c e mono real) q in
    carried c d ss q' (pass_event-IsKept c e mono real)
      (run-Holds ss d q' (pass_event-Holds c q e mono real h))
run-Holds (fetched ∷ ss) c q h =
    let f = fetch_next_event-Holds c q h in
    let r =
      carried c (fetch_next_event c).1 ss (take q).1 (fetch_next_event-IsKept c)
        (run-Holds ss (fetch_next_event c).1 (take q).1 f.1) in
    (ap (λ o. o ∷ (run ss (fetch_next_event c).1).0) f.0 ∙ ap (λ os. (take q).0 ∷ os) r.0, r.1)
run-Holds (enabled ∷ ss) c q h =
    carried c (enable_suspend_block c) ss q (enable_suspend_block-IsKept c)
      (run-Holds ss (enable_suspend_block c) q (enable_suspend_block-Holds c q h))
run-Holds (disabled ∷ ss) c q h =
    carried c (disable_suspend_block c) ss q (disable_suspend_block-IsKept c)
      (run-Holds ss (disable_suspend_block c) q (disable_suspend_block-Holds c q h))
