-- ===== src/Evdev/Ring.antt =====
-- The ring of one client: `struct evdev_client` and the functions that work under its buffer_lock.
use my_posts.Prelude.{
  ℕ, ◌+◌, ◌-◌, ◌%◌, ◌^◌, Bool, true, false, not, ◌&&◌, Option, none, some, ◌==◌, if◌then◌else◌, set,
}
use my_posts.Prelude.Int.{ℤ, pos}

pub record Event : Type 0 where
  pub time : ℕ
  pub type : ℕ
  pub code : ℕ
  pub value : ℤ

abbrev pub ev_syn : ℕ
ev_syn = 0

abbrev pub syn_report : ℕ
syn_report = 0

abbrev pub syn_dropped : ℕ
syn_dropped = 3

abbrev pub clock_monotonic : ℕ
clock_monotonic = 1

-- `awake` says that the wake lock is held, and `signals` counts the calls of kill_fasync with POLL_IN.
pub record Client : Type 0 where
  pub head : ℕ
  pub tail : ℕ
  pub packet_head : ℕ
  pub use_wake_lock : Bool
  pub awake : Bool
  pub signals : ℕ
  pub clkid : ℕ
  pub bufsize : ℕ
  pub buffer : ℕ → Event

-- `x & (bufsize - 1)`, for a `bufsize` that is a power of two, on an unsigned int.
abbrev pub mask : ℕ → ℕ → ℕ
mask bufsize x = x % 2 ^ 32 % bufsize

abbrev pub is_report : Event → Bool
is_report e = (e.type == ev_syn) && (e.code == syn_report)

-- The event with the time of the client's clock.
unfoldable pub stamp : Client → Event → (mono real : ℕ) → Event
stamp c e mono real = record e { time = if c.clkid == clock_monotonic then mono else real }

abbrev pub dropped : ℕ → Event
dropped time = record { time = time; type = ev_syn; code = syn_dropped; value = pos 0 }

-- The event goes to the head of the ring.
unfoldable pub store : Client → Event → Client
store c e = record c { buffer = set c.buffer c.head e; head = mask c.bufsize (c.head + 1) }

-- The ring has run over: only a mark and the newest event stay.
unfoldable pub overrun : Client → Event → Client
overrun c e =
    let tail = mask c.bufsize (c.head + 2 ^ 32 - 2) in
    record c {
      tail = tail;
      buffer = set c.buffer tail (dropped e.time);
      packet_head = tail;
      awake = if c.use_wake_lock then false else c.awake;
    }

-- The packet is complete.
unfoldable pub report : Client → Client
report c = record c {
  packet_head = c.head;
  awake = if c.use_wake_lock then true else c.awake;
  signals = c.signals + 1;
}

unfoldable pub pass_event : Client → Event → (mono real : ℕ) → Client
unfolding stamp store overrun report
pass_event c event mono real =
    let e = stamp c event mono real in
    let stored = store c e in
    let kept = if stored.head == stored.tail then overrun stored e else stored in
    if is_report e then report kept else kept

unfoldable pub fetch_next_event : Client → Option Event × Client
fetch_next_event c =
    let tail = mask c.bufsize (c.tail + 1) in
    let c' = record c {
      tail = tail;
      awake = if c.use_wake_lock && (c.packet_head == tail) then false else c.awake;
    } in
    if c.packet_head == c.tail then (none, c) else (some (c.buffer c.tail), c')

unfoldable pub enable_suspend_block : Client → Client
enable_suspend_block c =
    let ready = not (c.packet_head == c.tail) in
    if c.use_wake_lock then c else record c { use_wake_lock = true; awake = ready }

unfoldable pub disable_suspend_block : Client → Client
disable_suspend_block c =
    if c.use_wake_lock then record c { use_wake_lock = false; awake = false } else c
