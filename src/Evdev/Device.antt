-- ===== src/Evdev/Device.antt =====
-- The event device between its clients and the handle on the input device: opening, grabbing, releasing, and
-- its end.
pub mod Attached
pub mod Deliver
pub mod Size
use my_posts.Prelude.{
  del, ℕ, zero, suc, ◌+◌, ◌*◌, ◌%◌, ◌^◌, Bool, true, false, not, ◌&&◌, Option, none, some, List, [],
  ◌∷◌, ◌++◌, ltb, leb, ◌==◌, if◌then◌else◌, set,
}
use my_posts.Prelude.Int.{ℤ, pos, eqb_ℤ, ◌+ℤ◌, ◌-ℤ◌}
use my_posts.Input.{InputDev, Filters}
use my_posts.Input.Events.{inject_event}
use my_posts.Input.Handles.{
  Status, ok, busy, nodev, interrupted, invalid, no_memory, grab_device, release_device,
  flush_device,
}
use my_posts.Input.Handles.{open_device as input_open_device, close_device as input_close_device}
use my_posts.Evdev.Ring.{Event, Client, is_report, pass_event}

-- `struct evdev`. The clients are named by numbers, and `client` holds what they are. `refs` counts the
-- references to the embedded device, `wakeups` the calls of wake_up_interruptible, and `hangups` are the
-- clients that were sent POLL_HUP.
pub record Evdev : Type 0 where
  pub open_count : ℤ
  pub exist : Bool
  pub grab : Option ℕ
  pub client_list : List ℕ
  pub client : ℕ → Client
  pub handle : ℕ
  pub refs : ℤ
  pub wakeups : ℕ
  pub hangups : List ℕ

abbrev pub evdev_minors : ℕ
evdev_minors = 32

abbrev pub is_ok : Status → Bool
is_ok ok = true
is_ok _ = false

abbrev pub holds : Option ℕ → ℕ → Bool
holds g k = elim g as (λ _. Bool) [ none ↦ false | some j ↦ j == k ]

-- The event goes to each of the clients listed.
unfoldable pub pass_clients : Event → (mono real : ℕ) → List ℕ → (ℕ → Client) → ℕ → Client
pass_clients e mono real [] client = client
pass_clients e mono real (k ∷ ks) client =
    pass_clients e mono real ks (set client k (pass_event (client k) e mono real))

-- `evdev_event`
unfoldable pub evdev_event : Evdev → Event → (mono real : ℕ) → Evdev
unfolding pass_clients
evdev_event ev e mono real = record ev {
  client = elim ev.grab [
    | some k ↦ set ev.client k (pass_event (ev.client k) e mono real)
    | none ↦ pass_clients e mono real ev.client_list ev.client
  ];
  wakeups = if is_report e then ev.wakeups + 1 else ev.wakeups;
}

-- `evdev_grab`
unfoldable pub grab : Bool → Evdev → InputDev → ℕ → Status × Evdev × InputDev
grab signal ev dev k =
    let r = grab_device signal dev ev.handle in
    let free : Status × Evdev × InputDev =
      if is_ok r.0 then (ok, record ev { grab = some k }, r.1) else (r.0, ev, r.1) in
    elim ev.grab [ some _ ↦ (busy, ev, dev) | none ↦ free ]

-- `evdev_ungrab`
unfoldable pub ungrab : (ℕ → Bool) → Evdev → InputDev → ℕ → Status × Evdev × InputDev
ungrab has_start ev dev k =
    if holds ev.grab k
    then (ok, record ev { grab = none }, release_device has_start dev ev.handle)
    else (invalid, ev, dev)

-- `evdev_attach_client`
abbrev pub attach_client : Evdev → ℕ → Evdev
attach_client ev k = record ev { client_list = ev.client_list ++ (k ∷ []) }

-- `evdev_detach_client`
unfoldable pub detach_client : Evdev → ℕ → Evdev
unfolding del
detach_client ev k = record ev { client_list = del k ev.client_list }

-- `evdev_open_device`; `signal` and `signal'` are the signals on the two mutexes.
unfoldable pub open_device :
    Option Bool → (signal signal' : Bool) → Evdev → InputDev → Status × Evdev × InputDev
open_device driver_open signal signal' ev dev =
    let r = input_open_device driver_open signal' dev ev.handle in
    let up : Evdev = record ev { open_count = ev.open_count +ℤ pos 1 } in
    let first : Status × Evdev × InputDev =
      if is_ok r.0
      then (ok, up, r.1)
      else (r.0, record up { open_count = up.open_count -ℤ pos 1 }, r.1) in
    if signal
    then (interrupted, ev, dev)
    else (if not ev.exist
        then (nodev, ev, dev)
        else (if eqb_ℤ ev.open_count (pos 0) then first else (ok, up, dev)))

-- `evdev_close_device`
unfoldable pub close_device : (ℕ → Bool) → Bool → Evdev → InputDev → Evdev × InputDev
close_device has_start has_close ev dev =
    let down : Evdev = record ev { open_count = ev.open_count -ℤ pos 1 } in
    let closed : Evdev × InputDev = (down, input_close_device has_start has_close dev ev.handle) in
    if ev.exist then (if eqb_ℤ down.open_count (pos 0) then closed else (down, dev)) else (ev, dev)

-- `evdev_hangup`
abbrev pub hangup : Evdev → Evdev
hangup ev = record ev { hangups = ev.hangups ++ ev.client_list; wakeups = ev.wakeups + 1 }

abbrev pub put_device : Evdev → Evdev
put_device ev = record ev { refs = ev.refs -ℤ pos 1 }

-- `evdev_release`
unfoldable pub release : (ℕ → Bool) → Bool → Evdev → InputDev → ℕ → Evdev × InputDev
unfolding ungrab detach_client close_device
release has_start has_close ev dev k =
    let u = ungrab has_start ev dev k in
    let freed : Evdev × InputDev = if holds ev.grab k then (u.1, u.2) else (ev, dev) in
    let c = close_device has_start has_close (detach_client freed.0 k) freed.1 in
    (put_device c.0, c.1)

-- `evdev_compute_buffer_size`
unfoldable pub compute_buffer_size : (roundup_pow_of_two : ℕ → ℕ) → (hint : ℕ) → ℕ
compute_buffer_size roundup_pow_of_two hint =
    let packets = hint * 8 % 2 ^ 32 in
    roundup_pow_of_two (if ltb packets 64 then 64 else packets) % 2 ^ 32

-- A client as kzalloc and evdev_open leave it.
abbrev pub new_client : ℕ → Client
new_client bufsize = record {
  head = 0;
  tail = 0;
  packet_head = 0;
  use_wake_lock = false;
  awake = false;
  signals = 0;
  clkid = 0;
  bufsize = bufsize;
  buffer = λ _. record { time = 0; type = 0; code = 0; value = pos 0 };
}

-- `evdev_open` of a device that was found; `k` names the client's memory, if there is any.
unfoldable pub open_found :
    Option Bool
    → (signal signal' : Bool) → ℕ
    → Option ℕ
    → Evdev
    → InputDev
    → Status × Evdev × InputDev
unfolding open_device detach_client
open_found driver_open signal signal' bufsize none ev dev = (no_memory, ev, dev)
open_found driver_open signal signal' bufsize (some k) ev dev =
    let made : Evdev = record ev { client = set ev.client k (new_client bufsize) } in
    let r = open_device driver_open signal signal' (attach_client made k) dev in
    if is_ok r.0 then r else (r.0, detach_client r.1 k, r.2)

-- `evdev_open`, with the table of the devices and their input devices.
unfoldable pub evdev_open :
    (ℕ → ℕ)
    → (hint : ℕ → ℕ) → Option Bool
    → (locked signal signal' : Bool) → Option ℕ
    → (ℕ → Option (Evdev × InputDev))
    → ℕ
    → Status × (ℕ → Option (Evdev × InputDev))
unfolding open_found compute_buffer_size
evdev_open roundup hint driver_open locked signal signal' k table i =
    let found : Status × (ℕ → Option (Evdev × InputDev)) = elim (table i) [
      | none ↦ (nodev, table)
      | some x ↦
          let held : Evdev = record x.0 { refs = x.0.refs +ℤ pos 1 } in
          let r =
            open_found driver_open signal signal' (compute_buffer_size roundup (hint i)) k held
              x.1 in
          let kept = if is_ok r.0 then r.1 else put_device r.1 in
          (r.0, set table i (some (kept, r.2)))
    ] in
    if leb evdev_minors i then (nodev, table) else (if locked then (interrupted, table) else found)

-- `evdev_cleanup`, with `evdev_mark_dead`; the entry of the table goes too.
unfoldable pub cleanup :
    (ℕ → Bool) → Bool → Option Bool → Bool → Evdev → InputDev → Evdev × InputDev
cleanup has_start has_close driver_flush signal ev dev =
    let dead = hangup (record ev { exist = false }) in
    let flushed = flush_device driver_flush signal dev in
    if eqb_ℤ ev.open_count (pos 0)
    then (dead, dev)
    else (dead, input_close_device has_start has_close flushed.1 ev.handle)
