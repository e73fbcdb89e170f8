-- ===== src/Evdev/Tests.antt =====
-- A client with a ring of 64 events, and an event device with one handle.
use my_posts.Prelude.{◌==◌, ◌≡◌, refl, true, false, none, some, [], arith}
use my_posts.Prelude.Int.{pos}
use my_posts.Input.{InputDev}
use my_posts.Input.Handles.{open_device as input_open_device}
use my_posts.Input.Tests.{keyboard, keyboard-IsCounted}
use my_posts.Evdev.Queue.Run.{Step, passed, fetched, enabled, disabled, run, run_queue, run-Holds}
use my_posts.Evdev.Device.Attached.Grab.{IsGrabbed, grab-IsGrabbed}
use my_posts.Evdev.Device.Deliver.{receives, evdev_event_lem}
use my_posts.Evdev.Device.{grab, evdev_event}
use my_posts.Prelude.{ℕ, List, Option, ◌∷◌, if◌then◌else◌, ◌^◌, leb}
use my_posts.Evdev.Ring.{Event, Client, stamp, pass_event}
use my_posts.Evdev.Queue.{Queue, pass}
use my_posts.Evdev.Queue.Mask.{Divides}
use my_posts.Evdev.Queue.Refine.{Holds, pass_event-Holds}
use my_posts.Evdev.Device.{Evdev, new_client, open_found, release}
use my_posts.Evdev.Device.Attached.{IsAttached}
use my_posts.Evdev.Device.Attached.Open.{open_found-IsJoined}
use my_posts.Evdev.Device.Attached.Release.{IsFreed, release-IsFreed}

abbrev empty : Queue
empty = record { events = []; ready = 0 }

ring : Divides 64
ring = record { big = omega arith; small = omega arith; rounds = 0x3ffffff; divides = refl }

new-Holds : Holds (new_client 64) empty
new-Holds = record {
  size = ring;
  tail_in = omega arith;
  few = omega arith;
  head_at = refl;
  ready_in = omega arith;
  packet_at = refl;
  entry = λ i e g. ground (arith, g);
  wake = λ e. ground (arith, e);
}

abbrev report_event : Event
report_event = record { time = 0; type = 0; code = 0; value = pos 0 }

-- The client with one report.
abbrev one : Client
one = pass_event (new_client 64) report_event 5 7

abbrev one_ready : Queue
one_ready = pass 64 (stamp (new_client 64) report_event 5 7) empty

pass_event-Holds_example : Holds one one_ready
pass_event-Holds_example = pass_event-Holds (new_client 64) empty report_event 5 7 new-Holds

-- The event device of handle 3, without clients and with client 4.
abbrev closed : Evdev
closed = record {
  open_count = pos 0;
  exist = true;
  grab = none;
  client_list = [];
  client = λ _. new_client 64;
  handle = 3;
  refs = pos 1;
  wakeups = 0;
  hangups = [];
}

closed-IsAttached : IsAttached closed keyboard
closed-IsAttached = record {
  counted = keyboard-IsCounted;
  on_list = refl;
  once = _;
  opens = λ e. refl;
  opened = λ e. refl;
  grabbed = λ k e. ground (arith, e);
}

abbrev opened : Evdev
unfolding open_found
opened = (open_found (some true) false false 64 (some 4) closed keyboard).1

abbrev in_use : InputDev
unfolding open_found
in_use = (open_found (some true) false false 64 (some 4) closed keyboard).2

opened-IsAttached : IsAttached opened in_use
unfolding opened open_found in_use
opened-IsAttached =
    (open_found-IsJoined closed keyboard 4 64 closed-IsAttached refl (omega arith) (some true) false
      false).attached

release-IsFreed_example : IsFreed opened 4 (release (λ _. false) true opened in_use 4)
unfolding opened input_open_device in_use
release-IsFreed_example =
    release-IsFreed (λ _. false) true opened in_use 4 opened-IsAttached refl (omega arith)

-- A report, read twice, with the suspend block in between.
abbrev steps : List Step
steps = passed report_event 5 7 ∷ enabled ∷ fetched ∷ fetched ∷ disabled ∷ []

run-Holds_example :
    ((run steps (new_client 64)).0 ≡ (run_queue 64 0 steps empty).0)
    × Holds (run steps (new_client 64)).1 (run_queue 64 0 steps empty).1
run-Holds_example = run-Holds steps (new_client 64) empty new-Holds

grab-IsGrabbed_example : IsGrabbed opened in_use 4 (grab false opened in_use 4)
unfolding opened input_open_device in_use
grab-IsGrabbed_example = grab-IsGrabbed opened in_use 4 opened-IsAttached refl false

-- Of two clients one has the grab.
abbrev grabbed : Evdev
grabbed = record closed { client_list = 4 ∷ 5 ∷ []; grab = some 5 }

evdev_event_lem_example :
    (evdev_event grabbed report_event 5 7).client 4
    ≡ (if receives grabbed 4 then pass_event (new_client 64) report_event 5 7 else new_client 64)
evdev_event_lem_example = evdev_event_lem report_event 5 7 grabbed 4 (refl, (refl, _))

-- Two events of 24 bytes.
abbrev from_user : ℕ → Option Event
from_user n = if n == 0 then some report_event else (if n == 24 then some report_event else none)

-- A power of two that is never below its argument.
abbrev roundup : ℕ → ℕ
roundup n = 2 ^ (if leb n (2 ^ 31) then 31 else n)
