-- ===== src/Evdev/Queue.antt =====
-- The queue that a client's ring stands for: the events in order, of which the first `ready` belong to
-- complete packets and can be read.
pub mod Mask
pub mod Refine
pub mod Run
use my_posts.Prelude.{
  ℕ, zero, suc, ◌+◌, ◌-◌, ◌≤◌, ◌<◌, ◌≡◌, refl, Bool, true, false, Option, none, some, List, [], ◌∷◌,
  ◌++◌, ◌==◌, if◌then◌else◌, length, get_elem?,
}
use my_posts.Evdev.Ring.{Event, is_report, dropped}

pub record Queue : Type 0 where
  pub events : List Event
  pub ready : ℕ

-- A full queue drops all that it holds and says so by a mark in front of the new event.
unfoldable pub put : ℕ → Event → Queue → Queue
put bufsize e q =
    if length q.events + 1 == bufsize
    then record { events = dropped e.time ∷ e ∷ []; ready = 0 }
    else record q { events = q.events ++ (e ∷ []) }

-- With SYN_REPORT the packet is complete.
unfoldable pub pass : ℕ → Event → Queue → Queue
unfolding put
pass bufsize e q =
    let q' = put bufsize e q in if is_report e then record q' { ready = length q'.events } else q'

unfoldable pub take : Queue → Option Event × Queue
take q = elim q.events [
  | [] ↦ (none, q)
  | e ∷ es ↦
      if q.ready == 0 then (none, q) else (some e, record { events = es; ready = q.ready - 1 })
]
