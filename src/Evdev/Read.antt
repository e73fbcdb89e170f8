-- ===== src/Evdev/Read.antt =====
-- How a client reads its events, and what poll says of it: evdev_read and evdev_poll.
pub mod Rounds
pub mod Loop
use my_posts.Prelude.{
  ℕ, zero, suc, ◌+◌, ◌≤◌, Bool, true, false, not, ◌&&◌, Option, none, some, List, [], ◌∷◌, ltb, leb,
  ◌==◌, if◌then◌else◌,
}
use my_posts.Evdev.Ring.{Event, Client, fetch_next_event}

-- What a read returns: the bytes and the events in them, or an error.
pub data Outcome : Type 0 where
  done : ℕ → List Event → Outcome
  einval enodev eagain efault erestart : Outcome

abbrev pub prepend : Event → Outcome × Client → Outcome × Client
prepend e r = elim r.0 as (λ _. Outcome × Client) [
  | done n es ↦ (done n (e ∷ es), r.1)
  | einval ↦ (einval, r.1)
  | enodev ↦ (enodev, r.1)
  | eagain ↦ (eagain, r.1)
  | efault ↦ (efault, r.1)
  | erestart ↦ (erestart, r.1)
]

-- The loop of `evdev_read`; `copy` says at which offsets the user's buffer can be written.
unfoldable pub read_loop :
    (ℕ → Bool) → (size count fuel retval : ℕ) → Client → Option (Outcome × Client)
read_loop copy size count zero retval c = none
read_loop copy size count (suc fuel) retval c =
    let fetched = fetch_next_event c in
    let rest = read_loop copy size count fuel (retval + size) fetched.1 in
    let next : Option (Outcome × Client) = elim fetched.0 [
      | none ↦ some (done retval [], fetched.1)
      | some e ↦
          if copy retval
          then (elim rest as (λ _. Option (Outcome × Client)) [
            | none ↦ none
            | some r ↦ some (prepend e r)
          ])
          else some (efault, fetched.1)
    ] in
    if leb (retval + size) count then next else some (done retval [], c)

-- `evdev_read`; `interrupted` is what the wait returns, and `c` is the client as the wait leaves it.
unfoldable pub read :
    (copy : ℕ → Bool) (size count fuel : ℕ) (nonblock interrupted exist : Bool)
    → Client
    → Option (Outcome × Client)
unfolding read_loop
read copy size count fuel nonblock interrupted exist c =
    let looped = read_loop copy size count fuel 0 c in
    let none_yet : Outcome × Client → Outcome × Client = λ r. elim r.0 as (λ _. Outcome × Client) [
      | done n es ↦ if (n == 0) && nonblock then (eagain, r.1) else r
      | _ ↦ r
    ] in
    let checked : Option (Outcome × Client) =
      if exist
      then (elim looped as (λ _. Option (Outcome × Client)) [
        | none ↦ none
        | some r ↦ some (none_yet r)
      ])
      else some (enodev, c) in
    if ltb count size
    then some (einval, c)
    else (if not nonblock && interrupted then some (erestart, c) else checked)

-- The bits of `evdev_poll`: the device can be written, it has hung up, and there is something to read.
pub record Poll : Type 0 where
  pub out : Bool
  pub hup : Bool
  pub input : Bool

unfoldable pub poll : Bool → Client → Poll
poll exist c = record { out = exist; hup = not exist; input = not (c.packet_head == c.tail) }
