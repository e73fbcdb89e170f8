-- ===== src/Evdev/Write.antt =====
-- How a client sends events to the device: evdev_write.
use my_posts.Prelude.{
  ℕ, zero, suc, ◌+◌, ◌*◌, ◌≤◌, ◌<◌, ◌≡◌, refl, ap, ◌∙◌, Bool, true, false, Option, none, some, List,
  [], ◌∷◌, ltb, leb, if◌then◌else◌, arith, length, le→ltb_false,
}
use my_posts.Input.{InputDev, Filters}
use my_posts.Input.Events.{inject_event}
use my_posts.Evdev.Ring.{Event}

-- What a write returns: the bytes taken, or an error.
pub data Written : Type 0 where
  taken : ℕ → Written
  einval enodev efault erestart : Written

module _ (filters : Filters) (is_mt_value : ℕ → Bool) (from_user : ℕ → Option Event)
    (size count h : ℕ) where
  -- The loop of `evdev_write`, through the handle `h`; `from_user` reads an event at an offset of the user's
  -- buffer.
  unfoldable pub write_loop : (fuel retval : ℕ) → InputDev → Option (Written × InputDev)
  unfolding inject_event
  write_loop zero retval dev = none
  write_loop (suc fuel) retval dev = elim (from_user retval) [
    | none ↦ some (efault, dev)
    | some e ↦
        let injected = inject_event filters is_mt_value dev h e.type e.code e.value in
        let rest = write_loop fuel (retval + size) injected in
        if leb (retval + size + size) count then rest else some (taken (retval + size), injected)
  ]

  -- `evdev_write`; `interrupted` is a signal at the mutex.
  unfoldable pub write :
      (fuel : ℕ) (interrupted exist : Bool) → InputDev → Option (Written × InputDev)
  unfolding write_loop
  write fuel interrupted exist dev =
      let looped = write_loop fuel 0 dev in
      if ltb count size
      then some (einval, dev)
      else (if interrupted
          then some (erestart, dev)
          else (if exist then looped else some (enodev, dev)))

  -- The events in turn.
  abbrev pub inject_all : List Event → InputDev → InputDev
  unfolding inject_event
  inject_all [] dev = dev
  inject_all (e ∷ es) dev =
      inject_all es (inject_event filters is_mt_value dev h e.type e.code e.value)

  -- The events that stand in the user's buffer from an offset on.
  abbrev pub IsBuffer : ℕ → List Event → Type 0
  IsBuffer retval [] = Unit
  IsBuffer retval (e ∷ es) = (from_user retval ≡ some e) × IsBuffer (retval + size) es

  -- A round in which an event can be read.
  round :
      (fuel retval : ℕ) (e : Event) (dev : InputDev)
      → from_user retval ≡ some e
      → let injected = inject_event filters is_mt_value dev h e.type e.code e.value in
        write_loop (suc fuel) retval dev ≡ (
          if leb (retval + size + size) count
          then write_loop fuel (retval + size) injected
          else some (taken (retval + size), injected))
  unfolding write_loop
  round fuel retval e dev b =
      ap
        (λ o. elim o as (λ _. Option (Written × InputDev)) [
          | none ↦ some (efault, dev)
          | some x ↦
              let injected = inject_event filters is_mt_value dev h x.type x.code x.value in
              let rest = write_loop fuel (retval + size) injected in
              if leb (retval + size + size) count
              then rest
              else some (taken (retval + size), injected)
        ])
        b

  loop_lem :
      (fuel retval : ℕ) (e : Event) (es : List Event) (dev : InputDev)
      → IsBuffer retval (e ∷ es)
      → length es < fuel
      → retval + size * (length es + 1) ≤ count
      → count < retval + size * (length es + 2)
      → write_loop fuel retval dev
        ≡ some (taken (retval + size * (length es + 1)), inject_all (e ∷ es) dev)
  unfolding inject_all
  loop_lem zero retval e es dev b f low high = ground (arith, f)
  loop_lem (suc fuel) retval e [] dev b f low high =
      let n : retval + size * (0 + 1) ≡ retval + size = omega arith in
      let stop : leb (retval + size + size) count ≡ false =
        let m : size * (0 + 2) ≡ size + size = omega arith in ground (arith, m, high) in
      round fuel retval e dev b.0 ∙ rw (stop, n) refl
  loop_lem (suc fuel) retval e (x ∷ es) dev b f low high =
      let n = length es in
      let p : size * (suc n + 1) ≡ size + size * (n + 1) = omega arith in
      let q : size * (suc n + 2) ≡ size + size * (n + 2) = omega arith in
      let r : size * (n + 1) ≡ size + size * n = omega arith in
      let more : leb (retval + size + size) count ≡ true = ground (arith, p, r, low) in
      let total : retval + size + size * (n + 1) ≡ retval + size * (suc n + 1) = omega (arith, p) in
      let injected = inject_event filters is_mt_value dev h e.type e.code e.value in
      let rest =
        loop_lem fuel (retval + size) x es injected b.1 (omega (arith, f)) (omega (arith, p, low))
          (omega (arith, q, high)) in
      round fuel retval e dev b.0
      ∙ rw more (rest ∙ ap (λ k. some (taken k, inject_all (x ∷ es) injected)) total)

  -- evdev_write of one or more events that can be read from the user's buffer, on a device that
  -- exists, without a signal, ends after one round for each event, injects them in order through the
  -- handle, and returns their size in bytes; what is left over of the buffer is less than an event.
  pub write_lem :
      (fuel : ℕ) (e : Event) (es : List Event) (dev : InputDev)
      → IsBuffer 0 (e ∷ es)
      → length es < fuel
      → size * (length es + 1) ≤ count
      → count < size * (length es + 2)
      → write fuel false true dev ≡ some (taken (size * (length es + 1)), inject_all (e ∷ es) dev)
  unfolding write
  write_lem fuel e es dev b f low high =
      let r : size * (length es + 1) ≡ size + size * length es = omega arith in
      let enough : size ≤ count = omega (arith, r, low) in
      let z : 0 + size * (length es + 1) ≡ size * (length es + 1) = omega arith in
      rw (le→ltb_false count size enough) (
        loop_lem fuel 0 e es dev b f (omega (arith, low)) (omega (arith, high))
        ∙ ap (λ k. some (taken k, inject_all (e ∷ es) dev)) z)
