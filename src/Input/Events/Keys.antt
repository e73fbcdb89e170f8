-- ===== src/Input/Events/Keys.antt =====
-- What a key's event does: EV_KEY with value 0 or 1.
use my_posts.Prelude.{
  ℕ, ◌≡◌, refl, inl, inr, Bool, true, false, not, ◌&&◌, none, some, ◌++◌, Bool-cases, if◌then◌else◌,
  set, set-absorb,
}
use my_posts.Input.{
  InputDev, Filters, ev_key, ev_rep, key_max, pass_event, pass_calls, is_event_supported,
}
use my_posts.Input.Events.{
  bit, nonzero, rep_delay, rep_period, handle_key, start_autorepeat, stop_autorepeat, decide,
  deliver, handle_event,
}

abbrev pub differ : Bool → Bool → Bool
differ a b = if a then not b else b

-- The device repeats keys by software.
abbrev pub repeats : InputDev → Bool
repeats dev =
    dev.evbit ev_rep && nonzero (dev.rep rep_period) && nonzero (dev.rep rep_delay) && dev.has_timer

module _ (filters : Filters) (is_mt_value : ℕ → Bool) (dev : InputDev) (code : ℕ)
    (down : Bool) where
  -- The handlers see a key's changes and nothing else of it; the repeat timer follows.
  pub record IsKeyHandled (dev' : InputDev) : Type 0 where
    pub tracked : (k : ℕ) → dev'.key k ≡ set dev.key code down k
    pub told : dev'.calls ≡ (
        if differ (dev.key code) down
        then dev.calls ++ pass_calls filters dev ev_key code (bit down)
        else dev.calls)
    pub timed : dev'.timer ≡ (
        if differ (dev.key code) down
        then (if down then (if repeats dev then some (dev.rep rep_delay) else dev.timer) else none)
        else dev.timer)

  -- The press or release of a supported key is recorded; it is passed to the handlers exactly if it
  -- changes the key's state; a change to pressed sets the repeat timer if the device repeats keys, a
  -- change to released stops it, and no change leaves it.
  pub handle_event-IsKeyHandled :
      is_event_supported code dev.keybit key_max ≡ true
      → IsKeyHandled (handle_event filters is_mt_value dev ev_key code (bit down))
  unfolding handle_event decide deliver handle_key start_autorepeat stop_autorepeat pass_event
      pass_calls
  handle_event-IsKeyHandled sup = elim (Bool-cases down) [
    | inl x ↦ elim (Bool-cases (dev.key code)) [
      | inl y ↦
          rw (sup, x, y)
            (record { tracked = set-absorb dev.key code true y; told = rw y; timed = rw y })
      | inr y ↦ elim (Bool-cases (repeats dev)) [
        | inl r ↦ rw (sup, x, y, r) (record { tracked = λ k. refl; told = rw y; timed = rw (y, r) })
        | inr r ↦ rw (sup, x, y, r) (record { tracked = λ k. refl; told = rw y; timed = rw (y, r) })
      ]
    ]
    | inr x ↦ elim (Bool-cases (dev.key code)) [
      | inl y ↦ rw (sup, x, y) (record { tracked = λ k. refl; told = rw y; timed = rw y })
      | inr y ↦
          rw (sup, x, y)
            (record { tracked = set-absorb dev.key code false y; told = rw y; timed = rw y })
    ]
  ]
