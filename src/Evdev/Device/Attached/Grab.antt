-- ===== src/Evdev/Device/Attached/Grab.antt =====
-- A client that grabs the device, and gives it back.
use my_posts.Prelude.{
  ℕ, ◌≡◌, ◌≢◌, refl, sym, ap, ◌∙◌, Bool, true, false, Option, none, some, if◌then◌else◌, has, arith,
}
use mathlib.Core.Option.{some-injective}
use my_posts.Input.{InputDev}
use my_posts.Input.Handles.{Status, ok, busy, interrupted, grab_device}
use my_posts.Evdev.Device.{Evdev, is_ok, grab}
use my_posts.Evdev.Device.Attached.{IsAttached}

-- What an attempt to grab leaves.
pub record IsGrabbed (ev : Evdev) (dev : InputDev) (k : ℕ) (r : Status × Evdev × InputDev)
    : Type 0 where
  pub attached : IsAttached r.1 r.2
  pub has_it :
      r.0 ≡ ok
      → (r.1.grab ≡ some k) × (r.2.grab ≡ some ev.handle) × (dev.grab ≡ none) × (ev.grab ≡ none)
  pub refused : r.0 ≢ ok → (r.1 ≡ ev) × (r.2 ≡ dev)

module _ (ev : Evdev) (dev : InputDev) (k : ℕ) (a : IsAttached ev dev)
    (i : has k ev.client_list ≡ true) where
  abbrev grabbing : Option ℕ → Option ℕ → Bool → Status × Evdev × InputDev
  grabbing g dg signal =
      let r : Status × InputDev =
        if signal then (interrupted, dev) else (elim dg as (λ _. Status × InputDev) [
          | some _ ↦ (busy, dev)
          | none ↦ (ok, record dev { grab = some ev.handle })
        ]) in
      let free : Status × Evdev × InputDev =
        if is_ok r.0 then (ok, record ev { grab = some k }, r.1) else (r.0, ev, r.1) in
      elim g as (λ _. Status × Evdev × InputDev) [ some _ ↦ (busy, ev, dev) | none ↦ free ]

  refusal : (s : Status) → s ≢ ok → IsGrabbed ev dev k (s, ev, dev)
  refusal s ne = record { attached = a; has_it = λ e. elim (ne e) [ ]; refused = λ e. (refl, refl) }

  cases :
      (g dg : Option ℕ) (signal : Bool)
      → ev.grab ≡ g
      → dev.grab ≡ dg
      → IsGrabbed ev dev k (grabbing g dg signal)
  cases (some j) dg signal e de = refusal busy (λ w. ground (arith, w))
  cases none dg true e de = refusal interrupted (λ w. ground (arith, w))
  cases none (some j) false e de = refusal busy (λ w. ground (arith, w))
  cases none none false e de = record {
    attached = record {
      counted = record {
        once = a.counted.once;
        natural = a.counted.natural;
        counted = a.counted.counted;
      };
      on_list = a.on_list;
      once = a.once;
      opens = a.opens;
      opened = a.opened;
      grabbed = λ j w. (ap (λ n. has n ev.client_list) (sym (some-injective k j w)) ∙ i, refl);
    };
    has_it = λ w. (refl, refl, de, e);
    refused = λ ne. elim (ne refl) [ ];
  }

  -- evdev_grab by a client on the list, on a device whose clients and handle agree, leaves them in
  -- agreement. With success neither the event device nor the input device was grabbed, the client
  -- has the grab and the handle has that of the input device; otherwise nothing changes.
  pub grab-IsGrabbed : (signal : Bool) → IsGrabbed ev dev k (grab signal ev dev k)
  unfolding grab grab_device
  grab-IsGrabbed signal = cases ev.grab dev.grab signal refl refl
