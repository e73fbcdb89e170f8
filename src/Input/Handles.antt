-- ===== src/Input/Handles.antt =====
-- The handles of a device: grabbing, opening and closing, and the device's end.
pub mod Count
pub mod Close
pub mod Releases
pub mod End
pub mod Reopen
use my_posts.Prelude.{
  ℕ, zero, suc, ◌+◌, ◌-◌, ◌%◌, ◌^◌, Bool, true, false, not, ◌&&◌, Option, none, some, List, [], ◌∷◌,
  ◌==◌, if◌then◌else◌, set, has,
}
use my_posts.Prelude.Int.{ℤ, pos, eqb_ℤ, ◌+ℤ◌, ◌-ℤ◌}
use my_posts.Input.{
  Call, start, flush, InputDev, Filters, emit, pass_event, is_event_supported, ev_syn, ev_key,
  ev_max, syn_report, key_max,
}

-- How a call ends: `interrupted` is what mutex_lock_interruptible returns on a signal, and `failed` what the
-- driver's function returns.
pub data Status : Type 0 where
  ok busy nodev interrupted failed invalid no_memory : Status

-- `input_grab_device`
unfoldable pub grab_device : Bool → InputDev → ℕ → Status × InputDev
grab_device signal dev h =
    let free : Status × InputDev = elim dev.grab [
      | some _ ↦ (busy, dev)
      | none ↦ (ok, record dev { grab = some h })
    ] in
    if signal then (interrupted, dev) else free

-- The calls of start for the open handles, `has_start` saying whose handler has one.
unfoldable pub start_calls : (ℕ → Bool) → (ℕ → ℤ) → List ℕ → List Call
start_calls has_start open_count [] = []
start_calls has_start open_count (h ∷ hs) =
    let rest = start_calls has_start open_count hs in
    if not (eqb_ℤ (open_count h) (pos 0)) && has_start h then start h ∷ rest else rest

-- `__input_release_device`
unfoldable pub release_device : (ℕ → Bool) → InputDev → ℕ → InputDev
unfolding start_calls
release_device has_start dev h =
    let mine = elim dev.grab as (λ _. Bool) [ none ↦ false | some g ↦ g == h ] in
    if mine
    then emit (record dev { grab = none }) (start_calls has_start dev.open_count dev.h_list)
    else dev

-- `input_open_device`, `users` an unsigned int; `driver_open` is the result of the driver's open function, if it has one.
unfoldable pub open_device : Option Bool → Bool → InputDev → ℕ → Status × InputDev
open_device driver_open signal dev h =
    let opened = record dev {
      open_count = set dev.open_count h (dev.open_count h +ℤ pos 1);
      users = (dev.users + 1) % 2 ^ 32;
    } in
    let undone = record opened {
      open_count = set opened.open_count h (opened.open_count h -ℤ pos 1);
      users = (opened.users + 2 ^ 32 - 1) % 2 ^ 32;
    } in
    let first : Status × InputDev = elim driver_open [
      | none ↦ (ok, opened)
      | some true ↦ (ok, record opened { running = true })
      | some false ↦ (failed, undone)
    ] in
    if signal
    then (interrupted, dev)
    else (if dev.going_away then (nodev, dev) else (if dev.users == 0 then first else (ok, opened)))

-- `input_flush_device`; `driver_flush` is the result of the driver's flush function, if it has one.
unfoldable pub flush_device : Option Bool → Bool → InputDev → Status × InputDev
flush_device driver_flush signal dev =
    let flushed : Status × InputDev = elim driver_flush [
      | none ↦ (ok, dev)
      | some true ↦ (ok, emit dev (flush ∷ []))
      | some false ↦ (failed, emit dev (flush ∷ []))
    ] in
    if signal then (interrupted, dev) else flushed

-- `input_close_device`; `users` is an unsigned int.
unfoldable pub close_device : (ℕ → Bool) → Bool → InputDev → ℕ → InputDev
unfolding release_device
close_device has_start has_close dev h =
    let released = release_device has_start dev h in
    let users = (released.users + 2 ^ 32 - 1) % 2 ^ 32 in
    record released {
      users = users;
      running = if (users == 0) && has_close then false else released.running;
      open_count = set released.open_count h (released.open_count h -ℤ pos 1);
    }

-- One round of `input_dev_release_keys`.
unfoldable pub release_key : Filters → InputDev → ℕ → InputDev
unfolding is_event_supported pass_event
release_key filters dev code =
    if is_event_supported code dev.keybit key_max && dev.key code
    then pass_event filters (record dev { key = set dev.key code false }) ev_key code (pos 0)
    else dev

-- The rounds for the codes below `n`.
unfoldable pub release_below : Filters → ℕ → InputDev → InputDev
unfolding release_key
release_below filters zero dev = dev
release_below filters (suc n) dev = release_key filters (release_below filters n dev) n

-- `input_dev_release_keys`
unfoldable pub release_keys : Filters → InputDev → InputDev
unfolding is_event_supported release_below pass_event
release_keys filters dev =
    if is_event_supported ev_key dev.evbit ev_max
    then pass_event filters (release_below filters (key_max + 1) dev) ev_syn syn_report (pos 1)
    else dev

-- `input_disconnect_device`
unfoldable pub disconnect_device : Filters → InputDev → InputDev
unfolding release_keys
disconnect_device filters dev =
    let released = release_keys filters (record dev { going_away = true }) in
    record released {
      open_count = λ h. if has h released.h_list then pos 0 else released.open_count h;
    }
