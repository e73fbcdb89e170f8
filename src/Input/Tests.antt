-- ===== src/Input/Tests.antt =====
-- A keyboard with the key 30, and two handles.
use my_posts.Prelude.{
  ℕ, ◌≡◌, refl, true, false, none, some, [], ◌∷◌, arith, ◌==◌, if◌then◌else◌, ◌||◌,
}
use my_posts.Prelude.Int.{pos, eqb_ℤ, quot, times, ◌≤ℤ◌}
use my_posts.Input.{event, InputDev, Filters, ev_key, pass_calls, is_event_supported}
use my_posts.Input.Defuzz.{IsBetween, within, defuzz_abs_event, defuzz_abs_event_lem}
use my_posts.Input.Events.{handle_event, bit}
use my_posts.Input.Events.Quiet.{handle_event-quiet}
use my_posts.Input.Events.Keys.{IsKeyHandled, handle_event-IsKeyHandled}
use my_posts.Input.Handles.{open_device, close_device, disconnect_device}
use my_posts.Input.Handles.Close.{IsClosed, close_device-IsClosed}
use my_posts.Input.Handles.Count.{IsCounted, IsOpened, open_device-IsOpened}
use my_posts.Input.Handles.Reopen.{pass_calls-close_device}
use my_posts.Input.Handles.End.{
  IsDisconnected, disconnect_device-IsDisconnected, pass_calls-disconnect_device,
}

-- Handle 9 is open, handle 3 is not.
abbrev pub keyboard : InputDev
keyboard = record {
  evbit = λ n. (n == 0) || (n == 1);
  keybit = λ n. n == 30;
  relbit = λ _. false;
  absbit = λ _. false;
  mscbit = λ _. false;
  ledbit = λ _. false;
  sndbit = λ _. false;
  swbit = λ _. false;
  key = λ n. n == 30;
  led = λ _. false;
  snd = λ _. false;
  sw = λ _. false;
  rep = λ _. pos 0;
  abs = λ _. pos 0;
  fuzz = λ _. pos 0;
  mt = none;
  mtsize = 0;
  slot = 0;
  sync = true;
  repeat_key = 0;
  has_timer = false;
  timer = none;
  has_event = false;
  grab = none;
  h_list = 9 ∷ 3 ∷ [];
  open_count = λ h. if h == 9 then pos 1 else pos 0;
  users = 1;
  going_away = false;
  running = true;
  calls = [];
}

keyboard_natural : (h : ℕ) → pos 0 ≤ℤ keyboard.open_count h
keyboard_natural h = ground arith

pub keyboard-IsCounted : IsCounted keyboard
keyboard-IsCounted = record { once = (refl, (refl, _)); natural = keyboard_natural; counted = refl }

abbrev no_filters : Filters
no_filters = λ _. none

defuzz_abs_event_lem_example :
    IsBetween (pos 100) (defuzz_abs_event (pos 103) (pos 100) (pos 4)) (pos 103)
    × (eqb_ℤ (pos 4) (pos 0) ≡ true → defuzz_abs_event (pos 103) (pos 100) (pos 4) ≡ pos 103)
    × (eqb_ℤ (pos 4) (pos 0) ≡ false
        → within (pos 103) (pos 100) (quot (pos 4) 2) ≡ true
        → defuzz_abs_event (pos 103) (pos 100) (pos 4) ≡ pos 100)
    × (pos 0 ≤ℤ pos 4
        → within (pos 103) (pos 100) (times 2 (pos 4)) ≡ false
        → defuzz_abs_event (pos 103) (pos 100) (pos 4) ≡ pos 103)
defuzz_abs_event_lem_example =
    defuzz_abs_event_lem (pos 103) (pos 100) (pos 4) (omega arith, omega arith)
      (omega arith, omega arith) (omega arith, omega arith)

-- Key 31 is not one of the keyboard's.
handle_event-quiet_example :
    (handle_event no_filters (λ _. false) keyboard ev_key 31 (pos 1)).calls ≡ []
unfolding handle_event
handle_event-quiet_example =
    handle_event-quiet no_filters (λ _. false) keyboard ev_key 31 (pos 1) refl
      (λ e. ground (arith, e)) refl

handle_event-IsKeyHandled_example :
    IsKeyHandled no_filters
      (λ _. false)
      keyboard
      30
      false
      (handle_event no_filters (λ _. false) keyboard ev_key 30 (bit false))
unfolding is_event_supported
handle_event-IsKeyHandled_example =
    handle_event-IsKeyHandled no_filters (λ _. false) keyboard 30 false refl

open_device-IsOpened_example : IsOpened keyboard 3 (open_device (some true) false keyboard 3)
open_device-IsOpened_example =
    open_device-IsOpened keyboard 3 keyboard-IsCounted refl (omega arith) (some true) false

close_device-IsClosed_example : IsClosed keyboard 9 (close_device (λ _. false) true keyboard 9)
close_device-IsClosed_example =
    close_device-IsClosed (λ _. false) true keyboard 9 keyboard-IsCounted refl (omega arith)
      (omega arith)

disconnect_device-IsDisconnected_example :
    IsDisconnected no_filters keyboard (disconnect_device no_filters keyboard)
disconnect_device-IsDisconnected_example = disconnect_device-IsDisconnected no_filters keyboard refl

pass_calls-disconnect_device_example :
    pass_calls no_filters (disconnect_device no_filters keyboard) ev_key 30 (pos 1) ≡ []
pass_calls-disconnect_device_example =
    pass_calls-disconnect_device no_filters keyboard ev_key 30 (pos 1)

-- Handle 9 is closed when the keyboard has gone, and gets events again.
pass_calls-close_device_example :
    pass_calls no_filters
      (close_device (λ _. false) true (disconnect_device no_filters keyboard) 9)
      ev_key
      30
      (pos 1)
    ≡ event 9 ev_key 30 (pos 1) ∷ []
pass_calls-close_device_example =
    pass_calls-close_device no_filters (λ _. false) true keyboard 9 ev_key 30 (pos 1) refl
      (refl, (refl, _)) refl refl
