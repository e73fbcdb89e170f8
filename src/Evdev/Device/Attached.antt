-- ===== src/Evdev/Device/Attached.antt =====
-- The clients of an event device and its handle agree.
pub mod Release
pub mod Open
pub mod Grab
use my_posts.Prelude.{
  IsOnce, snoc-IsOnce, ℕ, ◌≡◌, Bool, true, false, Option, some, ◌==◌, if◌then◌else◌, length, has,
}
use my_posts.Prelude.Int.{pos}
use my_posts.Input.{InputDev}
use my_posts.Input.Handles.Count.{IsCounted}
use my_posts.Evdev.Device.{Evdev}

-- While the device exists, `open` counts the clients, and the handle is open once if there are any. The client
-- that has the grab is one of them, and then the handle has the grab of the input device.
pub record IsAttached (ev : Evdev) (dev : InputDev) : Type 0 where
  pub counted : IsCounted dev
  pub on_list : has ev.handle dev.h_list ≡ true
  pub once : IsOnce ev.client_list
  pub opens : ev.exist ≡ true → ev.open_count ≡ pos (length ev.client_list)
  pub opened :
      ev.exist ≡ true → dev.open_count ev.handle ≡ pos (if length ev.client_list == 0 then 0 else 1)
  pub grabbed :
      (k : ℕ) → ev.grab ≡ some k → (has k ev.client_list ≡ true) × (dev.grab ≡ some ev.handle)
