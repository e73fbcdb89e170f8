-- ===== src/Evdev/Device/Size.antt =====
-- The size of a new client's ring.
use my_posts.Prelude.{ℕ, ◌*◌, ◌^◌, ◌≤◌, ◌≡◌, []}
use my_posts.Evdev.Queue.Refine.{Holds}
use my_posts.Evdev.Device.{new_client}

-- What roundup_pow_of_two returns: a power of two, not below its argument, which stays below 2 ^ 32 as long as
-- there is one that does.
pub record IsRounded (n r : ℕ) : Type 0 where
  pub exponent : ℕ
  pub power : r ≡ 2 ^ exponent
  pub above : n ≤ r
  pub small : n ≤ 2 ^ 31 → exponent ≤ 31

-- The ring of a new client.
pub record IsSized (hint size : ℕ) : Type 0 where
  pub least : 64 ≤ size
  pub packets : hint * 8 ≤ size
  pub empty : Holds (new_client size) (record { events = []; ready = 0 })
