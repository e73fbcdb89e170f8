-- ===== src/Evdev/Read/Loop.antt =====
-- The loop that reads ends, and reads the events that come first.
use mathlib.Core.Path.{subst}
use my_posts.Prelude.{
  ℕ, zero, suc, ◌+◌, ◌-◌, ◌*◌, ◌≤◌, ◌<◌, ◌≡◌, refl, ap, ◌∙◌, Bool, true, false, ◌&&◌, Option, none,
  some, [], ◌==◌, if◌then◌else◌, arith, le→ltb_false,
}
use my_posts.Prelude.{take as first}
use my_posts.Evdev.Ring.{Client}
use my_posts.Evdev.Queue.{Queue}
use my_posts.Evdev.Queue.Refine.{Holds}
use my_posts.Evdev.Read.{Outcome, done, eagain, read_loop, read}
use my_posts.Evdev.Read.Rounds.{min, IsRead, min_zero, loop}

product_le : (a b : ℕ) → 1 ≤ b → a ≤ a * b
product_le a zero h = ground (arith, h)
product_le a (suc b) h = let e : a * suc b ≡ a + a * b = omega arith in omega (arith, e)

-- What evdev_read makes of the loop's result.
abbrev concluded : Bool → Option (Outcome × Client) → Option (Outcome × Client)
concluded nonblock o = elim o as (λ _. Option (Outcome × Client)) [
  | none ↦ none
  | some r ↦ some (elim r.0 as (λ _. Outcome × Client) [
    | done n es ↦ if (n == 0) && nonblock then (eagain, r.1) else r
    | _ ↦ r
  ])
]

read_by :
    (copy : ℕ → Bool) (size count fuel : ℕ) (nonblock : Bool) (c : Client)
    → size ≤ count
    → read copy size count fuel nonblock false true c
      ≡ concluded nonblock (read_loop copy size count fuel 0 c)
unfolding read
read_by copy size count fuel true c le = rw (le→ltb_false count size le) refl
read_by copy size count fuel false c le = rw (le→ltb_false count size le) refl

said :
    (nonblock : Bool) (c : Client)
    → concluded nonblock (some (done 0 [], c)) ≡ some ((if nonblock then eagain else done 0 []), c)
said true c = refl
said false c = refl

-- evdev_read without ready events, on a device that exists and with room for an event, leaves the
-- queue alone and returns EAGAIN to a reader that does not wait, and 0 bytes to one that does.
pub read-empty :
    (copy : ℕ → Bool) (size count fuel room : ℕ) (nonblock : Bool) (c : Client) (q : Queue)
    → ((n : ℕ) → copy n ≡ true)
    → Holds c q
    → 1 ≤ fuel
    → 1 ≤ room
    → size * room ≤ count
    → count < size * (room + 1)
    → q.ready ≡ 0
    → (c' : Client) × (read copy size count fuel nonblock false true c
        ≡ some ((if nonblock then eagain else done 0 []), c'))
      × Holds c' q
read-empty copy size count fuel room nonblock c q ok h f some_room low high z =
    let m : min room q.ready ≡ 0 = min_zero room q.ready z in
    let r =
      loop copy size count fuel 0 room c q.events q.ready ok h (omega (arith, f, z))
        (omega (arith, low)) (omega (arith, high)) in
    let r0 = subst (λ j. IsRead q j (0 + size * j) (read_loop copy size count fuel 0 c)) m r in
    let sized : 0 + size * 0 ≡ 0 = omega arith in
    let enough : size ≤ count = omega (arith, product_le size room some_room, low) in
    (
      r0.client,
      (read_by copy size count fuel nonblock c enough
          ∙ ap (concluded nonblock) (r0.result ∙ ap (λ n. some (done n [], r0.client)) sized)
          ∙ said nonblock r0.client),
      subst (λ n. Holds r0.client (record { events = q.events; ready = n }))
          (let w : q.ready - 0 ≡ q.ready = omega arith in w) r0.holds,
    )
