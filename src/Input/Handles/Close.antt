-- ===== src/Input/Handles/Close.antt =====
-- Giving the grab back, and closing a handle.
use mathlib.Core.Option.{some-injective}
use my_posts.Prelude.{
  ℕ, ◌+◌, ◌^◌, ◌≤◌, ◌<◌, ◌≡◌, ◌≢◌, refl, ap, ◌∙◌, inl, inr, Bool, true, false, Option, none, some,
  List, [], ◌∷◌, ◌==◌, arith, Bool-cases, if◌then◌else◌, set, set-same, set-other, has,
}
use my_posts.Prelude.Int.{ℤ, pos, pos_part, ◌-ℤ◌, ◌≤ℤ◌}
use my_posts.Input.{Call, InputDev, emit}
use my_posts.Input.Handles.{close_device, release_device, start_calls}
use my_posts.Input.Handles.Count.{total, IsCounted, recount, down_one}

-- What closing leaves.
pub record IsClosed (dev : InputDev) (h : ℕ) (dev' : InputDev) : Type 0 where
  pub valid : IsCounted dev'
  pub users : dev'.users + 1 ≡ dev.users
  pub count : dev'.open_count h ≡ dev.open_count h -ℤ pos 1
  pub others : (k : ℕ) → k ≢ h → dev'.open_count k ≡ dev.open_count k
  pub h_list : dev'.h_list ≡ dev.h_list
  pub ungrabbed : dev'.grab ≢ some h

-- The device with the rest of its state as before.
pub record IsReleased (dev : InputDev) (h : ℕ) (d : InputDev) : Type 0 where
  pub ungrabbed : d.grab ≢ some h
  pub h_list : d.h_list ≡ dev.h_list
  pub open_count : d.open_count ≡ dev.open_count
  pub users : d.users ≡ dev.users

-- Whether the handle has the grab.
abbrev is_mine : Option ℕ → ℕ → Bool
is_mine g h = elim g as (λ _. Bool) [ none ↦ false | some k ↦ k == h ]

not_mine : (g : Option ℕ) (h : ℕ) → is_mine g h ≡ false → g ≢ some h
not_mine none h e w = ground (arith, w)
not_mine (some k) h e w = let same = some-injective k h w in ground (arith, e, same)

if-IsReleased :
    (dev : InputDev) (h : ℕ) (cs : List Call) (mine : Bool)
    → (mine ≡ false → dev.grab ≢ some h)
    → IsReleased dev h (if mine then emit (record dev { grab = none }) cs else dev)
if-IsReleased dev h cs true other = record {
  ungrabbed = λ w. ground (arith, w);
  h_list = refl;
  open_count = refl;
  users = refl;
}
if-IsReleased dev h cs false other = record {
  ungrabbed = other refl;
  h_list = refl;
  open_count = refl;
  users = refl;
}

pub release_device-IsReleased :
    (has_start : ℕ → Bool) (dev : InputDev) (h : ℕ)
    → IsReleased dev h (release_device has_start dev h)
unfolding release_device
release_device-IsReleased has_start dev h =
    if-IsReleased dev h (start_calls has_start dev.open_count dev.h_list) (is_mine dev.grab h)
      (not_mine dev.grab h)

-- The openings of a handle on the list are among those counted.
total-le : (f : ℕ → ℤ) (h : ℕ) (hs : List ℕ) → has h hs ≡ true → pos_part (f h) ≤ total f hs
total-le f h [] i = ground (arith, i)
total-le f h (k ∷ hs) i = elim (Bool-cases (k == h)) [
  | inl x ↦ let e : k ≡ h = ground arith in omega (arith, ap (λ w. pos_part (f w)) e)
  | inr x ↦ omega (arith, total-le f h hs (ground arith))
]

-- input_close_device through an open handle on the device's list keeps users equal to the openings
-- of all handles, takes one from users and from this handle's openings and from no other's, and
-- leaves the handle without the grab. The device has fewer than 2 ^ 32 users.
pub close_device-IsClosed :
    (has_start : ℕ → Bool) (has_close : Bool) (dev : InputDev) (h : ℕ)
    → IsCounted dev
    → has h dev.h_list ≡ true
    → pos 1 ≤ℤ dev.open_count h
    → dev.users < 2 ^ 32
    → IsClosed dev h (close_device has_start has_close dev h)
unfolding close_device
close_device-IsClosed has_start has_close dev h c i one small =
    let r = release_device-IsReleased has_start dev h in
    let at : (k : ℕ) → (release_device has_start dev h).open_count k ≡ dev.open_count k =
      λ k. ap (λ f. f k) r.open_count in
    let d = down_one (dev.open_count h) one in
    let le = total-le dev.open_count h dev.h_list i in
    let users : (close_device has_start has_close dev h).users + 1 ≡ dev.users =
      omega (arith, le, c.counted, d.1, r.users) in
    let counts : (close_device has_start has_close dev h).open_count
        ≡ set dev.open_count h (dev.open_count h -ℤ pos 1) =
      ap (λ f. set f h (f h -ℤ pos 1)) r.open_count in
    record {
      valid =
          recount dev (close_device has_start has_close dev h) h (dev.open_count h -ℤ pos 1) c i d.0
            r.h_list counts (omega (arith, users, d.1));
      users = users;
      count = ap (λ f. f h) counts ∙ set-same dev.open_count h (dev.open_count h -ℤ pos 1);
      others = λ k ne.
          ap (λ f. f k) counts ∙ set-other dev.open_count h k (dev.open_count h -ℤ pos 1) ne;
      h_list = r.h_list;
      ungrabbed = r.ungrabbed;
    }
