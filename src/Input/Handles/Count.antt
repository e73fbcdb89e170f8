-- ===== src/Input/Handles/Count.antt =====
-- `users` counts the openings of all handles.
use mathlib.Core.Path.{subst}
use my_posts.Prelude.{
  IsOnce, ℕ, ◌+◌, ◌-◌, ◌%◌, ◌^◌, ◌<◌, ◌≡◌, ◌≢◌, refl, sym, ap, ◌∙◌, inl, inr, Bool, true, false,
  Option, none, some, List, [], ◌∷◌, ◌==◌, arith, Bool-cases, if_both, if◌then◌else◌, set, set-same,
  set-other, has,
}
use my_posts.Prelude.Int.{ℤ, pos, negsuc, pos_part, ◌+ℤ◌, ◌-ℤ◌, ◌≤ℤ◌}
use my_posts.Input.{InputDev}
use my_posts.Input.Handles.{Status, ok, nodev, failed, open_device}

-- The openings of the handles on a list.
abbrev pub total : (ℕ → ℤ) → List ℕ → ℕ
total f [] = 0
total f (h ∷ hs) = pos_part (f h) + total f hs

pub record IsCounted (dev : InputDev) : Type 0 where
  pub once : IsOnce dev.h_list
  pub natural : (h : ℕ) → pos 0 ≤ℤ dev.open_count h
  pub counted : dev.users ≡ total dev.open_count dev.h_list

-- A count outside the list does not matter.
total-absent :
    (f : ℕ → ℤ) (h : ℕ) (z : ℤ) (hs : List ℕ) → has h hs ≡ false → total (set f h z) hs ≡ total f hs
total-absent f h z [] out = refl
total-absent f h z (k ∷ hs) out =
    let e = ap pos_part (set-other f h k z (λ w. ground (arith, out, w))) in
    omega (arith, e, total-absent f h z hs (ground arith))

total-set :
    (f : ℕ → ℤ) (h : ℕ) (z : ℤ) (hs : List ℕ)
    → IsOnce hs
    → has h hs ≡ true
    → total (set f h z) hs + pos_part (f h) ≡ total f hs + pos_part z
total-set f h z [] once i = ground (arith, i)
total-set f h z (k ∷ hs) once i = elim (Bool-cases (k == h)) [
  | inl x ↦
      let e : k ≡ h = ground arith in
      let out : has h hs ≡ false = subst (λ w. has w hs ≡ false) e once.0 in
      let at_k : pos_part (set f h z k) ≡ pos_part z =
        ap (λ w. pos_part (if w then z else f k)) x in
      omega (arith, at_k, ap (λ w. pos_part (f w)) e, total-absent f h z hs out)
  | inr x ↦
      let at_k = ap pos_part (set-other f h k z (ground arith)) in
      omega (arith, at_k, total-set f h z hs once.1 (ground arith))
]

-- Another count for the handle `h`.
pub recount :
    (dev dev' : InputDev) (h : ℕ) (z : ℤ)
    → IsCounted dev
    → has h dev.h_list ≡ true
    → pos 0 ≤ℤ z
    → dev'.h_list ≡ dev.h_list
    → dev'.open_count ≡ set dev.open_count h z
    → dev'.users + pos_part (dev.open_count h) ≡ dev.users + pos_part z
    → IsCounted dev'
recount dev dev' h z c i nat le oe ue = record {
  once = rw le c.once;
  natural =
      λ k. elim (Bool-cases (k == h)) [ inl x ↦ rw (oe, x) nat | inr x ↦ rw (oe, x) (c.natural k) ];
  counted =
      rw (oe, le) (omega (arith, ue, c.counted, total-set dev.open_count h z dev.h_list c.once i));
}

-- What an attempt to open leaves: only a success counts, and only this handle's count changes.
pub record IsOpened (dev : InputDev) (h : ℕ) (r : Status × InputDev) : Type 0 where
  pub valid : IsCounted r.1
  pub users : r.1.users ≡ (elim r.0 as (λ _. ℕ) [ ok ↦ dev.users + 1 | _ ↦ dev.users ])
  pub count :
      r.1.open_count h
      ≡ (elim r.0 as (λ _. ℤ) [ ok ↦ dev.open_count h +ℤ pos 1 | _ ↦ dev.open_count h ])
  pub others : (k : ℕ) → k ≢ h → r.1.open_count k ≡ dev.open_count k
  pub h_list : r.1.h_list ≡ dev.h_list
  pub grab : r.1.grab ≡ dev.grab
  pub gone : dev.going_away ≡ true → r.0 ≢ ok

up_one :
    (z : ℤ)
    → pos 0 ≤ℤ z
    → (pos 0 ≤ℤ (z +ℤ pos 1)) × (pos_part (z +ℤ pos 1) ≡ pos_part z + 1) × (pos 1 ≤ℤ (z +ℤ pos 1))
unfolding ◌+ℤ◌
up_one (pos n) h = ground arith
up_one (negsuc n) h = ground arith

pub down_one :
    (z : ℤ) → pos 1 ≤ℤ z → (pos 0 ≤ℤ (z -ℤ pos 1)) × (pos_part (z -ℤ pos 1) + 1 ≡ pos_part z)
unfolding ◌-ℤ◌
down_one (pos n) h = ground arith
down_one (negsuc n) h = ground arith

pub up_down : (z : ℤ) → z +ℤ pos 1 -ℤ pos 1 ≡ z
unfolding ◌+ℤ◌ ◌-ℤ◌
up_down (pos n) = ground arith
up_down (negsuc n) = ground arith

module _ (dev : InputDev) (h : ℕ) (c : IsCounted dev) (i : has h dev.h_list ≡ true)
    (bound : dev.users + 1 < 2 ^ 31) where
  opened : InputDev
  opened = record dev {
    open_count = set dev.open_count h (dev.open_count h +ℤ pos 1);
    users = (dev.users + 1) % 2 ^ 32;
  }

  opened-IsCounted : (r : Bool) → IsCounted (record opened { running = r })
  unfolding opened
  opened-IsCounted r =
      let u = up_one (dev.open_count h) (c.natural h) in
      recount dev (record opened { running = r }) h (dev.open_count h +ℤ pos 1) c i u.0 refl refl
        (omega (arith, u.1, bound))

  undone-IsCounted : IsCounted (record opened {
    open_count = set opened.open_count h (opened.open_count h -ℤ pos 1);
    users = (opened.users + 2 ^ 32 - 1) % 2 ^ 32;
  })
  unfolding opened
  undone-IsCounted =
      let u = up_one (dev.open_count h) (c.natural h) in
      let at_h = set-same dev.open_count h (dev.open_count h +ℤ pos 1) in
      let more : pos 1 ≤ℤ opened.open_count h = subst (λ z. pos 1 ≤ℤ z) (sym at_h) u.2 in
      let d = down_one (opened.open_count h) more in
      recount opened
        (record opened {
          open_count = set opened.open_count h (opened.open_count h -ℤ pos 1);
          users = (opened.users + 2 ^ 32 - 1) % 2 ^ 32;
        })
        h (opened.open_count h -ℤ pos 1) (opened-IsCounted dev.running) i d.0 refl refl
        (omega (arith, d.1, bound))

  success : (r : Bool) → dev.going_away ≡ false → IsOpened dev h (ok, record opened { running = r })
  unfolding opened
  success r g = record {
    valid = opened-IsCounted r;
    users = omega (arith, bound);
    count = set-same dev.open_count h (dev.open_count h +ℤ pos 1);
    others = λ k ne. set-other dev.open_count h k (dev.open_count h +ℤ pos 1) ne;
    h_list = refl;
    grab = refl;
    gone = λ g' e. ground (arith, g, g');
  }

  failure : IsOpened dev h (
    failed,
    record opened {
      open_count = set opened.open_count h (opened.open_count h -ℤ pos 1);
      users = (opened.users + 2 ^ 32 - 1) % 2 ^ 32;
    },
  )
  unfolding opened
  failure = record {
    valid = undone-IsCounted;
    users = omega (arith, bound);
    count =
        set-same opened.open_count h (opened.open_count h -ℤ pos 1)
        ∙ ap (λ z. z -ℤ pos 1) (set-same dev.open_count h (dev.open_count h +ℤ pos 1))
        ∙ up_down (dev.open_count h);
    h_list = refl;
    grab = refl;
    others = λ k ne.
        set-other opened.open_count h k (opened.open_count h -ℤ pos 1) ne
        ∙ set-other dev.open_count h k (dev.open_count h +ℤ pos 1) ne;
    gone = λ g e. ground (arith, e);
  }

  refused : IsOpened dev h (nodev, dev)
  refused = record {
    valid = c;
    users = refl;
    count = refl;
    others = λ k ne. refl;
    h_list = refl;
    grab = refl;
    gone = λ g e. ground (arith, e);
  }

  opened_by : Option Bool → Status × InputDev
  unfolding opened
  opened_by none = (ok, opened)
  opened_by (some true) = (ok, record opened { running = true })
  opened_by (some false) = (
    failed,
    record opened {
      open_count = set opened.open_count h (opened.open_count h -ℤ pos 1);
      users = (opened.users + 2 ^ 32 - 1) % 2 ^ 32;
    },
  )

  opened_by-IsOpened : (o : Option Bool) → dev.going_away ≡ false → IsOpened dev h (opened_by o)
  unfolding opened_by opened
  opened_by-IsOpened none g = success dev.running g
  opened_by-IsOpened (some true) g = success true g
  opened_by-IsOpened (some false) g = failure

  open_by :
      (o : Option Bool)
      → open_device o false dev h ≡ (
          if dev.going_away
          then (nodev, dev)
          else (if dev.users == 0 then opened_by o else (ok, opened)))
  unfolding open_device opened_by opened
  open_by none = refl
  open_by (some true) = refl
  open_by (some false) = refl

  interrupted_lem : (o : Option Bool) → IsOpened dev h (open_device o true dev h)
  unfolding open_device
  interrupted_lem o = record {
    valid = c;
    users = refl;
    count = refl;
    others = λ k ne. refl;
    h_list = refl;
    grab = refl;
    gone = λ g e. ground (arith, e);
  }

  -- input_open_device through a handle on the device's list, where one more user fits into an int,
  -- keeps users equal to the openings of all handles; a success adds one to users and to this
  -- handle's openings, a failure of any kind leaves both; no other handle's count, the list and the
  -- grab change, and a device that is going away is not opened.
  pub open_device-IsOpened :
      (driver_open : Option Bool) (signal : Bool)
      → IsOpened dev h (open_device driver_open signal dev h)
  unfolding opened
  open_device-IsOpened driver_open true = interrupted_lem driver_open
  open_device-IsOpened driver_open false =
      let later : Status × InputDev =
        if dev.users == 0 then opened_by driver_open else (ok, opened) in
      subst (λ r. IsOpened dev h r) (sym (open_by driver_open))
        (elim (Bool-cases dev.going_away) [
          | inl g ↦
              subst (λ r. IsOpened dev h r) (sym (ap (λ b. if b then (nodev, dev) else later) g))
                refused
          | inr g ↦
              subst (λ r. IsOpened dev h r) (sym (ap (λ b. if b then (nodev, dev) else later) g))
                (if_both (λ r. IsOpened dev h r) (dev.users == 0) (opened_by driver_open)
                  (ok, opened) (opened_by-IsOpened driver_open g) (success dev.running g))
        ])
