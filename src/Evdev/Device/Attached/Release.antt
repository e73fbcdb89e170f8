-- ===== src/Evdev/Device/Attached/Release.antt =====
-- A client that closes its file.
use mathlib.Core.Path.{subst}
use mathlib.Core.Option.{some-injective}
use my_posts.Prelude.{
  ℕ, suc, ◌^◌, ◌≤◌, ◌<◌, ◌≡◌, ◌≢◌, refl, sym, ap, ◌∙◌, inl, inr, Bool, true, false, Option, none,
  some, List, [], ◌∷◌, ◌==◌, if◌then◌else◌, length, has, arith, Bool-cases,
}
use my_posts.Prelude.Int.{ℤ, pos, eqb_ℤ, ◌-ℤ◌}
use my_posts.Input.{InputDev}
use my_posts.Input.Handles.{Status, ok, invalid, release_device}
use my_posts.Input.Handles.{close_device as input_close_device}
use my_posts.Input.Handles.Close.{release_device-IsReleased, IsClosed, close_device-IsClosed}
use my_posts.Input.Handles.Count.{IsCounted}
use my_posts.Prelude.{del}
use my_posts.Evdev.Device.{Evdev, holds, ungrab, detach_client, close_device, release}
use my_posts.Evdev.Device.Attached.{IsAttached}
use my_posts.Prelude.{length-del, has-del-other, has-del-same, del-IsOnce}

-- What a release leaves: the client is gone, and the rest agrees.
pub record IsFreed (ev : Evdev) (k : ℕ) (r : Evdev × InputDev) : Type 0 where
  pub attached : IsAttached r.0 r.1
  pub gone : has k r.0.client_list ≡ false
  pub others : (j : ℕ) → j ≢ k → has j r.0.client_list ≡ has j ev.client_list
  pub ungrabbed : r.0.grab ≢ some k

-- A device from which one client has been detached, before it is closed.
record IsDetached (ev : Evdev) (dev : InputDev) (k : ℕ) (ev' : Evdev) (dev' : InputDev)
    : Type 0 where
  pub client_list : ev'.client_list ≡ del k ev.client_list
  pub open_count : ev'.open_count ≡ ev.open_count
  pub exist : ev'.exist ≡ ev.exist
  pub handle : ev'.handle ≡ ev.handle
  pub h_list : dev'.h_list ≡ dev.h_list
  pub opens : dev'.open_count ≡ dev.open_count
  pub users : dev'.users ≡ dev.users
  pub grabbed : (j : ℕ) → ev'.grab ≡ some j → (j ≢ k) × (ev.grab ≡ some j) × (dev' ≡ dev)

is_held : (g : Option ℕ) (j k : ℕ) → holds g k ≡ false → g ≡ some j → j ≢ k
is_held none j k h e w = ground (arith, e)
is_held (some i) j k h e w = let same = some-injective i j e in ground (arith, h, same, w)

abbrev freed : (ℕ → Bool) → Evdev → InputDev → ℕ → Evdev × InputDev
freed has_start ev dev k =
    if holds ev.grab k
    then ((ungrab has_start ev dev k).1, (ungrab has_start ev dev k).2)
    else (ev, dev)

freed_held :
    (has_start : ℕ → Bool) (ev : Evdev) (dev : InputDev) (k : ℕ)
    → holds ev.grab k ≡ true
    → freed has_start ev dev k ≡ (record ev { grab = none }, release_device has_start dev ev.handle)
unfolding ungrab
freed_held has_start ev dev k x =
    let yes : Evdev × InputDev =
      (record ev { grab = none }, release_device has_start dev ev.handle) in
    let u : Bool → Status × Evdev × InputDev =
      λ b. if b then (ok, yes.0, yes.1) else (invalid, ev, dev) in
    ap (λ b. if b then ((u b).1, (u b).2) else (ev, dev)) x

freed_free :
    (has_start : ℕ → Bool) (ev : Evdev) (dev : InputDev) (k : ℕ)
    → holds ev.grab k ≡ false
    → freed has_start ev dev k ≡ (ev, dev)
freed_free has_start ev dev k x =
    let u = ungrab has_start ev dev k in ap (λ b. if b then (u.1, u.2) else (ev, dev)) x

detached :
    (has_start : ℕ → Bool) (ev : Evdev) (dev : InputDev) (k : ℕ)
    → let u = freed has_start ev dev k in IsDetached ev dev k (detach_client u.0 k) u.1
unfolding detach_client
detached has_start ev dev k =
    let P : Evdev × InputDev → Type 0 = λ x. IsDetached ev dev k (detach_client x.0 k) x.1 in
    let r = release_device-IsReleased has_start dev ev.handle in
    elim (Bool-cases (holds ev.grab k)) [
      | inl x ↦ subst P (sym (freed_held has_start ev dev k x)) (record {
        client_list = refl;
        open_count = refl;
        exist = refl;
        handle = refl;
        h_list = r.h_list;
        opens = r.open_count;
        users = r.users;
        grabbed = λ j e. ground (arith, e);
      })
      | inr x ↦ subst P (sym (freed_free has_start ev dev k x)) (record {
        client_list = refl;
        open_count = refl;
        exist = refl;
        handle = refl;
        h_list = refl;
        opens = refl;
        users = refl;
        grabbed = λ j e. (is_held ev.grab j k x e, e, refl);
      })
    ]

same-IsCounted :
    (dev dev' : InputDev)
    → IsCounted dev
    → dev'.h_list ≡ dev.h_list
    → dev'.open_count ≡ dev.open_count
    → dev'.users ≡ dev.users
    → IsCounted dev'
same-IsCounted dev dev' c l o u = record {
  once = rw l c.once;
  natural = rw o c.natural;
  counted = rw (u, o, l) c.counted;
}

-- The device is gone, or clients are left: the input device stays open as it is.
left :
    (ev : Evdev) (dev : InputDev) (k : ℕ) (ev' : Evdev) (dev' : InputDev) (z : ℤ)
    → IsAttached ev dev
    → IsDetached ev dev k ev' dev'
    → (ev'.exist ≡ true → (z ≡ pos (length ev'.client_list)) × (1 ≤ length ev'.client_list))
    → has k ev.client_list ≡ true
    → IsAttached (record ev' { open_count = z }) dev'
left ev dev k ev' dev' z a d n i = record {
  counted = same-IsCounted dev dev' a.counted d.h_list d.opens d.users;
  on_list = rw (d.h_list, d.handle) a.on_list;
  once = rw d.client_list (del-IsOnce k ev.client_list a.once);
  opens = λ e. (n e).0;
  opened = λ e.
      let some_left : (length ev'.client_list == 0) ≡ false = ground (arith, (n e).1) in
      let some_before : (length ev.client_list == 0) ≡ false =
        ground (arith, length-del k ev.client_list i) in
      ap (λ f. f ev'.handle) d.opens
      ∙ ap dev.open_count d.handle
      ∙ a.opened (sym d.exist ∙ e)
      ∙ ap (λ b. pos (if b then 0 else 1)) (some_before ∙ sym some_left);
  grabbed = λ j e.
      let g = d.grabbed j e in
      let was = a.grabbed j g.1 in
      (
        ap (has j) d.client_list ∙ has-del-other j k ev.client_list g.0 ∙ was.0,
        ap (λ x. x.grab) g.2 ∙ was.1 ∙ ap (λ h. some h) (sym d.handle),
      );
}

empty_has : (j : ℕ) (js : List ℕ) → length js ≡ 0 → has j js ≡ false
empty_has j [] e = refl
empty_has j (i ∷ js) e = ground (arith, e)

-- The last client has gone: the handle has been closed.
last :
    (ev : Evdev) (dev : InputDev) (k : ℕ) (ev' : Evdev) (dev' : InputDev) (z : ℤ) (d' : InputDev)
    → IsAttached ev dev
    → IsDetached ev dev k ev' dev'
    → z ≡ pos (length ev'.client_list)
    → length ev'.client_list ≡ 0
    → IsClosed dev' ev'.handle d'
    → d'.open_count ev'.handle ≡ pos 0
    → IsAttached (record ev' { open_count = z }) d'
last ev dev k ev' dev' z d' a d n none_left c zero_open = record {
  counted = c.valid;
  on_list = rw (c.h_list, d.h_list, d.handle) a.on_list;
  once = rw d.client_list (del-IsOnce k ev.client_list a.once);
  opens = λ e. n;
  opened = λ e. zero_open ∙ ap pos (ground (arith, none_left));
  grabbed = λ j e.
      let g = d.grabbed j e in
      let was = a.grabbed j g.1 in
      let stays = ap (has j) d.client_list ∙ has-del-other j k ev.client_list g.0 ∙ was.0 in
      ground (arith, stays, empty_has j ev'.client_list none_left);
}

pred : (n : ℕ) → pos (suc n) -ℤ pos 1 ≡ pos n
unfolding ◌-ℤ◌
pred n = ground arith

-- How many clients are left.
length_after :
    (ev : Evdev) (dev : InputDev) (k : ℕ) (ev' : Evdev) (dev' : InputDev)
    → IsAttached ev dev
    → IsDetached ev dev k ev' dev'
    → has k ev.client_list ≡ true
    → ev'.exist ≡ true
    → (ev'.open_count -ℤ pos 1 ≡ pos (length ev'.client_list))
      × (dev'.open_count ev'.handle ≡ pos 1)
length_after ev dev k ev' dev' a d i e =
    let n : length ev.client_list ≡ suc (length ev'.client_list) =
      length-del k ev.client_list i ∙ ap (λ js. suc (length js)) (sym d.client_list) in
    let there : (length ev.client_list == 0) ≡ false = ground (arith, n) in
    let alive = sym d.exist ∙ e in
    (
      ap (λ z. z -ℤ pos 1) (d.open_count ∙ a.opens alive ∙ ap pos n)
          ∙ pred (length ev'.client_list),
      ap (λ f. f ev'.handle) d.opens
          ∙ ap dev.open_count d.handle
          ∙ a.opened alive
          ∙ ap (λ b. pos (if b then 0 else 1)) there,
    )

some_left : (n : ℕ) (z : ℤ) → z ≡ pos n → eqb_ℤ z (pos 0) ≡ false → 1 ≤ n
some_left n z e y =
    let w : eqb_ℤ (pos n) (pos 0) ≡ false = subst (λ x. eqb_ℤ x (pos 0) ≡ false) e y in
    ground (arith, w)

none_left : (n : ℕ) (z : ℤ) → z ≡ pos n → eqb_ℤ z (pos 0) ≡ true → n ≡ 0
none_left n z e y =
    let w : eqb_ℤ (pos n) (pos 0) ≡ true = subst (λ x. eqb_ℤ x (pos 0) ≡ true) e y in
    ground (arith, w)

closed-IsAttached :
    (has_start : ℕ → Bool) (has_close : Bool) (ev : Evdev) (dev : InputDev) (k : ℕ) (ev' : Evdev)
    (dev' : InputDev)
    → IsAttached ev dev
    → IsDetached ev dev k ev' dev'
    → has k ev.client_list ≡ true
    → dev.users < 2 ^ 32
    → let x = close_device has_start has_close ev' dev' in
      IsAttached x.0 x.1 × (x.0.client_list ≡ ev'.client_list) × (x.0.grab ≡ ev'.grab)
unfolding close_device
closed-IsAttached has_start has_close ev dev k ev' dev' a d i small =
    let z = ev'.open_count -ℤ pos 1 in
    let down : Evdev = record ev' { open_count = z } in
    let d' = input_close_device has_start has_close dev' ev'.handle in
    let P : Evdev × InputDev → Type 0 =
      λ x. IsAttached x.0 x.1 × (x.0.client_list ≡ ev'.client_list) × (x.0.grab ≡ ev'.grab) in
    elim (Bool-cases ev'.exist) [
      | inr x ↦
          subst
            (λ b.
              P (if b then (if eqb_ℤ z (pos 0) then (down, d') else (down, dev')) else (ev', dev')))
            (sym x)
            (left ev dev k ev' dev' ev'.open_count a d (λ e. ground (arith, x, e)) i, refl, refl)
      | inl x ↦
          let n = length_after ev dev k ev' dev' a d i x in
          subst
            (λ b.
              P (if b then (if eqb_ℤ z (pos 0) then (down, d') else (down, dev')) else (ev', dev')))
            (sym x)
            (elim (Bool-cases (eqb_ℤ z (pos 0))) [
              | inr y ↦
                  subst (λ b. P (if b then (down, d') else (down, dev'))) (sym y)
                    (
                      left ev dev k ev' dev' z a d
                          (λ e. (n.0, some_left (length ev'.client_list) z n.0 y)) i,
                      refl,
                      refl,
                    )
              | inl y ↦
                  let c =
                    close_device-IsClosed has_start has_close dev' ev'.handle
                      (same-IsCounted dev dev' a.counted d.h_list d.opens d.users)
                      (rw (d.h_list, d.handle) a.on_list) (rw n.1 (omega arith))
                      (omega (arith, d.users, small)) in
                  subst (λ b. P (if b then (down, d') else (down, dev'))) (sym y)
                    (
                      last ev dev k ev' dev' z d' a d n.0
                          (none_left (length ev'.client_list) z n.0 y) c
                          (c.count ∙ ap (λ w. w -ℤ pos 1) n.1 ∙ pred 0),
                      refl,
                      refl,
                    )
            ])
    ]

-- evdev_release of a client on the list, on a device that exists or is dead and whose clients and
-- handle agree, leaves them in agreement; the client is off the list and without the grab, and the
-- other clients stay. The device has fewer than 2 ^ 32 users.
pub release-IsFreed :
    (has_start : ℕ → Bool) (has_close : Bool) (ev : Evdev) (dev : InputDev) (k : ℕ)
    → IsAttached ev dev
    → has k ev.client_list ≡ true
    → dev.users < 2 ^ 32
    → IsFreed ev k (release has_start has_close ev dev k)
unfolding release
release-IsFreed has_start has_close ev dev k a i small =
    let u = freed has_start ev dev k in
    let d = detached has_start ev dev k in
    let c = closed-IsAttached has_start has_close ev dev k (detach_client u.0 k) u.1 a d i small in
    record {
      attached = record {
        counted = c.0.counted;
        on_list = c.0.on_list;
        once = c.0.once;
        opens = c.0.opens;
        opened = c.0.opened;
        grabbed = c.0.grabbed;
      };
      gone = ap (has k) (c.1 ∙ d.client_list) ∙ has-del-same k ev.client_list a.once;
      others = λ j ne. ap (has j) (c.1 ∙ d.client_list) ∙ has-del-other j k ev.client_list ne;
      ungrabbed = λ e. (d.grabbed k (sym c.2 ∙ e)).0 refl;
    }
