-- ===== src/Evdev/Device/Attached/Open.antt =====
-- A client that opens the device.
use mathlib.Core.Path.{subst}
use my_posts.Prelude.{
  snoc-IsOnce, ℕ, ◌+◌, ◌^◌, ◌<◌, ◌≡◌, ◌≢◌, refl, sym, ap, ◌∙◌, inl, inr, Bool, true, false, not,
  Option, some, [], ◌∷◌, ◌++◌, ◌==◌, if◌then◌else◌, length, length-append, has, has-append, set,
  set-same, set-other, arith, Bool-cases,
}
use my_posts.Prelude.Int.{ℤ, pos, eqb_ℤ, ◌+ℤ◌, ◌-ℤ◌}
use my_posts.Input.{InputDev}
use my_posts.Input.Handles.{Status, ok, busy, nodev, interrupted, failed, invalid, no_memory}
use my_posts.Input.Handles.{open_device as input_open_device}
use my_posts.Input.Handles.Count.{IsCounted, open_device-IsOpened, up_down}
use my_posts.Evdev.Device.{Evdev, is_ok, detach_client, open_device, open_found, new_client}
use my_posts.Evdev.Device.Attached.{IsAttached}
use my_posts.Prelude.{del-snoc}

-- What an attempt to open leaves: with a success the new client is there, and else the clients are as before.
pub record IsJoined (ev : Evdev) (k bufsize : ℕ) (r : Status × Evdev × InputDev) : Type 0 where
  pub attached : IsAttached r.1 r.2
  pub client_list :
      r.1.client_list ≡ (if is_ok r.0 then ev.client_list ++ (k ∷ []) else ev.client_list)
  pub fresh : r.1.client k ≡ new_client bufsize
  pub others : (j : ℕ) → j ≢ k → r.1.client j ≡ ev.client j
  pub refs : r.1.refs ≡ ev.refs

count_of :
    (s : Status) (x y : ℤ) → (elim s as (λ _. ℤ) [ ok ↦ x | _ ↦ y ]) ≡ (if is_ok s then x else y)
count_of ok x y = refl
count_of busy x y = refl
count_of nodev x y = refl
count_of interrupted x y = refl
count_of failed x y = refl
count_of invalid x y = refl
count_of no_memory x y = refl

next : (n : ℕ) → pos n +ℤ pos 1 ≡ pos (n + 1)
unfolding ◌+ℤ◌
next n = ground arith

is_zero : (n : ℕ) (z : ℤ) → z ≡ pos n → eqb_ℤ z (pos 0) ≡ (n == 0)
is_zero n z e = ap (λ x. eqb_ℤ x (pos 0)) e ∙ ground arith

-- A client whose device could not be opened is detached again.
abbrev settled : ℕ → Status × Evdev × InputDev → Status × Evdev × InputDev
settled k r = if is_ok r.0 then r else (r.0, detach_client r.1 k, r.2)

module _ (ev : Evdev) (dev : InputDev) (k bufsize : ℕ) (a : IsAttached ev dev)
    (out : has k ev.client_list ≡ false) (bound : dev.users + 1 < 2 ^ 31) where
  made : Evdev
  made = record ev {
    client = set ev.client k (new_client bufsize);
    client_list = ev.client_list ++ (k ∷ []);
  }

  -- It could not be opened.
  unopened :
      (s : Status) (z : ℤ) (dev' : InputDev)
      → is_ok s ≡ false
      → IsCounted dev'
      → dev'.h_list ≡ dev.h_list
      → dev'.grab ≡ dev.grab
      → dev'.open_count ev.handle ≡ dev.open_count ev.handle
      → z ≡ ev.open_count
      → IsJoined ev k bufsize (s, detach_client (record made { open_count = z }) k, dev')
  unfolding made detach_client
  unopened s z dev' n c l g o e =
      let same = del-snoc k ev.client_list out in
      record {
        attached = record {
          counted = c;
          on_list = rw l a.on_list;
          once = rw same a.once;
          opens = λ x. e ∙ a.opens x ∙ ap (λ js. pos (length js)) (sym same);
          opened =
              λ x. o ∙ a.opened x ∙ ap (λ js. pos (if length js == 0 then 0 else 1)) (sym same);
          grabbed = λ j x. let was = a.grabbed j x in (ap (has j) same ∙ was.0, g ∙ was.1);
        };
        client_list = rw n same;
        fresh = set-same ev.client k (new_client bufsize);
        others = λ j ne. set-other ev.client k j (new_client bufsize) ne;
        refs = refl;
      }

  -- It has been opened.
  joined :
      (dev' : InputDev)
      → ev.exist ≡ true
      → IsCounted dev'
      → dev'.h_list ≡ dev.h_list
      → dev'.grab ≡ dev.grab
      → dev'.open_count ev.handle ≡ pos 1
      → IsJoined ev k bufsize (ok, record made { open_count = ev.open_count +ℤ pos 1 }, dev')
  unfolding made
  joined dev' alive c l g o =
      let n : length (ev.client_list ++ (k ∷ [])) ≡ length ev.client_list + 1 =
        length-append ev.client_list (k ∷ []) in
      let there : (length (ev.client_list ++ (k ∷ [])) == 0) ≡ false = ground (arith, n) in
      record {
        attached = record {
          counted = c;
          on_list = rw l a.on_list;
          once = snoc-IsOnce k ev.client_list out a.once;
          opens = λ x.
              ap (λ z. z +ℤ pos 1) (a.opens alive) ∙ next (length ev.client_list) ∙ ap pos (sym n);
          opened = λ x. o ∙ ap (λ b. pos (if b then 0 else 1)) (sym there);
          grabbed = λ j x.
              let was = a.grabbed j x in
              (ground (arith, has-append j ev.client_list (k ∷ []), was.0), g ∙ was.1);
        };
        client_list = refl;
        fresh = set-same ev.client k (new_client bufsize);
        others = λ j ne. set-other ev.client k j (new_client bufsize) ne;
        refs = refl;
      }

  -- The first client opens the handle.
  first :
      (driver_open : Option Bool) (signal : Bool)
      → ev.exist ≡ true
      → length ev.client_list ≡ 0
      → let r = input_open_device driver_open signal dev ev.handle in
        IsJoined ev k bufsize (
          settled k (
            if is_ok r.0
            then (ok, record made { open_count = ev.open_count +ℤ pos 1 }, r.1)
            else (r.0, record made { open_count = ev.open_count +ℤ pos 1 -ℤ pos 1 }, r.1)))
  first driver_open signal alive empty =
      let r = input_open_device driver_open signal dev ev.handle in
      let p = open_device-IsOpened dev ev.handle a.counted a.on_list bound driver_open signal in
      let count =
        p.count ∙ count_of r.0 (dev.open_count ev.handle +ℤ pos 1) (dev.open_count ev.handle) in
      let yes : Status × Evdev × InputDev =
        (ok, record made { open_count = ev.open_count +ℤ pos 1 }, r.1) in
      let no : Status × Evdev × InputDev =
        (r.0, record made { open_count = ev.open_count +ℤ pos 1 -ℤ pos 1 }, r.1) in
      let Q : Status × Evdev × InputDev → Type 0 = λ w. IsJoined ev k bufsize (settled k w) in
      elim (Bool-cases (is_ok r.0)) [
        | inl x ↦
            let was : dev.open_count ev.handle ≡ pos 0 =
              a.opened alive ∙ ap (λ n. pos (if n == 0 then 0 else 1)) empty in
            let one =
              count
              ∙ ap (λ b. if b then dev.open_count ev.handle +ℤ pos 1 else dev.open_count ev.handle)
                  x
              ∙ ap (λ z. z +ℤ pos 1) was
              ∙ next 0 in
            subst (λ b. Q (if b then yes else no)) (sym x)
              (joined r.1 alive p.valid p.h_list p.grab one)
        | inr x ↦
            let same =
              count
              ∙ ap (λ b. if b then dev.open_count ev.handle +ℤ pos 1 else dev.open_count ev.handle)
                  x in
            subst (λ b. Q (if b then yes else no)) (sym x)
              (subst
                (λ b. IsJoined ev k bufsize (if b then no else (r.0, detach_client no.1 k, r.1)))
                (sym x)
                (unopened r.0 (ev.open_count +ℤ pos 1 -ℤ pos 1) r.1 x p.valid p.h_list p.grab same
                  (up_down ev.open_count)))
      ]

  -- The device is there.
  alive_IsJoined :
      (driver_open : Option Bool) (signal : Bool)
      → ev.exist ≡ true
      → let r = input_open_device driver_open signal dev ev.handle in
        IsJoined ev k bufsize (
          settled k (
            if eqb_ℤ ev.open_count (pos 0)
            then (if is_ok r.0
                then (ok, record made { open_count = ev.open_count +ℤ pos 1 }, r.1)
                else (r.0, record made { open_count = ev.open_count +ℤ pos 1 -ℤ pos 1 }, r.1))
            else (ok, record made { open_count = ev.open_count +ℤ pos 1 }, dev)))
  alive_IsJoined driver_open signal alive =
      let r = input_open_device driver_open signal dev ev.handle in
      let up : Evdev = record made { open_count = ev.open_count +ℤ pos 1 } in
      let opening : Status × Evdev × InputDev =
        if is_ok r.0
        then (ok, up, r.1)
        else (r.0, record made { open_count = ev.open_count +ℤ pos 1 -ℤ pos 1 }, r.1) in
      let Q : Status × Evdev × InputDev → Type 0 = λ w. IsJoined ev k bufsize (settled k w) in
      let zero_if = is_zero (length ev.client_list) ev.open_count (a.opens alive) in
      elim (Bool-cases (eqb_ℤ ev.open_count (pos 0))) [
        | inl x ↦
            let empty : length ev.client_list ≡ 0 = ground (arith, sym zero_if ∙ x) in
            subst (λ b. Q (if b then opening else (ok, up, dev))) (sym x)
              (first driver_open signal alive empty)
        | inr x ↦
            let one = a.opened alive ∙ ap (λ b. pos (if b then 0 else 1)) (sym zero_if ∙ x) in
            subst (λ b. Q (if b then opening else (ok, up, dev))) (sym x)
              (joined dev alive a.counted refl refl one)
      ]

  pub open_found-IsJoined :
      (driver_open : Option Bool) (signal signal' : Bool)
      → IsJoined ev k bufsize (open_found driver_open signal signal' bufsize (some k) ev dev)
  unfolding open_found open_device made
  open_found-IsJoined driver_open true signal' =
      unopened interrupted ev.open_count dev refl a.counted refl refl refl refl
  open_found-IsJoined driver_open false signal' =
      let r = input_open_device driver_open signal' dev ev.handle in
      let up : Evdev = record made { open_count = ev.open_count +ℤ pos 1 } in
      let there : Status × Evdev × InputDev =
        if eqb_ℤ ev.open_count (pos 0)
        then (if is_ok r.0
            then (ok, up, r.1)
            else (r.0, record made { open_count = ev.open_count +ℤ pos 1 -ℤ pos 1 }, r.1))
        else (ok, up, dev) in
      let Q : Status × Evdev × InputDev → Type 0 = λ w. IsJoined ev k bufsize (settled k w) in
      elim (Bool-cases ev.exist) [
        | inl x ↦
            subst (λ b. Q (if not b then (nodev, made, dev) else there)) (sym x)
              (alive_IsJoined driver_open signal' x)
        | inr x ↦
            subst (λ b. Q (if not b then (nodev, made, dev) else there)) (sym x)
              (unopened nodev ev.open_count dev refl a.counted refl refl refl refl)
      ]
