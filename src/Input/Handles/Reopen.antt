-- ===== src/Input/Handles/Reopen.antt =====
-- A handle closed after the end of its device.
use mathlib.Core.Path.{subst}
use my_posts.Prelude.{
  IsOnce, ℕ, ◌≡◌, ◌≢◌, refl, ap, ◌∙◌, inl, inr, Bool, true, false, ◌||◌, none, some, List, [], ◌∷◌,
  ◌==◌, arith, Bool-cases, if◌then◌else◌, set, set-same, set-other, has, eq_self,
}
use my_posts.Prelude.Int.{ℤ, pos, negsuc, ◌-ℤ◌}
use my_posts.Input.{event, InputDev, Filters, emit, pass_loop, pass_calls}
use my_posts.Input.Handles.{disconnect_device, close_device, release_device, start_calls}
use my_posts.Input.Handles.End.{disconnect_device-IsClosedDown, no_calls, calls_by_grab}

-- Among handles that are closed, one that is not.
one_call :
    (filters : Filters) (f : ℕ → ℤ) (h t c : ℕ) (v : ℤ) (hs : List ℕ)
    → filters h ≡ none
    → IsOnce hs
    → has h hs ≡ true
    → f h ≡ negsuc 0
    → ((k : ℕ) → k ≢ h → has k hs ≡ true → f k ≡ pos 0)
    → pass_loop filters f t c v false hs ≡ event h t c v ∷ []
unfolding pass_loop
one_call filters f h t c v [] n once i e z = ground (arith, i)
one_call filters f h t c v (k ∷ hs) n once i e z = elim (Bool-cases (k == h)) [
  | inl x ↦
      let same : k ≡ h = ground (arith, x) in
      let out : has h hs ≡ false = subst (λ w. has w hs ≡ false) same once.0 in
      let apart : (j : ℕ) → has j hs ≡ true → j ≢ h =
        λ j o w. let o' = subst (λ y. has y hs ≡ true) w o in ground (arith, o', out) in
      let rest = no_calls filters f t c v hs (λ j o. z j (apart j o) (ground (arith, o))) in
      rw (ap f same ∙ e, ap filters same ∙ n, rest) (ap (λ w. event w t c v ∷ []) same)
  | inr x ↦
      let at_k = z k (ground (arith, x)) (ap (λ b. b || has k hs) (eq_self k)) in
      let i' : has h hs ≡ true = ground (arith, i, x) in
      rw at_k (one_call filters f h t c v hs n once.1 i' e (λ j ne o. z j ne (ground (arith, o))))
]

below_zero : (z : ℤ) → z ≡ pos 0 → z -ℤ pos 1 ≡ negsuc 0
unfolding ◌-ℤ◌
below_zero z e = rw e refl

released_none :
    (has_start : ℕ → Bool) (d : InputDev) (h : ℕ) → d.grab ≡ none → release_device has_start d h ≡ d
unfolding release_device
released_none has_start d h e =
    let freed = emit (record d { grab = none }) (start_calls has_start d.open_count d.h_list) in
    ap (λ g. if (elim g as (λ _. Bool) [ none ↦ false | some k ↦ k == h ]) then freed else d) e

-- A handle on the list, whose handler is no filter, that is closed after its device has been
-- disconnected without a grab gets every further event of the device, alone of all handles.
pub pass_calls-close_device :
    (filters : Filters) (has_start : ℕ → Bool) (has_close : Bool) (dev : InputDev) (h t c : ℕ)
    (v : ℤ)
    → dev.grab ≡ none
    → IsOnce dev.h_list
    → has h dev.h_list ≡ true
    → filters h ≡ none
    → pass_calls filters (close_device has_start has_close (disconnect_device filters dev) h) t c v
      ≡ event h t c v ∷ []
unfolding close_device
pass_calls-close_device filters has_start has_close dev h t c v g once i n =
    let d = disconnect_device filters dev in
    let r = disconnect_device-IsClosedDown filters dev in
    let same = released_none has_start d h (r.grab ∙ g) in
    let d' = close_device has_start has_close d h in
    let hs : d'.h_list ≡ dev.h_list = ap (λ x. x.h_list) same ∙ r.h_list in
    let counts : d'.open_count ≡ set d.open_count h (d.open_count h -ℤ pos 1) =
      ap (λ x. set x.open_count h (x.open_count h -ℤ pos 1)) same in
    let zero_at : (k : ℕ) → has k dev.h_list ≡ true → d.open_count k ≡ pos 0 =
      λ k o. r.closed k ∙ ap (λ b. if b then pos 0 else dev.open_count k) o in
    calls_by_grab filters d' none t c v (ap (λ x. x.grab) same ∙ r.grab ∙ g)
    ∙ ap (λ w. pass_loop filters d'.open_count t c v false w) hs
    ∙ one_call filters d'.open_count h t c v dev.h_list n once i
        (ap (λ f. f h) counts
          ∙ set-same d.open_count h (d.open_count h -ℤ pos 1)
          ∙ below_zero (d.open_count h) (zero_at h i))
        (λ k ne o.
          ap (λ f. f k) counts
          ∙ set-other d.open_count h k (d.open_count h -ℤ pos 1) ne
          ∙ zero_at k o)
