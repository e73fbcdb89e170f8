-- ===== src/Input/Handles/End.antt =====
-- The end of a device: the keys are released and the handles are closed.
use mathlib.Core.Path.{subst}
use my_posts.Prelude.{
  ℕ, zero, suc, ◌+◌, ◌≤◌, ◌<◌, ◌≡◌, refl, sym, ap, ◌∙◌, ◌⊎◌, inl, inr, Bool, true, false, ◌||◌,
  Option, none, some, List, [], ◌∷◌, ◌++◌, arith, if_both, if◌then◌else◌, has, eq_self,
}
use my_posts.Prelude.Int.{ℤ, pos}
use my_posts.Input.{
  Call, event, InputDev, Filters, pass_loop, pass_calls, pass_event, is_event_supported, ev_syn,
  ev_key, ev_max, syn_report, key_max,
}
use my_posts.Input.Handles.{release_below, release_keys, disconnect_device}
use my_posts.Input.Handles.Releases.{
  IsSame, same, then_calls, is_down, releases, calls_same, release_below-IsReleased,
}

-- What is left of a device that has keys.
pub record IsDisconnected (filters : Filters) (dev d : InputDev) : Type 0 where
  pub gone : d.going_away ≡ true
  pub up : (code : ℕ) → is_down d code ≡ false
  pub closed : (h : ℕ) → d.open_count h ≡ (if has h dev.h_list then pos 0 else dev.open_count h)
  pub grab : d.grab ≡ dev.grab
  pub h_list : d.h_list ≡ dev.h_list
  pub users : d.users ≡ dev.users
  pub calls :
      d.calls
      ≡ (dev.calls ++ releases filters dev (key_max + 1))
        ++ pass_calls filters dev ev_syn syn_report (pos 1)

keys_supported : (f : ℕ → Bool) → f ev_key ≡ true → is_event_supported ev_key f ev_max ≡ true
unfolding is_event_supported
keys_supported f e = e

not_a_key : (d : InputDev) (k : ℕ) → key_max + 1 ≤ k → is_down d k ≡ false
unfolding is_event_supported
not_a_key d k le = ground (arith, le)

code_cases : (k : ℕ) → (k < key_max + 1) ⊎ (key_max + 1 ≤ k)
code_cases k = ground arith

releases_away :
    (filters : Filters) (dev : InputDev) (n : ℕ)
    → releases filters (record dev { going_away = true }) n ≡ releases filters dev n
unfolding releases pass_calls
releases_away filters dev zero = refl
releases_away filters dev (suc n) =
    ap (λ r. if is_down dev n then r ++ pass_calls filters dev ev_key n (pos 0) else r)
      (releases_away filters dev n)

abbrev closing : InputDev → InputDev
closing r = record r { open_count = λ h. if has h r.h_list then pos 0 else r.open_count h }

-- input_disconnect_device of a device with EV_KEY marks it as going away, leaves no supported key
-- pressed and every handle on its list closed, leaves the grab and users, and calls the handlers
-- with a release for each supported key that was pressed, in the order of the codes, and then with
-- SYN_REPORT.
pub disconnect_device-IsDisconnected :
    (filters : Filters) (dev : InputDev)
    → dev.evbit ev_key ≡ true
    → IsDisconnected filters dev (disconnect_device filters dev)
unfolding disconnect_device release_keys pass_event
disconnect_device-IsDisconnected filters dev keys =
    let away : InputDev = record dev { going_away = true } in
    let n = key_max + 1 in
    let d = release_below filters n away in
    let r = release_below-IsReleased filters away n in
    let ended = pass_event filters d ev_syn syn_report (pos 1) in
    subst (λ b. IsDisconnected filters dev (closing (if b then ended else away)))
      (sym (keys_supported dev.evbit keys))
      (record {
        gone = r.other.going_away;
        up = λ k. elim (code_cases k) [ inl x ↦ r.low k x | inr x ↦ not_a_key d k x ];
        closed = λ h.
            ap (λ hs. if has h hs then pos 0 else d.open_count h) r.other.h_list
            ∙ ap (λ f. if has h dev.h_list then pos 0 else f h) r.other.open_count;
        grab = r.other.grab;
        h_list = r.other.h_list;
        users = r.other.users;
        calls =
            ap (λ cs. d.calls ++ cs) (calls_same filters away d ev_syn syn_report (pos 1) r.other)
            ∙ ap (λ cs. cs ++ pass_calls filters away ev_syn syn_report (pos 1))
                (r.calls ∙ ap (λ cs. dev.calls ++ cs) (releases_away filters dev n));
      })

-- The handles of any device, with keys or without.
pub record IsClosedDown (dev d : InputDev) : Type 0 where
  pub closed : (h : ℕ) → d.open_count h ≡ (if has h dev.h_list then pos 0 else dev.open_count h)
  pub grab : d.grab ≡ dev.grab
  pub h_list : d.h_list ≡ dev.h_list

closing-IsClosedDown :
    (dev d : InputDev) → IsSame (record dev { going_away = true }) d → IsClosedDown dev (closing d)
closing-IsClosedDown dev d r = record {
  closed = λ h.
      ap (λ hs. if has h hs then pos 0 else d.open_count h) r.h_list
      ∙ ap (λ f. if has h dev.h_list then pos 0 else f h) r.open_count;
  grab = r.grab;
  h_list = r.h_list;
}

pub disconnect_device-IsClosedDown :
    (filters : Filters) (dev : InputDev) → IsClosedDown dev (disconnect_device filters dev)
unfolding disconnect_device release_keys pass_event
disconnect_device-IsClosedDown filters dev =
    let away : InputDev = record dev { going_away = true } in
    let r = release_below-IsReleased filters away (key_max + 1) in
    let ended =
      pass_event filters (release_below filters (key_max + 1) away) ev_syn syn_report (pos 1) in
    if_both (λ d. IsClosedDown dev (closing d)) (is_event_supported ev_key away.evbit ev_max) ended
      away
      (closing-IsClosedDown dev ended
        (then_calls away (release_below filters (key_max + 1) away) r.other))
      (closing-IsClosedDown dev away (same away))

-- No handle of a list is open.
pub no_calls :
    (filters : Filters) (f : ℕ → ℤ) (t c : ℕ) (v : ℤ) (hs : List ℕ)
    → ((h : ℕ) → has h hs ≡ true → f h ≡ pos 0)
    → pass_loop filters f t c v false hs ≡ []
unfolding pass_loop
no_calls filters f t c v [] z = refl
no_calls filters f t c v (h ∷ hs) z =
    rw (z h (ap (λ b. b || has h hs) (eq_self h)))
      (no_calls filters f t c v hs (λ k i. z k (ground (arith, i))))

abbrev by_grab : Option ℕ → (t c : ℕ) → ℤ → List Call → List Call
by_grab g t c v loop = elim g as (λ _. List Call) [ none ↦ loop | some h ↦ event h t c v ∷ [] ]

pub calls_by_grab :
    (filters : Filters) (d : InputDev) (g : Option ℕ) (t c : ℕ) (v : ℤ)
    → d.grab ≡ g
    → pass_calls filters d t c v
      ≡ by_grab g t c v (pass_loop filters d.open_count t c v false d.h_list)
unfolding pass_calls
calls_by_grab filters d g t c v e =
    ap (λ w. by_grab w t c v (pass_loop filters d.open_count t c v false d.h_list)) e

-- An event of a device that has been disconnected reaches no handler, unless a handle has the
-- grab; then it reaches that handle.
pub pass_calls-disconnect_device :
    (filters : Filters) (dev : InputDev) (t c : ℕ) (v : ℤ)
    → pass_calls filters (disconnect_device filters dev) t c v
      ≡ (elim dev.grab as (λ _. List Call) [ none ↦ [] | some h ↦ event h t c v ∷ [] ])
pass_calls-disconnect_device filters dev t c v =
    let d = disconnect_device filters dev in
    let r = disconnect_device-IsClosedDown filters dev in
    let zero_at : (h : ℕ) → has h d.h_list ≡ true → d.open_count h ≡ pos 0 = λ h i.
      r.closed h
      ∙ ap (λ b. if b then pos 0 else dev.open_count h) (sym (ap (has h) r.h_list) ∙ i) in
    calls_by_grab filters d dev.grab t c v r.grab
    ∙ ap (by_grab dev.grab t c v) (no_calls filters d.open_count t c v d.h_list zero_at)
