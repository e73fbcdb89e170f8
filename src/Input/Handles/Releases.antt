-- ===== src/Input/Handles/Releases.antt =====
-- The keys that are released when a device goes, and the calls that say so.
use mathlib.Core.Path.{subst}
use mathlib.Core.List.{append_assoc, append-nil}
use my_posts.Prelude.{
  ℕ, zero, suc, ◌≤◌, ◌<◌, ◌≡◌, refl, sym, ap, ◌∙◌, inl, inr, Bool, true, false, ◌&&◌, none, some,
  List, [], ◌∷◌, ◌++◌, leb, ◌==◌, arith, Bool-cases, if◌then◌else◌, set, set-other,
}
use my_posts.Prelude.Int.{ℤ, pos}
use my_posts.Input.{
  Call, event, InputDev, Filters, pass_loop, pass_calls, pass_event, is_event_supported, ev_key,
  key_max,
}
use my_posts.Input.Handles.{release_key, release_below}

-- Only keys and calls differ.
pub record IsSame (dev d : InputDev) : Type 0 where
  pub evbit : d.evbit ≡ dev.evbit
  pub keybit : d.keybit ≡ dev.keybit
  pub grab : d.grab ≡ dev.grab
  pub h_list : d.h_list ≡ dev.h_list
  pub open_count : d.open_count ≡ dev.open_count
  pub users : d.users ≡ dev.users
  pub going_away : d.going_away ≡ dev.going_away

pub same : (dev : InputDev) → IsSame dev dev
same dev = record {
  evbit = refl;
  keybit = refl;
  grab = refl;
  h_list = refl;
  open_count = refl;
  users = refl;
  going_away = refl;
}

-- Another key and more calls.
pub then_calls :
    (dev d : InputDev) {key : ℕ → Bool} {cs : List Call}
    → IsSame dev d
    → IsSame dev (record d { key = key; calls = cs })
then_calls dev d s = record {
  evbit = s.evbit;
  keybit = s.keybit;
  grab = s.grab;
  h_list = s.h_list;
  open_count = s.open_count;
  users = s.users;
  going_away = s.going_away;
}

-- The keys that are to be released.
abbrev pub is_down : InputDev → ℕ → Bool
is_down dev code = is_event_supported code dev.keybit key_max && dev.key code

-- The calls that release the keys below `n`.
unfoldable pub releases : Filters → InputDev → ℕ → List Call
releases filters dev zero = []
releases filters dev (suc n) =
    let rest = releases filters dev n in
    if is_down dev n then rest ++ pass_calls filters dev ev_key n (pos 0) else rest

pub record IsReleased (filters : Filters) (dev : InputDev) (n : ℕ) (d : InputDev) : Type 0 where
  pub other : IsSame dev d
  pub low : (k : ℕ) → k < n → is_down d k ≡ false
  pub high : (k : ℕ) → n ≤ k → d.key k ≡ dev.key k
  pub calls : d.calls ≡ dev.calls ++ releases filters dev n

-- The calls of an event depend on the handles only.
pub calls_same :
    (filters : Filters) (dev d : InputDev) (t c : ℕ) (v : ℤ)
    → IsSame dev d
    → pass_calls filters d t c v ≡ pass_calls filters dev t c v
unfolding pass_calls
calls_same filters dev d t c v s =
    ap
      (λ g. elim g as (λ _. List Call) [
        | some h ↦ event h t c v ∷ []
        | none ↦ pass_loop filters d.open_count t c v false d.h_list
      ])
      s.grab
    ∙ ap
        (λ f. elim dev.grab as (λ _. List Call) [
          | some h ↦ event h t c v ∷ []
          | none ↦ pass_loop filters f t c v false d.h_list
        ])
        s.open_count
    ∙ ap
        (λ hs. elim dev.grab as (λ _. List Call) [
          | some h ↦ event h t c v ∷ []
          | none ↦ pass_loop filters dev.open_count t c v false hs
        ])
        s.h_list

down_same :
    (dev d : InputDev) (k : ℕ)
    → d.keybit ≡ dev.keybit
    → d.key k ≡ dev.key k
    → is_down d k ≡ is_down dev k
unfolding is_event_supported
down_same dev d k b e =
    ap (λ f. leb k key_max && f k && d.key k) b ∙ ap (λ x. leb k key_max && dev.keybit k && x) e

up_after : (bits b : Bool) → b ≡ false → (bits && b) ≡ false
up_after true b e = e
up_after false b e = refl

-- The releases with one key more.
abbrev add_release : Filters → InputDev → ℕ → Bool → List Call
add_release filters dev n b =
    let rest = releases filters dev n in
    if b then rest ++ pass_calls filters dev ev_key n (pos 0) else rest

pressed-IsReleased :
    (filters : Filters) (dev d : InputDev) (n : ℕ)
    → IsReleased filters dev n d
    → is_down d n ≡ true
    → IsReleased filters dev
        (suc n)
        (pass_event filters (record d { key = set d.key n false }) ev_key n (pos 0))
unfolding pass_event releases
pressed-IsReleased filters dev d n r x =
    let down = sym (down_same dev d n r.other.keybit (r.high n (omega arith))) ∙ x in
    let d' : InputDev = record d { key = set d.key n false } in
    let new = pass_calls filters dev ev_key n (pos 0) in
    record {
      other = then_calls dev d r.other;
      low = λ k lt. elim (Bool-cases (k == n)) [
        | inl e ↦
            up_after (is_event_supported k d.keybit key_max) (set d.key n false k)
              (ap (λ b. if b then false else d.key k) e)
        | inr e ↦
            down_same d d' k refl (set-other d.key n k false (ground (arith, e)))
            ∙ r.low k (ground (arith, e))
      ];
      high = λ k le. set-other d.key n k false (ground (arith, le)) ∙ r.high k (omega arith);
      calls =
          ap (λ cs. d.calls ++ cs)
            (calls_same filters dev d' ev_key n (pos 0) (then_calls dev d r.other))
          ∙ ap (λ cs. cs ++ new) r.calls
          ∙ append_assoc dev.calls (releases filters dev n) new
          ∙ ap (λ b. dev.calls ++ add_release filters dev n b) (sym down);
    }

unpressed-IsReleased :
    (filters : Filters) (dev d : InputDev) (n : ℕ)
    → IsReleased filters dev n d
    → is_down d n ≡ false
    → IsReleased filters dev (suc n) d
unfolding releases
unpressed-IsReleased filters dev d n r x =
    let up = sym (down_same dev d n r.other.keybit (r.high n (omega arith))) ∙ x in
    record {
      other = r.other;
      low = λ k lt. elim (Bool-cases (k == n)) [
        | inl e ↦ let here : k ≡ n = ground (arith, e) in ap (is_down d) here ∙ x
        | inr e ↦ r.low k (ground (arith, e))
      ];
      high = λ k le. r.high k (omega arith);
      calls = r.calls ∙ ap (λ b. dev.calls ++ add_release filters dev n b) (sym up);
    }

step-IsReleased :
    (filters : Filters) (dev d : InputDev) (n : ℕ)
    → IsReleased filters dev n d
    → IsReleased filters dev (suc n) (release_key filters d n)
unfolding release_key
step-IsReleased filters dev d n r =
    let pressed = pass_event filters (record d { key = set d.key n false }) ev_key n (pos 0) in
    let P : Bool → Type 0 = λ b. IsReleased filters dev (suc n) (if b then pressed else d) in
    elim (Bool-cases (is_down d n)) [
      | inl x ↦ subst P (sym x) (pressed-IsReleased filters dev d n r x)
      | inr x ↦ subst P (sym x) (unpressed-IsReleased filters dev d n r x)
    ]

pub release_below-IsReleased :
    (filters : Filters) (dev : InputDev) (n : ℕ)
    → IsReleased filters dev n (release_below filters n dev)
unfolding release_below releases
release_below-IsReleased filters dev zero = record {
  other = same dev;
  low = λ k h. ground (arith, h);
  high = λ k h. refl;
  calls = sym (append-nil dev.calls);
}
release_below-IsReleased filters dev (suc n) =
    step-IsReleased filters dev (release_below filters n dev) n
      (release_below-IsReleased filters dev n)
