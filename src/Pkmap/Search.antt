-- ===== src/Pkmap/Search.antt =====
-- The search for an unused entry in map_new_virtual.
use mathlib.Core.Path.{subst}
use native.Mathlib.Nat.{mod-lt, mod-eq_of_lt, mod_self}
use my_posts.Prelude.{
  ℕ, zero, suc, ◌+◌, ◌-◌, ◌%◌, ◌≤◌, ◌<◌, ◌≡◌, ◌≢◌, refl, ap, sym, ◌∙◌, ◌⊎◌, inl, inr, true, false,
  Option, none, some, arith, ltb, ◌==◌, Bool-cases, if◌then◌else◌,
}
use my_posts.Pkmap.{Pkmap, Outcome, done, sleep, bug, advance, find_slot}
use my_posts.Pkmap.Slots.{IsValid, flush_all_zero_pkmaps-IsFlushed}
use my_posts.Pkmap.Map.{IsKept, IsKept-trans}

-- A round of the search: `c` is the count, `last` the entry.
abbrev Advanced : (n count : ℕ) → Pkmap → ℕ → Pkmap → Type 0
Advanced n count s c s' =
    IsKept n s s'
    × (((s'.last ≡ s.last + 1) × (c ≡ count) × (s'.count ≡ s.count))
        ⊎ ((s.last + 1 ≡ n) × (s'.last ≡ 0) × (c ≡ n) × ((j : ℕ) → j < n → s'.count j ≢ 1)))

advance-Advanced :
    (n count : ℕ) (s : Pkmap)
    → IsValid n s
    → (r : ℕ × Pkmap) × (advance n count s ≡ some r) × Advanced n count s r.0 r.1
unfolding advance
advance-Advanced n count s v =
    let moved = record s { last = (s.last + 1) % n } in
    let m : IsKept n s moved = record {
      valid = record {
        last_in = mod-lt (s.last + 1) {m = n} (omega (arith, v.last_in));
        backward = v.backward;
        forward = v.forward;
        empty = v.empty;
        filled = v.filled;
      };
      place = λ p j e h. e;
      users = λ j h. refl;
      fresh = λ p e. e;
      were = λ j h. h;
    } in
    elim (Bool-cases (ltb (s.last + 1) n)) [
      | inl x ↦
          let w : (s.last + 1) % n ≡ s.last + 1 = mod-eq_of_lt (ground (arith, x)) in
          let z : ((s.last + 1) % n == 0) ≡ false = ground (arith, w) in
          ((count, moved), rw z, (m, inl (w, refl, refl)))
      | inr x ↦
          let e : s.last + 1 ≡ n = ground (arith, v.last_in) in
          let w : (s.last + 1) % n ≡ 0 = ap (λ k. k % n) e ∙ mod_self n in
          let z : ((s.last + 1) % n == 0) ≡ true = ground (arith, w) in
          let (s', g, f) = flush_all_zero_pkmaps-IsFlushed n moved m.valid in
          let k : IsKept n moved s' = record {
            valid = f.valid;
            place = f.kept;
            users = λ j h. ground (arith, f.count j);
            fresh = f.fresh;
            were = λ j h. ground (arith, f.count j, h);
          } in
          let no_one : (j : ℕ) → j < n → s'.count j ≢ 1 =
            λ j lt o. ground (arith, f.count j, lt, o) in
          ((n, s'), rw (z, g), (IsKept-trans n s moved s' m k, inr (e, f.last ∙ w, refl, no_one)))
    ]

-- Since the start of the table was passed, no entry is without a user up to the flush, and the entries so far are in use.
abbrev IsPassed : ℕ → Pkmap → Type 0
IsPassed n s = (j : ℕ) → j < n → (s.count j ≢ 1) × (j ≤ s.last → 2 ≤ s.count j)

-- The search before and after it passes the start of the table, with rounds enough.
abbrev Phase : (n fuel count : ℕ) → Pkmap → Type 0
Phase n fuel count s =
    ((1 ≤ count) × (n + n ≤ fuel + s.last + 1) × (n ≤ count + s.last))
    ⊎ ((count + s.last + 1 ≡ n) × (count ≤ fuel) × IsPassed n s)

-- It sleeps only where every entry is in use.
abbrev pub Found : ℕ → Pkmap → Outcome Unit → Type 0
Found n s (done u s') = IsKept n s s' × (s'.count s'.last ≡ 0)
Found n s (sleep s') = IsKept n s s' × ((j : ℕ) → j < n → 2 ≤ s.count j)
Found n s bug = ⊥

Found-trans : (n : ℕ) (a b : Pkmap) (o : Outcome Unit) → IsKept n a b → Found n b o → Found n a o
Found-trans n a b (done u s') f g = (IsKept-trans n a b s' f g.0, g.1)
Found-trans n a b (sleep s') f g = (IsKept-trans n a b s' f g.0, λ j lt. f.were j (g.1 j lt))
Found-trans n a b bug f g = g

-- A round of the search whose entry is `r`.
abbrev round : ℕ → ℕ → ℕ × Pkmap → Outcome Unit
round n fuel r =
    if r.1.count r.1.last == 0
    then done tt r.1
    else (if r.0 - 1 == 0 then sleep r.1 else find_slot n fuel (r.0 - 1) r.1)

find_by :
    (n fuel count : ℕ) (s : Pkmap) (r : ℕ × Pkmap)
    → advance n count s ≡ some r
    → find_slot n (suc fuel) count s ≡ round n fuel r
unfolding find_slot
find_by n fuel count s r q =
    ap
      (λ (o : Option (ℕ × Pkmap)). elim o as (λ _. Outcome Unit) [
        | none ↦ bug
        | some w ↦ round n fuel w
      ])
      q

-- An entry that has been tried.
tried-IsPassed :
    (n : ℕ) (s : Pkmap)
    → (s.count s.last == 0) ≡ false
    → ((j : ℕ) → j < n → s.count j ≢ 1)
    → ((j : ℕ) → j < s.last → j < n → 2 ≤ s.count j)
    → IsPassed n s
tried-IsPassed n s x ones below = λ j lt. (
  ones j lt,
  λ le. elim (Bool-cases (j == s.last)) [
    | inl y ↦
        let e : s.last ≡ j = ground (arith, y) in
        let one = ones j lt in
        let some_there = subst (λ k. (s.count k == 0) ≡ false) e x in
        ground (arith, one, some_there)
    | inr y ↦ below j (ground (arith, y, le)) lt
  ],
)

-- The phase after a round whose entry is in use.
round-Phase :
    (n fuel count c : ℕ) (s s' : Pkmap)
    → s.last < n
    → 1 ≤ count
    → Phase n (suc fuel) count s
    → Advanced n count s c s'
    → (s'.count s'.last == 0) ≡ false
    → Phase n fuel (c - 1) s'
round-Phase n fuel count c s s' lt one phase adv x = elim adv.1 [
  | inl (l, e, f) ↦ elim phase [
    | inl (p, q, r) ↦
        inl
          (omega (arith, l, e, r, adv.0.valid.last_in), omega (arith, l, q), omega (arith, l, e, r))
    | inr (p, q, passed) ↦ inr (
      omega (arith, l, e, p, one),
      omega (arith, e, q),
      tried-IsPassed n s' x (λ j b. subst (λ g. g j ≢ 1) (sym f) (passed j b).0)
          (λ j b b'. subst (λ g. 2 ≤ g j) (sym f) ((passed j b').1 (omega (arith, l, b)))),
    )
  ]
  | inr (w, l, e, ones) ↦ elim phase [
    | inl (p, q, r) ↦ inr (
      omega (arith, w, l, e),
      omega (arith, w, e, q),
      tried-IsPassed n s' x ones (λ j b b'. absurd (omega (arith, l, b))),
    )
    | inr (p, q, passed) ↦ absurd (omega (arith, p, w, one))
  ]
]

-- No round is left.
last-Phase : (n fuel : ℕ) (s : Pkmap) → Phase n fuel 0 s → (j : ℕ) → j < n → 2 ≤ s.count j
last-Phase n fuel s phase j lt = elim phase [
  | inl (p, q, r) ↦ absurd (omega (arith, p))
  | inr (p, q, passed) ↦ (passed j lt).1 (omega (arith, p, lt))
]

pub find_slot-Found :
    (n fuel count : ℕ) (s : Pkmap)
    → IsValid n s
    → 1 ≤ count
    → Phase n fuel count s
    → Found n s (find_slot n fuel count s)
unfolding find_slot
find_slot-Found n zero count s v one phase = absurd (elim phase [
  | inl (p, q, r) ↦ omega (arith, q, v.last_in)
  | inr (p, q, passed) ↦ omega (arith, q, one)
])
find_slot-Found n (suc fuel) count s v one phase =
    let (r, q, a) = advance-Advanced n count s v in
    let next = round-Phase n fuel count r.0 s r.1 v.last_in one phase a in
    subst (λ o. Found n s o) (sym (find_by n fuel count s r q))
      (elim (Bool-cases (r.1.count r.1.last == 0)) [
        | inl x ↦ rw x (a.0, ground (arith, x))
        | inr x ↦ elim (Bool-cases (r.0 - 1 == 0)) [
          | inl y ↦
              let z : r.0 - 1 ≡ 0 = ground (arith, y) in
              let full = last-Phase n fuel r.1 (subst (λ c. Phase n fuel c r.1) z (next x)) in
              rw (x, y) (a.0, λ j lt. a.0.were j (full j lt))
          | inr y ↦
              rw (x, y)
                (Found-trans n s r.1 (find_slot n fuel (r.0 - 1) r.1) a.0
                  (find_slot-Found n fuel (r.0 - 1) r.1 a.0.valid (ground (arith, y)) (next x)))
        ]
      ])
