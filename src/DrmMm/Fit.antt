-- ===== src/DrmMm/Fit.antt =====
-- The tests of the search, check_free_hole, pass every hole with room for the request.
use native.Mathlib.Nat.{div-add-mod', mod-lt, mul-le-mul_right, add-mul, one-mul}
use my_posts.Prelude.{
  ℕ, ◌+◌, ◌-◌, ◌*◌, ◌/◌, ◌%◌, ◌≤◌, ◌<◌, ◌≡◌, ◌≢◌, refl, inl, inr, true, false, Option, none, some,
  arith, leb, ◌==◌, Bool-cases,
}
use my_posts.DrmMm.{
  Mm, word, add, sub, hole_start, hole_end, align_start, check_free_hole, clip, Adjust, adjusted,
  emptied, serves,
}
use my_posts.DrmMm.Search.{IsAligned, align_start_lem, seen}

-- The piece lies in the range, where there is one.
abbrev pub IsWithin : Option (ℕ × ℕ) → ℕ → ℕ → Type 0
IsWithin none a b = Unit
IsWithin (some (start, end)) a b = (start ≤ a) × (b ≤ end)

-- Two multiples of `m` are as far apart as `m`.
next_multiple : (s a m : ℕ) → 1 ≤ m → s % m ≢ 0 → a % m ≡ 0 → s ≤ a → s + (m - s % m) ≤ a
next_multiple s a m pos ne al le = elim (Bool-cases (leb (a / m) (s / m))) [
  | inl x ↦ absurd (
      omega (
        arith,
        div-add-mod' s m,
        div-add-mod' a m,
        mul-le-mul_right {m = a / m} {n = s / m} m (ground (arith, x)),
        al,
        le,
        ne,
      ))
  | inr x ↦
      let up : (s / m + 1) * m ≤ a / m * m =
        mul-le-mul_right {m = s / m + 1} {n = a / m} m (ground (arith, x)) in
      omega (
        arith,
        div-add-mod' s m,
        div-add-mod' a m,
        up,
        al,
        add-mul (s / m) 1 m,
        one-mul m,
        mod-lt s {m = m} pos,
      )
]

-- The aligned start is the least one.
pub align_start-least : (s m a : ℕ) → s + m < word → IsAligned m a → s ≤ a → align_start s m ≤ a
unfolding align_start
align_start-least s m a w al le = elim (Bool-cases (m == 0)) [
  | inl x ↦ rw x le
  | inr x ↦ elim (Bool-cases (s % m == 0)) [
    | inl y ↦ rw (x, y) le
    | inr y ↦
        let m1 : 1 ≤ m = ground (arith, x) in
        let e : add s (m - s % m) ≡ s + (m - s % m) = omega (arith, w, mod-lt s {m = m} m1) in
        let multiple : a % m ≡ 0 = elim al [ inl z ↦ absurd (ground (arith, x, z)) | inr z ↦ z ] in
        rw (x, y, e) (next_multiple s a m m1 (λ z. ground (arith, y, z)) multiple le)
  ]
]

pub check_free_hole-fits :
    (start end size alignment a : ℕ)
    → start + alignment + size < word
    → end < word
    → IsAligned alignment a
    → start ≤ a
    → a + size ≤ end
    → check_free_hole start end size alignment ≡ true
unfolding check_free_hole
check_free_hole-fits start end size alignment a w small al ge le =
    let least = align_start-least start alignment a (omega (arith, w)) al ge in
    let up = align_start_lem start alignment (omega (arith, w)) in
    let e : add (align_start start alignment) size ≡ align_start start alignment + size =
      omega (arith, w, up.1) in
    let d : sub end start ≡ end - start = omega (arith, small, ge, le) in
    ground (arith, e, d, least, ge, le)

module _ (adjust : Adjust) (mm : Mm) (size alignment color : ℕ) (range : Option (ℕ × ℕ)) where
  -- What the hook leaves of the hole behind `h` contains the piece from `a` on.
  abbrev pub Leaves : ℕ → ℕ → Type 0
  Leaves h a = elim adjust as (λ _. Type 0) [
    | none ↦ Unit
    | some f ↦
        let r = f mm h color (clip range (hole_start mm h, hole_end mm h)) in
        (r.0 ≤ a) × (a + size ≤ r.1)
  ]

  -- There is room for the request from `a` on, in the hole behind `h` and in the range.
  pub record Fits (h a : ℕ) : Type 0 where
    pub aligned : IsAligned alignment a
    pub behind : hole_start mm h ≤ a
    pub before : a + size ≤ hole_end mm h
    pub within : IsWithin range a (a + size)
    pub left : Leaves h a

clip-keeps :
    (r : Option (ℕ × ℕ)) (a b x y : ℕ)
    → x ≤ a
    → b ≤ y
    → IsWithin r a b
    → ((clip r (x, y)).0 ≤ a) × (b ≤ (clip r (x, y)).1)
unfolding clip
clip-keeps none a b x y p q w = (p, q)
clip-keeps (some (s, e)) a b x y p q w = ground (arith, p, q, w)

-- The hole as the search sees it has the room.
seen-room :
    (adjust : Adjust) (mm : Mm) (size alignment color : ℕ) (range : Option (ℕ × ℕ)) (h a : ℕ)
    → Fits adjust mm size alignment color range h a
    → let r = seen adjust mm size alignment color range h in (r.0 ≤ a) × (a + size ≤ r.1)
unfolding adjusted
seen-room none mm size alignment color range h a fit =
    clip-keeps range a (a + size) (hole_start mm h) (hole_end mm h) fit.behind fit.before fit.within
seen-room (some f) mm size alignment color range h a fit = fit.left

full-emptied : (adjust : Adjust) (r : ℕ × ℕ) → r.0 < r.1 → emptied adjust r ≡ false
unfolding emptied
full-emptied none r lt = refl
full-emptied (some f) (a, b) lt = ground (arith, lt)

pub serves-Fits :
    (adjust : Adjust) (mm : Mm) (size alignment color : ℕ) (range : Option (ℕ × ℕ)) (h a : ℕ)
    → let r = seen adjust mm size alignment color range h in
      r.0 + alignment + size < word
      → r.1 < word
      → 1 ≤ size
      → Fits adjust mm size alignment color range h a
      → serves adjust mm size alignment color range h ≡ true
unfolding serves
serves-Fits adjust mm size alignment color range h a w small sz fit =
    let r = seen adjust mm size alignment color range h in
    let room = seen-room adjust mm size alignment color range h a fit in
    let there = full-emptied adjust r (omega (arith, room.0, room.1, sz)) in
    let fits = check_free_hole-fits r.0 r.1 size alignment a w small fit.aligned room.0 room.1 in
    rw there fits
