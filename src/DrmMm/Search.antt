-- ===== src/DrmMm/Search.antt =====
-- What the search of `hole_stack` returns, `search_free`, and where in the hole the node goes.
use mathlib.Core.Path.{subst}
use mathlib.Core.Option.{some-injective}
use native.Mathlib.Nat.{mod-add-mod, mod-lt, mod_self}
use my_posts.Prelude.{
  ℕ, ◌+◌, ◌-◌, ◌%◌, ◌≤◌, ◌<◌, ◌≡◌, ap, sym, ◌∙◌, ◌⊎◌, inl, inr, Bool, true, false, Option, none,
  some, List, [], ◌∷◌, arith, ltb, ◌==◌, Bool-cases, eq_self, has, if◌then◌else◌,
}
use my_posts.DrmMm.{
  Mm, word, add, hole_start, hole_end, align_start, check_free_hole, clip, Adjust, adjusted,
  emptied, serves, search_loop,
}

-- A multiple of the alignment; any number, if there is none.
abbrev pub IsAligned : ℕ → ℕ → Type 0
IsAligned alignment a = (alignment ≡ 0) ⊎ (a % alignment ≡ 0)

up-mod : (s m : ℕ) → 1 ≤ m → (s + (m - s % m)) % m ≡ 0
up-mod s m h =
    let e = mod-add-mod s m (m - s % m) in
    let f : s % m + (m - s % m) ≡ m = omega (arith, mod-lt s {m = m} h) in
    sym e ∙ ap (λ z. z % m) f ∙ mod_self m

pub align_start_lem :
    (s m : ℕ)
    → s + m < word
    → (s ≤ align_start s m) × (align_start s m ≤ s + m) × IsAligned m (align_start s m)
unfolding align_start
align_start_lem s m w = elim (Bool-cases (m == 0)) [
  | inl x ↦ rw x (omega arith, omega arith, inl (ground arith))
  | inr x ↦ elim (Bool-cases (s % m == 0)) [
    | inl y ↦ rw (x, y) (omega arith, omega arith, inr (ground arith))
    | inr y ↦
        let m1 : 1 ≤ m = ground arith in
        let e : add s (m - s % m) ≡ s + (m - s % m) = omega (arith, mod-lt s {m = m} m1) in
        rw (x, y, e) (omega arith, omega (arith, mod-lt s {m = m} m1), inr (up-mod s m m1))
  ]
]

-- A hole that passes the check has room for the request from the aligned start on.
pub check_free_hole_lem :
    (start end size alignment : ℕ)
    → start + alignment + size < word
    → check_free_hole start end size alignment ≡ true
    → align_start start alignment + size ≤ end
unfolding check_free_hole
check_free_hole_lem start end size alignment w h =
    let a = align_start_lem start alignment (omega arith) in
    let e : add (align_start start alignment) size ≡ align_start start alignment + size =
      omega (arith, a.1) in
    ground (arith, e)

if_else : (c b : Bool) → (if c then false else b) ≡ true → b ≡ true
if_else false b h = h
if_else true b h = ground arith

module _ (adjust : Adjust) (mm : Mm) (size alignment color : ℕ) (range : Option (ℕ × ℕ)) where
  -- The hole that a request sees behind `h`.
  abbrev pub seen : ℕ → ℕ × ℕ
  seen h = adjusted adjust mm h color (clip range (hole_start mm h, hole_end mm h))

  pub serves_lem :
      (h : ℕ)
      → (seen h).0 + alignment + size < word
      → serves adjust mm size alignment color range h ≡ true
      → align_start (seen h).0 alignment + size ≤ (seen h).1
  unfolding serves
  serves_lem h w s =
      check_free_hole_lem (seen h).0 (seen h).1 size alignment w
        (if_else (emptied adjust (seen h)) (check_free_hole (seen h).0 (seen h).1 size alignment) s)

  -- One round of the loop.
  module _ (want_best : Bool) (best : Option ℕ) (best_size k : ℕ) (ks : List ℕ) where
    abbrev loop : Bool → Option ℕ → ℕ → List ℕ → Option ℕ
    loop = search_loop adjust mm size alignment color range

    abbrev Round : Option ℕ → Type 0
    Round r =
        (r ≡ loop want_best best best_size ks)
          × ((serves adjust mm size alignment color range k ≡ false)
              ⊎ ((want_best ≡ true) × (best_size ≤ (mm.node k).size)))
        ⊎ ((serves adjust mm size alignment color range k ≡ true)
            × (((want_best ≡ false) × (r ≡ some k))
                ⊎ ((want_best ≡ true)
                    × ((mm.node k).size < best_size)
                    × (r ≡ loop want_best (some k) (mm.node k).size ks))))

    search_loop-Round : Round (loop want_best best best_size (k ∷ ks))
    unfolding search_loop
    search_loop-Round = elim (Bool-cases (serves adjust mm size alignment color range k)) [
      | inr x ↦ inl (rw x, inl x)
      | inl x ↦ elim (Bool-cases want_best) [
        | inr b ↦ inr (x, inl (b, rw (x, b)))
        | inl b ↦ elim (Bool-cases (ltb (mm.node k).size best_size)) [
          | inl l ↦ inr (
            x,
            inr (b, ground arith, rw (x, b, l) (ap (λ w. loop w (some k) (mm.node k).size ks) b)),
          )
          | inr l ↦ inl (rw (x, b, l) (ap (λ w. loop w best best_size ks) b), inr (b, ground arith))
        ]
      ]
    ]

  pub search_loop-some :
      (want_best : Bool) (best : Option ℕ) (best_size h : ℕ) (hs : List ℕ)
      → search_loop adjust mm size alignment color range want_best best best_size hs ≡ some h
      → (best ≡ some h)
        ⊎ ((has h hs ≡ true) × (serves adjust mm size alignment color range h ≡ true))
  unfolding search_loop
  search_loop-some want_best best best_size h [] e = inl e
  search_loop-some want_best best best_size h (k ∷ ks) e =
      elim (search_loop-Round want_best best best_size k ks) [
        | inl (q, w) ↦ elim (search_loop-some want_best best best_size h ks (sym q ∙ e)) [
          | inl o ↦ inl o
          | inr (m, s) ↦ inr (ground arith, s)
        ]
        | inr (x, inl (b, q)) ↦
            let o : k ≡ h = some-injective k h (sym q ∙ e) in
            inr (
              rw (← o, eq_self k),
              subst (λ z. serves adjust mm size alignment color range z ≡ true) o x,
            )
        | inr (x, inr (b, l, q)) ↦
            elim (search_loop-some want_best (some k) (mm.node k).size h ks (sym q ∙ e)) [
              | inl o ↦
                  let o' : k ≡ h = some-injective k h o in
                  inr (
                    rw (← o', eq_self k),
                    subst (λ z. serves adjust mm size alignment color range z ≡ true) o' x,
                  )
              | inr (m, s) ↦ inr (ground arith, s)
            ]
      ]

  search_loop-keeps :
      (want_best : Bool) (b best_size : ℕ) (hs : List ℕ)
      → ¬ search_loop adjust mm size alignment color range want_best (some b) best_size hs ≡ none
  unfolding search_loop
  search_loop-keeps want_best b best_size [] e = ground arith
  search_loop-keeps want_best b best_size (k ∷ ks) e =
      elim (search_loop-Round want_best (some b) best_size k ks) [
        | inl (q, w) ↦ search_loop-keeps want_best b best_size ks (sym q ∙ e)
        | inr (x, inl (w, q)) ↦ ground (arith, sym q ∙ e)
        | inr (x, inr (w, l, q)) ↦ search_loop-keeps want_best k (mm.node k).size ks (sym q ∙ e)
      ]

  -- Without a result there is no hole that serves and beats the bound.
  pub search_loop-none :
      (want_best : Bool) (best : Option ℕ) (best_size j : ℕ) (hs : List ℕ)
      → search_loop adjust mm size alignment color range want_best best best_size hs ≡ none
      → has j hs ≡ true
      → serves adjust mm size alignment color range j ≡ true
      → (want_best ≡ true) × (best_size ≤ (mm.node j).size)
  unfolding search_loop
  search_loop-none want_best best best_size j [] e i s = ground arith
  search_loop-none want_best best best_size j (k ∷ ks) e i s =
      elim (search_loop-Round want_best best best_size k ks) [
        | inl (q, w) ↦ elim (Bool-cases (k == j)) [
          | inr y ↦ search_loop-none want_best best best_size j ks (sym q ∙ e) (ground arith) s
          | inl y ↦
              let o : k ≡ j = ground arith in
              elim w [
                | inl u ↦ ground (
                  arith,
                  u,
                  subst (λ z. serves adjust mm size alignment color range z ≡ true) (sym o) s,
                )
                | inr u ↦ (u.0, subst (λ z. best_size ≤ (mm.node z).size) o u.1)
              ]
        ]
        | inr (x, inl (b, q)) ↦ ground (arith, sym q ∙ e)
        | inr (x, inr (b, l, q)) ↦
            elim (search_loop-keeps want_best k (mm.node k).size ks (sym q ∙ e)) [ ]
      ]
