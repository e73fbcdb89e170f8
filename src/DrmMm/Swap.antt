-- ===== src/DrmMm/Swap.antt =====
-- A node's number replaced by another on a list, and what the lists of nodes keep: list_replace.
use mathlib.Core.Path.{subst}
use my_posts.Prelude.{
  ℕ, ◌+◌, ◌≡◌, ◌≢◌, refl, ap, sym, ◌∙◌, ◌⊎◌, inl, inr, true, false, ◌||◌, List, [], ◌∷◌, map, arith,
  ltb, ◌==◌, Bool-cases, eq_self, has, if◌then◌else◌,
}
use my_posts.DrmMm.{Node}
use my_posts.DrmMm.Layout.{Chain, Distinct}

-- `list_replace`, for the entry of one list.
abbrev pub swap : (old new : ℕ) → ℕ → ℕ
swap old new k = if k == old then new else k

-- The same place under another name.
pub record IsAlike (f f' : ℕ → Node) (k j : ℕ) : Type 0 where
  pub start : (f' j).start ≡ (f k).start
  pub size : (f' j).size ≡ (f k).size
  pub flag : (f' j).hole_follows ≡ (f k).hole_follows

pub Chain-map :
    (f f' : ℕ → Node) (r : ℕ → ℕ) (hi pe p : ℕ) (ks : List ℕ)
    → ((k : ℕ) → (k ≡ p) ⊎ (has k ks ≡ true) → IsAlike f f' k (r k))
    → ((k : ℕ) → has k ks ≡ true → (f k).allocated ≡ true → (f' (r k)).allocated ≡ true)
    → Chain f hi pe p ks
    → Chain f' hi pe (r p) (map r ks)
Chain-map f f' r hi pe p [] like al c = (c.0, (like p (inl refl)).flag ∙ c.1)
Chain-map f f' r hi pe p (k ∷ ks) like al (a, b, d, e, c) =
    let here = ap (λ w. w || has k ks) (eq_self k) in
    let l = like k (inr here) in
    let rest : Chain f' hi ((f k).start + (f k).size) (r k) (map r ks) =
      Chain-map f f' r hi ((f k).start + (f k).size) k ks
        (λ j i. elim i [
          | inl w ↦ like j (inr (ap (λ z. (k == z) || has z ks) w ∙ here))
          | inr w ↦ like j (inr (ground (arith, w)))
        ])
        (λ j i. al j (ground (arith, i))) c in
    (
      rw l.start a,
      (like p (inl refl)).flag ∙ b ∙ ap (λ z. ltb pe z) (sym l.start),
      al k here d,
      rw l.size e,
      subst (λ z. Chain f' hi z (r k) (map r ks))
          (ap (λ z. z + (f k).size) (sym l.start) ∙ ap (λ z. (f' (r k)).start + z) (sym l.size))
          rest,
    )

pub has-swap-new :
    (old new : ℕ) (ks : List ℕ) → has new ks ≡ false → has new (map (swap old new) ks) ≡ has old ks
has-swap-new old new [] out = refl
has-swap-new old new (k ∷ ks) out = elim (Bool-cases (k == old)) [
  | inl x ↦ rw x (ap (λ w. w || has new (map (swap old new) ks)) (eq_self new))
  | inr x ↦
      let e : (k == new) ≡ false = ground (arith, out) in
      rw (x, e) (has-swap-new old new ks (ground (arith, out)))
]

pub has-swap-old : (old new : ℕ) (ks : List ℕ) → old ≢ new → has old (map (swap old new) ks) ≡ false
has-swap-old old new [] ne = refl
has-swap-old old new (k ∷ ks) ne = elim (Bool-cases (k == old)) [
  | inl x ↦
      let e : (new == old) ≡ false = ground (arith, ne) in rw (x, e) (has-swap-old old new ks ne)
  | inr x ↦ rw (x, x) (has-swap-old old new ks ne)
]

pub has-swap-other :
    (old new h : ℕ) (ks : List ℕ) → h ≢ old → h ≢ new → has h (map (swap old new) ks) ≡ has h ks
has-swap-other old new h [] a b = refl
has-swap-other old new h (k ∷ ks) a b = elim (Bool-cases (k == old)) [
  | inl x ↦
      let e : (new == h) ≡ false = ground (arith, b) in
      let e' : (k == h) ≡ false = ground (arith, a, x) in
      rw (x, e, e') (has-swap-other old new h ks a b)
  | inr x ↦ rw x (ap (λ w. (k == h) || w) (has-swap-other old new h ks a b))
]

pub swap-Distinct :
    (old new : ℕ) (ks : List ℕ)
    → has new ks ≡ false
    → Distinct ks
    → Distinct (map (swap old new) ks)
swap-Distinct old new [] out d = d
swap-Distinct old new (k ∷ ks) out d =
    let rest = swap-Distinct old new ks (ground (arith, out)) d.1 in
    elim (Bool-cases (k == old)) [
      | inl x ↦
          let e : k ≡ old = ground (arith, x) in
          rw x
            (has-swap-new old new ks (ground (arith, out)) ∙ ap (λ w. has w ks) (sym e) ∙ d.0, rest)
      | inr x ↦
          let a : k ≢ old = λ w. ground (arith, w, x) in
          let b : k ≢ new = λ w. ground (arith, w, out) in
          rw x (has-swap-other old new k ks a b ∙ d.0, rest)
    ]
