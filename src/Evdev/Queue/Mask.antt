-- ===== src/Evdev/Queue/Mask.antt =====
-- Places in a ring: `& (bufsize - 1)` takes them once round.
use native.Mathlib.Nat.{mod-eq_of_lt, mod-eq-sub-mod, add-mul-mod_self_right}
use my_posts.Prelude.{
  ℕ, ◌+◌, ◌-◌, ◌*◌, ◌%◌, ◌^◌, ◌≤◌, ◌<◌, ◌≡◌, sym, ap, ◌∙◌, inl, inr, ltb, if◌then◌else◌, arith,
  Bool-cases,
}
use my_posts.Evdev.Ring.{mask}

-- A place less than once round the ring.
abbrev pub wrap : ℕ → ℕ → ℕ
wrap b x = if ltb x b then x else x - b

-- The ring's size is a power of two below 2 ^ 32, and so divides it.
pub record Divides (b : ℕ) : Type 0 where
  pub big : 3 ≤ b
  pub small : b + b ≤ 2 ^ 32
  pub rounds : ℕ
  pub divides : b + rounds * b ≡ 2 ^ 32

pub mod-wrap : (b x : ℕ) → x < b + b → x % b ≡ wrap b x
mod-wrap b x h = elim (Bool-cases (ltb x b)) [
  | inl l ↦ rw l (mod-eq_of_lt (ground arith))
  | inr l ↦
      let le : b ≤ x = ground arith in
      rw l (mod-eq-sub-mod {n = x} {m = b} le ∙ mod-eq_of_lt {n = x - b} {m = b} (omega arith))
]

pub mask-wrap : (b x : ℕ) → Divides b → x < b + b → mask b x ≡ wrap b x
mask-wrap b x d h =
    let e : x % 2 ^ 32 ≡ x = omega (arith, d.small) in ap (λ z. z % b) e ∙ mod-wrap b x h

pub mask_back : (b x : ℕ) → Divides b → x < b → mask b (x + 2 ^ 32 - 2) ≡ wrap b (x + b - 2)
mask_back b x d h = elim (Bool-cases (ltb x 2)) [
  | inl l ↦
      let low : x < 2 = ground arith in
      let e : (x + 2 ^ 32 - 2) % 2 ^ 32 ≡ (x + b - 2) + d.rounds * b =
        omega (arith, d.divides, d.big) in
      ap (λ z. z % b) e
      ∙ add-mul-mod_self_right (x + b - 2) d.rounds b
      ∙ mod-wrap b (x + b - 2) (omega (arith, d.big))
  | inr l ↦
      let high : 2 ≤ x = ground arith in
      let e : (x + 2 ^ 32 - 2) % 2 ^ 32 ≡ x - 2 = omega (arith, d.small) in
      let w : wrap b (x + b - 2) ≡ x - 2 = ground (arith, high, d.big) in
      ap (λ z. z % b) e ∙ mod-eq_of_lt {n = x - 2} {m = b} (omega arith) ∙ sym w
]
