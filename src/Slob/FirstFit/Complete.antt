-- ===== src/Slob/FirstFit/Complete.antt =====
-- First fit finds aligned units, and fails only where no aligned run of free units would do.
use native.Mathlib.Nat.{div-add-mod}
use native.Mathlib.Decide.{dec_le}
use my_posts.Prelude.{
  ℕ, ◌+◌, ◌-◌, ◌*◌, ◌/◌, ◌%◌, ◌≤◌, ◌<◌, ◌≡◌, ◌⊎◌, inl, inr, Option, none, some, List, [], ◌∷◌,
  arith, leb, ◌==◌, Bool-cases, ap,
}
use my_posts.Slob.Block.{Ptr, slob_unit}
use my_posts.Slob.FreeList.{Block, Ordered, Free, Free_bounds}
use my_posts.Slob.PageAlloc.{Align, align_ptr}
use my_posts.Slob.FirstFit.{keep, first_fit}
use my_posts.Slob.FirstFit.Sound.{Takes, pieces-Takes, keep-Takes}

-- The byte address of `p` is a multiple of `align`; 0 asks for nothing.
abbrev pub IsAligned : ℕ → Ptr → Type 0
IsAligned align p = (align ≡ 0) ⊎ (p * slob_unit % align ≡ 0)

-- Every unit of the `units` units at `p` is free.
abbrev pub Run : ℕ → Ptr → List Block → Type 0
Run units p bs = (x : Ptr) → p ≤ x → x < p + units → Free x bs

-- What a search for `units` units may answer.
abbrev pub Answer : ℕ → ℕ → ℕ → Ptr → List Block → Option (Ptr × List Block) → Type 0
Answer n units align lo bs none = (p : Ptr) → IsAligned align p → Run units p bs → ⊥
Answer n units align lo bs (some (p, bs')) = Takes n units lo bs p bs' × IsAligned align p

even-of-multiple : (x a : ℕ) → a % 2 ≡ 0 → x % a ≡ 0 → x % 2 ≡ 0
even-of-multiple x a h k = omega (arith, div-add-mod x a, ap (λ (t : ℕ). t * (x / a)) (half a h))
  where
    half : (a : ℕ) → a % 2 ≡ 0 → a ≡ 2 * (a / 2)
    half a h = omega arith

module _ (K : Align) (align : ℕ) (even : align % 2 ≡ 0) where
  align_ptr-IsAligned : (a : Ptr) → IsAligned align (align_ptr K a align)
  align_ptr-IsAligned a = elim (Bool-cases (align == 0)) [
    | inl z ↦ inl (ground arith)
    | inr z ↦ rw z (
        let x = K.align (a * slob_unit) align in
        let m = K.multiple (a * slob_unit) align (ground arith) in
        let t : x / slob_unit * slob_unit ≡ x = omega (arith, even-of-multiple x align even m) in
        inr (rw t m))
  ]

  align_ptr-le : (a p : Ptr) → a ≤ p → IsAligned align p → align_ptr K a align ≤ p
  align_ptr-le a p h (inl z) = rw z h
  align_ptr-le a p h (inr m) = elim (Bool-cases (align == 0)) [
    | inl z ↦ rw z h
    | inr z ↦ rw z (
        let l = K.least (a * slob_unit) (p * slob_unit) align (ground arith) (omega arith) m in
        omega arith)
  ]

  align_ptr-ge : (a : Ptr) → a ≤ align_ptr K a align
  align_ptr-ge a = ground (arith, K.ge (a * slob_unit) align)

  -- A run of free units lies in one block, since blocks do not touch.
  pub run_in_block :
      (n lo a s units p : ℕ) (bs : List Block)
      → 1 ≤ units
      → Ordered n lo ((a, s) ∷ bs)
      → Run units p ((a, s) ∷ bs)
      → ((a ≤ p) × (p + units ≤ a + s)) ⊎ Run units p bs
  run_in_block n lo a s units p bs u o run = start (run p (omega arith) (omega arith))
    where
      other : (x : Ptr) → a + s ≤ x → Free x ((a, s) ∷ bs) → Free x bs
      other x h (inl f) = absurd (omega arith)
      other x h (inr f) = f

      start : Free p ((a, s) ∷ bs) → ((a ≤ p) × (p + units ≤ a + s)) ⊎ Run units p bs
      start (inl h) = elim (dec_le (p + units) (a + s)) [
        | yes k ↦ inl (h.0, k)
        | no k ↦
            let f = other (a + s) (omega arith) (run (a + s) (omega arith) (omega arith)) in
            absurd (omega (arith, Free_bounds n (a + s + 1) (a + s) bs o.2 f))
      ]
      start (inr f) =
          let b = Free_bounds n (a + s + 1) p bs o.2 f in
          inr (λ x h k. other x (omega arith) (run x h k))

  Answer-keep :
      (n units lo a s : ℕ) (bs : List Block) (found : Option (Ptr × List Block))
      → 1 ≤ units
      → s < units + (align_ptr K a align - a)
      → Ordered n lo ((a, s) ∷ bs)
      → Answer n units align (a + s + 1) bs found
      → Answer n units align lo ((a, s) ∷ bs) (keep (a, s) found)
  Answer-keep n units lo a s bs none u full o none_fits = λ p al run.
      elim (run_in_block n lo a s units p bs u o run) [
        | inl h ↦ omega (arith, align_ptr-le a p h.0 al)
        | inr r ↦ none_fits p al r
      ]
  Answer-keep n units lo a s bs (some (p, bs')) u full o (t, al) =
      (keep-Takes n units lo a s p bs bs' o t, al)

  -- First fit answers with aligned units that were free, taking out just these, or it fails and
  -- no aligned run of free units is long enough.
  pub first_fit-Answer :
      (n units lo : ℕ) (bs : List Block)
      → 1 ≤ units
      → Ordered n lo bs
      → Answer n units align lo bs (first_fit K units align bs)
  unfolding first_fit
  first_fit-Answer n units lo [] u o = λ p al run. run p (omega arith) (omega arith)
  first_fit-Answer n units lo ((a, s) ∷ bs) u o =
      let d = align_ptr K a align - a in
      elim (Bool-cases (leb (units + d) s)) [
        | inl room ↦
            let at : a + d ≡ align_ptr K a align = omega (arith, align_ptr-ge a) in
            rw room
              (pieces-Takes n lo a s d units bs u (ground arith) o, rw at (align_ptr-IsAligned a))
        | inr full ↦ rw full (
            Answer-keep n units lo a s bs (first_fit K units align bs) u (ground arith) o
              (first_fit-Answer n units (a + s + 1) bs u o.2))
      ]
