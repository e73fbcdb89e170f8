-- ===== src/Input/Defuzz.antt =====
-- input_defuzz_abs_event: small changes of an axis are smoothed.
use mathlib.Core.Path.{subst}
use my_posts.Prelude.{
  ℕ, ◌-◌, ◌*◌, ◌%◌, ◌^◌, ◌≤◌, ◌<◌, ltb, ◌≡◌, ◌⊎◌, inl, inr, refl, sym, ◌∙◌, Bool, true, false, ◌&&◌,
  arith, Bool-cases, if◌then◌else◌,
}
use my_posts.Prelude.Int.{
  ℤ, pos, negsuc, pos_part, neg_part, ◌+ℤ◌, ◌-ℤ◌, ◌≤ℤ◌, ltb_ℤ, eqb_ℤ, times, quot, +ℤ_parts,
  -ℤ_parts, times_parts, quot_parts, parts_disjoint,
}

-- What 32 bits hold of an integer, as an int; signed arithmetic wraps around.
unfoldable pub wrapped : ℤ → ℤ
wrapped z =
    let bits = elim z as (λ _. ℕ) [ pos n ↦ n % 2 ^ 32 | negsuc n ↦ 2 ^ 32 - 1 - n % 2 ^ 32 ] in
    if ltb bits (2 ^ 31) then pos bits else negsuc (2 ^ 32 - 1 - bits)

-- `value > old_val - d && value < old_val + d`
unfoldable pub near : (value old_val d : ℤ) → Bool
unfolding wrapped
near value old_val d = ltb_ℤ (wrapped (old_val -ℤ d)) value && ltb_ℤ value (wrapped (old_val +ℤ d))

unfoldable pub defuzz_abs_event : (value old_val fuzz : ℤ) → ℤ
unfolding wrapped near
defuzz_abs_event value old_val fuzz =
    if eqb_ℤ fuzz (pos 0)
    then value
    else (if near value old_val (quot fuzz 2)
        then old_val
        else (if near value old_val fuzz
            then quot (wrapped (wrapped (times 3 old_val) +ℤ value)) 4
            else (if near value old_val (wrapped (times 2 fuzz))
                then quot (wrapped (old_val +ℤ value)) 2
                else value)))

-- The change from `old` to `value` is less than `d`.
abbrev pub within : ℤ → ℤ → ℤ → Bool
within value old d = ltb_ℤ (old -ℤ d) value && ltb_ℤ value (old +ℤ d)

-- The same without a bound on integers.
smoothed : (value old_val fuzz : ℤ) → ℤ
smoothed value old_val fuzz =
    if eqb_ℤ fuzz (pos 0)
    then value
    else (if within value old_val (quot fuzz 2)
        then old_val
        else (if within value old_val fuzz
            then quot (times 3 old_val +ℤ value) 4
            else (if within value old_val (times 2 fuzz)
                then quot (old_val +ℤ value) 2
                else value)))

-- `x` lies between `a` and `b`, in either order.
abbrev pub IsBetween : ℤ → ℤ → ℤ → Type 0
IsBetween a x b = ((a ≤ℤ x) × (x ≤ℤ b)) ⊎ ((b ≤ℤ x) × (x ≤ℤ a))

three_quarters : (a b : ℤ) → IsBetween a (quot (times 3 a +ℤ b) 4) b
three_quarters a b = ground (
  arith,
  +ℤ_parts (times 3 a) b,
  times_parts 3 a,
  quot_parts (times 3 a +ℤ b) 4,
  parts_disjoint a,
  parts_disjoint b,
  parts_disjoint (times 3 a +ℤ b),
)

half : (a b : ℤ) → IsBetween a (quot (a +ℤ b) 2) b
half a b = ground (
  arith,
  +ℤ_parts a b,
  quot_parts (a +ℤ b) 2,
  parts_disjoint a,
  parts_disjoint b,
  parts_disjoint (a +ℤ b),
)

within_mono : (value old d e : ℤ) → d ≤ℤ e → within value old d ≡ true → within value old e ≡ true
within_mono value old d e le h =
    ground (arith, -ℤ_parts old d, -ℤ_parts old e, +ℤ_parts old d, +ℤ_parts old e)

fuzz_le : (f : ℤ) → pos 0 ≤ℤ f → (f ≤ℤ times 2 f) × (quot f 2 ≤ℤ f)
fuzz_le f h = ground (arith, times_parts 2 f, quot_parts f 2, parts_disjoint f)

choose_IsBetween :
    (z near mid far : Bool) (value old p q : ℤ)
    → IsBetween old p value
    → IsBetween old q value
    → IsBetween old
        (if z
          then value
          else (if near then old else (if mid then p else (if far then q else value))))
        value
choose_IsBetween true near mid far value old p q hp hq = ground arith
choose_IsBetween false true mid far value old p q hp hq = ground arith
choose_IsBetween false false true far value old p q hp hq = hp
choose_IsBetween false false false true value old p q hp hq = hq
choose_IsBetween false false false false value old p q hp hq = ground arith

contra_false : (a b : Bool) → (a ≡ true → b ≡ true) → b ≡ false → a ≡ false
contra_false true b h e = sym (h refl) ∙ e
contra_false false b h e = refl

smoothed_lem :
    (value old_val fuzz : ℤ)
    → IsBetween old_val (smoothed value old_val fuzz) value
      × (eqb_ℤ fuzz (pos 0) ≡ true → smoothed value old_val fuzz ≡ value)
      × (eqb_ℤ fuzz (pos 0) ≡ false
          → within value old_val (quot fuzz 2) ≡ true
          → smoothed value old_val fuzz ≡ old_val)
      × (pos 0 ≤ℤ fuzz
          → within value old_val (times 2 fuzz) ≡ false
          → smoothed value old_val fuzz ≡ value)
unfolding smoothed
smoothed_lem value old_val fuzz = (
  choose_IsBetween (eqb_ℤ fuzz (pos 0)) (within value old_val (quot fuzz 2))
      (within value old_val fuzz) (within value old_val (times 2 fuzz)) value old_val
      (quot (times 3 old_val +ℤ value) 4) (quot (old_val +ℤ value) 2) (three_quarters old_val value)
      (half old_val value),
  λ z. rw z,
  λ z w. rw (z, w),
  λ h w.
      let le = fuzz_le fuzz h in
      let mid =
        contra_false (within value old_val fuzz) (within value old_val (times 2 fuzz))
          (within_mono value old_val fuzz (times 2 fuzz) le.0) w in
      let near =
        contra_false (within value old_val (quot fuzz 2)) (within value old_val fuzz)
          (within_mono value old_val (quot fuzz 2) fuzz le.1) mid in
      elim (Bool-cases (eqb_ℤ fuzz (pos 0))) [ inl z ↦ rw z | inr z ↦ rw (z, near, mid, w) ],
)

-- Numbers of which four add up to an int.
abbrev pub IsSmall : ℤ → Type 0
IsSmall z = (pos_part z < 2 ^ 29) × (neg_part z < 2 ^ 29)

wrapped_lem : (z : ℤ) → pos_part z < 2 ^ 31 → neg_part z < 2 ^ 31 → wrapped z ≡ z
unfolding wrapped
wrapped_lem (pos n) p q = ground (arith, p)
wrapped_lem (negsuc n) p q = ground (arith, q)

near_lem :
    (value old d : ℤ)
    → IsSmall old
    → pos_part d < 2 ^ 30
    → neg_part d < 2 ^ 30
    → near value old d ≡ within value old d
unfolding near
near_lem value old d o p q =
    let a = -ℤ_parts old d in
    let b = +ℤ_parts old d in
    let da = parts_disjoint (old -ℤ d) in
    let db = parts_disjoint (old +ℤ d) in
    let e =
      wrapped_lem (old -ℤ d) (omega (arith, a, da, o, p, q)) (omega (arith, a, da, o, p, q)) in
    let f =
      wrapped_lem (old +ℤ d) (omega (arith, b, db, o, p, q)) (omega (arith, b, db, o, p, q)) in
    rw (e, f)

small-times :
    (k : ℕ) (z : ℤ)
    → IsSmall z
    → (pos_part (times k z) ≤ k * pos_part z) × (neg_part (times k z) ≤ k * neg_part z)
unfolding times
small-times k z s = ground arith

defuzz-smoothed :
    (value old fuzz : ℤ)
    → IsSmall value
    → IsSmall old
    → IsSmall fuzz
    → defuzz_abs_event value old fuzz ≡ smoothed value old fuzz
unfolding defuzz_abs_event smoothed
defuzz-smoothed value old fuzz v o f =
    let three = small-times 3 old o in
    let two = small-times 2 fuzz f in
    let q = quot_parts fuzz 2 in
    let dq = parts_disjoint (quot fuzz 2) in
    let e3 = wrapped_lem (times 3 old) (omega (arith, three, o)) (omega (arith, three, o)) in
    let e2 = wrapped_lem (times 2 fuzz) (omega (arith, two, f)) (omega (arith, two, f)) in
    let a = +ℤ_parts (times 3 old) value in
    let da = parts_disjoint (times 3 old +ℤ value) in
    let ea =
      wrapped_lem (times 3 old +ℤ value) (omega (arith, a, da, three, v, o))
        (omega (arith, a, da, three, v, o)) in
    let b = +ℤ_parts old value in
    let db = parts_disjoint (old +ℤ value) in
    let eb = wrapped_lem (old +ℤ value) (omega (arith, b, db, v, o)) (omega (arith, b, db, v, o)) in
    let n1 =
      near_lem value old (quot fuzz 2) o (omega (arith, q, dq, f)) (omega (arith, q, dq, f)) in
    let n2 = near_lem value old fuzz o (omega (arith, f)) (omega (arith, f)) in
    let n3 = near_lem value old (times 2 fuzz) o (omega (arith, two, f)) (omega (arith, two, f)) in
    rw (e3, e2, ea, eb, n1, n2, n3) refl

-- For an old and a new value and a fuzz whose magnitudes are below 2 ^ 29, so that no int overflows,
-- what input_defuzz_abs_event reports lies between the old and the new value; it is the new value
-- without fuzz, the old value for a change below half the fuzz, and the new value for a change of
-- at least twice a fuzz that is not negative.
pub defuzz_abs_event_lem :
    (value old_val fuzz : ℤ)
    → IsSmall value
    → IsSmall old_val
    → IsSmall fuzz
    → IsBetween old_val (defuzz_abs_event value old_val fuzz) value
      × (eqb_ℤ fuzz (pos 0) ≡ true → defuzz_abs_event value old_val fuzz ≡ value)
      × (eqb_ℤ fuzz (pos 0) ≡ false
          → within value old_val (quot fuzz 2) ≡ true
          → defuzz_abs_event value old_val fuzz ≡ old_val)
      × (pos 0 ≤ℤ fuzz
          → within value old_val (times 2 fuzz) ≡ false
          → defuzz_abs_event value old_val fuzz ≡ value)
defuzz_abs_event_lem value old_val fuzz v o f =
    let same = defuzz-smoothed value old_val fuzz v o f in
    let (a, b, c, d) = smoothed_lem value old_val fuzz in
    (
      subst (λ x. IsBetween old_val x value) (sym same) a,
      λ z. same ∙ b z,
      λ z w. same ∙ c z w,
      λ z w. same ∙ d z w,
    )
