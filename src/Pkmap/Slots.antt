-- ===== src/Pkmap/Slots.antt =====
-- The invariant of the slots, and the flush of the unused ones.
use mathlib.Core.Path.{subst}
use mathlib.Core.Option.{some-injective}
use my_posts.Prelude.{
  set, set-same, set-other, ℕ, zero, suc, ◌+◌, ◌≤◌, ◌<◌, ◌≡◌, ◌≢◌, refl, ap, sym, ◌∙◌, inl, inr,
  Bool, true, false, ◌&&◌, Option, none, some, arith, ltb, ◌==◌, Bool-cases, if◌then◌else◌,
}
use my_posts.Pkmap.{Pkmap, flush_slot, flush_below, flush_all_zero_pkmaps}

-- A slot with a count holds a page, a slot without one is empty, and `virtual` is the table backwards.
pub record IsValid (n : ℕ) (s : Pkmap) : Type 0 where
  pub last_in : s.last < n
  pub backward : (i p : ℕ) → s.table i ≡ some p → s.virtual p ≡ some i
  pub forward : (i p : ℕ) → s.virtual p ≡ some i → (i < n) × (s.table i ≡ some p)
  pub empty : (i : ℕ) → s.count i ≡ 0 → s.table i ≡ none
  pub filled : (i : ℕ) → 1 ≤ s.count i → (p : ℕ) × (s.table i ≡ some p)

pub none-some : {x : Option ℕ} {p : ℕ} → x ≡ none → x ≡ some p → ⊥
none-some a b = ground (arith, sym a ∙ b)

-- A mapped page's slot has a count.
pub counted : (n : ℕ) (s : Pkmap) (i p : ℕ) → IsValid n s → s.virtual p ≡ some i → 1 ≤ s.count i
counted n s i p v e = elim (Bool-cases (s.count i == 0)) [
  | inl x ↦ elim (none-some (v.empty i (ground arith)) (v.forward i p e).1) [ ]
  | inr x ↦ ground arith
]

-- The slot `i`, which holds the page `p`, is emptied.
abbrev cleared : Pkmap → ℕ → ℕ → Pkmap
cleared s i p = record s {
  count = set s.count i 0;
  table = set s.table i none;
  virtual = set s.virtual p none;
}

cleared-IsValid :
    (n : ℕ) (s : Pkmap) (i p : ℕ) → IsValid n s → s.table i ≡ some p → IsValid n (cleared s i p)
cleared-IsValid n s i p v at_i = record {
  last_in = v.last_in;
  backward = λ j q e. elim (Bool-cases (j == i)) [
    | inl x ↦ elim (none-some (ap (λ b. if b then none else s.table j) x) e) [ ]
    | inr x ↦
        let ji : j ≢ i = ground arith in
        let tj : s.table j ≡ some q = sym (set-other s.table i j none ji) ∙ e in
        let qp : q ≢ p = λ w.
          ji
            (some-injective j i (sym (v.backward j q tj) ∙ ap s.virtual w ∙ v.backward i p at_i)) in
        set-other s.virtual p q none qp ∙ v.backward j q tj
  ];
  forward = λ j q e. elim (Bool-cases (q == p)) [
    | inl x ↦ elim (none-some (ap (λ b. if b then none else s.virtual q) x) e) [ ]
    | inr x ↦
        let qp : q ≢ p = ground arith in
        let vq : s.virtual q ≡ some j = sym (set-other s.virtual p q none qp) ∙ e in
        let f = v.forward j q vq in
        let ji : j ≢ i = λ w. qp (some-injective q p (sym f.1 ∙ ap s.table w ∙ at_i)) in
        (f.0, set-other s.table i j none ji ∙ f.1)
  ];
  empty = λ j e. elim (Bool-cases (j == i)) [
    | inl x ↦ rw x
    | inr x ↦ rw x (v.empty j (sym (set-other s.count i j 0 (ground arith)) ∙ e))
  ];
  filled = λ j e. elim (Bool-cases (j == i)) [
    | inl x ↦ ground (arith, x)
    | inr x ↦
        let r = v.filled j (subst (λ z. 1 ≤ z) (set-other s.count i j 0 (ground arith)) e) in
        (r.0, set-other s.table i j none (ground arith) ∙ r.1)
  ];
}

-- The slots below `k` that nobody uses have been emptied; the pages in use stay where they are.
pub record IsFlushed (n k : ℕ) (s s' : Pkmap) : Type 0 where
  pub valid : IsValid n s'
  pub last : s'.last ≡ s.last
  pub count : (j : ℕ) → s'.count j ≡ (if ltb j k && (s.count j == 1) then 0 else s.count j)
  pub kept : (p j : ℕ) → s.virtual p ≡ some j → 2 ≤ s.count j → s'.virtual p ≡ some j
  pub fresh : (p : ℕ) → s.virtual p ≡ none → s'.virtual p ≡ none

flush_slot-skip : (k : ℕ) (r : Bool × Pkmap) → (r.1.count k == 1) ≡ false → flush_slot k r ≡ some r
unfolding flush_slot
flush_slot-skip k (b, s) x = rw x

flush_slot-clear :
    (k p : ℕ) (r : Bool × Pkmap)
    → (r.1.count k == 1) ≡ true
    → r.1.table k ≡ some p
    → flush_slot k r ≡ some (true, cleared r.1 k p)
unfolding flush_slot
flush_slot-clear k p (b, s) x e = rw (x, e)

flush_below-IsFlushed :
    (n k : ℕ) (s : Pkmap)
    → IsValid n s
    → (r : Bool × Pkmap) × (flush_below k s ≡ some r) × IsFlushed n k s r.1
unfolding flush_below
flush_below-IsFlushed n zero s v = (
  (false, s),
  refl,
  record {
    valid = v;
    last = refl;
    count = λ j. ground arith;
    kept = λ p j e h. e;
    fresh = λ p e. e;
  },
)
flush_below-IsFlushed n (suc k) s v =
    let (r, e, f) = flush_below-IsFlushed n k s v in
    let fk : r.1.count k ≡ s.count k = ground (arith, f.count k) in
    elim (Bool-cases (r.1.count k == 1)) [
      | inr x ↦ (
        r,
        rw e (flush_slot-skip k r x),
        record {
          valid = f.valid;
          last = f.last;
          count = λ j. elim (Bool-cases (j == k)) [
            | inl y ↦
                let jk : j ≡ k = ground arith in
                subst
                  (λ z. r.1.count z ≡ (if ltb z (suc k) && (s.count z == 1) then 0 else s.count z))
                  (sym jk) (ground (arith, fk, x))
            | inr y ↦ ground (arith, f.count j)
          ];
          kept = f.kept;
          fresh = f.fresh;
        },
      )
      | inl x ↦
          let (p, tp) = f.valid.filled k (ground arith) in
          let w = cleared r.1 k p in
          (
            (true, w),
            rw e (flush_slot-clear k p r x tp),
            record {
              valid = cleared-IsValid n r.1 k p f.valid tp;
              last = f.last;
              count = λ j. elim (Bool-cases (j == k)) [
                | inl y ↦
                    let jk : j ≡ k = ground arith in
                    subst
                      (λ z.
                        set r.1.count k 0 z
                        ≡ (if ltb z (suc k) && (s.count z == 1) then 0 else s.count z))
                      (sym jk) (set-same r.1.count k 0 ∙ ground (arith, fk, x))
                | inr y ↦ set-other r.1.count k j 0 (ground arith) ∙ ground (arith, f.count j)
              ];
              kept = λ q j e h.
                  let old = f.kept q j e h in
                  let qp : q ≢ p = λ z.
                    let jk : j ≡ k =
                      some-injective j k (sym old ∙ ap r.1.virtual z ∙ f.valid.backward k p tp) in
                    let cj = ap s.count jk in ground (arith, fk, cj, h, x) in
                  set-other r.1.virtual p q none qp ∙ old;
              fresh = λ q e. elim (Bool-cases (q == p)) [
                | inl y ↦ ap (λ b. if b then none else r.1.virtual q) y
                | inr y ↦ set-other r.1.virtual p q none (ground arith) ∙ f.fresh q e
              ];
            },
          )
    ]

flush_by :
    (n : ℕ) (s : Pkmap) (r : Bool × Pkmap)
    → flush_below n s ≡ some r
    → flush_all_zero_pkmaps n s
      ≡ some (if r.0 then record r.1 { flushes = r.1.flushes + 1 } else r.1)
unfolding flush_all_zero_pkmaps
flush_by n s r e =
    ap
      (λ (o : Option (Bool × Pkmap)). elim o as (λ _. Option Pkmap) [
        | none ↦ none
        | some q ↦ some (if q.0 then record q.1 { flushes = q.1.flushes + 1 } else q.1)
      ])
      e

-- flush_all_zero_pkmaps on a valid table passes its BUG_ON; it sets the counts that are 1 to 0
-- and no others, keeps the table valid and the last slot tried, leaves every page in use mapped
-- where it was, and maps no page.
pub flush_all_zero_pkmaps-IsFlushed :
    (n : ℕ) (s : Pkmap)
    → IsValid n s
    → (s' : Pkmap) × (flush_all_zero_pkmaps n s ≡ some s') × IsFlushed n n s s'
flush_all_zero_pkmaps-IsFlushed n s v =
    let (r, e, f) = flush_below-IsFlushed n n s v in
    elim (Bool-cases r.0) [
      | inl x ↦ (
        record r.1 { flushes = r.1.flushes + 1 },
        flush_by n s r e
            ∙ ap (λ b. some (if b then record r.1 { flushes = r.1.flushes + 1 } else r.1)) x,
        record {
          valid = record {
            last_in = f.valid.last_in;
            backward = f.valid.backward;
            forward = f.valid.forward;
            empty = f.valid.empty;
            filled = f.valid.filled;
          };
          last = f.last;
          count = f.count;
          kept = f.kept;
          fresh = f.fresh;
        },
      )
      | inr x ↦ (
        r.1,
        flush_by n s r e
            ∙ ap (λ b. some (if b then record r.1 { flushes = r.1.flushes + 1 } else r.1)) x,
        f,
      )
    ]
