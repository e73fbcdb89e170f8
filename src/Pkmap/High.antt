-- ===== src/Pkmap/High.antt =====
-- What kmap_high and kunmap_high do.
use mathlib.Core.Path.{subst}
use mathlib.Core.Option.{some-injective}
use my_posts.Prelude.{
  set, set-same, set-other, ℕ, ◌+◌, ◌-◌, ◌%◌, ◌^◌, ◌<◌, true, Bool-cases, ◌≤◌, ◌≡◌, ◌≢◌, ap, sym,
  ◌∙◌, inl, inr, Bool, false, Option, none, some, arith, ◌==◌, Option-cases, if◌then◌else◌,
}
use my_posts.Pkmap.{
  Pkmap, Outcome, done, sleep, bug, find_slot, map_slot, map_found, map_new_virtual, below, pin,
  pin_new, kmap_high, kunmap_high,
}
use my_posts.Pkmap.Slots.{IsValid, counted, none-some}
use my_posts.Pkmap.Map.{IsKept, map_slot-IsValid, count-IsValid}
use my_posts.Pkmap.Search.{Found, find_slot-Found}

-- The page is mapped at the slot `i`, with a user more, and the mappings in use are as before.
pub record IsMapped (n page : ℕ) (s : Pkmap) (i : ℕ) (s' : Pkmap) : Type 0 where
  pub valid : IsValid n s'
  pub mapped : s'.virtual page ≡ some i
  pub used : (2 ≤ s'.count i) × (s'.count i < 2 ^ 31)
  pub first : s.virtual page ≡ none → s'.count i ≡ 2
  pub again : s.virtual page ≡ some i → s.count i < 2 ^ 31 → s'.count i ≡ s.count i + 1
  pub others :
      (p j : ℕ)
      → p ≢ page
      → s.virtual p ≡ some j
      → 2 ≤ s.count j
      → (s'.virtual p ≡ some j) × (s'.count j ≡ s.count j)

abbrev pub Kmapped : ℕ → ℕ → Pkmap → Outcome ℕ → Type 0
Kmapped n page s (done i s') = IsMapped n page s i s'
Kmapped n page s (sleep s') =
    IsKept n s s' × (s.virtual page ≡ none) × ((j : ℕ) → j < n → 2 ≤ s.count j)
Kmapped n page s bug = (i : ℕ) × (s.virtual page ≡ some i) × (2 ^ 31 ≤ s.count i + 1)

-- Two pages never share a slot.
apart :
    (n : ℕ) (s : Pkmap) (p q i j : ℕ)
    → IsValid n s
    → s.virtual p ≡ some i
    → s.virtual q ≡ some j
    → p ≢ q
    → i ≢ j
apart n s p q i j v ep eq ne w =
    ne (some-injective p q (sym (v.forward i p ep).1 ∙ ap s.table w ∙ (v.forward j q eq).1))

pin-IsMapped :
    (n page i : ℕ) (s : Pkmap)
    → IsValid n s
    → s.virtual page ≡ some i
    → below ((s.count i + 1) % 2 ^ 32) 2 ≡ false
    → (s' : Pkmap) × (pin n i s ≡ done i s') × IsMapped n page s i s'
unfolding pin below
pin-IsMapped n page i s v e x =
    let one = counted n s i page v e in
    let c = (s.count i + 1) % 2 ^ 32 in
    let two : (2 ≤ c) × (c < 2 ^ 31) = ground (arith, x) in
    (
      record s { count = set s.count i c },
      rw x,
      record {
        valid = count-IsValid n i c s v one (omega (arith, two.0));
        mapped = e;
        used = subst (λ z. (2 ≤ z) × (z < 2 ^ 31)) (sym (set-same s.count i c)) two;
        first = λ none_yet. absurd (none-some none_yet e);
        again = λ _ small. set-same s.count i c ∙ omega (arith, small);
        others = λ p j ne f h. (f, set-other s.count i j c (apart n s p page j i v f e ne));
      },
    )

pin-bug :
    (n i : ℕ) (s : Pkmap)
    → 1 ≤ s.count i
    → below ((s.count i + 1) % 2 ^ 32) 2 ≡ true
    → (pin n i s ≡ bug) × (2 ^ 31 ≤ s.count i + 1)
unfolding pin below
pin-bug n i s one x = (rw x, ground (arith, x, one))

map_slot-page : (n page : ℕ) (s : Pkmap) → (map_slot n page s).virtual page ≡ some s.last
unfolding map_slot
map_slot-page n page s = set-same s.virtual page (some s.last)

map_slot-others :
    (n page : ℕ) (s : Pkmap) (p j : ℕ)
    → p ≢ page
    → s.virtual p ≡ some j
    → s.count j ≢ 0
    → s.count s.last ≡ 0
    → ((map_slot n page s).virtual p ≡ some j) × ((map_slot n page s).count j ≡ s.count j)
unfolding map_slot
map_slot-others n page s p j ne e c z = (
  set-other s.virtual page p (some s.last) ne ∙ e,
  set-other s.count s.last j 1 (λ w. c (ap s.count w ∙ z)),
)

map_slot-count :
    (n page : ℕ) (s : Pkmap) → below (((map_slot n page s).count s.last + 1) % 2 ^ 32) 2 ≡ false
unfolding map_slot below
map_slot-count n page s = let e = set-same s.count s.last 1 in ground (arith, e)

pin_new-Kmapped :
    (n page : ℕ) (s : Pkmap) (o : Outcome Unit)
    → s.virtual page ≡ none
    → Found n s o
    → Kmapped n page s (pin_new n (map_found n page o))
unfolding pin_new map_found
pin_new-Kmapped n page s (done u s') e (k, z) =
    let fresh = k.fresh page e in
    let v = map_slot-IsValid n page s' k.valid z fresh in
    let at_page : (map_slot n page s').virtual page ≡ some s'.last = map_slot-page n page s' in
    let (t, q, m) =
      pin-IsMapped n page s'.last (map_slot n page s') v at_page (map_slot-count n page s') in
    subst (λ o. Kmapped n page s o) (sym q)
      (record {
        valid = m.valid;
        mapped = m.mapped;
        used = m.used;
        first = λ _.
            let one = set-same s'.count s'.last 1 in
            let more = m.again at_page (omega (arith, one)) in omega (arith, more, one);
        again = λ old _. absurd (none-some e old);
        others = λ p j ne f h.
            let g =
              map_slot-others n page s' p j ne (k.place p j f h)
                (subst (λ c. c ≢ 0) (sym (k.users j h)) (ground (arith, h))) z in
            let r = m.others p j ne g.0 (subst (λ c. 2 ≤ c) (sym (g.1 ∙ k.users j h)) h) in
            (r.0, r.1 ∙ g.1 ∙ k.users j h);
      })
pin_new-Kmapped n page s (sleep s') e k = (k.0, e, k.1)
pin_new-Kmapped n page s bug e k = absurd k

kmap_by :
    (n page : ℕ) (s : Pkmap) (o : Option ℕ)
    → s.virtual page ≡ o
    → kmap_high n page s ≡ (elim o as (λ _. Outcome ℕ) [
      | some i ↦ pin n i s
      | none ↦ pin_new n (map_new_virtual n page s)
    ])
unfolding kmap_high
kmap_by n page s o e =
    ap
      (λ (w : Option ℕ). elim w as (λ _. Outcome ℕ) [
        | some i ↦ pin n i s
        | none ↦ pin_new n (map_new_virtual n page s)
      ])
      e

-- kmap_high on a valid table of slots ends within two passes of the table. It returns a slot that
-- the page is mapped at, with a user more, the first one where the page was not mapped before, the
-- table stays valid, and every other page in use keeps its slot and its count; or it comes to
-- where it sleeps, which it does only for a page that is not mapped and while every slot is in
-- use, with the table valid, no page mapped anew, and every page in use as it was; or its BUG_ON
-- fails, which it does only where the page's slot has INT_MAX for a count or more.
pub kmap_high-Kmapped :
    (n page : ℕ) (s : Pkmap) → IsValid n s → Kmapped n page s (kmap_high n page s)
unfolding map_new_virtual
kmap_high-Kmapped n page s v = elim (Option-cases (s.virtual page)) [
  | inl e ↦
      subst (λ o. Kmapped n page s o) (sym (kmap_by n page s none e))
        (pin_new-Kmapped n page s (find_slot n (n + n) n s) e (
          find_slot-Found n (n + n) n s v (omega (arith, v.last_in))
            (inl (omega (arith, v.last_in), omega arith, omega arith))))
  | inr (i, e) ↦
      let by = kmap_by n page s (some i) e in
      elim (Bool-cases (below ((s.count i + 1) % 2 ^ 32) 2)) [
        | inl x ↦
            let (q, full) = pin-bug n i s (counted n s i page v e) x in
            subst (λ o. Kmapped n page s o) (sym (by ∙ q)) (i, e, full)
        | inr x ↦
            let (t, q, m) = pin-IsMapped n page i s v e x in
            subst (λ o. Kmapped n page s o) (sym (by ∙ q)) m
      ]
]

-- One user fewer; the mapping stays until the next flush.
pub record IsUnmapped (n page : ℕ) (s : Pkmap) (i : ℕ) (s' : Pkmap) : Type 0 where
  pub valid : IsValid n s'
  pub mapped : s'.virtual page ≡ some i
  pub users : s'.count i + 1 ≡ s.count i
  pub others : (j : ℕ) → j ≢ i → s'.count j ≡ s.count j

abbrev fewer : ℕ → ℕ
fewer c = if c == 0 then 2 ^ 32 - 1 else c - 1

unmap_by :
    (waiters : Bool) (page i : ℕ) (s : Pkmap)
    → s.virtual page ≡ some i
    → kunmap_high waiters page s ≡ (
        if fewer (s.count i) == 0
        then bug
        else done
            (if fewer (s.count i) == 1 then waiters else false)
            (record s { count = set s.count i (fewer (s.count i)) }))
unfolding kunmap_high
unmap_by waiters page i s e =
    ap
      (λ (w : Option ℕ). elim w as (λ _. Outcome Bool) [
        | none ↦ bug
        | some k ↦
            if fewer (s.count k) == 0
            then bug
            else done (if fewer (s.count k) == 1 then waiters else false)
                (record s { count = set s.count k (fewer (s.count k)) })
      ])
      e

-- kunmap_high of a page that has a user, on a valid table, ends without a failed BUG_ON: the
-- slot's count goes down by one, the page stays mapped there, no other count changes, the table
-- stays valid, and the waiting tasks are woken exactly if the last user has gone and there are
-- any.
pub kunmap_high-IsUnmapped :
    (waiters : Bool) (n page i : ℕ) (s : Pkmap)
    → IsValid n s
    → s.virtual page ≡ some i
    → 2 ≤ s.count i
    → (s' : Pkmap) × (kunmap_high waiters page s
        ≡ done (if s.count i == 2 then waiters else false) s')
      × IsUnmapped n page s i s'
kunmap_high-IsUnmapped waiters n page i s v e h =
    let c = fewer (s.count i) in
    let one_less : fewer (s.count i) ≡ s.count i - 1 = ground (arith, h) in
    let s' = record s { count = set s.count i c } in
    let x : (c == 0) ≡ false = ground (arith, h) in
    let y : (c == 1) ≡ (s.count i == 2) = ground (arith, h) in
    (
      s',
      unmap_by waiters page i s e
          ∙ ap (λ b. if b then bug else done (if c == 1 then waiters else false) s') x
          ∙ ap (λ b. done (if b then waiters else false) s') y,
      record {
        valid = count-IsValid n i c s v (omega (arith, h)) (omega (arith, h, one_less));
        mapped = e;
        users = ap (λ z. z + 1) (set-same s.count i c) ∙ omega (arith, h, one_less);
        others = λ j ne. set-other s.count i j c ne;
      },
    )
