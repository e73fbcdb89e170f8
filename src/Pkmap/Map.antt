-- ===== src/Pkmap/Map.antt =====
-- What the steps of kmap_high keep: the entry that takes the page, and another user of a slot.
use mathlib.Core.Path.{subst}
use mathlib.Core.Option.{some-injective}
use my_posts.Prelude.{
  set, set-same, set-other, ℕ, ◌≤◌, ◌<◌, ◌≡◌, ◌≢◌, ap, sym, ◌∙◌, inl, inr, none, some, arith, ◌==◌,
  Bool-cases, if◌then◌else◌,
}
use my_posts.Pkmap.{Pkmap, map_slot}
use my_posts.Pkmap.Slots.{IsValid, none-some}

-- The table stays valid, and the pages in use stay where they are, with their counts.
pub record IsKept (n : ℕ) (s s' : Pkmap) : Type 0 where
  pub valid : IsValid n s'
  pub place : (p j : ℕ) → s.virtual p ≡ some j → 2 ≤ s.count j → s'.virtual p ≡ some j
  pub users : (j : ℕ) → 2 ≤ s.count j → s'.count j ≡ s.count j
  pub fresh : (p : ℕ) → s.virtual p ≡ none → s'.virtual p ≡ none
  pub were : (j : ℕ) → 2 ≤ s'.count j → 2 ≤ s.count j

pub IsKept-trans : (n : ℕ) (a b c : Pkmap) → IsKept n a b → IsKept n b c → IsKept n a c
IsKept-trans n a b c f g = record {
  valid = g.valid;
  place = λ p j e h. g.place p j (f.place p j e h) (subst (λ z. 2 ≤ z) (sym (f.users j h)) h);
  users = λ j h. g.users j (subst (λ z. 2 ≤ z) (sym (f.users j h)) h) ∙ f.users j h;
  fresh = λ p e. g.fresh p (f.fresh p e);
  were = λ j h. f.were j (g.were j h);
}

-- The entry found takes the page.
pub map_slot-IsValid :
    (n page : ℕ) (s : Pkmap)
    → IsValid n s
    → s.count s.last ≡ 0
    → s.virtual page ≡ none
    → IsValid n (map_slot n page s)
unfolding map_slot
map_slot-IsValid n page s v z none_yet = record {
  last_in = v.last_in;
  backward = λ j q e. elim (Bool-cases (j == s.last)) [
    | inl x ↦
        let jl : j ≡ s.last = ground arith in
        let pq : page ≡ q =
          some-injective page q (sym (ap (λ b. if b then some page else s.table j) x) ∙ e) in
        subst (λ w. set s.virtual page (some s.last) w ≡ some j) pq
          (set-same s.virtual page (some s.last) ∙ ap (λ w. some w) (sym jl))
    | inr x ↦
        let tj : s.table j ≡ some q =
          sym (set-other s.table s.last j (some page) (ground arith)) ∙ e in
        let b = v.backward j q tj in
        let qp : q ≢ page = λ w. none-some none_yet (sym (ap s.virtual w) ∙ b) in
        set-other s.virtual page q (some s.last) qp ∙ b
  ];
  forward = λ j q e. elim (Bool-cases (q == page)) [
    | inl x ↦
        let qp : q ≡ page = ground arith in
        let lj : s.last ≡ j =
          some-injective s.last j (sym (ap (λ b. if b then some s.last else s.virtual q) x) ∙ e) in
        (
          subst (λ w. w < n) lj v.last_in,
          subst (λ w. set s.table s.last (some page) w ≡ some q) lj
              (set-same s.table s.last (some page) ∙ ap (λ w. some w) (sym qp)),
        )
    | inr x ↦
        let f = v.forward j q (sym (set-other s.virtual page q (some s.last) (ground arith)) ∙ e) in
        let jl : j ≢ s.last = λ w. none-some (v.empty s.last z) (ap s.table (sym w) ∙ f.1) in
        (f.0, set-other s.table s.last j (some page) jl ∙ f.1)
  ];
  empty = λ j e. elim (Bool-cases (j == s.last)) [
    | inl x ↦ ground (arith, sym (ap (λ b. if b then 1 else s.count j) x) ∙ e)
    | inr x ↦
        set-other s.table s.last j (some page) (ground arith)
        ∙ v.empty j (sym (set-other s.count s.last j 1 (ground arith)) ∙ e)
  ];
  filled = λ j e. elim (Bool-cases (j == s.last)) [
    | inl x ↦ (page, ap (λ b. if b then some page else s.table j) x)
    | inr x ↦
        let r = v.filled j (subst (λ w. 1 ≤ w) (set-other s.count s.last j 1 (ground arith)) e) in
        (r.0, set-other s.table s.last j (some page) (ground arith) ∙ r.1)
  ];
}

-- Another user of a slot with a count.
pub count-IsValid :
    (n i c : ℕ) (s : Pkmap)
    → IsValid n s
    → 1 ≤ s.count i
    → 1 ≤ c
    → IsValid n (record s { count = set s.count i c })
count-IsValid n i c s v one some_left = record {
  last_in = v.last_in;
  backward = v.backward;
  forward = v.forward;
  empty = λ j e. elim (Bool-cases (j == i)) [
    | inl x ↦ ground (arith, sym (ap (λ b. if b then c else s.count j) x) ∙ e, some_left)
    | inr x ↦ v.empty j (sym (set-other s.count i j c (ground arith)) ∙ e)
  ];
  filled = λ j e. elim (Bool-cases (j == i)) [
    | inl x ↦ let ji : i ≡ j = ground arith in v.filled j (subst (λ w. 1 ≤ s.count w) ji one)
    | inr x ↦ v.filled j (subst (λ w. 1 ≤ w) (set-other s.count i j c (ground arith)) e)
  ];
}
