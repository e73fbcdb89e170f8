-- ===== src/Pkmap/Address/Refine.antt =====
-- The hash table is the function from pages to addresses that the mappings use.
use mathlib.Core.Option.{some-injective}
use my_posts.Prelude.{
  ℕ, ◌≡◌, ◌≢◌, refl, sym, ap, ◌∙◌, ◌⊎◌, inl, inr, Bool, true, false, ◌||◌, Option, none, some, [],
  ◌∷◌, ◌++◌, ◌==◌, if◌then◌else◌, set, set-same, set-other, has, has-append, IsOnce, snoc-IsOnce,
  arith, Bool-cases, Option-cases,
}
use my_posts.Pkmap.Address.{Table, find, unlink, page_address, set_page_address}
use my_posts.Pkmap.Address.Buckets.{
  find-some, find-none, has-unlink-other, has-unlink, has-unlink-le, unlink-IsOnce,
}

module _ (hash_ptr : ℕ → ℕ) (is_high : ℕ → Bool) (lowmem : ℕ → Option ℕ) where
  -- The table holds exactly the pages that have an address, each in its bucket.
  pub record IsTable (t : Table) (virtual : ℕ → Option ℕ) : Type 0 where
    pub once : (b : ℕ) → IsOnce (t.htable b)
    pub sound :
        (b i : ℕ)
        → has i (t.htable b) ≡ true
        → (virtual (t.page i) ≡ some i) × (hash_ptr (t.page i) ≡ b) × (t.address i ≡ i)
    pub complete :
        (p i : ℕ) → virtual p ≡ some i → (has i (t.htable (hash_ptr p)) ≡ true) × (t.page i ≡ p)

  -- Page_address of a page of high memory, on a hash table that holds exactly the addresses of a
  -- function from pages to slots, returns what the function does.
  pub page_address_lem :
      (t : Table) (virtual : ℕ → Option ℕ) (p : ℕ)
      → IsTable t virtual
      → is_high p ≡ true
      → page_address hash_ptr is_high lowmem t p ≡ virtual p
  unfolding page_address
  page_address_lem t virtual p h high =
      let is = t.htable (hash_ptr p) in
      ap (λ b. if b then find t p is else lowmem p) high ∙ elim (Option-cases (find t p is)) [
        | inl e ↦ elim (Option-cases (virtual p)) [
          | inl v ↦ e ∙ sym v
          | inr (i, v) ↦ let c = h.complete p i v in elim (find-none t p is i e c.0 c.1) [ ]
        ]
        | inr (v, e) ↦
            let (j, inside, of_p, at_v) = find-some t p is v e in
            let s = h.sound (hash_ptr p) j inside in
            e ∙ ap (λ k. some k) (sym at_v ∙ s.2) ∙ sym s.0 ∙ ap virtual of_p
      ]

  -- What stands in a bucket after a removal.
  left :
      (t : Table) (virtual : ℕ → Option ℕ) (p b i : ℕ)
      → IsTable t virtual
      → has i (set t.htable (hash_ptr p) (unlink t p (t.htable (hash_ptr p))) b) ≡ true
      → (has i (t.htable b) ≡ true) × (t.page i ≢ p)
  left t virtual p b i h inside =
      let is = t.htable (hash_ptr p) in
      elim (Bool-cases (b == hash_ptr p)) [
        | inl x ↦
            let bucket : b ≡ hash_ptr p = ground (arith, x) in
            let there =
              sym (ap (λ c. has i (if c then unlink t p is else t.htable b)) x) ∙ inside in
            let was = has-unlink-le t p is i there in
            let one : (k : ℕ) → has k is ≡ true → t.page k ≡ p → t.page i ≡ p → k ≡ i = λ k o w w'.
              some-injective k i (
                sym (h.sound (hash_ptr p) k o).0
                ∙ ap virtual (w ∙ sym w')
                ∙ (h.sound (hash_ptr p) i was).0) in
            let gone : t.page i ≢ p = λ w.
              let out = has-unlink t p is i (h.once (hash_ptr p)) (λ k o w'. one k o w' w) w in
              ground (arith, out, there) in
            (ap (λ c. has i (t.htable c)) bucket ∙ was, gone)
        | inr x ↦
            let there =
              sym (ap (λ c. has i (if c then unlink t p is else t.htable b)) x) ∙ inside in
            let at : hash_ptr (t.page i) ≡ b = (h.sound b i there).1 in
            let other : t.page i ≢ p =
              λ w. let e : b ≡ hash_ptr p = sym at ∙ ap hash_ptr w in ground (arith, e, x) in
            (there, other)
      ]

  -- A page is taken out.
  removed-IsTable :
      (t : Table) (virtual : ℕ → Option ℕ) (p : ℕ)
      → IsTable t virtual
      → let pas = hash_ptr p in
        IsTable
          (record t { htable = set t.htable pas (unlink t p (t.htable pas)) })
          (set virtual p none)
  removed-IsTable t virtual p h = record {
    once = λ b. elim (Bool-cases (b == hash_ptr p)) [
      | inl x ↦ rw x (unlink-IsOnce t p (t.htable (hash_ptr p)) (h.once (hash_ptr p)))
      | inr x ↦ rw x (h.once b)
    ];
    sound = λ b i inside.
        let l = left t virtual p b i h inside in
        let was = h.sound b i l.0 in
        (set-other virtual p (t.page i) none l.1 ∙ was.0, was.1, was.2);
    complete = λ q i v. elim (Bool-cases (q == p)) [
      | inl x ↦ let no = sym (ap (λ c. if c then none else virtual q) x) ∙ v in ground (arith, no)
      | inr x ↦
          let was = h.complete q i (sym (ap (λ c. if c then none else virtual q) x) ∙ v) in
          let other : t.page i ≢ p = λ w. let e : q ≡ p = sym was.1 ∙ w in ground (arith, e, x) in
          let is = t.htable (hash_ptr p) in
          (
            elim (Bool-cases (hash_ptr q == hash_ptr p)) [
              | inl y ↦
                  let e : hash_ptr p ≡ hash_ptr q = ground (arith, y) in
                  ap (λ c. has i (if c then unlink t p is else t.htable (hash_ptr q))) y
                  ∙ has-unlink-other t p is i other
                  ∙ ap (λ c. has i (t.htable c)) e
                  ∙ was.0
              | inr y ↦
                  ap (λ c. has i (if c then unlink t p is else t.htable (hash_ptr q))) y ∙ was.0
            ],
            was.1,
          )
    ];
  }

  -- What stands in a bucket after an addition.
  joined :
      (t : Table) (p b i j : ℕ)
      → has j (set t.htable (hash_ptr p) (t.htable (hash_ptr p) ++ (i ∷ [])) b) ≡ true
      → ((j == i) ≡ true × (b ≡ hash_ptr p)) ⊎ (has j (t.htable b) ≡ true)
  joined t p b i j inside =
      let is = t.htable (hash_ptr p) in
      elim (Bool-cases (b == hash_ptr p)) [
        | inl x ↦
            let bucket : b ≡ hash_ptr p = ground (arith, x) in
            let there =
              sym (ap (λ c. has j (if c then is ++ (i ∷ []) else t.htable b)) x) ∙ inside in
            elim (Bool-cases (j == i)) [
              | inl y ↦ inl (y, bucket)
              | inr y ↦ inr (
                  ap (λ c. has j (t.htable c)) bucket
                  ∙ ground (arith, sym (has-append j is (i ∷ [])) ∙ there, y))
            ]
        | inr x ↦ inr (sym (ap (λ c. has j (if c then is ++ (i ∷ []) else t.htable b)) x) ∙ inside)
      ]

  stays :
      (t : Table) (p b i j : ℕ)
      → has j (t.htable b) ≡ true
      → has j (set t.htable (hash_ptr p) (t.htable (hash_ptr p) ++ (i ∷ [])) b) ≡ true
  stays t p b i j inside =
      let is = t.htable (hash_ptr p) in
      elim (Bool-cases (b == hash_ptr p)) [
        | inl x ↦
            let bucket : b ≡ hash_ptr p = ground (arith, x) in
            let was : has j is ≡ true = ap (λ c. has j (t.htable c)) (sym bucket) ∙ inside in
            ap (λ c. has j (if c then is ++ (i ∷ []) else t.htable b)) x
            ∙ has-append j is (i ∷ [])
            ∙ ap (λ c. c || has j (i ∷ [])) was
        | inr x ↦ ap (λ c. has j (if c then is ++ (i ∷ []) else t.htable b)) x ∙ inside
      ]

  added-IsTable :
      (t : Table) (virtual : ℕ → Option ℕ) (p i : ℕ)
      → IsTable t virtual
      → virtual p ≡ none
      → ((q : ℕ) → virtual q ≢ some i)
      → let pas = hash_ptr p in
        IsTable
          (record {
            page = set t.page i p;
            address = set t.address i i;
            htable = set t.htable pas (t.htable pas ++ (i ∷ []));
          })
          (set virtual p (some i))
  added-IsTable t virtual p i h out free =
      let pas = hash_ptr p in
      let is = t.htable pas in
      let absent : (b : ℕ) → has i (t.htable b) ≡ false = λ b.
        elim (Bool-cases (has i (t.htable b))) [
          | inl x ↦ elim (free (t.page i) (h.sound b i x).0) [ ]
          | inr x ↦ x
        ] in
      record {
        once = λ b. elim (Bool-cases (b == pas)) [
          | inl x ↦ rw x (snoc-IsOnce i is (absent pas) (h.once pas))
          | inr x ↦ rw x (h.once b)
        ];
        sound = λ b j inside. elim (joined t p b i j inside) [
          | inl (x, bucket) ↦
              let same : j ≡ i = ground (arith, x) in
              let at : set t.page i p j ≡ p = ap (λ c. if c then p else t.page j) x in
              (
                ap (set virtual p (some i)) at
                    ∙ set-same virtual p (some i)
                    ∙ ap (λ k. some k) (sym same),
                ap hash_ptr at ∙ sym bucket,
                ap (λ c. if c then i else t.address j) x ∙ sym same,
              )
          | inr was ↦
              let s = h.sound b j was in
              let apart : j ≢ i = λ w.
                let a = absent b in
                let y = ap (λ k. has k (t.htable b)) (sym w) ∙ was in ground (arith, a, y) in
              let at = set-other t.page i j p apart in
              let other : t.page j ≢ p =
                λ w. let y = sym s.0 ∙ ap virtual w ∙ out in ground (arith, y) in
              (
                ap (set virtual p (some i)) at
                    ∙ set-other virtual p (t.page j) (some i) other
                    ∙ s.0,
                ap hash_ptr at ∙ s.1,
                set-other t.address i j i apart ∙ s.2,
              )
        ];
        complete = λ q j v. elim (Bool-cases (q == p)) [
          | inl x ↦
              let e : q ≡ p = ground (arith, x) in
              let w : i ≡ j =
                some-injective i j (sym (ap (λ c. if c then some i else virtual q) x) ∙ v) in
              let last : has j (is ++ (i ∷ [])) ≡ true =
                has-append j is (i ∷ []) ∙ ground (arith, w) in
              (
                ap (λ z. has j (set t.htable pas (is ++ (i ∷ [])) (hash_ptr z))) e
                    ∙ ap (has j) (set-same t.htable pas (is ++ (i ∷ [])))
                    ∙ last,
                ap (set t.page i p) (sym w) ∙ set-same t.page i p ∙ sym e,
              )
          | inr x ↦
              let was = sym (ap (λ c. if c then some i else virtual q) x) ∙ v in
              let c = h.complete q j was in
              let apart : j ≢ i = λ w. free q (was ∙ ap (λ k. some k) w) in
              (stays t p (hash_ptr q) i j c.0, set-other t.page i j p apart ∙ c.1)
        ];
      }

  -- Set_page_address of a page of high memory passes its BUG_ON; a hash table that holds exactly the
  -- addresses of a function from pages to slots then holds those of the function with this page's
  -- address set or removed. Where an address is set, the page has none before and no other page has
  -- this one.
  pub set_page_address-IsTable :
      (t : Table) (virtual : ℕ → Option ℕ) (p : ℕ) (address : Option ℕ)
      → IsTable t virtual
      → is_high p ≡ true
      → ((i : ℕ) → address ≡ some i → (virtual p ≡ none) × ((q : ℕ) → virtual q ≢ some i))
      → (t' : Table) × (set_page_address hash_ptr is_high lowmem t p address ≡ some t')
        × IsTable t' (set virtual p address)
  unfolding set_page_address
  set_page_address-IsTable t virtual p none h high free = (
    record t { htable = set t.htable (hash_ptr p) (unlink t p (t.htable (hash_ptr p))) },
    rw high refl,
    removed-IsTable t virtual p h,
  )
  set_page_address-IsTable t virtual p (some i) h high free =
      let f = free i refl in
      (
        record {
          page = set t.page i p;
          address = set t.address i i;
          htable = set t.htable (hash_ptr p) (t.htable (hash_ptr p) ++ (i ∷ []));
        },
        rw high refl,
        added-IsTable t virtual p i h f.0 f.1,
      )
