-- ===== src/Pkmap.antt =====
-- Permanent kernel mappings, ulk_pkmap/highmem.c: a table of slots for pages of high memory, each with
-- its count, and the address that each page is mapped at. The slot `i` stands for its address
-- PKMAP_ADDR(i); a critical section under kmap_lock is one step.
pub mod Slots
pub mod Map
pub mod Search
pub mod High
pub mod Address
pub mod ToPage
pub mod Tests
use my_posts.Prelude.{
  set, ℕ, zero, suc, ◌+◌, ◌-◌, ◌%◌, ◌^◌, leb, Bool, true, false, ◌||◌, Option, none, some, ltb,
  ◌==◌, if◌then◌else◌,
}

-- `pkmap_count` by its 32 bits, an int that is negative from 2 ^ 31 on, `pkmap_page_table`, `last_pkmap_nr`; `virtual` is what page_address finds, and
-- `flushes` counts the flushes of the TLB.
pub record Pkmap : Type 0 where
  pub count : ℕ → ℕ
  pub table : ℕ → Option ℕ
  pub last : ℕ
  pub virtual : ℕ → Option ℕ
  pub flushes : ℕ

-- How a step ends. `sleep`: it waits for somebody else to unmap an entry; `bug`: a BUG_ON failed.
pub data Outcome (A : Type 0) : Type 0 where
  done : A → Pkmap → Outcome A
  sleep : Pkmap → Outcome A
  bug : Outcome A

-- A count, as an int, is less than a number that is not negative.
unfoldable pub below : ℕ → ℕ → Bool
below c k = ltb c k || leb (2 ^ 31) c

-- One round of the loop in flush_all_zero_pkmaps, with `need_flush`.
unfoldable pub flush_slot : ℕ → Bool × Pkmap → Option (Bool × Pkmap)
flush_slot i (need, s) =
    let cleared : Option (Bool × Pkmap) = elim (s.table i) [
      | none ↦ none
      | some p ↦ some (
        true,
        record s {
          count = set s.count i 0;
          table = set s.table i none;
          virtual = set s.virtual p none;
        },
      )
    ] in
    if s.count i == 1 then cleared else some (need, s)

-- The rounds for the slots below `n`.
unfoldable pub flush_below : ℕ → Pkmap → Option (Bool × Pkmap)
unfolding flush_slot
flush_below zero s = some (false, s)
flush_below (suc n) s = elim (flush_below n s) [ none ↦ none | some r ↦ flush_slot n r ]

-- `LAST_PKMAP`, a power of two, so that `& LAST_PKMAP_MASK` is a remainder.
module _ (last_pkmap : ℕ) where
  unfoldable pub flush_all_zero_pkmaps : Pkmap → Option Pkmap
  flush_all_zero_pkmaps s = elim (flush_below last_pkmap s) [
    | none ↦ none
    | some r ↦ some (if r.0 then record r.1 { flushes = r.1.flushes + 1 } else r.1)
  ]

  -- The next entry of the table; at its start the unused mappings are flushed and the count starts anew.
  unfoldable pub advance : ℕ → Pkmap → Option (ℕ × Pkmap)
  advance count s =
      let nr = (s.last + 1) % last_pkmap in
      let moved = record s { last = nr } in
      let flushed : Option (ℕ × Pkmap) = elim (flush_all_zero_pkmaps moved) [
        | none ↦ none
        | some s' ↦ some (last_pkmap, s')
      ] in
      if nr == 0 then flushed else some (count, moved)

  -- The loop of map_new_virtual, which ends with an unused entry in `last`.
  unfoldable pub find_slot : ℕ → ℕ → Pkmap → Outcome Unit
  find_slot zero count s = bug
  find_slot (suc fuel) count s = elim (advance count s) [
    | none ↦ bug
    | some (c, s') ↦
        let rest = find_slot fuel (c - 1) s' in
        if s'.count s'.last == 0 then done tt s' else (if c - 1 == 0 then sleep s' else rest)
  ]

  -- What map_new_virtual does with the entry it has found.
  unfoldable pub map_slot : ℕ → Pkmap → Pkmap
  map_slot page s = record s {
    table = set s.table s.last (some page);
    count = set s.count s.last 1;
    virtual = set s.virtual page (some s.last);
  }

  unfoldable pub map_found : ℕ → Outcome Unit → Outcome ℕ
  unfolding map_slot
  map_found page (done u s) = done s.last (map_slot page s)
  map_found page (sleep s) = sleep s
  map_found page bug = bug

  -- `map_new_virtual`, up to its return or to where it sleeps.
  unfoldable pub map_new_virtual : ℕ → Pkmap → Outcome ℕ
  unfolding find_slot map_found
  map_new_virtual page s = map_found page (find_slot (last_pkmap + last_pkmap) last_pkmap s)

  -- One more user of the slot `i`.
  unfoldable pub pin : ℕ → Pkmap → Outcome ℕ
  unfolding below
  pin i s =
      let c = (s.count i + 1) % 2 ^ 32 in
      if below c 2 then bug else done i (record s { count = set s.count i c })

  unfoldable pub pin_new : Outcome ℕ → Outcome ℕ
  unfolding pin
  pin_new (done i s) = pin i s
  pin_new (sleep s) = sleep s
  pin_new bug = bug

  -- `kmap_high`, up to its return or to where it sleeps.
  unfoldable pub kmap_high : ℕ → Pkmap → Outcome ℕ
  unfolding map_new_virtual pin_new
  kmap_high page s = elim (s.virtual page) [
    | some i ↦ pin i s
    | none ↦ pin_new (map_new_virtual page s)
  ]

-- `kmap_high_get`: the page's mapping, where it has one.
unfoldable pub kmap_high_get : ℕ → Pkmap → Outcome (Option ℕ)
unfolding below
kmap_high_get page s = elim (s.virtual page) [
  | none ↦ done none s
  | some i ↦
      if below (s.count i) 1
      then bug
      else done (some i) (record s { count = set s.count i ((s.count i + 1) % 2 ^ 32) })
]

-- `kunmap_high`; the result says that the waiting tasks are woken, if there are any (`waiters`).
unfoldable pub kunmap_high : Bool → ℕ → Pkmap → Outcome Bool
kunmap_high waiters page s = elim (s.virtual page) [
  | none ↦ bug
  | some i ↦
      let c = if s.count i == 0 then 2 ^ 32 - 1 else s.count i - 1 in
      let s' = record s { count = set s.count i c } in
      if c == 0 then bug else done (if c == 1 then waiters else false) s'
]
