-- ===== src/Evdev/Device/Deliver.antt =====
-- Which clients an event goes to.
use mathlib.Core.Path.{subst}
use my_posts.Prelude.{
  IsOnce, ℕ, ◌≡◌, refl, sym, ap, ◌∙◌, inl, inr, Bool, false, Option, none, some, List, [], ◌∷◌,
  ◌==◌, if◌then◌else◌, has, set, set-same, set-other, arith, Bool-cases,
}
use my_posts.Evdev.Ring.{Event, Client, pass_event}
use my_posts.Evdev.Device.{Evdev, pass_clients, evdev_event}

-- The client that has the grab, or all that are on the list.
abbrev pub receives : Evdev → ℕ → Bool
receives ev k = elim ev.grab as (λ _. Bool) [ some g ↦ k == g | none ↦ has k ev.client_list ]

module _ (e : Event) (mono real : ℕ) where
  clients_by :
      (ks : List ℕ) (client : ℕ → Client) (k : ℕ)
      → IsOnce ks
      → pass_clients e mono real ks client k
        ≡ (if has k ks then pass_event (client k) e mono real else client k)
  unfolding pass_clients
  clients_by [] client k once = refl
  clients_by (j ∷ ks) client k once =
      let passed = pass_event (client j) e mono real in
      let rest = clients_by ks (set client j passed) k once.1 in
      elim (Bool-cases (j == k)) [
        | inl x ↦
            let same : j ≡ k = ground (arith, x) in
            let out : has k ks ≡ false = subst (λ w. has w ks ≡ false) same once.0 in
            let here : set client j passed k ≡ pass_event (client k) e mono real =
              ap (set client j passed) (sym same)
              ∙ set-same client j passed
              ∙ ap (λ w. pass_event (client w) e mono real) same in
            rw x (
              rest
              ∙ ap
                  (λ b.
                    if b
                    then pass_event (set client j passed k) e mono real
                    else set client j passed k)
                  out
              ∙ here)
        | inr x ↦
            let there : set client j passed k ≡ client k =
              set-other client j k passed (λ w. ground (arith, w, x)) in
            rw x (rest ∙ ap (λ c. if has k ks then pass_event c e mono real else c) there)
      ]

  by_grab :
      (g : Option ℕ) (ks : List ℕ) (client : ℕ → Client) (k : ℕ)
      → IsOnce ks
      → (elim g as (λ _. ℕ → Client) [
        | some j ↦ set client j (pass_event (client j) e mono real)
        | none ↦ pass_clients e mono real ks client
      ])
          k
        ≡ (if (elim g as (λ _. Bool) [ some j ↦ k == j | none ↦ has k ks ])
            then pass_event (client k) e mono real
            else client k)
  by_grab none ks client k once = clients_by ks client k once
  by_grab (some j) ks client k once = elim (Bool-cases (k == j)) [
    | inl x ↦
        let same : j ≡ k = ground (arith, x) in
        rw x (ap (λ w. pass_event (client w) e mono real) same)
    | inr x ↦ rw x refl
  ]

  -- An event of the device is passed to the client that has the grab, or, without a grab, once to
  -- each client on the list, in which none stands twice; every other client keeps its ring.
  pub evdev_event_lem :
      (ev : Evdev) (k : ℕ)
      → IsOnce ev.client_list
      → (evdev_event ev e mono real).client k
        ≡ (if receives ev k then pass_event (ev.client k) e mono real else ev.client k)
  unfolding evdev_event
  evdev_event_lem ev k once = by_grab ev.grab ev.client_list ev.client k once
