-- ===== src/Input/Events/Quiet.antt =====
-- Between two reports something happens: an event that leaves the device synchronised reaches nobody.
use my_posts.Prelude.{
  ℕ, Option, none, some, ◌≡◌, ◌≢◌, refl, ap, sym, ◌∙◌, ◌⊎◌, inl, inr, Bool, true, false, ◌==◌,
  arith, Bool-cases, if_both,
}
use my_posts.Prelude.Int.{ℤ, pos, negsuc, eqb_ℤ}
use my_posts.Input.Defuzz.{defuzz_abs_event}
use my_posts.Input.{InputDev, Filters, ev_syn, syn_config, pass_event}
use my_posts.Input.Events.{
  ignore_event, pass_to_handlers, pass_to_all, Decision, handle_syn, handle_key, handle_sw,
  handle_led, handle_snd, handle_rep, handle_abs_event, decide, deliver, handle_event, old_value,
  filter_abs, stage_slot,
}

-- An ignored event makes no call.
abbrev Keeps : InputDev → Decision → Type 0
Keeps dev d = d.0 ≡ ignore_event → d.2.calls ≡ dev.calls

calls-stage_slot : (dev : InputDev) (value : ℤ) → (stage_slot dev value).calls ≡ dev.calls
unfolding stage_slot
calls-stage_slot dev (pos n) = if_both (λ (d : InputDev). d.calls ≡ dev.calls) _ _ _ refl refl
calls-stage_slot dev (negsuc n) = refl

module _ (dev : InputDev) (code : ℕ) (value : ℤ) where
  handle_syn-Keeps : Keeps dev (handle_syn dev code value)
  unfolding handle_syn
  handle_syn-Keeps e = ground (arith, e)

  handle_key-Keeps : Keeps dev (handle_key dev code value)
  unfolding handle_key
  handle_key-Keeps e = ground (arith, e)

  handle_sw-Keeps : Keeps dev (handle_sw dev code value)
  unfolding handle_sw
  handle_sw-Keeps e = ground (arith, e)

  handle_led-Keeps : Keeps dev (handle_led dev code value)
  unfolding handle_led
  handle_led-Keeps e = ground (arith, e)

  handle_snd-Keeps : Keeps dev (handle_snd dev code value)
  unfolding handle_snd
  handle_snd-Keeps e = ground (arith, e)

  handle_rep-Keeps : Keeps dev (handle_rep dev code value)
  unfolding handle_rep
  handle_rep-Keeps e = ground (arith, e)

-- In a synchronised device only SYN_MT_REPORT goes to the handlers, and ends that.
handle_syn-synced :
    (dev : InputDev) (code : ℕ) (value : ℤ)
    → dev.sync ≡ true
    → (code == syn_config) ≡ false
    → ((handle_syn dev code value).0 ≡ ignore_event)
      ⊎ (((handle_syn dev code value).0 ≡ pass_to_handlers)
          × ((handle_syn dev code value).2.sync ≡ false))
unfolding handle_syn
handle_syn-synced dev code value s ne = ground (arith, s, ne)

module _ (filters : Filters) (is_mt_value : ℕ → Bool) where
  filter_abs-Keeps :
      (dev : InputDev) (code : ℕ) (value : ℤ) (old : Option ℤ)
      → Keeps dev (filter_abs filters is_mt_value dev code value old)
  unfolding filter_abs
  filter_abs-Keeps dev code value none e = ground (arith, e)
  filter_abs-Keeps dev code value (some old) e =
      elim (Bool-cases (eqb_ℤ old (defuzz_abs_event value old (dev.fuzz code)))) [
        | inl x ↦ rw x
        | inr x ↦ ground (arith, e, x)
      ]

  handle_abs_event-Keeps :
      (dev : InputDev) (code : ℕ) (value : ℤ)
      → Keeps dev (handle_abs_event filters is_mt_value dev code value)
  unfolding handle_abs_event
  handle_abs_event-Keeps dev code value e = ground (
    arith,
    e,
    calls-stage_slot dev value,
    filter_abs-Keeps dev code value (old_value filters is_mt_value dev code),
  )

  decide-Keeps :
      (dev : InputDev) (type code : ℕ) (value : ℤ)
      → Keeps dev (decide filters is_mt_value dev type code value)
  unfolding decide
  decide-Keeps dev type code value e = ground (
    arith,
    e,
    handle_syn-Keeps dev code value,
    handle_key-Keeps dev code value,
    handle_sw-Keeps dev code value,
    handle_led-Keeps dev code value,
    handle_snd-Keeps dev code value,
    handle_rep-Keeps dev code value,
    handle_abs_event-Keeps dev code value,
  )

  decide-syn :
      (dev : InputDev) (type code : ℕ) (value : ℤ)
      → (type == ev_syn) ≡ true
      → decide filters is_mt_value dev type code value ≡ handle_syn dev code value
  unfolding decide
  decide-syn dev type code value x = rw x

  -- Only an ignored event leaves the device synchronised.
  deliver-sync :
      (type code : ℕ) (d : Decision)
      → (type == ev_syn) ≡ false
      → (deliver filters is_mt_value type code d).sync ≡ true
      → d.0 ≡ ignore_event
  unfolding deliver pass_event
  deliver-sync type code (ignore_event, value, dev) ne h = refl
  deliver-sync type code (pass_to_handlers, value, dev) ne h = ground (arith, ne, h)
  deliver-sync type code (pass_to_all, value, dev) ne h = elim (Bool-cases dev.has_event) [
    | inl x ↦ ground (arith, ne, h, x)
    | inr x ↦ ground (arith, ne, h, x)
  ]

  deliver-syn :
      (type code : ℕ) (d : Decision)
      → (type == ev_syn) ≡ true
      → d.0 ≡ pass_to_handlers
      → (deliver filters is_mt_value type code d).sync ≡ d.2.sync
  unfolding deliver pass_event
  deliver-syn type code (ignore_event, value, dev) x e = ground (arith, e)
  deliver-syn type code (pass_to_handlers, value, dev) x e = rw x
  deliver-syn type code (pass_to_all, value, dev) x e = ground (arith, e)

  deliver-ignored :
      (type code : ℕ) (d : Decision)
      → d.0 ≡ ignore_event
      → deliver filters is_mt_value type code d ≡ d.2
  unfolding deliver
  deliver-ignored type code (ignore_event, value, dev) e = refl
  deliver-ignored type code (pass_to_handlers, value, dev) e = ground (arith, e)
  deliver-ignored type code (pass_to_all, value, dev) e = ground (arith, e)

  -- An event other than SYN_CONFIG that finds the device synchronised and leaves it so causes no
  -- call of a handler, a filter or the driver.
  pub handle_event-quiet :
      (dev : InputDev) (type code : ℕ) (value : ℤ)
      → dev.sync ≡ true
      → (type ≡ ev_syn → code ≢ syn_config)
      → (handle_event filters is_mt_value dev type code value).sync ≡ true
      → (handle_event filters is_mt_value dev type code value).calls ≡ dev.calls
  unfolding handle_event
  handle_event-quiet dev type code value s ne after =
      let d = decide filters is_mt_value dev type code value in
      let finish : d.0 ≡ ignore_event
          → (deliver filters is_mt_value type code d).calls ≡ dev.calls =
        λ e.
          ap (λ (x : InputDev). x.calls) (deliver-ignored type code d e)
          ∙ decide-Keeps dev type code value e in
      elim (Bool-cases (type == ev_syn)) [
        | inr x ↦ finish (deliver-sync type code d x after)
        | inl x ↦
            let e : type ≡ ev_syn = ground arith in
            let config : (code == syn_config) ≡ false = ground (arith, ne e) in
            let same : d ≡ handle_syn dev code value = decide-syn dev type code value x in
            elim (handle_syn-synced dev code value s config) [
              | inl i ↦ finish (ap (λ (w : Decision). w.0) same ∙ i)
              | inr (h, un) ↦
                  let gone =
                    deliver-syn type code d x (ap (λ (w : Decision). w.0) same ∙ h)
                    ∙ ap (λ (w : Decision). w.2.sync) same
                    ∙ un in
                  ground (arith, sym gone ∙ after)
            ]
      ]
