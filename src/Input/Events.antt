-- ===== src/Input/Events.antt =====
-- input_handle_event and what it calls, input_event, input_inject_event and the repeat timer.
pub mod Quiet
pub mod Keys
use my_posts.Prelude.{
  ℕ, ◌≤◌, Bool, true, false, not, ◌&&◌, ◌||◌, Option, none, some, List, [], ◌∷◌, leb, ltb, ◌==◌,
  if◌then◌else◌, set,
}
use my_posts.Prelude.Int.{ℤ, pos, negsuc, eqb_ℤ, ltb_ℤ}
use my_posts.Input.Defuzz.{defuzz_abs_event}
use my_posts.Input.{
  Call, driver, InputDev, Filters, emit, pass_event, is_event_supported, ev_syn, ev_key, ev_rel,
  ev_abs, ev_msc, ev_sw, ev_led, ev_snd, ev_rep, ev_ff, ev_pwr, ev_max, syn_report, syn_config,
  syn_mt_report, key_max,
}

abbrev pub rel_max : ℕ
rel_max = 0x0f

abbrev pub abs_max : ℕ
abs_max = 0x3f

abbrev pub msc_max : ℕ
msc_max = 0x07

abbrev pub sw_max : ℕ
sw_max = 0x0f

abbrev pub led_max : ℕ
led_max = 0x0f

abbrev pub snd_max : ℕ
snd_max = 0x07

abbrev pub rep_delay : ℕ
rep_delay = 0

abbrev pub rep_period : ℕ
rep_period = 1

abbrev pub rep_max : ℕ
rep_max = 1

abbrev pub abs_mt_slot : ℕ
abs_mt_slot = 0x2f

-- INPUT_IGNORE_EVENT, INPUT_PASS_TO_HANDLERS and INPUT_PASS_TO_ALL; no event goes to the device alone.
pub data Disposition : Type 0 where
  ignore_event pass_to_handlers pass_to_all : Disposition

-- `!!test_bit(...)` as an int.
abbrev pub bit : Bool → ℤ
bit true = pos 1
bit false = pos 0

abbrev pub nonzero : ℤ → Bool
nonzero v = not (eqb_ℤ v (pos 0))

unfoldable pub start_autorepeat : InputDev → ℕ → InputDev
start_autorepeat dev code =
    if dev.evbit ev_rep
      && nonzero (dev.rep rep_period)
      && nonzero (dev.rep rep_delay)
      && dev.has_timer
    then record dev { repeat_key = code; timer = some (dev.rep rep_delay) }
    else dev

unfoldable pub stop_autorepeat : InputDev → InputDev
stop_autorepeat dev = record dev { timer = none }

-- What a handler of one type of event decides: the disposition, the value passed on, and the device.
abbrev pub Decision : Type 0
Decision = Disposition × ℤ × InputDev

unfoldable pub handle_syn : InputDev → ℕ → ℤ → Decision
handle_syn dev code value =
    if code == syn_config
    then (pass_to_all, value, dev)
    else (if code == syn_report
        then (if dev.sync
            then (ignore_event, value, dev)
            else (pass_to_handlers, value, record dev { sync = true }))
        else (if code == syn_mt_report
            then (pass_to_handlers, value, record dev { sync = false })
            else (ignore_event, value, dev)))

unfoldable pub handle_key : InputDev → ℕ → ℤ → Decision
unfolding is_event_supported start_autorepeat stop_autorepeat
handle_key dev code value =
    let flipped = record dev { key = set dev.key code (not (dev.key code)) } in
    let timed = if nonzero value then start_autorepeat flipped code else stop_autorepeat flipped in
    if is_event_supported code dev.keybit key_max && not (eqb_ℤ (bit (dev.key code)) value)
    then (pass_to_handlers, value, if eqb_ℤ value (pos 2) then dev else timed)
    else (ignore_event, value, dev)

unfoldable pub handle_sw : InputDev → ℕ → ℤ → Decision
unfolding is_event_supported
handle_sw dev code value =
    if is_event_supported code dev.swbit sw_max && not (eqb_ℤ (bit (dev.sw code)) value)
    then (pass_to_handlers, value, record dev { sw = set dev.sw code (not (dev.sw code)) })
    else (ignore_event, value, dev)

unfoldable pub handle_led : InputDev → ℕ → ℤ → Decision
unfolding is_event_supported
handle_led dev code value =
    if is_event_supported code dev.ledbit led_max && not (eqb_ℤ (bit (dev.led code)) value)
    then (pass_to_all, value, record dev { led = set dev.led code (not (dev.led code)) })
    else (ignore_event, value, dev)

unfoldable pub handle_snd : InputDev → ℕ → ℤ → Decision
unfolding is_event_supported
handle_snd dev code value =
    let flipped = record dev { snd = set dev.snd code (not (dev.snd code)) } in
    let differs = if dev.snd code then not (nonzero value) else nonzero value in
    if is_event_supported code dev.sndbit snd_max
    then (pass_to_all, value, if differs then flipped else dev)
    else (ignore_event, value, dev)

unfoldable pub handle_rep : InputDev → ℕ → ℤ → Decision
handle_rep dev code value =
    if leb code rep_max && not (ltb_ℤ value (pos 0)) && not (eqb_ℤ (dev.rep code) value)
    then (pass_to_all, value, record dev { rep = set dev.rep code value })
    else (ignore_event, value, dev)

abbrev pub unsynced : InputDev → ℕ → InputDev
unsynced dev type = if type == ev_syn then dev else record dev { sync = false }

-- The slot of the events that follow.
unfoldable pub stage_slot : InputDev → ℤ → InputDev
stage_slot dev (pos n) = if ltb n dev.mtsize then record dev { slot = n } else dev
stage_slot dev (negsuc n) = dev

module _ (filters : Filters) (is_mt_value : ℕ → Bool) where
  -- Where the last value of an axis is kept; none for multi-touch without slots.
  unfoldable pub old_value : InputDev → ℕ → Option ℤ
  old_value dev code =
      let slots : Option ℤ = elim dev.mt [ none ↦ none | some m ↦ some (m dev.slot code) ] in
      if is_mt_value code then slots else some (dev.abs code)

  unfoldable pub keep_value : InputDev → ℕ → ℤ → InputDev
  keep_value dev code value =
      let slots : InputDev = elim dev.mt [
        | none ↦ dev
        | some m ↦ record dev { mt = some (set m dev.slot (set (m dev.slot) code value)) }
      ] in
      if is_mt_value code then slots else record dev { abs = set dev.abs code value }

  -- Flush the staged slot.
  unfoldable pub flush_slot : InputDev → ℕ → InputDev
  unfolding pass_event
  flush_slot dev code =
      let slot = pos dev.slot in
      if is_mt_value code && not (eqb_ℤ slot (dev.abs abs_mt_slot))
      then pass_event filters (record dev { abs = set dev.abs abs_mt_slot slot }) ev_abs abs_mt_slot
          slot
      else dev

  -- The value smoothed against the old one, which is kept if it differs.
  unfoldable pub filter_abs : InputDev → ℕ → ℤ → Option ℤ → Decision
  unfolding keep_value flush_slot
  filter_abs dev code value none = (pass_to_handlers, value, flush_slot dev code)
  filter_abs dev code value (some old) =
      let new = defuzz_abs_event value old (dev.fuzz code) in
      if eqb_ℤ old new
      then (ignore_event, new, dev)
      else (pass_to_handlers, new, flush_slot (keep_value dev code new) code)

  -- `input_handle_abs_event`
  unfoldable pub handle_abs_event : InputDev → ℕ → ℤ → Decision
  unfolding old_value filter_abs stage_slot
  handle_abs_event dev code value =
      if code == abs_mt_slot
      then (ignore_event, value, stage_slot dev value)
      else filter_abs dev code value (old_value dev code)

  -- The switch of `input_handle_event`.
  unfoldable pub decide : InputDev → (type code : ℕ) → ℤ → Decision
  unfolding handle_syn handle_key handle_sw handle_led handle_snd handle_rep handle_abs_event
      is_event_supported
  decide dev type code value =
      if type == ev_syn
      then handle_syn dev code value
      else (if type == ev_key
          then handle_key dev code value
          else (if type == ev_sw
              then handle_sw dev code value
              else (if type == ev_abs
                  then (if is_event_supported code dev.absbit abs_max
                      then handle_abs_event dev code value
                      else (ignore_event, value, dev))
                  else (if type == ev_rel
                      then (if is_event_supported code dev.relbit rel_max && nonzero value
                          then (pass_to_handlers, value, dev)
                          else (ignore_event, value, dev))
                      else (if type == ev_msc
                          then (if is_event_supported code dev.mscbit msc_max
                              then (pass_to_all, value, dev)
                              else (ignore_event, value, dev))
                          else (if type == ev_led
                              then handle_led dev code value
                              else (if type == ev_snd
                                  then handle_snd dev code value
                                  else (if type == ev_rep
                                      then handle_rep dev code value
                                      else (if type == ev_ff
                                          then (if ltb_ℤ value (pos 0)
                                              then (ignore_event, value, dev)
                                              else (pass_to_all, value, dev))
                                          else (if type == ev_pwr
                                              then (pass_to_all, value, dev)
                                              else (ignore_event, value, dev)))))))))))

  -- The end of `input_handle_event`.
  unfoldable pub deliver : (type code : ℕ) → Decision → InputDev
  unfolding pass_event
  deliver type code (ignore_event, value, dev) = dev
  deliver type code (pass_to_handlers, value, dev) =
      pass_event filters (unsynced dev type) type code value
  deliver type code (pass_to_all, value, dev) =
      let told =
        if dev.has_event
        then emit (unsynced dev type) (driver type code value ∷ [])
        else unsynced dev type in
      pass_event filters told type code value

  -- `input_handle_event`
  unfoldable pub handle_event : InputDev → (type code : ℕ) → ℤ → InputDev
  unfolding decide deliver
  handle_event dev type code value = deliver type code (decide dev type code value)

  -- `input_event`
  unfoldable pub input_event : InputDev → (type code : ℕ) → ℤ → InputDev
  unfolding handle_event is_event_supported
  input_event dev type code value =
      if is_event_supported type dev.evbit ev_max then handle_event dev type code value else dev

  -- `input_inject_event`, through the handle `h`.
  unfoldable pub inject_event : InputDev → ℕ → (type code : ℕ) → ℤ → InputDev
  unfolding handle_event is_event_supported
  inject_event dev h type code value =
      let may = elim dev.grab as (λ _. Bool) [ none ↦ true | some g ↦ g == h ] in
      if is_event_supported type dev.evbit ev_max && may
      then handle_event dev type code value
      else dev

-- `input_repeat_key`, when the timer has run out.
unfoldable pub repeat_key : Filters → InputDev → InputDev
unfolding pass_event is_event_supported
repeat_key filters dev =
    let fired = record dev { timer = none } in
    let passed = pass_event filters fired ev_key dev.repeat_key (pos 2) in
    let synced = if dev.sync then pass_event filters passed ev_syn syn_report (pos 1) else passed in
    let again =
      if nonzero (dev.rep rep_period)
      then record synced { timer = some (dev.rep rep_period) }
      else synced in
    if dev.key dev.repeat_key && is_event_supported dev.repeat_key dev.keybit key_max
    then again
    else fired
