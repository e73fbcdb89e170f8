-- ===== src/Input.antt =====
-- The input core, input_subsystem/input.c: what becomes of an event between the driver and the handlers,
-- and the handles through which handlers open, grab and close a device.
pub mod Defuzz
pub mod Events
pub mod Handles
pub mod Tests
use my_posts.Prelude.{
  ℕ, Bool, true, false, ◌&&◌, ◌||◌, Option, none, some, List, [], ◌∷◌, ◌++◌, leb, ◌==◌,
  if◌then◌else◌,
}
use my_posts.Prelude.Int.{ℤ, pos, eqb_ℤ}

-- A call out of the core: of a handler's event, filter or start function for a handle, or of the driver's
-- event or flush function.
pub data Call : Type 0 where
  event : (handle type code : ℕ) → ℤ → Call
  filter : (handle type code : ℕ) → ℤ → Call
  start : ℕ → Call
  driver : (type code : ℕ) → ℤ → Call
  flush : Call

-- `struct input_dev`, with the handles on its `h_list` and their `open` counts. `timer` is the delay that the
-- repeat timer is set to, `has_timer` that it has been set up, `running` that the driver's open has been
-- called and not its close; `calls` are the calls made so far.
pub record InputDev : Type 0 where
  pub evbit : ℕ → Bool
  pub keybit : ℕ → Bool
  pub relbit : ℕ → Bool
  pub absbit : ℕ → Bool
  pub mscbit : ℕ → Bool
  pub ledbit : ℕ → Bool
  pub sndbit : ℕ → Bool
  pub swbit : ℕ → Bool
  pub key : ℕ → Bool
  pub led : ℕ → Bool
  pub snd : ℕ → Bool
  pub sw : ℕ → Bool
  pub rep : ℕ → ℤ
  pub abs : ℕ → ℤ
  pub fuzz : ℕ → ℤ
  pub mt : Option (ℕ → ℕ → ℤ)
  pub mtsize : ℕ
  pub slot : ℕ
  pub sync : Bool
  pub repeat_key : ℕ
  pub has_timer : Bool
  pub timer : Option ℤ
  pub has_event : Bool
  pub grab : Option ℕ
  pub h_list : List ℕ
  pub open_count : ℕ → ℤ
  pub users : ℕ
  pub going_away : Bool
  pub running : Bool
  pub calls : List Call

abbrev pub ev_syn : ℕ
ev_syn = 0

abbrev pub ev_key : ℕ
ev_key = 1

abbrev pub ev_rel : ℕ
ev_rel = 2

abbrev pub ev_abs : ℕ
ev_abs = 3

abbrev pub ev_msc : ℕ
ev_msc = 4

abbrev pub ev_sw : ℕ
ev_sw = 5

abbrev pub ev_led : ℕ
ev_led = 0x11

abbrev pub ev_snd : ℕ
ev_snd = 0x12

abbrev pub ev_rep : ℕ
ev_rep = 0x14

abbrev pub ev_ff : ℕ
ev_ff = 0x15

abbrev pub ev_pwr : ℕ
ev_pwr = 0x16

abbrev pub ev_max : ℕ
ev_max = 0x1f

abbrev pub syn_report : ℕ
syn_report = 0

abbrev pub syn_config : ℕ
syn_config = 1

abbrev pub syn_mt_report : ℕ
syn_mt_report = 2

abbrev pub key_max : ℕ
key_max = 0x2ff

unfoldable pub is_event_supported : ℕ → (ℕ → Bool) → ℕ → Bool
is_event_supported code bm max = leb code max && bm code

abbrev pub emit : InputDev → List Call → InputDev
emit dev cs = record dev { calls = dev.calls ++ cs }

-- The filter function of a handle's handler, if it has one.
abbrev pub Filters : Type 0
Filters = ℕ → Option (ℕ → ℕ → ℤ → Bool)

-- The loop over `h_list`: the filters come first.
unfoldable pub pass_loop : Filters → (ℕ → ℤ) → (type code : ℕ) → ℤ → Bool → List ℕ → List Call
pass_loop filters open_count type code value filtered [] = []
pass_loop filters open_count type code value filtered (h ∷ hs) =
    let skipped = pass_loop filters open_count type code value filtered hs in
    let called : List Call = elim (filters h) [
      | none ↦ if filtered then [] else event h type code value ∷ skipped
      | some f ↦
          filter h type code value
          ∷ pass_loop filters open_count type code value (filtered || f type code value) hs
    ] in
    if eqb_ℤ (open_count h) (pos 0) then skipped else called

-- The calls of `input_pass_event`.
unfoldable pub pass_calls : Filters → InputDev → (type code : ℕ) → ℤ → List Call
unfolding pass_loop
pass_calls filters dev type code value = elim dev.grab [
  | some h ↦ event h type code value ∷ []
  | none ↦ pass_loop filters dev.open_count type code value false dev.h_list
]

unfoldable pub pass_event : Filters → InputDev → (type code : ℕ) → ℤ → InputDev
unfolding pass_calls
pass_event filters dev type code value = emit dev (pass_calls filters dev type code value)
