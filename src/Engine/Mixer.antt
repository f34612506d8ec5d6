-- ===== src/Engine/Mixer.antt =====
-- src/native_dsp_graph.rs and src/core_dsp.rs: the gains, the inputs, the metronome's settings and the
-- synthesizer's settings of `RuntimeAudioProcessor`, with the arms of `apply_command` on them. The
-- arrays of the two inputs have a fixed length, so an index is in range for all of them or for none.
-- The synthesizer (src/fluidsynth.rs) is left out: `calls` lists the calls of it, newest first.
use freewheeling_plus.Prelude.{
  ℕ, zero, suc, ◌+◌, ◌-◌, ◌^◌, Bool, true, false, not, List, ◌∷◌, min, if◌then◌else◌,
}
use freewheeling_plus.Prelude.Int.{ℤ, pos, negsuc}
use freewheeling_plus.Prelude.Floats.{Float32}

pub data SynthCall (F : Type 0) : Type 0 where
  note_on : (channel note velocity : ℕ) → SynthCall F
  controller : (channel control value : ℕ) → SynthCall F
  pitch_bend : (channel : ℕ) (value : ℤ) → SynthCall F
  program_select : (channel : ℕ) (soundfont_id bank program : ℤ) → SynthCall F
  set_tuning : (cents : F) → SynthCall F
  shutdown_synth : SynthCall F

pub record Mixer (F : Type 0) : Type 0 where
  pub monitor_gain : F
  pub master_gain : F
  pub fader_max_db : F
  pub input_volume : F × F
  pub input_fader_volume : F × F
  pub input_volume_delta : F × F
  pub input_selected : Bool × Bool
  pub metro_enabled : Bool
  pub metro_gain : F
  pub synth_enabled : Bool
  pub synth_channel : ℕ
  pub synth_stereo : Bool
  pub calls : List (SynthCall F)

-- `get_mut` of an array of two, with a change of what it finds.
pub update {ℓ} : {A : Type ℓ} → A × A → ℕ → (A → A) → A × A
update p zero change = (change p.0, p.1)
update p (suc zero) change = (p.0, change p.1)
update p (suc (suc n)) change = p

-- `i32::from(value).saturating_add(PITCH_BEND_CENTER)`
pub centred : ℕ → ℤ
centred value = pos (min (value + 8192) (2 ^ 31 - 1))

module _ (f : Float32) where
  open f use {F, of_ℕ, of_ℤ, add, sub, mul, div, lt, le, eq, pow, max as fmax}

  -- A constant with one or two decimals is a fraction.
  ratio : ℕ → ℕ → F
  ratio a b = div (of_ℕ a) (of_ℕ b)

  pub clamped : F → F → F → F
  clamped x low high = if lt x low then low else if lt high x then high else x

  pub iec_db_to_fader : F → F
  iec_db_to_fader db =
      if lt db (of_ℤ (negsuc 69))
      then of_ℕ 0
      else if lt db (of_ℤ (negsuc 59))
      then mul (add db (of_ℕ 70)) (ratio 1 4)
      else if lt db (of_ℤ (negsuc 49))
      then add (mul (add db (of_ℕ 60)) (ratio 1 2)) (ratio 5 2)
      else if lt db (of_ℤ (negsuc 39))
      then add (mul (add db (of_ℕ 50)) (ratio 3 4)) (ratio 15 2)
      else if lt db (of_ℤ (negsuc 29))
      then add (mul (add db (of_ℕ 40)) (ratio 3 2)) (of_ℕ 15)
      else if lt db (of_ℤ (negsuc 19))
      then add (mul (add db (of_ℕ 30)) (of_ℕ 2)) (of_ℕ 30)
      else add (mul (add db (of_ℕ 20)) (ratio 5 2)) (of_ℕ 50)

  pub iec_fader_to_db : F → F
  iec_fader_to_db def =
      if le (of_ℕ 50) def
      then sub (div (sub def (of_ℕ 50)) (ratio 5 2)) (of_ℕ 20)
      else if le (of_ℕ 30) def
      then sub (div (sub def (of_ℕ 30)) (of_ℕ 2)) (of_ℕ 30)
      else if le (of_ℕ 15) def
      then sub (div (sub def (of_ℕ 15)) (ratio 3 2)) (of_ℕ 40)
      else if le (ratio 15 2) def
      then sub (div (sub def (ratio 15 2)) (ratio 3 4)) (of_ℕ 50)
      else if le (ratio 5 2) def
      then sub (div (sub def (ratio 5 2)) (ratio 1 2)) (of_ℕ 60)
      else sub (div def (ratio 1 4)) (of_ℕ 70)

  pub fader_to_db : F → F → F
  fader_to_db level max_db =
      if eq level (of_ℕ 0)
      then of_ℤ (negsuc 999)
      else iec_fader_to_db (mul level (iec_db_to_fader max_db))

  -- The new volume of an input: the one given, or that of the fader.
  pub volume_of : Mixer F → F → F → F → F
  volume_of m volume fader_volume old =
      if le (of_ℕ 0) volume
      then fmax volume (of_ℕ 0)
      else if le (of_ℕ 0) fader_volume
      then pow (of_ℕ 10) (div (fader_to_db fader_volume m.fader_max_db) (of_ℕ 20))
      else old

  pub set_input_volume : Mixer F → ℕ → F → F → Mixer F
  set_input_volume m input volume fader_volume = record m {
    input_volume = update m.input_volume input (volume_of m volume fader_volume);
    input_volume_delta = update m.input_volume_delta input (λ _. of_ℕ 1);
    input_fader_volume =
        if le (of_ℕ 0) fader_volume
        then update m.input_fader_volume input (λ _. clamped fader_volume (of_ℕ 0) (of_ℕ 1))
        else m.input_fader_volume;
  }

  pub adjust_input_volume : Mixer F → ℕ → F → Mixer F
  adjust_input_volume m input amount = record m {
    input_volume_delta =
        update m.input_volume_delta input
          (λ delta. clamped (add delta amount) (of_ℕ 0) (ratio 3 2));
  }

  pub toggle_input_record : Mixer F → ℕ → Mixer F
  toggle_input_record m input = record m { input_selected = update m.input_selected input not }

  pub call : Mixer F → SynthCall F → Mixer F
  call m c = record m { calls = c ∷ m.calls }

  -- All notes off, on channel 0.
  pub silence : Mixer F → Mixer F
  silence m = call m (controller 0 123 0)

  pub set_synth_enabled : Mixer F → Bool → Mixer F
  set_synth_enabled m true = record m { synth_enabled = true }
  set_synth_enabled m false = silence (record m { synth_enabled = false })
