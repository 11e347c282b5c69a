-- ===== src/Voice.antt =====
-- include/trv/voice_settings.h and the part of src/voice_settings.cpp that applies a patch.
-- A `double` is any type with the operations that the source uses.
pub mod Range
pub mod Round
pub mod Parse
use tiny_robotic_voice.Common.{
  ℕ, Bool, true, false, not, ◌&&◌, ◌||◌, Option, none, some, Bytes, lit, eqb, ℤ, pos, negsuc,
  if◌then◌else◌,
}
use tiny_robotic_voice.Double.{Double}

pub record VoiceSettings (D : Type 0) : Type 0 where
  pub model : Bytes
  pub preset : Bytes
  pub speed : D
  pub pitch_semitones : D
  pub expression : D
  pub gain_db : D

pub record VoiceSettingsPatch (D : Type 0) : Type 0 where
  pub model : Option Bytes
  pub preset : Option Bytes
  pub speed : Option D
  pub pitch_semitones : Option D
  pub expression : Option D
  pub gain_db : Option D

abbrev pub no_patch : (D : Type 0) → VoiceSettingsPatch D
no_patch D = record {
  model = none;
  preset = none;
  speed = none;
  pitch_semitones = none;
  expression = none;
  gain_db = none;
}

abbrev is_none {ℓ} : {A : Type ℓ} → Option A → Bool
is_none none = true
is_none (some a) = false

-- `*patch.x` where it is given.
abbrev pub given {ℓ} : {A : Type ℓ} → Option A → A → A
given (some a) d = a
given none d = d

unfoldable pub known_model : Bytes → Bool
known_model name = eqb name (lit "kal16") || eqb name (lit "rms")

abbrev pub model_ok : Option Bytes → Bool
model_ok none = true
model_ok (some name) = known_model name

module _ {D : Type 0} where
  unfoldable pub is_empty_patch : VoiceSettingsPatch D → Bool
  is_empty_patch p =
      is_none p.model
      && is_none p.preset
      && is_none p.speed
      && is_none p.pitch_semitones
      && is_none p.expression
      && is_none p.gain_db

module _ {D : Type 0} ⦃d : Double D⦄ where
  open d use {hundredths}

  -- The members' initial values.
  abbrev pub default_settings : VoiceSettings D
  default_settings = record {
    model = lit "kal16";
    preset = lit "default";
    speed = hundredths (pos 100);
    pitch_semitones = hundredths (pos 0);
    expression = hundredths (pos 100);
    gain_db = hundredths (pos 0);
  }

  abbrev pub with_preset : VoiceSettings D → Bytes → ℤ → ℤ → ℤ → ℤ → VoiceSettings D
  with_preset s name speed pitch expression gain = record s {
    preset = name;
    speed = hundredths speed;
    pitch_semitones = hundredths pitch;
    expression = hundredths expression;
    gain_db = hundredths gain;
  }

  -- `preset`; `none` is the result false, with the settings as they were.
  unfoldable pub preset : Bytes → VoiceSettings D → Option (VoiceSettings D)
  preset name s =
      if eqb name (lit "default")
      then some (with_preset s (lit "default") (pos 100) (pos 0) (pos 100) (pos 0))
      else if eqb name (lit "tiny")
      then some (with_preset s (lit "tiny") (pos 110) (pos 400) (pos 70) (negsuc 99))
      else if eqb name (lit "deep")
      then some (with_preset s (lit "deep") (pos 90) (negsuc 399) (pos 80) (pos 0))
      else if eqb name (lit "flat")
      then some (with_preset s (lit "flat") (pos 100) (pos 0) (pos 15) (pos 0))
      else none

  -- A value with its limits, in hundredths.
  abbrev pub in_range : D → ℤ → ℤ → Bool
  in_range x minimum maximum =
      d.is_finite x && not (d.lt x (hundredths minimum)) && not (d.lt (hundredths maximum) x)

  -- kMinimumSpeed .. kMaximumGainDb.
  abbrev pub speed_ok : D → Bool
  speed_ok x = in_range x (pos 60) (pos 180)

  abbrev pub pitch_ok : D → Bool
  pitch_ok x = in_range x (negsuc 1199) (pos 1200)

  abbrev pub expression_ok : D → Bool
  expression_ok x = in_range x (pos 0) (pos 200)

  abbrev pub gain_ok : D → Bool
  gain_ok x = in_range x (negsuc 2399) (pos 600)

  unfoldable pub settings_in_range : VoiceSettings D → Bool
  settings_in_range s =
      speed_ok s.speed
      && pitch_ok s.pitch_semitones
      && expression_ok s.expression
      && gain_ok s.gain_db

  -- The fields of the patch that are given replace those of the settings.
  abbrev pub overlay : VoiceSettingsPatch D → VoiceSettings D → VoiceSettings D
  overlay p s = record s {
    model = given p.model s.model;
    speed = given p.speed s.speed;
    pitch_semitones = given p.pitch_semitones s.pitch_semitones;
    expression = given p.expression s.expression;
    gain_db = given p.gain_db s.gain_db;
  }

  abbrev pub preset_step : Option Bytes → VoiceSettings D → Option (VoiceSettings D)
  preset_step none s = some s
  preset_step (some name) s = preset name s

  unfoldable pub apply_to_preset :
      VoiceSettingsPatch D → VoiceSettings D → VoiceSettings D × Option Bytes
  apply_to_preset p s =
      if not (model_ok p.model)
      then (s, some (lit "Unknown voice model. Expected kal16 or rms."))
      else if settings_in_range (overlay p s)
      then (overlay p s, none)
      else (
        overlay p s,
        some (lit "One or more voice settings are outside their supported ranges."),
      )

  -- The settings as the call leaves them, and its error; `none` is the result true.
  unfoldable pub apply_voice_settings_patch :
      VoiceSettings D → VoiceSettingsPatch D → VoiceSettings D × Option Bytes
  unfolding apply_to_preset
  apply_voice_settings_patch s p = elim (preset_step p.preset s) [
    | none ↦ (s, some (lit "Unknown voice preset. Expected default, tiny, deep, or flat."))
    | some s' ↦ apply_to_preset p s'
  ]
