-- ===== src/Engine.antt =====
-- src/flite_engine.cpp: the two bundled voices, and synthesis through Flite.
pub mod Registering
use tiny_robotic_voice.Common.{
  ◌≡◌, refl, true, false, not, ◌||◌, Option, none, some, Bytes, List, [], ◌∷◌, ◌++◌, take, ℕ, suc,
  ◌+◌, ◌*◌, ◌-◌, ◌^◌, ◌%◌, ℤ, pos, negsuc, lit, eqb, leb_ℤ, eqb_ℤ, Result, ok, err, if◌then◌else◌,
  if-elim, arith,
}
use tiny_robotic_voice.Double.{Double}
use tiny_robotic_voice.Audio.{PcmAudio}
use tiny_robotic_voice.Voice.{VoiceSettings}
use tiny_robotic_voice.Protocol.{c_str}

-- The fields of `cst_wave` that are read; `samples` is the memory from its pointer on.
pub record Wave : Type 0 where
  pub sample_rate : ℤ
  pub num_channels : ℤ
  pub num_samples : ℤ
  pub samples : List ℤ

-- Arithmetic on `double`, `std::pow`, and the conversion to `float`.
pub record FloatMath (D F : Type 0) : Type 0 where
  pub divide : D → D → D
  pub multiply : D → D → D
  pub power : D → D → D
  pub to_float : D → F

-- The calls of third_party/flite, over voices `W`. `text_to_wave` has the three features that
-- `synthesize` sets on the voice before: `duration_stretch`, `f0_shift` and `int_f0_target_stddev`.
pub record Flite (W D F : Type 0) : Type 0 where
  pub register_kal16 : Option W
  pub register_rms : Option W
  pub sample_rate : W → ℤ
  pub math : FloatMath D F
  pub text_to_wave : Bytes → W → F → F → F → Option Wave

-- A constructed engine: its pointers are not null.
pub record Engine (W : Type 0) : Type 0 where
  pub kal16_voice : W
  pub rms_voice : W
  pub sample_rate : ℤ

pub data VoiceName : Type 0 where
  kal16 rms : VoiceName

-- A call that registered a voice, or gave one back.
pub data VoiceCall (W : Type 0) : Type 0 where
  registered unregistered : VoiceName → W → VoiceCall W

-- The two pointers of the object, and the calls so far.
pub record Voices (W : Type 0) : Type 0 where
  pub kal16_voice : Option W
  pub rms_voice : Option W
  pub calls : List (VoiceCall W)

-- What the constructor leaves behind, and the engine or the exception.
pub record Built (W : Type 0) : Type 0 where
  pub voices : Voices W
  pub result : Result Bytes (Engine W)

module _ {W : Type 0} where
  abbrev pub unregister_rms : Option W → Voices W → Voices W
  unregister_rms none v = v
  unregister_rms (some voice) v = record v {
    rms_voice = none;
    calls = v.calls ++ unregistered rms voice ∷ [];
  }

  abbrev pub unregister_kal16 : Option W → Voices W → Voices W
  unregister_kal16 none v = v
  unregister_kal16 (some voice) v = record v {
    kal16_voice = none;
    calls = v.calls ++ unregistered kal16 voice ∷ [];
  }

  unfoldable pub unregister_voices : Voices W → Voices W
  unregister_voices v = let v' = unregister_rms v.rms_voice v in unregister_kal16 v'.kal16_voice v'

  -- The end of the constructor, with its `catch`, once the `try` block came to a result.
  abbrev pub leave_constructor : Voices W → Result Bytes (Engine W) → Built W
  leave_constructor v (ok engine) = record { voices = v; result = ok engine }
  leave_constructor v (err what) = record { voices = unregister_voices v; result = err what }

  unfoldable pub guarded : Built W → Built W
  guarded b = leave_constructor b.voices b.result

module _ {W D F : Type 0} (f : Flite W D F) where
  unfoldable pub check_rates : W → W → Voices W → Built W
  check_rates k r v = record {
    voices = v;
    result =
        if leb_ℤ (f.sample_rate k) (pos 0) || leb_ℤ (f.sample_rate r) (pos 0)
        then err (lit "A bundled voice reported an invalid sample rate.")
        else if not (eqb_ℤ (f.sample_rate k) (f.sample_rate r))
        then err (lit "Bundled voice sample rates do not match.")
        else ok (record { kal16_voice = k; rms_voice = r; sample_rate = f.sample_rate k });
  }

  abbrev pub with_rms : W → Voices W → Option W → Built W
  with_rms k v none = record {
    voices = v;
    result = err (lit "The bundled cmu_us_rms voice could not be initialized.");
  }
  with_rms k v (some r) =
      check_rates k r (record v { rms_voice = some r; calls = v.calls ++ registered rms r ∷ [] })

  abbrev pub with_kal16 : Voices W → Option W → Built W
  with_kal16 v none = record {
    voices = v;
    result = err (lit "The bundled cmu_us_kal16 voice could not be initialized.");
  }
  with_kal16 v (some k) =
      with_rms k (record v { kal16_voice = some k; calls = v.calls ++ registered kal16 k ∷ [] })
        f.register_rms

  -- `FliteEngine::FliteEngine`.
  unfoldable pub make_flite_engine : Built W
  make_flite_engine =
      guarded
        (with_kal16 (record { kal16_voice = none; rms_voice = none; calls = [] }) f.register_kal16)

  unfoldable pub voice_for : Engine W → Bytes → Result Bytes W
  voice_for e model =
      if eqb model (lit "kal16")
      then ok e.kal16_voice
      else if eqb model (lit "rms")
      then ok e.rms_voice
      else err (lit "Unknown voice model: " ++ model ++ lit ".")

  -- The conversion of an `int` to `std::size_t`.
  abbrev pub to_size : ℤ → ℕ
  to_size (pos n) = n
  to_size (negsuc n) = 2 ^ 64 - suc n

  abbrev pub audio_of : Wave → PcmAudio
  audio_of wave = record {
    sample_rate = wave.sample_rate;
    channels = wave.num_channels;
    samples = take ((to_size wave.num_samples * to_size wave.num_channels) % 2 ^ 64) wave.samples;
  }

  abbrev pub wave_or_throw : Option Wave → Result Bytes PcmAudio
  wave_or_throw (some wave) = ok (audio_of wave)
  wave_or_throw none = err (lit "Flite did not produce a waveform.")

  module _ ⦃d : Double D⦄ where
    -- `1.1 / speed`, `pow(2.0, pitch_semitones / 12.0)` and `11.0 * expression`.
    abbrev pub duration_stretch : VoiceSettings D → F
    duration_stretch s = f.math.to_float (f.math.divide (d.hundredths (pos 110)) s.speed)

    abbrev pub f0_shift : VoiceSettings D → F
    f0_shift s = f.math.to_float (
        f.math.power (d.hundredths (pos 200))
          (f.math.divide s.pitch_semitones (d.hundredths (pos 1200))))

    abbrev pub int_f0_target_stddev : VoiceSettings D → F
    int_f0_target_stddev s =
        f.math.to_float (f.math.multiply (d.hundredths (pos 1100)) s.expression)

    abbrev pub speak_with : Bytes → VoiceSettings D → Result Bytes W → Result Bytes PcmAudio
    speak_with text s (err what) = err what
    speak_with text s (ok voice) = wave_or_throw (
        f.text_to_wave (c_str text) voice (duration_stretch s) (f0_shift s)
          (int_f0_target_stddev s))

    unfoldable pub synthesize : Engine W → Bytes → VoiceSettings D → Result Bytes PcmAudio
    synthesize e text s = speak_with text s (voice_for e s.model)
