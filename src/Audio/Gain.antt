-- ===== src/Audio/Gain.antt =====
-- include/trv/audio_processing.h and src/audio_processing.cpp: the output gain.
use tiny_robotic_voice.Common.{
  suc, ◌≡◌, refl, ap, true, false, List, [], ◌∷◌, ℤ, pos, negsuc, ◌≤ℤ◌, ltb_ℤ, length, arith,
  if◌then◌else◌,
}
use tiny_robotic_voice.Double.{Double}
use tiny_robotic_voice.Audio.{PcmAudio, frame_count}
use tiny_robotic_voice.Voice.{VoiceSettings}

-- The calls of <cmath>: `std::pow(10.0, gain_db / 20.0)`, and `std::llround(sample * gain)`.
pub record GainMath (D : Type 0) : Type 0 where
  pub power : D → D
  pub llround_product : ℤ → D → ℤ

-- `std::clamp` to the range of `int16_t`.
pub clamp_sample : ℤ → ℤ
clamp_sample x =
    if ltb_ℤ x (negsuc 32767) then negsuc 32767 else if ltb_ℤ (pos 32767) x then pos 32767 else x

module _ {D : Type 0} ⦃d : Double D⦄ (m : GainMath D) where
  pub scale_samples : D → List ℤ → List ℤ
  scale_samples gain [] = []
  scale_samples gain (sample ∷ rest) =
      clamp_sample (m.llround_product sample gain) ∷ scale_samples gain rest

  unfoldable pub apply_output_gain : PcmAudio → VoiceSettings D → PcmAudio
  apply_output_gain audio s =
      if d.eq s.gain_db (d.hundredths (pos 0))
      then audio
      else record audio { samples = scale_samples (m.power s.gain_db) audio.samples }

  -- Every sample is an `int16_t`.
  abbrev pub AllSamples : List ℤ → Type 0
  AllSamples [] = Unit {0}
  AllSamples (x ∷ rest) = (negsuc 32767 ≤ℤ x) × (x ≤ℤ pos 32767) × AllSamples rest

  scale_samples-AllSamples : (gain : D) (xs : List ℤ) → AllSamples (scale_samples gain xs)
  unfolding scale_samples clamp_sample
  scale_samples-AllSamples gain [] = tt
  scale_samples-AllSamples gain (x ∷ rest) = ground (arith, scale_samples-AllSamples gain rest)

  length-scale_samples : (gain : D) (xs : List ℤ) → length (scale_samples gain xs) ≡ length xs
  unfolding scale_samples
  length-scale_samples gain [] = refl
  length-scale_samples gain (x ∷ rest) = ap (λ n. suc n) (length-scale_samples gain rest)

  -- The gain changes neither the format nor the number of samples. A gain of 0 dB leaves them as
  -- they are; with any other gain each of them lies in the range of `int16_t`.
  pub apply_output_gain-AllSamples :
      (audio : PcmAudio) (s : VoiceSettings D)
      → let scaled = apply_output_gain audio s in
        (scaled.sample_rate ≡ audio.sample_rate)
        × (scaled.channels ≡ audio.channels)
        × (length scaled.samples ≡ length audio.samples)
        × (frame_count scaled ≡ frame_count audio)
        × (d.eq s.gain_db (d.hundredths (pos 0)) ≡ true → scaled.samples ≡ audio.samples)
        × (d.eq s.gain_db (d.hundredths (pos 0)) ≡ false → AllSamples scaled.samples)
  unfolding apply_output_gain frame_count
  apply_output_gain-AllSamples audio s = ground (
    arith,
    length-scale_samples (m.power s.gain_db) audio.samples,
    scale_samples-AllSamples (m.power s.gain_db) audio.samples,
  )
