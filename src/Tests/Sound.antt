-- ===== src/Tests/Sound.antt =====
-- The audio output, the gain and the engine at concrete inputs.
use tiny_robotic_voice.Common.{
  ◌≢◌, ℕ, ◌+◌, ◌≤◌, ◌≡◌, refl, Bool, true, false, none, some, [], ◌∷◌, ◌++◌, ℤ, pos, length, arith,
  ◌⊎◌,
}
use tiny_robotic_voice.Double.{Hundredths, hundredths_double}
use tiny_robotic_voice.Audio.{frame_count}
use tiny_robotic_voice.Audio.Gain.{apply_output_gain, AllSamples, apply_output_gain-AllSamples}
use tiny_robotic_voice.Output.{
  Device, initialize, initial_output, Output, callback, enqueue, interrupt, is_drained,
}
use tiny_robotic_voice.Output.Pending.{pending}
use tiny_robotic_voice.Output.Invariant.{IsValid}
use tiny_robotic_voice.Output.Play.{Plays, callback-Plays}
use tiny_robotic_voice.Output.Blocking.{
  IsStuck, enqueue-IsValid, pending-enqueue, enqueue-blocks, is_drained-pending,
}
use tiny_robotic_voice.Output.Opening.{initialize-IsValid}
use tiny_robotic_voice.Voice.{VoiceSettings, default_settings}
use tiny_robotic_voice.Engine.{Engine, Flite, Wave, make_flite_engine}
use tiny_robotic_voice.Engine.Registering.{IsBuilt, make_flite_engine-IsBuilt}
use tiny_robotic_voice.Tests.{open_output-IsValid, tone, open_output, loud}

callback-Plays_example : Plays 4 open_output (callback true 4 open_output)
callback-Plays_example = callback-Plays 4 open_output open_output-IsValid refl

-- The other threads may leave the output alone while the caller sleeps.
alone-IsValid : (o : Output) → IsValid o → IsValid o
alone-IsValid o v = v

enqueue-IsValid_example : IsValid (enqueue 2 tone ((λ o. o) ∷ []) open_output).1
enqueue-IsValid_example =
    enqueue-IsValid 2 tone ((λ o. o) ∷ []) open_output (alone-IsValid, tt) open_output-IsValid

fits : open_output.queued_frames + frame_count tone ≤ open_output.maximum_frames
unfolding frame_count
fits = omega arith

pending-enqueue_example :
    let (result, after) = enqueue 2 tone [] open_output in
    (result ≡ some true) × (pending 2 after ≡ pending 2 open_output ++ tone.samples)
pending-enqueue_example = pending-enqueue tone [] open_output refl refl fits

-- A device that can hold a single frame.
abbrev narrow : Output
narrow = record open_output {
  queue = [];
  has_current = false;
  queued_frames = 0;
  maximum_frames = 1;
}

narrow-IsStuck : IsStuck 2 tone narrow
unfolding frame_count
narrow-IsStuck = ground arith

alone-IsStuck : (o : Output) → IsStuck 2 tone o → IsStuck 2 tone o
alone-IsStuck o s = s

enqueue-blocks_example : (enqueue 2 tone ((λ o. o) ∷ []) narrow).0 ≡ none
enqueue-blocks_example =
    enqueue-blocks 2 tone ((λ o. o) ∷ []) narrow refl (alone-IsStuck, tt) narrow-IsStuck

is_drained-pending_example :
    (is_drained 3 open_output ≡ true → pending 3 open_output ≡ [])
    × (is_drained 3 (interrupt open_output) ≡ true)
is_drained-pending_example = is_drained-pending 3 open_output

-- Settings with the given gain in hundredths of a decibel.
abbrev with_gain : ℤ → VoiceSettings Hundredths
with_gain gain = record default_settings { gain_db = some gain }

apply_output_gain-AllSamples_example :
    let scaled = apply_output_gain loud tone (with_gain (pos 300)) in
    (scaled.sample_rate ≡ pos 16000)
    × (scaled.channels ≡ pos 1)
    × (length scaled.samples ≡ 2)
    × (frame_count scaled ≡ frame_count tone)
    × (false ≡ true → scaled.samples ≡ tone.samples)
    × (false ≡ false → AllSamples loud scaled.samples)
apply_output_gain-AllSamples_example = apply_output_gain-AllSamples loud tone (with_gain (pos 300))

-- A wave of two samples.
abbrev wave : Wave
wave = record {
  sample_rate = pos 16000;
  num_channels = pos 1;
  num_samples = pos 2;
  samples = pos 7 ∷ pos 8 ∷ [];
}

abbrev pub first_of : {A : Type 0} → A → A → A
first_of x y = x

-- A library with two voices at 16 kHz, whose speech does not depend on the features.
abbrev pub flite : Flite Bool Hundredths ℕ
flite = record {
  register_kal16 = some true;
  register_rms = some false;
  sample_rate = λ voice. pos 16000;
  math = record { divide = first_of; multiply = first_of; power = first_of; to_float = λ x. 1 };
  text_to_wave = λ text voice stretch shift deviation. some wave;
}

-- One whose second voice is missing.
abbrev half_flite : Flite Bool Hundredths ℕ
half_flite = record flite { register_rms = none }

make_flite_engine-IsBuilt_example : IsBuilt half_flite (make_flite_engine half_flite)
make_flite_engine-IsBuilt_example = make_flite_engine-IsBuilt half_flite

abbrev pub engine : Engine Bool
engine = record { kal16_voice = true; rms_voice = false; sample_rate = pos 16000 }

-- A device that opens at 16 kHz and starts.
abbrev pub working : Device
working = record { init = λ rate. (0, 16000); start = 0; result_description = λ result. [] }

initialize-IsValid_example :
    let (error, o) = initialize working (pos 16000) initial_output in
    IsValid o
    × (o.queued_frames ≡ 0)
    × ((error ≡ none)
          × (o.initialized ≡ true)
          × (o.maximum_frames ≡ 320000)
          × ((working.init 16000).0 ≡ 0)
          × (working.start ≡ 0)
        ⊎ ((error ≢ none)
            × (o.initialized ≡ false)
            × (((working.init 16000).0 ≢ 0) ⊎ (working.start ≢ 0))))
initialize-IsValid_example = initialize-IsValid working 16000 (omega arith) (omega arith)
