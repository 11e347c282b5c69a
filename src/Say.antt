-- ===== src/Say.antt =====
-- `say` of src/main.cpp: one text from the command line to the end of its playback.
pub mod Playing
pub mod Honesty
use tiny_robotic_voice.Common.{
  Bool, true, false, Option, none, some, Bytes, List, [], ◌∷◌, ◌++◌, lit, is_empty, Result, ok, err,
  if◌then◌else◌, ℕ,
}
use tiny_robotic_voice.Audio.{PcmAudio}
use tiny_robotic_voice.Audio.Gain.{GainMath, apply_output_gain}
use tiny_robotic_voice.Double.{Double}
use tiny_robotic_voice.Voice.{VoiceSettings}
use tiny_robotic_voice.Output.{
  Output, Device, initialize, initial_output, set_valid_generation, enqueue, is_drained, stop,
}
use tiny_robotic_voice.Engine.{Flite, Engine, make_flite_engine, synthesize}
use tiny_robotic_voice.Stream.{exit_usage, exit_unsupported, exit_audio_unavailable, exit_internal}

-- What `say` comes to: what it wrote to the standard error, its exit code, and the output if there was
-- one; or it still sleeps.
pub data Said : Type 0 where
  exited : Bytes → ℕ → Option Output → Said
  saying : Output → Said

-- A message on the standard error.
abbrev pub complaint : Bytes → Bytes
complaint what = lit "trv: " ++ what ++ lit "\n"

-- The loop on `is_drained`. The list says what the device does to the output in each sleep; the
-- Boolean, whether the loop ended within it.
unfoldable pub drain : List (Output → Output) → Output → Bool × Output
drain [] o = (is_drained 1 o, o)
drain (device ∷ rest) o =
    let later = drain rest (device o) in if is_drained 1 o then (true, o) else later

-- Behind the loop: `stop`, and the exit code.
unfoldable pub after_drain : Bool × Output → Said
after_drain (true, o) = exited [] 0 (some (stop o))
after_drain (false, o) = saying o

-- Behind `enqueue`, and behind the test for samples. Each way out stops the output, at the latest in
-- its destructor.
unfoldable pub play_out : List (Output → Output) → Option Bool × Output → Said
play_out naps (none, o) = saying o
play_out naps (some true, o) = after_drain (drain naps o)
play_out naps (some false, o) =
    exited (complaint (lit "speech could not be queued for playback.")) exit_internal
      (some (stop o))

unfoldable pub play : List (Output → Output) → List (Output → Output) → PcmAudio → Output → Said
play sleeps naps pcm o =
    let result = play_out naps (enqueue 1 pcm sleeps o) in
    if is_empty pcm.samples
    then exited (complaint (lit "speech could not be queued for playback.")) exit_internal
        (some (stop o))
    else result

module _ {D W F : Type 0} ⦃d : Double D⦄ (f : Flite W D F) (device : Device) (m : GainMath D)
    (sleeps naps : List (Output → Output)) (text : Bytes) (settings : VoiceSettings D) where
  unfoldable pub say_speech : Result Bytes PcmAudio → Output → Said
  say_speech (err what) o = exited (complaint what) exit_internal (some (stop o))
  say_speech (ok pcm) o = play sleeps naps (apply_output_gain m pcm settings) o

  unfoldable pub say_with_audio : Engine W → Option Bytes × Output → Said
  say_with_audio engine (some message, o) =
      exited (complaint message) exit_audio_unavailable (some (stop o))
  say_with_audio engine (none, o) =
      say_speech (synthesize f engine text settings) (set_valid_generation 1 o)

  unfoldable pub say_with_engine : Result Bytes (Engine W) → Said
  say_with_engine (err what) = exited (complaint what) exit_internal none
  say_with_engine (ok engine) =
      say_with_audio engine (initialize device engine.sample_rate initial_output)

  -- `say`; `sleeps` are those in `enqueue`, `naps` those in its own loop.
  unfoldable pub say : Bool → Said
  say supported =
      let result = say_with_engine (make_flite_engine f).result in
      if supported
      then if is_empty text
        then exited (complaint (lit "text must not be empty.")) exit_usage none
        else result
      else exited (complaint (lit "macOS Apple Silicon is required.")) exit_unsupported none
