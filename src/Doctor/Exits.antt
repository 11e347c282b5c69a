-- ===== src/Doctor/Exits.antt =====
-- What the exit code of `doctor` of src/main.cpp says of the other commands.
use tiny_robotic_voice.Common.{
  ℕ, ◌≡◌, ◌≢◌, refl, ◌⊎◌, inl, inr, Bool, true, false, Option, none, some, Bytes, List, is_empty,
  Result, ok, err,
}
use tiny_robotic_voice.Double.{Double}
use tiny_robotic_voice.Json.{Json}
use tiny_robotic_voice.Audio.Gain.{GainMath}
use tiny_robotic_voice.Voice.{VoiceSettings}
use tiny_robotic_voice.Protocol.{Member}
use tiny_robotic_voice.Output.{Output, Device, initialize, initial_output}
use tiny_robotic_voice.Engine.{Flite, Engine, make_flite_engine}
use tiny_robotic_voice.Runtime.{Runtime}
use tiny_robotic_voice.Stream.{
  Reader, Ending, left, broke, waiting, Round, Streamed, refused_to_stream, served, serving,
  close_stream, serve, with_audio, with_engine, stream,
}
use tiny_robotic_voice.Say.{Said, say_with_audio, say_with_engine, say}
use tiny_robotic_voice.Doctor.{
  doctor_with_audio, doctor_with_engine, doctor, said_code, streamed_code,
}

-- `stream` went on to serve, whatever came of it.
abbrev pub HasServed : {D : Type 0} → Streamed D → Type 0
HasServed (refused_to_stream e code) = ⊥
HasServed (served r code) = Unit {0}
HasServed (serving r) = Unit {0}

-- The exit code of `doctor` against what `stream` and `say` come to.
abbrev pub Predicts : {D : Type 0} → ℕ → Streamed D → Said → Type 0
Predicts code streamed said =
    ((code ≡ 0) × HasServed streamed)
    ⊎ ((code ≢ 0) × (streamed_code streamed ≡ some code) × (said_code said ≡ some code))

module _ {V D W F : Type 0} ⦃d : Double D⦄ (j : Json V D) (encode : List (Member D) → Option Bytes)
    (clock : Runtime D Output → ℕ) (others : ℕ → Runtime D Output → Runtime D Output)
    (f : Flite W D F) (device : Device) (m : GainMath D) (sleeps naps : List (Output → Output))
    (rounds : List ((Runtime D Output → Runtime D Output) × Round)) (now : ℕ) (structured : Bool)
    (text : Bytes) (settings : VoiceSettings D) where
  close_stream-HasServed :
      (r : Reader (Runtime D Output) × Ending) → HasServed (close_stream others r)
  unfolding close_stream
  close_stream-HasServed (s, left) = tt
  close_stream-HasServed (s, broke) = tt
  close_stream-HasServed (s, waiting) = tt

  audio-Predicts :
      (engine : Engine W) (opened : Option Bytes × Output)
      → Predicts
          (doctor_with_audio encode structured opened).1
          (with_audio j clock others true rounds settings now opened)
          (say_with_audio f device m sleeps naps text settings engine opened)
  unfolding with_audio serve say_with_audio
  audio-Predicts engine (some error, o) = inr ((λ h. cc), refl, refl)
  audio-Predicts engine (none, o) = inl (refl, close_stream-HasServed _)

  engine-Predicts :
      (result : Result Bytes (Engine W))
      → Predicts
          (doctor_with_engine encode f device structured result).1
          (with_engine j clock others f device true rounds settings now result)
          (say_with_engine f device m sleeps naps text settings result)
  unfolding with_engine say_with_engine
  engine-Predicts (err what) = inr ((λ h. cc), refl, refl)
  engine-Predicts (ok engine) =
      audio-Predicts engine (initialize device engine.sample_rate initial_output)

  -- `doctor` tells beforehand what the commands meet: where it exits with 0, `stream` goes on to serve
  -- if it gets its pipe; and where it exits with another code, `stream`, and `say` of a text that is
  -- not empty, exit with that code.
  pub doctor-Predicts :
      (supported : Bool)
      → is_empty text ≡ false
      → Predicts
          (doctor encode f device supported structured).1
          (stream j clock others f device supported true rounds settings now)
          (say f device m sleeps naps text settings supported)
  unfolding doctor stream say
  doctor-Predicts true worded = rw worded (engine-Predicts (make_flite_engine f).result)
  doctor-Predicts false worded = inr ((λ h. cc), refl, refl)
