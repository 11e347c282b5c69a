-- ===== src/Say/Honesty.antt =====
-- What the exit code of `say` of src/main.cpp tells.
use tiny_robotic_voice.Common.{
  ℕ, ◌≡◌, ◌≢◌, refl, ◌⊎◌, inl, inr, ◌∙◌, Bool, true, false, Option, none, some, Bytes, List, [],
  ◌∷◌, is_empty, Result, ok, err, if-elim, arith,
}
use tiny_robotic_voice.Audio.{PcmAudio}
use tiny_robotic_voice.Audio.Gain.{GainMath, apply_output_gain}
use tiny_robotic_voice.Double.{Double}
use tiny_robotic_voice.Voice.{VoiceSettings}
use tiny_robotic_voice.Output.{
  Output, Device, initialize, initial_output, set_valid_generation, enqueue, is_drained, stop,
}
use tiny_robotic_voice.Output.Pending.{pending}
use tiny_robotic_voice.Output.Blocking.{is_drained-pending}
use tiny_robotic_voice.Engine.{Flite, Engine, make_flite_engine, synthesize}
use tiny_robotic_voice.Say.{
  Said, exited, saying, complaint, drain, after_drain, play_out, play, say_speech, say_with_audio,
  say_with_engine, say,
}

-- The output that was there is stopped.
abbrev pub IsOff : Option Output → Type 0
IsOff none = Unit {0}
IsOff (some o) = o.initialized ≡ false

-- The output is there and has nothing left of the generation of the text.
abbrev pub IsPlayed : Option Output → Type 0
IsPlayed none = ⊥
IsPlayed (some o) = pending 1 o ≡ []

-- Code 0 with no message, once all was played; or another code with a message.
abbrev pub IsHonest : Said → Type 0
IsHonest (exited message code audio) =
    IsOff audio
    × (((code ≡ 0) × (message ≡ []) × IsPlayed audio)
        ⊎ ((code ≢ 0) × ((what : Bytes) × (message ≡ complaint what))))
IsHonest (saying o) = Unit {0}

off : (o : Output) → (stop o).initialized ≡ false
unfolding stop
off o = ground arith

stop-pending : (o : Output) → pending 1 (stop o) ≡ pending 1 o
unfolding stop
stop-pending o = ground arith

drain-drained :
    (naps : List (Output → Output)) (o : Output)
    → (drain naps o).0 ≡ true
    → is_drained 1 (drain naps o).1 ≡ true
unfolding drain
drain-drained [] o h = h
drain-drained (device ∷ rest) o h = ground (arith, drain-drained rest (device o))

after_drain-IsHonest :
    (r : Bool × Output) → (r.0 ≡ true → is_drained 1 r.1 ≡ true) → IsHonest (after_drain r)
unfolding after_drain
after_drain-IsHonest (true, o) h =
    (off o, inl (refl, refl, stop-pending o ∙ (is_drained-pending 1 o).0 (h refl)))
after_drain-IsHonest (false, o) h = tt

refused-IsHonest :
    (what : Bytes) (code : ℕ) (o : Output)
    → code ≢ 0
    → IsHonest (exited (complaint what) code (some (stop o)))
refused-IsHonest what code o h = (off o, inr (h, (what, refl)))

play_out-IsHonest :
    (naps : List (Output → Output)) (r : Option Bool × Output) → IsHonest (play_out naps r)
unfolding play_out
play_out-IsHonest naps (none, o) = tt
play_out-IsHonest naps (some true, o) = after_drain-IsHonest (drain naps o) (drain-drained naps o)
play_out-IsHonest naps (some false, o) = refused-IsHonest _ 5 o (λ h. cc)

play-IsHonest :
    (sleeps naps : List (Output → Output)) (pcm : PcmAudio) (o : Output)
    → IsHonest (play sleeps naps pcm o)
unfolding play
play-IsHonest sleeps naps pcm o =
    if-elim IsHonest (is_empty pcm.samples) _ _ (λ _. refused-IsHonest _ 5 o (λ h. cc))
      (λ _. play_out-IsHonest naps (enqueue 1 pcm sleeps o))

module _ {D W F : Type 0} ⦃d : Double D⦄ (f : Flite W D F) (device : Device) (m : GainMath D)
    (sleeps naps : List (Output → Output)) (text : Bytes) (settings : VoiceSettings D) where
  say_speech-IsHonest :
      (speech : Result Bytes PcmAudio) (o : Output)
      → IsHonest (say_speech f device m sleeps naps text settings speech o)
  unfolding say_speech
  say_speech-IsHonest (err what) o = refused-IsHonest what 5 o (λ h. cc)
  say_speech-IsHonest (ok pcm) o = play-IsHonest sleeps naps (apply_output_gain m pcm settings) o

  say_with_audio-IsHonest :
      (engine : Engine W) (opened : Option Bytes × Output)
      → IsHonest (say_with_audio f device m sleeps naps text settings engine opened)
  unfolding say_with_audio
  say_with_audio-IsHonest engine (some message, o) = refused-IsHonest message 4 o (λ h. cc)
  say_with_audio-IsHonest engine (none, o) =
      say_speech-IsHonest (synthesize f engine text settings) (set_valid_generation 1 o)

  say_with_engine-IsHonest :
      (result : Result Bytes (Engine W))
      → IsHonest (say_with_engine f device m sleeps naps text settings result)
  unfolding say_with_engine
  say_with_engine-IsHonest (err what) = (tt, inr ((λ h. cc), (what, refl)))
  say_with_engine-IsHonest (ok engine) =
      say_with_audio-IsHonest engine (initialize device engine.sample_rate initial_output)

  -- Whatever happens, when `say` exits, its output, if there was one, is stopped; and it exits with 0
  -- and no message only once nothing of the text is left to play, and else with another code and a
  -- message.
  pub say-IsHonest :
      (supported : Bool) → IsHonest (say f device m sleeps naps text settings supported)
  unfolding say
  say-IsHonest supported =
      if-elim IsHonest supported _ _
        (λ _.
          if-elim IsHonest (is_empty text) _ _ (λ _. (tt, inr ((λ h. cc), (_, refl))))
            (λ _. say_with_engine-IsHonest (make_flite_engine f).result))
        (λ _. (tt, inr ((λ h. cc), (_, refl))))
