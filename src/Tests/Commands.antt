-- ===== src/Tests/Commands.antt =====
-- The commands doctor and say at concrete inputs.
use tiny_robotic_voice.Common.{
  ℕ, ◌≡◌, refl, eqb, true, false, none, [], ◌∷◌, List, lit, arith, is_empty, ok,
}
use tiny_robotic_voice.Double.{Hundredths, hundredths_double}
use tiny_robotic_voice.Output.{Output}
use tiny_robotic_voice.Voice.{default_settings}
use tiny_robotic_voice.Runtime.{Runtime}
use tiny_robotic_voice.Engine.{voice_for, synthesize, make_flite_engine, check_rates, guarded}
use tiny_robotic_voice.Stream.{Round, end_of_input, stream}
use tiny_robotic_voice.Say.{say}
use tiny_robotic_voice.Say.Playing.{Succeeds, device_calls, say-Succeeds}
use tiny_robotic_voice.Say.Honesty.{IsHonest, say-IsHonest}
use tiny_robotic_voice.Doctor.{doctor}
use tiny_robotic_voice.Doctor.Exits.{Predicts, doctor-Predicts}
use tiny_robotic_voice.Tests.{tone, object, json_of, loud}
use tiny_robotic_voice.Tests.Sound.{flite, working, engine}

engine-built : (make_flite_engine flite).result ≡ ok engine
unfolding make_flite_engine check_rates guarded
engine-built = refl

hello-spoken : synthesize flite engine (lit "hello") default_settings ≡ ok tone
unfolding synthesize voice_for lit eqb
hello-spoken = refl

hello-IsWorded : is_empty (lit "hello") ≡ false
unfolding lit
hello-IsWorded = refl

-- The device asks for one frame, and for one more.
say-Succeeds_example :
    Succeeds
      (say flite working loud [] (device_calls (1 ∷ 1 ∷ [])) (lit "hello") default_settings true)
say-Succeeds_example =
    say-Succeeds flite working loud [] (1 ∷ 1 ∷ []) (lit "hello") default_settings 16000 engine tone
      (omega arith) (omega arith) hello-IsWorded engine-built refl refl refl hello-spoken refl refl
      (omega arith) (omega arith) (omega arith)

say-IsHonest_example :
    IsHonest (say flite working loud [] (device_calls (1 ∷ [])) (lit "hello") default_settings true)
say-IsHonest_example =
    say-IsHonest flite working loud [] (device_calls (1 ∷ [])) (lit "hello") default_settings true

abbrev resting : ℕ → Runtime Hundredths Output → Runtime Hundredths Output
resting n r = r

abbrev input : List ((Runtime Hundredths Output → Runtime Hundredths Output) × Round)
input = ((λ r. r), end_of_input) ∷ []

doctor-Predicts_example :
    Predicts
      (doctor (λ members. none) flite working true false).1
      (stream
        (json_of (object [] (λ key. none)))
        (λ r. 0)
        resting
        flite
        working
        true
        true
        input
        default_settings
        0)
      (say flite working loud [] [] (lit "hello") default_settings true)
doctor-Predicts_example =
    doctor-Predicts (json_of (object [] (λ key. none))) (λ members. none) (λ r. 0) resting flite
      working loud [] [] input 0 false (lit "hello") default_settings true hello-IsWorded
