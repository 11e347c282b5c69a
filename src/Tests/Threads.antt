-- ===== src/Tests/Threads.antt =====
-- Runs of the threads and of the device at concrete inputs.
use tiny_robotic_voice.Common.{◌≡◌, ◌++◌, refl, true, false, List, [], ◌∷◌, ℤ}
use tiny_robotic_voice.Double.{Hundredths, hundredths_double}
use tiny_robotic_voice.Audio.{frame_count}
use tiny_robotic_voice.Output.{Output, callback, enqueue_round, enqueued}
use tiny_robotic_voice.Output.Pending.{pending}
use tiny_robotic_voice.Output.Trace.{Sound, Streams, opened, took, called, Streams-in_order}
use tiny_robotic_voice.Voice.{default_settings}
use tiny_robotic_voice.Runtime.{Runtime}
use tiny_robotic_voice.Runtime.Jobs.{SynthesisJob}
use tiny_robotic_voice.Tests.{open_output, open_output-IsValid, quiet_output, tone}
use tiny_robotic_voice.Tests.Sessions.{open_session, name}

abbrev said : SynthesisJob Hundredths
said = record { generation = 2; session = name; text = b'h' ∷ b'i' ∷ []; voice = default_settings }

-- A session with a waiting job and a buffered byte.
abbrev waiting_session : Runtime Hundredths Output
waiting_session = record open_session {
  jobs = record { jobs = said ∷ []; bytes = 2; stopped = false };
  outstanding_jobs = 1;
  owned_text_bytes = 3;
  buffer = b'x' ∷ [];
  audio = quiet_output;
}

-- A tone is enqueued, and the device asks for four frames.
abbrev with_tone : Output
with_tone = enqueued 2 tone open_output

stream :
    Streams open_output tone.samples
      ((callback true 4 with_tone).0 ∷ [])
      (callback true 4 with_tone).1
unfolding enqueue_round frame_count
stream = called true 4 (took {p = open_output} tone refl refl opened)

Streams-in_order_example :
    let p = (callback true 4 with_tone).1 in
    (heard : List ℤ) × Sound ((callback true 4 with_tone).0 ∷ []) heard
    × (pending 2 open_output ++ tone.samples ≡ heard ++ pending p.valid_generation p)
Streams-in_order_example = Streams-in_order open_output-IsValid stream
