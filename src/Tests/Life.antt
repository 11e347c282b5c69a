-- ===== src/Tests/Life.antt =====
-- The life of the stream command at a concrete input, with the threads at work.
use tiny_robotic_voice.Common.{ℕ, [], ◌∷◌, List, arith}
use tiny_robotic_voice.Double.{Hundredths, hundredths_double}
use tiny_robotic_voice.Output.{Output, output_sink}
use tiny_robotic_voice.Runtime.{Runtime}
use tiny_robotic_voice.Runtime.Threads.{maintenance_round, synthesis_step}
use tiny_robotic_voice.Stream.{Chunk, Round, received, end_of_input}
use tiny_robotic_voice.Tests.{beep, loud}

-- What the threads do before a round, and at each point of the shutdown.
abbrev threads : Runtime Hundredths Output → Runtime Hundredths Output
threads r = maintenance_round output_sink 5 (synthesis_step output_sink beep loud r)

abbrev winding_down : ℕ → Runtime Hundredths Output → Runtime Hundredths Output
winding_down n r = synthesis_step output_sink beep loud r

abbrev braces : Chunk
braces = record { bytes = b'{' ∷ b'}' ∷ 10 ∷ []; not_empty = omega arith; fits = omega arith }

-- A line that is no command comes in, and the input ends.
abbrev rounds : List ((Runtime Hundredths Output → Runtime Hundredths Output) × Round)
rounds = (threads, received braces) ∷ (threads, end_of_input) ∷ []
