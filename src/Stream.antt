-- ===== src/Stream.antt =====
-- `stream` of src/main.cpp: reading lines from standard input, and the life of the process.
pub mod Lines
pub mod Reads
pub mod Keeping
pub mod Causes
pub mod Handled
pub mod Life
use tiny_robotic_voice.Common.{
  ℕ, ◌*◌, ◌<◌, ◌≤◌, Bool, true, false, not, ◌&&◌, ◌||◌, Option, none, some, Bytes, List, [], ◌∷◌,
  ◌++◌, lit, length, is_empty, ltb, ◌==◌, Result, ok, err, if◌then◌else◌,
}
use tiny_robotic_voice.Double.{Double}
use tiny_robotic_voice.Json.{Json}
use tiny_robotic_voice.Audio.{AudioSink}
use tiny_robotic_voice.Output.{Output, output_sink, Device, initialize, initial_output, stop}
use tiny_robotic_voice.Engine.{Flite, Engine, make_flite_engine}
use tiny_robotic_voice.Voice.{VoiceSettings}
use tiny_robotic_voice.Protocol.{
  Command, Parsed, Failure, Event, event, parse_command, maximum_protocol_line_bytes,
}
use tiny_robotic_voice.Runtime.{
  Runtime, emit, error_event, handle, shutdown_runtime, initial_runtime,
}
use tiny_robotic_voice.Runtime.Threads.{start_workers}

-- The variables of the reading loop over a state `R`, which is what a line acts on.
pub record Reader (R : Type 0) : Type 0 where
  pub continue_reading : Bool
  pub discarding_oversized_line : Bool
  pub pending : Bytes
  pub target : R

-- The bytes of one `read` into `input`.
pub record Chunk : Type 0 where
  pub bytes : Bytes
  pub not_empty : 0 < length bytes
  pub fits : length bytes ≤ 4096

-- What a round of the loop meets: bytes that were read, the end of the input, nothing to do
-- (EINTR, or a descriptor that is not ready), a signal, or an error of `poll` or `read`.
pub data Round : Type 0 where
  received : Chunk → Round
  end_of_input nothing signalled broken : Round

-- How the loop ends: by its condition or a `break`, by the exception, or not within the rounds.
pub data Ending : Type 0 where
  left broke waiting : Ending

-- `handle_line` gives the new state and whether to go on; `reject` emits the `line_too_large` error.
module _ {R : Type 0} (handle_line : Bytes → R → R × Bool) (reject : R → R) where
  unfoldable pub end_line : Reader R → Reader R
  end_line s =
      let (target, go_on) = handle_line s.pending s.target in
      if s.discarding_oversized_line
      then record s { discarding_oversized_line = false; target = reject s.target; pending = [] }
      else record s { continue_reading = go_on; target = target; pending = [] }

  unfoldable pub add_byte : ℕ → Reader R → Reader R
  add_byte c s =
      if s.discarding_oversized_line
      then s
      else if ltb maximum_protocol_line_bytes (length (s.pending ++ c ∷ []))
      then record s { pending = []; discarding_oversized_line = true }
      else record s { pending = s.pending ++ c ∷ [] }

  unfoldable pub read_byte : ℕ → Reader R → Reader R
  read_byte c s = if c == 10 then end_line s else add_byte c s

  -- The `for` loop over the bytes of one `read`.
  unfoldable pub feed : Bytes → Reader R → Reader R
  feed [] s = s
  feed (c ∷ rest) s = if s.continue_reading then feed rest (read_byte c s) else s

  -- The end of the input.
  unfoldable pub finish_input : Reader R → Reader R
  finish_input s =
      let (target, go_on) = handle_line s.pending s.target in
      if not (is_empty s.pending) && not s.discarding_oversized_line
      then record s { continue_reading = go_on; target = target }
      else s

  -- The `while` loop. Before each round comes what the other threads have done to the state since the
  -- one before.
  unfoldable pub read_loop : List ((R → R) × Round) → Reader R → Reader R × Ending
  read_loop [] s = (s, if s.continue_reading then waiting else left)
  read_loop ((others, received chunk) ∷ rest) s =
      let met = record s { target = others s.target } in
      let on = read_loop rest (feed chunk.bytes met) in if s.continue_reading then on else (s, left)
  read_loop ((others, end_of_input) ∷ rest) s =
      (if s.continue_reading then finish_input (record s { target = others s.target }) else s, left)
  read_loop ((others, nothing) ∷ rest) s =
      let on = read_loop rest (record s { target = others s.target }) in
      if s.continue_reading then on else (s, left)
  read_loop ((others, signalled) ∷ rest) s =
      (if s.continue_reading then record s { target = others s.target } else s, left)
  read_loop ((others, broken) ∷ rest) s =
      if s.continue_reading then (record s { target = others s.target }, broke) else (s, left)

module _ {V D S : Type 0} ⦃d : Double D⦄ (j : Json V D) (sink : AudioSink S)
    (clock : Runtime D S → ℕ) where
  unfoldable pub dispatch_line : Parsed (Command D) → Runtime D S → Runtime D S × Bool
  dispatch_line (ok command) r = handle sink (clock r) command r
  dispatch_line (err e) r = (emit (error_event e.code e.message true []) r, true)

  -- `handle_line`.
  unfoldable pub handle_line : Bytes → Runtime D S → Runtime D S × Bool
  handle_line line r = dispatch_line (parse_command j line) r

  unfoldable pub reject_line : Runtime D S → Runtime D S
  reject_line r =
      emit
        (error_event (lit "line_too_large") (lit "Protocol line exceeds the 1 MiB limit.") true [])
        r

-- The exit codes.
abbrev pub exit_usage : ℕ
exit_usage = 2

abbrev pub exit_unsupported : ℕ
exit_unsupported = 3

abbrev pub exit_audio_unavailable : ℕ
exit_audio_unavailable = 4

abbrev pub exit_internal : ℕ
exit_internal = 5

abbrev pub exit_configuration : ℕ
exit_configuration = 6

-- What `stream` comes to: one event line and an exit code with no runtime, a runtime that was shut
-- down with an exit code, or one that still runs.
pub data Streamed (D : Type 0) : Type 0 where
  refused_to_stream : Event D → ℕ → Streamed D
  served : Runtime D Output → ℕ → Streamed D
  serving : Runtime D Output → Streamed D

module _ {D : Type 0} where
  abbrev pub stopped_audio : Runtime D Output → Runtime D Output
  stopped_audio r = record r { audio = stop r.audio }

  abbrev pub internal_error : Bytes → Event D
  internal_error what = error_event (lit "internal_error") what false []

  abbrev pub ready_event : VoiceSettings D → Event D
  ready_event settings = record (event (lit "ready") []) { voice = some settings }

  -- The runtime and the variables of the loop, once the `ready` event is out.
  abbrev pub first_reader : VoiceSettings D → ℕ → Output → Reader (Runtime D Output)
  first_reader settings now audio = record {
    continue_reading = true;
    discarding_oversized_line = false;
    pending = [];
    target = emit (ready_event settings) (start_workers (initial_runtime settings now audio));
  }

module _ {D : Type 0} ⦃d : Double D⦄ (others : ℕ → Runtime D Output → Runtime D Output) where
  -- What follows the loop: `shutdown`, `stop`, and the exit code; or the destructors and the `catch`.
  -- `others` is what the other threads do during the shutdown.
  unfoldable pub close_stream : Reader (Runtime D Output) × Ending → Streamed D
  close_stream (s, left) =
      served (stopped_audio (shutdown_runtime output_sink others true s.target)) 0
  close_stream (s, broke) =
      served
        (emit (internal_error (lit "Unable to read the protocol stream."))
          (stopped_audio (shutdown_runtime output_sink others false s.target)))
        exit_internal
  close_stream (s, waiting) = serving s.target

module _ {V D : Type 0} ⦃d : Double D⦄ (j : Json V D) (clock : Runtime D Output → ℕ)
    (others : ℕ → Runtime D Output → Runtime D Output) where
  unfoldable pub serve :
      List ((Runtime D Output → Runtime D Output) × Round)
      → VoiceSettings D
      → ℕ
      → Output
      → Streamed D
  serve rounds settings now audio = close_stream others (
      read_loop (handle_line j output_sink clock) (reject_line j output_sink clock) rounds
        (first_reader settings now audio))

  unfoldable pub with_audio :
      Bool
      → List ((Runtime D Output → Runtime D Output) × Round)
      → VoiceSettings D
      → ℕ
      → Option Bytes × Output
      → Streamed D
  with_audio piped rounds settings now (some message, audio) =
      refused_to_stream (error_event (lit "audio_unavailable") message false [])
        exit_audio_unavailable
  with_audio piped rounds settings now (none, audio) =
      if piped
      then serve rounds settings now audio
      else refused_to_stream (internal_error (lit "Unable to create the signal notification pipe."))
          exit_internal

module _ {V D W F : Type 0} ⦃d : Double D⦄ (j : Json V D) (clock : Runtime D Output → ℕ)
    (others : ℕ → Runtime D Output → Runtime D Output) (f : Flite W D F) (device : Device) where
  unfoldable pub with_engine :
      Bool
      → List ((Runtime D Output → Runtime D Output) × Round)
      → VoiceSettings D
      → ℕ
      → Result Bytes (Engine W)
      → Streamed D
  with_engine piped rounds settings now (err what) =
      refused_to_stream (internal_error what) exit_internal
  with_engine piped rounds settings now (ok engine) =
      with_audio j clock others piped rounds settings now
        (initialize device engine.sample_rate initial_output)

  -- `stream`; `supported` is `supported_platform()`, and `piped` whether `pipe` made a pipe.
  unfoldable pub stream :
      Bool
      → Bool
      → List ((Runtime D Output → Runtime D Output) × Round)
      → VoiceSettings D
      → ℕ
      → Streamed D
  stream supported piped rounds settings now =
      let result = with_engine piped rounds settings now (make_flite_engine f).result in
      if supported
      then result
      else refused_to_stream
          (error_event (lit "unsupported_environment") (lit "macOS Apple Silicon is required.")
            false [])
          exit_unsupported
