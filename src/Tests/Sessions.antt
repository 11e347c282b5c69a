-- ===== src/Tests/Sessions.antt =====
-- The runtime at concrete inputs.
use tiny_robotic_voice.Common.{
  ℕ, replicate, ◌≤◌, ◌<◌, ◌≡◌, refl, true, false, some, Bytes, [], ◌∷◌, pos, length, arith, lit,
}
use tiny_robotic_voice.Double.{Hundredths, hundredths_double, Hundredths-HasLiterals}
use tiny_robotic_voice.Output.{
  callback, Output, output_sink, is_drained, interrupt, set_valid_generation, none_of_generation,
}
use tiny_robotic_voice.Voice.{no_patch, default_settings}
use tiny_robotic_voice.Voice.Range.{
  IsUsable, default_settings-IsUsable, apply_voice_settings_patch-accepts,
}
use tiny_robotic_voice.Protocol.{Command, CommandType, start, append, event}
use tiny_robotic_voice.Protocol.Commands.{AlwaysAccepted}
use tiny_robotic_voice.Runtime.{
  shutdown_runtime, commit_rounds, Runtime, popping, initial_runtime, emit, error_event, handle,
  handle_start, handle_append, handle_interrupt, commit_available_locked,
}
use tiny_robotic_voice.Runtime.Threads.{maintenance_round, complete, flush_finished, synthesis_step}
use tiny_robotic_voice.Runtime.Accounting.{IsAccounted, held}
use tiny_robotic_voice.Runtime.Commit.{Commits, ahead, spoken, commit_available_locked-Commits}
use tiny_robotic_voice.Runtime.System.{
  commanded, synthesised, Reach, here, next, Reach-IsAccounted, flush_finished_complete,
}
use tiny_robotic_voice.Runtime.Sessions.{
  NoneOf, handle_start-starts, handle_append-takes-all, handle_interrupt-cancels,
}
use tiny_robotic_voice.Runtime.Stopping.{IsClosed, Concludes-refl, shutdown_runtime-stops}
use tiny_robotic_voice.Runtime.Jobs.{SynthesisJob, push}
use tiny_robotic_voice.Runtime.Silence.{handle_interrupt-silences}
use tiny_robotic_voice.Tests.{open_output-IsValid, open_output, quiet_output, beep, loud}

abbrev pub name : Bytes
name = b'a' ∷ []

abbrev pub command : CommandType → Command Hundredths
command type = record {
  type = type;
  session = name;
  text = b'h' ∷ b'i' ∷ b'.' ∷ [];
  seq = some (pos 1);
  voice = no_patch Hundredths;
}

-- A session that receives text, and one that has received it all.
abbrev pub open_session : Runtime Hundredths Output
open_session = record {
  jobs = record { jobs = []; bytes = 0; stopped = false };
  stopping = false;
  current_generation = 2;
  outstanding_jobs = 0;
  owned_text_bytes = 0;
  workers_started = true;
  active = true;
  accepting = true;
  speaking_emitted = false;
  default_voice = default_settings;
  current_voice = default_settings;
  generation = 2;
  session = name;
  buffer = [];
  last_append = 0;
  audio = open_output;
  events = [];
  worker = popping;
}

abbrev finished_session : Runtime Hundredths Output
finished_session = record open_session { accepting = false; audio = quiet_output }

-- A session with a short text in its buffer.
abbrev buffered_session : Runtime Hundredths Output
buffered_session = record open_session { buffer = b'h' ∷ b'i' ∷ []; owned_text_bytes = 2 }

open_session-IsAccounted : IsAccounted open_session
open_session-IsAccounted = ground arith

finished_session-IsAccounted : IsAccounted finished_session
finished_session-IsAccounted = ground arith

buffered_session-IsAccounted : IsAccounted buffered_session
buffered_session-IsAccounted = ground arith

commit_available_locked-Commits_example :
    let r' = commit_available_locked true buffered_session in
    Commits buffered_session r' × (length r'.buffer < 180) × (true ≡ true → r'.buffer ≡ [])
commit_available_locked-Commits_example =
    commit_available_locked-Commits true buffered_session buffered_session-IsAccounted refl

-- Three steps: a session is started, text is appended, and the synthesis thread runs.
abbrev beginning : Runtime Hundredths Output
beginning = initial_runtime default_settings 0 quiet_output

abbrev pub started : Runtime Hundredths Output
started = (handle output_sink 5 (command start) beginning).0

abbrev pub received : Runtime Hundredths Output
received = (handle output_sink 6 (command append) started).0

path : Reach output_sink beep loud beginning (synthesis_step output_sink beep loud received)
path =
    next (next (next here (commanded 5 (command start))) (commanded 6 (command append))) synthesised

Reach-IsAccounted_example : IsAccounted (synthesis_step output_sink beep loud received)
Reach-IsAccounted_example =
    Reach-IsAccounted output_sink beep loud default_settings 0 quiet_output path

nothing_given-AlwaysAccepted : AlwaysAccepted (no_patch Hundredths)
nothing_given-AlwaysAccepted s u =
    (apply_voice_settings_patch-accepts Hundredths-HasLiterals s (no_patch Hundredths) u).1
      (record {
        preset_known = tt;
        model_known = refl;
        speed_in = tt;
        pitch_in = tt;
        expression_in = tt;
        gain_in = tt;
      })

abbrev idle : Runtime Hundredths Output
idle = record open_session { active = false }

handle_start-starts_example :
    let r' = handle_start output_sink 7 (command start) idle in
    IsUsable r'.current_voice
    × (r'.active ≡ true)
    × (r'.accepting ≡ true)
    × (r'.session ≡ name)
    × (r'.buffer ≡ [])
    × (r'.generation ≡ 3)
    × (r'.current_generation ≡ 3)
    × (r'.events
        ≡ record (event (lit "session_started") name) { voice = some r'.current_voice } ∷ [])
handle_start-starts_example =
    handle_start-starts output_sink Hundredths-HasLiterals 7 (command start) idle refl
      (default_settings-IsUsable Hundredths-HasLiterals) nothing_given-AlwaysAccepted

handle_append-takes-all_example :
    let r' = handle_append output_sink 7 (command append) buffered_session in
    (65536 < 5
      → r'
        ≡ emit
            (record (error_event
              (lit "backpressure")
              (lit "Pending speech capacity is exhausted.")
              true
              name) { seq = some (pos 1) })
            buffered_session)
    × (5 ≤ 65536
        → (ahead r' ≡ spoken (b'h' ∷ b'i' ∷ b'h' ∷ b'i' ∷ b'.' ∷ []))
          × (length r'.buffer < 180)
          × (r'.events
              ≡ record (event (lit "accepted") name) { seq = some (pos 1); bytes = some 3 } ∷ []))
handle_append-takes-all_example =
    handle_append-takes-all output_sink 7 (command append) buffered_session
      buffered_session-IsAccounted refl refl refl refl

handle_interrupt-cancels_example :
    let r' = handle_interrupt output_sink (command append) buffered_session in
    NoneOf 2 r'.jobs.jobs
    × (r'.buffer ≡ [])
    × (r'.active ≡ false)
    × (r'.current_generation ≡ 3)
    × (r'.audio ≡ interrupt (set_valid_generation 3 open_output))
    × (r'.events ≡ event (lit "interrupted") name ∷ [])
handle_interrupt-cancels_example =
    handle_interrupt-cancels output_sink (command append) buffered_session refl refl

finished_session-done : (flush_finished output_sink finished_session).active ≡ false
unfolding flush_finished complete commit_available_locked commit_rounds is_drained
    none_of_generation
finished_session-done = refl

flush_finished_complete_example :
    let r' = flush_finished output_sink finished_session in
    (r'.buffer ≡ [])
    × (r'.jobs.jobs ≡ [])
    × (held r'.worker ≡ 0)
    × (r'.owned_text_bytes ≡ 0)
    × (is_drained 2 quiet_output ≡ true)
    × (r'.events ≡ event (lit "finished") name ∷ [])
flush_finished_complete_example =
    flush_finished_complete output_sink beep loud finished_session finished_session-IsAccounted refl
      refl finished_session-done

handle_interrupt-silences_example :
    (callback true 4 (handle_interrupt output_sink (command append) buffered_session).audio).0
    ≡ replicate 4 (pos 0)
handle_interrupt-silences_example =
    handle_interrupt-silences true 4 (command append) buffered_session open_output-IsValid refl refl

abbrev job : SynthesisJob Hundredths
job = record { generation = 2; session = name; text = name; voice = default_settings }

-- The other threads may do nothing.
abbrev resting : ℕ → Runtime Hundredths Output → Runtime Hundredths Output
resting n r = r

shutdown_runtime-stops_example :
    let r' = shutdown_runtime output_sink resting true buffered_session in
    IsClosed (event (lit "shutting_down") [] ∷ []) r'
    × (push job r'.jobs ≡ (r'.jobs, false))
    × (maintenance_round output_sink 9 r' ≡ r')
    × (shutdown_runtime output_sink resting false r' ≡ r')
shutdown_runtime-stops_example =
    shutdown_runtime-stops output_sink resting (λ n. Concludes-refl) true false 9 job
      buffered_session refl
