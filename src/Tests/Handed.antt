-- ===== src/Tests/Handed.antt =====
-- A session whose one phrase is synthesised, and one that is interrupted while its audio is on its way
-- into the output, at concrete inputs.
use tiny_robotic_voice.Common.{
  suc, ◌<◌, ◌≡◌, ◌^◌, refl, subst, true, false, some, Bytes, [], ◌∷◌, ◌++◌, pos, lit, arith, eqb,
  replicate,
}
use tiny_robotic_voice.Double.{Hundredths, hundredths_double}
use tiny_robotic_voice.Audio.{frame_count}
use tiny_robotic_voice.Audio.Gain.{apply_output_gain}
use tiny_robotic_voice.Chunker.{
  next_chunk_bytes, phrase_end, sentence_end, ascii_space, clause_mark, find_byte, hard_end,
  last_from, newline_end, preferred_end, sentence_from, sentence_mark, has_speakable_text,
}
use tiny_robotic_voice.Output.{
  Output, output_sink, callback, enqueued, none_of_generation, is_drained, set_valid_generation,
}
use tiny_robotic_voice.Output
use tiny_robotic_voice.Output.Invariant.{IsValid}
use tiny_robotic_voice.Output.Newest.{IsUpTo}
use tiny_robotic_voice.Output.Pending.{pending}
use tiny_robotic_voice.Voice.{
  apply_voice_settings_patch, apply_to_preset, settings_in_range, known_model, default_settings,
}
use tiny_robotic_voice.Protocol.{start, append, finish, interrupt, event}
use tiny_robotic_voice.Runtime.{
  Runtime, popping, pushing, queued_audio, initial_runtime, handle, handle_type, start_session,
  handle_start, handle_append, handle_finish, commit_available_locked, commit_rounds,
  commit_one_locked, commit_phrase, accept_text, handle_interrupt, interrupt_session,
}
use tiny_robotic_voice.Runtime.Threads.{
  complete, flush_finished, synthesis_step, step_worker, after_pop, after_synthesis, after_push,
  announce,
}
use tiny_robotic_voice.Runtime.Jobs.{SynthesisJob, push, pop, pop_jobs, cancel, cancel_loop}
use tiny_robotic_voice.Runtime.Commit.{ahead, spoken}
use tiny_robotic_voice.Runtime.System.{initial_runtime-IsAccounted}
use tiny_robotic_voice.Runtime.Delivery
use tiny_robotic_voice.Runtime.Delivery.{Delivers, Delivers-ahead, Delivers-finished}
use tiny_robotic_voice.Runtime.Tuning.{IsTuned}
use tiny_robotic_voice.Runtime.Device
use tiny_robotic_voice.Runtime.Device.{Runs, Runs-IsTuned, Runs-start-silent}
use tiny_robotic_voice.Tests.{quiet_output, beep, loud, tone}
use tiny_robotic_voice.Tests.Sessions.{name, command}

-- An output that was just opened.
abbrev fresh_output : Output
fresh_output = record quiet_output { valid_generation = 0 }

fresh_output-IsValid : IsValid fresh_output
fresh_output-IsValid = ground arith

fresh_output-IsUpTo : IsUpTo 0 fresh_output
fresh_output-IsUpTo = ground arith

abbrev fresh_runtime : Runtime Hundredths Output
fresh_runtime = initial_runtime default_settings 0 fresh_output

-- The text that the commands append.
abbrev text : Bytes
text = b'h' ∷ b'i' ∷ b'.' ∷ []

abbrev said : SynthesisJob Hundredths
said = record { generation = 1; session = name; text = text; voice = default_settings }

-- A session is started, one phrase is appended, and it is finished.
abbrev ready : Runtime Hundredths Output
ready = record {
  jobs = record { jobs = said ∷ []; bytes = 3; stopped = false };
  stopping = false;
  current_generation = 1;
  outstanding_jobs = 1;
  owned_text_bytes = 3;
  workers_started = false;
  active = true;
  accepting = false;
  speaking_emitted = false;
  default_voice = default_settings;
  current_voice = default_settings;
  generation = 1;
  session = name;
  buffer = [];
  last_append = 6;
  audio = record fresh_output { valid_generation = 1 };
  events =
      record (event (lit "session_started") name) { voice = some default_settings }
      ∷ record (event (lit "accepted") name) { seq = some (pos 1); bytes = some 3 }
      ∷ [];
  worker = popping;
}

abbrev appended : Runtime Hundredths Output
appended =
    (handle output_sink 6 (command append) (handle output_sink 5 (command start) fresh_runtime).0).0

finished-ready : (handle output_sink 7 (command finish) appended).0 ≡ ready
unfolding handle handle_type handle_finish handle_append handle_start initial_runtime
    apply_voice_settings_patch apply_to_preset settings_in_range known_model lit start_session eqb
    accept_text commit_available_locked commit_rounds commit_one_locked next_chunk_bytes phrase_end
    sentence_end ascii_space clause_mark find_byte hard_end has_speakable_text last_from newline_end
    preferred_end sentence_from sentence_mark push commit_phrase set_valid_generation
finished-ready = refl

-- After four steps of the synthesis thread, a lock is all that is left before the push.
abbrev before_push : Runtime Hundredths Output
before_push = record ready {
  jobs = record { jobs = []; bytes = 0; stopped = false };
  worker = pushing said tone;
}

four_steps :
    synthesis_step output_sink beep loud (
      synthesis_step output_sink beep loud
        (synthesis_step output_sink beep loud (synthesis_step output_sink beep loud ready)))
    ≡ before_push
unfolding synthesis_step step_worker after_pop after_synthesis pop pop_jobs apply_output_gain
four_steps = refl

handed : Delivers output_sink beep loud text [] ready
unfolding initial_runtime spoken handle handle_type handle_start apply_voice_settings_patch
    apply_to_preset settings_in_range known_model lit start_session eqb
handed = subst (Delivers output_sink beep loud text []) finished-ready (
    Delivery.commanded 7 (command finish) (λ h. cc)
      (Delivery.commanded 6 (command append) (λ h. cc)
        (Delivery.commanded 5 (command start) (λ h. cc)
          (Delivery.begun
            (initial_runtime-IsAccounted output_sink beep loud default_settings 0 fresh_output)
            refl))))

-- The text waits in the queue.
Delivers-ahead_example : spoken text ≡ spoken [] ++ ahead ready
Delivers-ahead_example = Delivers-ahead output_sink beep loud handed

-- What is left once the phrase is in the output and the thread has settled its counters.
abbrev settled : Runtime Hundredths Output
settled = record before_push {
  outstanding_jobs = 0;
  owned_text_bytes = 0;
  speaking_emitted = true;
  audio = enqueued 1 tone before_push.audio;
  events = before_push.events ++ event (lit "speaking") name ∷ [];
  worker = popping;
}

more_steps :
    synthesis_step output_sink beep loud (
      synthesis_step output_sink beep loud
        (synthesis_step output_sink beep loud (synthesis_step output_sink beep loud before_push)))
    ≡ settled
unfolding synthesis_step step_worker after_push announce frame_count lit
more_steps = refl

pushed : Delivers output_sink beep loud text text before_push
unfolding synthesis_step step_worker after_pop after_synthesis pop pop_jobs apply_output_gain
pushed = subst (Delivers output_sink beep loud text text) four_steps (
    Delivery.synthesised
      (Delivery.synthesised (Delivery.synthesised (Delivery.synthesised handed))))

played_out : Delivers output_sink beep loud text text (record settled { audio = quiet_output })
unfolding synthesis_step step_worker after_push announce frame_count
played_out = Delivery.played quiet_output (
    subst (Delivers output_sink beep loud text text) more_steps (
      Delivery.synthesised
        (Delivery.synthesised (Delivery.synthesised (Delivery.synthesised pushed)))))

Delivers-finished_example : spoken text ≡ spoken text
unfolding flush_finished complete commit_available_locked commit_rounds is_drained
    none_of_generation
Delivers-finished_example = Delivers-finished output_sink beep loud played_out refl refl refl

few : suc fresh_runtime.current_generation < 2 ^ 64
unfolding initial_runtime
few = omega arith

appended-generation : appended.current_generation ≡ 1
unfolding handle handle_type handle_finish handle_append handle_start initial_runtime
    apply_voice_settings_patch apply_to_preset settings_in_range known_model lit start_session eqb
    accept_text commit_available_locked commit_rounds commit_one_locked next_chunk_bytes phrase_end
    sentence_end ascii_space clause_mark find_byte hard_end has_speakable_text last_from newline_end
    preferred_end sentence_from sentence_mark push commit_phrase set_valid_generation
appended-generation = refl

-- The same session in front of the device, interrupted before the push.
ready-Runs : Runs beep loud fresh_output ready
unfolding initial_runtime handle handle_type handle_start start_session apply_voice_settings_patch
    apply_to_preset settings_in_range known_model lit eqb
ready-Runs = subst (Runs beep loud fresh_output) finished-ready (
    Device.commanded 7 (command finish) late (
      Device.commanded 6 (command append) early
        (Device.commanded 5 (command start) few (Device.begun default_settings 0))))
  where
    early : suc (handle output_sink 5 (command start) fresh_runtime).0.current_generation < 2 ^ 64
    early = omega arith

    late : suc appended.current_generation < 2 ^ 64
    late = omega (arith, appended-generation)

before_push-Runs : Runs beep loud fresh_output before_push
before_push-Runs =
    subst (Runs beep loud fresh_output) four_steps
      (Device.synthesised (Device.synthesised (Device.synthesised (Device.synthesised ready-Runs))))

-- The interrupt comes first, and the push behind it leaves stale audio in the output.
abbrev interrupted : Runtime Hundredths Output
interrupted = (handle output_sink 8 (command interrupt) before_push).0

stale-Runs : Runs beep loud fresh_output (synthesis_step output_sink beep loud interrupted)
stale-Runs =
    Device.synthesised (Device.commanded 8 (command interrupt) (omega arith) before_push-Runs)

abbrev stale : Runtime Hundredths Output
stale = record before_push {
  current_generation = 2;
  active = false;
  accepting = false;
  session = [];
  audio = enqueued 1 tone (record fresh_output { valid_generation = 2 });
  events = before_push.events ++ event (lit "interrupted") name ∷ [];
  worker = queued_audio said;
}

pushed-stale : synthesis_step output_sink beep loud interrupted ≡ stale
unfolding synthesis_step step_worker after_push handle handle_type handle_interrupt
    interrupt_session Output.interrupt set_valid_generation cancel cancel_loop frame_count eqb lit
pushed-stale = refl

Runs-IsTuned_example : IsTuned stale
Runs-IsTuned_example =
    Runs-IsTuned beep loud fresh_output-IsValid refl fresh_output-IsUpTo
      (subst (Runs beep loud fresh_output) pushed-stale stale-Runs)

Runs-start-silent_example :
    let r' = handle_start output_sink 9 (command start) stale in
    (pending r'.generation r'.audio ≡ []) × ((callback true 4 r'.audio).0 ≡ replicate 4 (pos 0))
unfolding handle_start start_session apply_voice_settings_patch apply_to_preset settings_in_range
    known_model lit eqb
Runs-start-silent_example =
    Runs-start-silent beep loud fresh_output-IsValid refl fresh_output-IsUpTo
      (subst (Runs beep loud fresh_output) pushed-stale stale-Runs) (omega arith) 9 (command start)
      true 4 refl refl
