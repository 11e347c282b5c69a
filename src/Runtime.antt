-- ===== src/Runtime.antt =====
-- include/trv/streaming_runtime.h and src/streaming_runtime.cpp: the state of the runtime, its
-- commands, the committing of phrases and the shutdown. A method is one step on the state.
pub mod Jobs
pub mod Threads
pub mod Accounting
pub mod Commit
pub mod Steps
pub mod System
pub mod Sessions
pub mod Silence
pub mod Stopping
pub mod Delivery
pub mod Room
pub mod Progress
pub mod Ending
pub mod Tuning
pub mod TunedSteps
pub mod Device
pub mod Serving
pub mod Concluding
use tiny_robotic_voice.Common.{
  ℕ, zero, suc, ◌+◌, ◌-◌, ◌*◌, ◌%◌, ◌^◌, min, Bool, true, false, not, ◌&&◌, ◌||◌, Option, none,
  some, Bytes, List, [], ◌∷◌, ◌++◌, lit, eqb, length, is_empty, take, drop, ltb, leb, ◌==◌, Result,
  ok, err, if◌then◌else◌, add_size, sub_size,
}
use tiny_robotic_voice.Double.{Double}
use tiny_robotic_voice.Audio.{PcmAudio, AudioSink, Attempt, refused, queued, sleeping}
use tiny_robotic_voice.Audio.Gain.{GainMath, apply_output_gain}
use tiny_robotic_voice.Chunker.{next_chunk_bytes, has_speakable_text}
use tiny_robotic_voice.Voice.{VoiceSettings, apply_voice_settings_patch}
use tiny_robotic_voice.Protocol.{
  Command, CommandType, start, append, finish, interrupt, shutdown, Event, event,
}
use Jobs.{
  SynthesisJob, JobQueue, Popped, waits, ends, takes, maximum_pending_text_bytes, push, pop, cancel,
  stop,
}

-- Where the synthesis thread stands in `synthesis_loop`.
pub data Worker (D : Type 0) : Type 0 where
  -- At `jobs.pop`.
  popping : Worker D
  -- With a job, before `valid_before`.
  taken : SynthesisJob D → Worker D
  -- In `speech.synthesize`.
  synthesizing : SynthesisJob D → Worker D
  -- In `audio.enqueue`: before its tests, and before its lock.
  enqueueing : SynthesisJob D → PcmAudio → Worker D
  pushing : SynthesisJob D → PcmAudio → Worker D
  -- Before the lock for the `speaking` event.
  queued_audio : SynthesisJob D → Worker D
  -- In the `catch` block.
  failed : SynthesisJob D → Bytes → Worker D
  -- Before `owned_text_bytes.fetch_sub`, and before `outstanding_jobs.fetch_sub`.
  releasing : SynthesisJob D → Worker D
  settling : Worker D
  ended : Worker D

-- `Impl`, with the state `S` of the sink, what the event sink got so far, and the synthesis thread.
pub record Runtime (D S : Type 0) : Type 0 where
  pub jobs : JobQueue D
  pub stopping : Bool
  pub current_generation : ℕ
  pub outstanding_jobs : ℕ
  pub owned_text_bytes : ℕ
  pub workers_started : Bool
  pub active : Bool
  pub accepting : Bool
  pub speaking_emitted : Bool
  pub default_voice : VoiceSettings D
  pub current_voice : VoiceSettings D
  pub generation : ℕ
  pub session : Bytes
  pub buffer : Bytes
  pub last_append : ℕ
  pub audio : S
  pub events : List (Event D)
  pub worker : Worker D

module _ {D : Type 0} where
  -- `error`.
  abbrev pub error_event : Bytes → Bytes → Bool → Bytes → Event D
  error_event code message recoverable session = record (event (lit "error") session) {
    code = code;
    message = message;
    recoverable = recoverable;
  }

module _ {D S : Type 0} where
  -- The constructor.
  unfoldable pub initial_runtime : VoiceSettings D → ℕ → S → Runtime D S
  initial_runtime voice now audio = record {
    jobs = record { jobs = []; bytes = 0; stopped = false };
    stopping = false;
    current_generation = 0;
    outstanding_jobs = 0;
    owned_text_bytes = 0;
    workers_started = false;
    active = false;
    accepting = false;
    speaking_emitted = false;
    default_voice = voice;
    current_voice = voice;
    generation = 0;
    session = [];
    buffer = [];
    last_append = now;
    audio = audio;
    events = [];
    worker = popping;
  }

  abbrev pub emit : Event D → Runtime D S → Runtime D S
  emit e r = record r { events = r.events ++ e ∷ [] }

  -- The part of `commit_one_locked` behind a phrase of so many bytes.
  unfoldable pub commit_phrase : ℕ → Runtime D S → Runtime D S × Bool
  commit_phrase bytes r =
      let phrase = take bytes r.buffer in
      let job : SynthesisJob D = record {
        generation = r.generation;
        session = r.session;
        text = phrase;
        voice = r.current_voice;
      } in
      let (jobs, pushed) = push job r.jobs in
      if not (has_speakable_text phrase)
      then (
        record r {
          buffer = drop bytes r.buffer;
          owned_text_bytes = sub_size r.owned_text_bytes bytes;
        },
        true,
      )
      else if not pushed
      then (r, false)
      else (
        record r {
          jobs = jobs;
          outstanding_jobs = add_size r.outstanding_jobs 1;
          buffer = drop bytes r.buffer;
        },
        true,
      )

  unfoldable pub commit_one_locked : Bool → Runtime D S → Runtime D S × Bool
  commit_one_locked force r =
      let bytes = next_chunk_bytes r.buffer force in
      if bytes == 0 then (r, false) else commit_phrase bytes r

  -- The loop of `commit_available_locked`, on fuel: each round but the last shortens the buffer.
  unfoldable pub commit_rounds : ℕ → Bool → Runtime D S → Runtime D S
  commit_rounds zero force r = r
  commit_rounds (suc fuel) force r =
      let (r', committed) = commit_one_locked force r in
      let rest = commit_rounds fuel force r' in
      if is_empty r.buffer
      then r
      else if not committed
      then r'
      else if not force && length r'.buffer == length r.buffer
      then r'
      else rest

  unfoldable pub commit_available_locked : Bool → Runtime D S → Runtime D S
  commit_available_locked force r = commit_rounds (suc (length r.buffer)) force r

module _ {D S : Type 0} ⦃d : Double D⦄ (sink : AudioSink S) where
  -- The branches of `handle`; `now` is `Clock::now()`. The Boolean is the result.
  unfoldable pub start_session : ℕ → Command D → Runtime D S → Runtime D S
  start_session now command r =
      let generation = add_size r.current_generation 1 in
      emit (record (event (lit "session_started") command.session) { voice = some r.current_voice })
        (record r {
          current_generation = generation;
          generation = generation;
          audio = sink.set_valid_generation generation r.audio;
          active = true;
          accepting = true;
          speaking_emitted = false;
          session = command.session;
          buffer = [];
          last_append = now;
        })

  unfoldable pub handle_start : ℕ → Command D → Runtime D S → Runtime D S
  handle_start now command r =
      if r.active
      then emit
          (error_event (lit "invalid_state") (lit "A speaking session is already active.") true
            command.session)
          r
      else (let (voice, failure) = apply_voice_settings_patch r.default_voice command.voice in
          let r' = record r { current_voice = voice } in
          elim failure [
            | some message ↦
                emit (error_event (lit "invalid_voice_settings") message true command.session) r'
            | none ↦ start_session now command r'
          ])

  abbrev pub receives : Command D → Runtime D S → Bool
  receives command r = r.active && r.accepting && eqb command.session r.session

  unfoldable pub accept_text : ℕ → Command D → Runtime D S → Runtime D S
  accept_text now command r =
      let committed = commit_available_locked false (record r {
        owned_text_bytes = add_size r.owned_text_bytes (length command.text);
        buffer = r.buffer ++ command.text;
        last_append = now;
      }) in
      emit
        (record (event (lit "accepted") committed.session) {
          seq = command.seq;
          bytes = some (length command.text);
        })
        committed

  unfoldable pub handle_append : ℕ → Command D → Runtime D S → Runtime D S
  handle_append now command r =
      if not (receives command r)
      then emit
          (error_event (lit "invalid_state")
            (lit "Append does not match an active receiving session.") true command.session)
          r
      else if ltb (maximum_pending_text_bytes - min maximum_pending_text_bytes r.owned_text_bytes)
          (length command.text)
      then emit
          (record (error_event (lit "backpressure") (lit "Pending speech capacity is exhausted.")
            true command.session) { seq = command.seq })
          r
      else accept_text now command r

  unfoldable pub handle_finish : Command D → Runtime D S → Runtime D S
  handle_finish command r =
      if not (receives command r)
      then emit
          (error_event (lit "invalid_state")
            (lit "Finish does not match an active receiving session.") true command.session)
          r
      else commit_available_locked true (record r { accepting = false })

  unfoldable pub interrupt_session : Runtime D S → Runtime D S
  interrupt_session r =
      let generation = add_size r.current_generation 1 in
      let owned = sub_size r.owned_text_bytes (length r.buffer) in
      let (removed, jobs) = cancel r.generation r.jobs in
      emit (event (lit "interrupted") r.session) (record r {
        current_generation = generation;
        owned_text_bytes = sub_size owned removed.bytes;
        outstanding_jobs = sub_size r.outstanding_jobs removed.jobs;
        buffer = [];
        jobs = jobs;
        audio = sink.interrupt (sink.set_valid_generation generation r.audio);
        active = false;
        accepting = false;
        session = [];
      })

  unfoldable pub handle_interrupt : Command D → Runtime D S → Runtime D S
  handle_interrupt command r =
      if not (r.active && eqb command.session r.session)
      then emit
          (error_event (lit "invalid_state") (lit "Interrupt does not match an active session.")
            true command.session)
          r
      else interrupt_session r

  unfoldable pub handle_type : CommandType → ℕ → Command D → Runtime D S → Runtime D S × Bool
  handle_type start now command r = (handle_start now command r, true)
  handle_type append now command r = (handle_append now command r, true)
  handle_type finish now command r = (handle_finish command r, true)
  handle_type interrupt now command r = (handle_interrupt command r, true)
  handle_type shutdown now command r = (r, false)

  unfoldable pub handle : ℕ → Command D → Runtime D S → Runtime D S × Bool
  unfolding handle_type
  handle now command r = handle_type command.type now command r

  -- `shutdown` up to the lock: `stopping` is set, and the event is out.
  unfoldable pub begin_shutdown : Bool → Runtime D S → Runtime D S
  begin_shutdown emit_event r =
      let told = record r { stopping = true } in
      if emit_event then emit (event (lit "shutting_down") []) told else told

  -- What `shutdown` does under the lock.
  unfoldable pub close_session : Runtime D S → Runtime D S
  close_session r =
      let generation = add_size r.current_generation 1 in
      record r {
        current_generation = generation;
        audio = sink.interrupt (sink.set_valid_generation generation r.audio);
        active = false;
        accepting = false;
        buffer = [];
      }

  -- `jobs.stop()`.
  unfoldable pub stop_jobs : Runtime D S → Runtime D S
  stop_jobs r = record r { jobs = stop r.jobs }

  -- `shutdown`. What the other threads do before the lock, behind it, and until they are joined is
  -- `others` at 0, 1 and 2.
  unfoldable pub shutdown_runtime :
      (ℕ → Runtime D S → Runtime D S) → Bool → Runtime D S → Runtime D S
  shutdown_runtime others emit_event r =
      if r.stopping
      then r
      else others 2 (stop_jobs (others 1 (close_session (others 0 (begin_shutdown emit_event r)))))
