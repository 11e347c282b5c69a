-- ===== src/Runtime/Threads.antt =====
-- The two threads of src/streaming_runtime.cpp. A round of `maintenance_loop`, and each stretch of
-- `synthesis_loop` between two accesses to shared state, is one step on the state.
use tiny_robotic_voice.Common.{
  ℕ, ◌-◌, true, false, not, ◌&&◌, Bytes, [], lit, length, is_empty, leb, ◌==◌, Result, ok, err,
  if◌then◌else◌, sub_size, Option, some, none,
}
use tiny_robotic_voice.Double.{Double}
use tiny_robotic_voice.Audio.{PcmAudio, AudioSink}
use tiny_robotic_voice.Audio.Gain.{GainMath, apply_output_gain}
use tiny_robotic_voice.Voice.{VoiceSettings}
use tiny_robotic_voice.Protocol.{event}
use tiny_robotic_voice.Runtime.Jobs.{SynthesisJob, Popped, waits, ends, takes, pop}
use tiny_robotic_voice.Runtime.{
  Runtime, Worker, popping, taken, synthesizing, enqueueing, pushing, queued_audio, failed,
  releasing, settling, ended, emit, error_event, commit_available_locked,
}

-- `start_workers`; what the threads do from then on are the steps below.
unfoldable pub start_workers : {D S : Type 0} → Runtime D S → Runtime D S
start_workers r = if r.workers_started then r else record r { workers_started = true }

module _ {D S : Type 0} ⦃d : Double D⦄ (sink : AudioSink S) where
  -- A round of `maintenance_loop`; the idle time is in milliseconds.
  unfoldable pub flush_idle : ℕ → Runtime D S → Runtime D S
  flush_idle now r =
      if r.active && r.accepting && not (is_empty r.buffer) && leb 400 (now - r.last_append)
      then commit_available_locked true r
      else r

  unfoldable pub complete : Runtime D S → Runtime D S
  complete r =
      if is_empty r.buffer && r.outstanding_jobs == 0 && sink.is_drained r.generation r.audio
      then emit (event (lit "finished") r.session) (record r { active = false; session = [] })
      else r

  unfoldable pub flush_finished : Runtime D S → Runtime D S
  flush_finished r =
      if r.active && not r.accepting then complete (commit_available_locked true r) else r

  unfoldable pub maintenance_round : ℕ → Runtime D S → Runtime D S
  maintenance_round now r = if r.stopping then r else flush_finished (flush_idle now r)

  -- A step of `synthesis_loop`. `synthesize` is the engine, with what it throws.
  module _ (synthesize : Bytes → VoiceSettings D → Result Bytes PcmAudio) (m : GainMath D) where
    unfoldable pub after_pop : Popped D → Runtime D S → Runtime D S
    after_pop waits r = r
    after_pop ends r = record r { worker = ended }
    after_pop (takes job jobs) r = record r { worker = taken job; jobs = jobs }

    unfoldable pub after_synthesis :
        SynthesisJob D → Result Bytes PcmAudio → Runtime D S → Runtime D S
    after_synthesis job (err what) r = record r { worker = failed job what }
    after_synthesis job (ok pcm) r =
        let audio = apply_output_gain m pcm job.voice in
        if job.generation == r.current_generation && not (is_empty audio.samples)
        then record r { worker = enqueueing job audio }
        else record r { worker = releasing job }

    unfoldable pub after_push : SynthesisJob D → PcmAudio → Option S → Runtime D S → Runtime D S
    after_push job pcm (some audio) r = record r { worker = queued_audio job; audio = audio }
    after_push job pcm none r = record r { worker = enqueueing job pcm }

    unfoldable pub announce : SynthesisJob D → Runtime D S → Runtime D S
    announce job r =
        if r.active && r.generation == job.generation && not r.speaking_emitted
        then emit (event (lit "speaking") r.session)
            (record r { worker = releasing job; speaking_emitted = true })
        else record r { worker = releasing job }

    unfoldable pub report : SynthesisJob D → Bytes → Runtime D S → Runtime D S
    report job what r =
        if job.generation == r.current_generation
        then emit (error_event (lit "synthesis_failed") what false job.session)
            (record r { worker = releasing job })
        else record r { worker = releasing job }

    unfoldable pub step_worker : Worker D → Runtime D S → Runtime D S
    step_worker popping r = after_pop (pop r.jobs) r
    step_worker (taken job) r = record r {
      worker = if job.generation == r.current_generation then synthesizing job else releasing job;
    }
    step_worker (synthesizing job) r = after_synthesis job (synthesize job.text job.voice) r
    step_worker (enqueueing job audio) r =
        if sink.accepts job.generation audio r.audio
        then record r { worker = pushing job audio }
        else record r { worker = releasing job }
    step_worker (pushing job audio) r =
        after_push job audio (sink.push job.generation audio r.audio) r
    step_worker (queued_audio job) r = announce job r
    step_worker (failed job what) r = report job what r
    step_worker (releasing job) r = record r {
      worker = settling;
      owned_text_bytes = sub_size r.owned_text_bytes (length job.text);
    }
    step_worker settling r = record r {
      worker = popping;
      outstanding_jobs = sub_size r.outstanding_jobs 1;
    }
    step_worker ended r = r

    unfoldable pub synthesis_step : Runtime D S → Runtime D S
    unfolding step_worker
    synthesis_step r = step_worker r.worker r
