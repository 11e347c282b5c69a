-- ===== src/Runtime/Concluding.antt =====
-- What the two threads of src/streaming_runtime.cpp do to the events and to the serving of the
-- runtime, step by step.
use tiny_robotic_voice.Common.{
  Option, some, none, ℕ, ◌-◌, ◌≡◌, refl, sym, ap, ◌∙◌, true, not, ◌&&◌, Bytes, List, [], ◌∷◌, ◌++◌,
  lit, leb, ◌==◌, is_empty, arith, Result, ok, err, if-elim, append-nil, is_empty-nil,
}
use tiny_robotic_voice.Double.{Double}
use tiny_robotic_voice.Audio.{PcmAudio, AudioSink}
use tiny_robotic_voice.Audio.Gain.{GainMath}
use tiny_robotic_voice.Voice.{VoiceSettings}
use tiny_robotic_voice.Protocol.{Event, event}
use tiny_robotic_voice.Runtime.Jobs.{SynthesisJob, pop, pop_jobs}
use tiny_robotic_voice.Runtime.{
  Runtime, Worker, popping, taken, synthesizing, enqueueing, pushing, queued_audio, failed,
  releasing, settling, ended, commit_available_locked,
}
use tiny_robotic_voice.Runtime.Threads.{
  flush_idle, complete, flush_finished, maintenance_round, after_pop, after_synthesis, after_push,
  announce, report, step_worker, synthesis_step,
}
use tiny_robotic_voice.Runtime.Commit.{commit_available_locked-accounted}
use tiny_robotic_voice.Runtime.Steps.{synthesis_step-IsAccounted}
use tiny_robotic_voice.Runtime.Stopping.{Concludes}
use tiny_robotic_voice.Runtime.Serving.{first_event, first_event-append, IsServing}

-- A step that emits some events and leaves the rest of what a shutdown looks at.
record Tells {D S : Type 0} (r r' : Runtime D S) : Type 0 where
  told : (later : List (Event D)) × (r'.events ≡ r.events ++ later)
  same_stopping : r'.stopping ≡ r.stopping
  same_stopped : r'.jobs.stopped ≡ r.jobs.stopped
  same_active : r'.active ≡ r.active
  same_buffer : r'.buffer ≡ r.buffer

module _ {D S : Type 0} where
  Tells-Concludes : (r r' : Runtime D S) → Tells r r' → Concludes r r'
  Tells-Concludes r r' t = record {
    told = t.told;
    still_stopping = λ h. t.same_stopping ∙ h;
    no_session = λ off empty. (t.same_active ∙ off, t.same_buffer ∙ empty);
    still_stopped = λ h. t.same_stopped ∙ h;
  }

  -- A step that emits nothing, and one that emits one event.
  silent-Tells :
      (r r' : Runtime D S)
      → r'.events ≡ r.events
      → r'.stopping ≡ r.stopping
      → r'.jobs.stopped ≡ r.jobs.stopped
      → r'.active ≡ r.active
      → r'.buffer ≡ r.buffer
      → Tells r r'
  silent-Tells r r' e stopping stopped active buffer = record {
    told = ([], e ∙ sym (append-nil r.events));
    same_stopping = stopping;
    same_stopped = stopped;
    same_active = active;
    same_buffer = buffer;
  }

module _ {D S : Type 0} ⦃d : Double D⦄ (sink : AudioSink S)
    (synthesize : Bytes → VoiceSettings D → Result Bytes PcmAudio) (m : GainMath D) where
  pop_jobs-Tells :
      (jobs : List (SynthesisJob D)) (r : Runtime D S)
      → Tells r (after_pop sink synthesize m (pop_jobs jobs r.jobs) r)
  unfolding after_pop pop_jobs
  pop_jobs-Tells [] r =
      silent-Tells r _ (ground arith) (ground arith) (ground arith) (ground arith) (ground arith)
  pop_jobs-Tells (job ∷ rest) r = silent-Tells r _ refl refl refl refl refl

  after_synthesis-Tells :
      (job : SynthesisJob D) (result : Result Bytes PcmAudio) (r : Runtime D S)
      → Tells r (after_synthesis sink synthesize m job result r)
  unfolding after_synthesis
  after_synthesis-Tells job (err what) r = silent-Tells r _ refl refl refl refl refl
  after_synthesis-Tells job (ok pcm) r =
      silent-Tells r _ (ground arith) (ground arith) (ground arith) (ground arith) (ground arith)

  after_push-Tells :
      (job : SynthesisJob D) (pcm : PcmAudio) (pushed : Option S) (r : Runtime D S)
      → Tells r (after_push sink synthesize m job pcm pushed r)
  unfolding after_push
  after_push-Tells job pcm (some audio) r = silent-Tells r _ refl refl refl refl refl
  after_push-Tells job pcm none r = silent-Tells r _ refl refl refl refl refl

  announce-Tells :
      (job : SynthesisJob D) (r : Runtime D S) → Tells r (announce sink synthesize m job r)
  unfolding announce
  announce-Tells job r =
      if-elim (Tells r) (r.active && r.generation == job.generation && not r.speaking_emitted) _ _
        (λ _. record {
          told = (event (lit "speaking") r.session ∷ [], refl);
          same_stopping = refl;
          same_stopped = refl;
          same_active = refl;
          same_buffer = refl;
        })
        (λ _. silent-Tells r _ refl refl refl refl refl)

  report-Tells :
      (job : SynthesisJob D) (what : Bytes) (r : Runtime D S)
      → Tells r (report sink synthesize m job what r)
  unfolding report
  report-Tells job what r =
      if-elim (Tells r) (job.generation == r.current_generation) _ _
        (λ _. record {
          told = (_, refl);
          same_stopping = refl;
          same_stopped = refl;
          same_active = refl;
          same_buffer = refl;
        })
        (λ _. silent-Tells r _ refl refl refl refl refl)

  step_worker-Tells : (w : Worker D) (r : Runtime D S) → Tells r (step_worker sink synthesize m w r)
  unfolding step_worker pop
  step_worker-Tells popping r = pop_jobs-Tells r.jobs.jobs r
  step_worker-Tells (taken job) r = silent-Tells r _ refl refl refl refl refl
  step_worker-Tells (synthesizing job) r =
      after_synthesis-Tells job (synthesize job.text job.voice) r
  step_worker-Tells (enqueueing job audio) r =
      if-elim (Tells r) (sink.accepts job.generation audio r.audio) _ _
        (λ _. silent-Tells r _ refl refl refl refl refl)
        (λ _. silent-Tells r _ refl refl refl refl refl)
  step_worker-Tells (pushing job audio) r =
      after_push-Tells job audio (sink.push job.generation audio r.audio) r
  step_worker-Tells (queued_audio job) r = announce-Tells job r
  step_worker-Tells (failed job what) r = report-Tells job what r
  step_worker-Tells (releasing job) r = silent-Tells r _ refl refl refl refl refl
  step_worker-Tells settling r = silent-Tells r _ refl refl refl refl refl
  step_worker-Tells ended r = silent-Tells r _ refl refl refl refl refl

  synthesis_step-Tells : (r : Runtime D S) → Tells r (synthesis_step sink synthesize m r)
  unfolding synthesis_step
  synthesis_step-Tells r = step_worker-Tells r.worker r

  -- A step of the synthesis thread only concludes a runtime that is being shut down.
  pub synthesis_step-Concludes :
      (r : Runtime D S) → Concludes r (synthesis_step sink synthesize m r)
  synthesis_step-Concludes r = Tells-Concludes r _ (synthesis_step-Tells r)

  -- It keeps a serving runtime serving.
  pub synthesis_step-IsServing :
      (ready : Event D) (r : Runtime D S)
      → IsServing ready r
      → IsServing ready (synthesis_step sink synthesize m r)
  synthesis_step-IsServing ready r s =
      let t = synthesis_step-Tells r in
      record {
        accounted = synthesis_step-IsAccounted sink synthesize m r s.accounted;
        running = t.same_stopping ∙ s.running;
        begins = ap first_event t.told.1 ∙ first_event-append r.events t.told.0 ready s.begins;
      }

module _ {D S : Type 0} ⦃d : Double D⦄ (sink : AudioSink S) (ready : Event D) where
  commit-IsServing :
      (r : Runtime D S) → IsServing ready r → IsServing ready (commit_available_locked true r)
  commit-IsServing r s =
      let c = commit_available_locked-accounted true r s.accounted in
      record {
        accounted = c.accounted;
        running = c.frame.same_stopping ∙ s.running;
        begins = ap first_event c.frame.same_events ∙ s.begins;
      }

  complete-IsServing : (r : Runtime D S) → IsServing ready r → IsServing ready (complete sink r)
  unfolding complete
  complete-IsServing r s =
      if-elim (IsServing ready)
        (is_empty r.buffer && r.outstanding_jobs == 0 && sink.is_drained r.generation r.audio) _ _
        (λ over. record {
          accounted = let a = s.accounted in ground (arith, is_empty-nil r.buffer);
          running = s.running;
          begins = first_event-append r.events _ ready s.begins;
        })
        (λ _. s)

  flush_idle-IsServing :
      (now : ℕ) (r : Runtime D S) → IsServing ready r → IsServing ready (flush_idle sink now r)
  unfolding flush_idle
  flush_idle-IsServing now r s =
      if-elim (IsServing ready)
        (r.active && r.accepting && not (is_empty r.buffer) && leb 400 (now - r.last_append)) _ _
        (λ _. commit-IsServing r s) (λ _. s)

  flush_finished-IsServing :
      (r : Runtime D S) → IsServing ready r → IsServing ready (flush_finished sink r)
  unfolding flush_finished
  flush_finished-IsServing r s =
      if-elim (IsServing ready) (r.active && not r.accepting) _ _
        (λ _. complete-IsServing (commit_available_locked true r) (commit-IsServing r s)) (λ _. s)

  -- A round of the maintenance thread keeps a serving runtime serving.
  pub maintenance_round-IsServing :
      (now : ℕ) (r : Runtime D S)
      → IsServing ready r
      → IsServing ready (maintenance_round sink now r)
  unfolding maintenance_round
  maintenance_round-IsServing now r s =
      if-elim (IsServing ready) r.stopping _ _ (λ _. s)
        (λ _. flush_finished-IsServing (flush_idle sink now r) (flush_idle-IsServing now r s))
