-- ===== src/Runtime/Progress.antt =====
-- The synthesis thread of src/streaming_runtime.cpp gets through its queue.
use tiny_robotic_voice.Common.{
  ℕ, zero, suc, ◌+◌, ◌*◌, ◌≤◌, ◌<◌, ◌≡◌, ◌≢◌, refl, ap, ◌∙◌, inl, inr, false, Bytes, List, [], ◌∷◌,
  length, arith, Result, ℕ-cases,
}
use tiny_robotic_voice.Double.{Double}
use tiny_robotic_voice.Audio.{PcmAudio, AudioSink}
use tiny_robotic_voice.Audio.Gain.{GainMath}
use tiny_robotic_voice.Voice.{VoiceSettings}
use tiny_robotic_voice.Runtime.Jobs.{SynthesisJob, pop_jobs, pop}
use tiny_robotic_voice.Runtime.{
  Runtime, Worker, popping, taken, synthesizing, enqueueing, pushing, queued_audio, failed,
  releasing, settling, ended,
}
use tiny_robotic_voice.Runtime.Threads.{
  after_pop, after_synthesis, after_push, announce, report, step_worker, synthesis_step,
}
use tiny_robotic_voice.Runtime.Accounting.{IsAccounted}
use tiny_robotic_voice.Runtime.Room.{HasRoom, IsRoomy, pieces, HoldsFitting, synthesis_step-IsRoomy}
use tiny_robotic_voice.Runtime.Steps.{synthesis_step-IsAccounted}

module _ {D S : Type 0} ⦃d : Double D⦄ (sink : AudioSink S)
    (synthesize : Bytes → VoiceSettings D → Result Bytes PcmAudio) (m : GainMath D) where
  -- So many steps of the synthesis thread on its own.
  pub synthesis_steps : ℕ → Runtime D S → Runtime D S
  synthesis_steps zero r = r
  synthesis_steps (suc n) r = synthesis_steps n (synthesis_step sink synthesize m r)

  -- The steps that are left until the thread waits at the empty queue.
  abbrev pub steps_left : Worker D → ℕ
  steps_left popping = 0
  steps_left (taken job) = 7
  steps_left (synthesizing job) = 6
  steps_left (enqueueing job audio) = 5
  steps_left (pushing job audio) = 4
  steps_left (queued_audio job) = 3
  steps_left (failed job what) = 3
  steps_left (releasing job) = 2
  steps_left settling = 1
  steps_left ended = 0

  abbrev pub work : Runtime D S → ℕ
  work r = steps_left r.worker + 8 * length r.jobs.jobs

  -- What the steps of the thread leave as they are, and what they keep.
  pub record Works (r r' : Runtime D S) : Type 0 where
    pub same_stopped : r'.jobs.stopped ≡ r.jobs.stopped
    pub same_stopping : r'.stopping ≡ r.stopping
    pub same_active : r'.active ≡ r.active
    pub same_accepting : r'.accepting ≡ r.accepting
    pub same_session : r'.session ≡ r.session
    pub same_generation : r'.generation ≡ r.generation
    pub same_buffer : r'.buffer ≡ r.buffer
    pub living : r.jobs.stopped ≡ false → r.worker ≢ ended → r'.worker ≢ ended

  pop_jobs-Works :
      (jobs : List (SynthesisJob D)) (r : Runtime D S)
      → r.jobs.jobs ≡ jobs
      → r.worker ≡ popping
      → Works r (after_pop sink synthesize m (pop_jobs jobs r.jobs) r)
  unfolding after_pop pop_jobs
  pop_jobs-Works [] r e w = ground arith
  pop_jobs-Works (job ∷ rest) r e w = ground arith

  step_worker-Works :
      (w : Worker D) (r : Runtime D S) → r.worker ≡ w → Works r (step_worker sink synthesize m w r)
  unfolding step_worker after_push after_synthesis announce report pop
  step_worker-Works popping r e = pop_jobs-Works r.jobs.jobs r refl e
  step_worker-Works (taken job) r e = ground arith
  step_worker-Works (synthesizing job) r e = ground arith
  step_worker-Works (enqueueing job audio) r e = ground arith
  step_worker-Works (pushing job audio) r e = ground arith
  step_worker-Works (queued_audio job) r e = ground arith
  step_worker-Works (failed job what) r e = ground arith
  step_worker-Works (releasing job) r e = ground arith
  step_worker-Works settling r e = ground arith
  step_worker-Works ended r e = ground arith

  Works-trans : (r s t : Runtime D S) → Works r s → Works s t → Works r t
  Works-trans r s t a b = ground arith

  pop_jobs-work :
      (jobs : List (SynthesisJob D)) (r : Runtime D S)
      → r.jobs.jobs ≡ jobs
      → r.worker ≡ popping
      → 0 < 8 * length jobs
      → work (after_pop sink synthesize m (pop_jobs jobs r.jobs) r) < work r
  unfolding after_pop pop_jobs
  pop_jobs-work [] r e w h = absurd (omega arith)
  pop_jobs-work (job ∷ rest) r e w h = ground (arith, ap length e)

  step_worker-work :
      {Fits : PcmAudio → Type 0} {Room : ℕ → S → Type 0}
      → HasRoom sink synthesize m Fits Room
      → (w : Worker D) (r : Runtime D S) → r.worker ≡ w
      → Room (pieces sink synthesize m Fits Room w (length r.jobs.jobs)) r.audio
      → HoldsFitting sink synthesize m Fits Room w
      → w ≢ ended
      → 0 < work r
      → work (step_worker sink synthesize m w r) < work r
  unfolding step_worker after_push after_synthesis announce report pop
  step_worker-work h popping r e room fits n k =
      pop_jobs-work r.jobs.jobs r refl e (ground (arith, ap steps_left e))
  step_worker-work h (taken job) r e room fits n k = ground (arith, ap steps_left e)
  step_worker-work h (synthesizing job) r e room fits n k = ground (arith, ap steps_left e)
  step_worker-work h (enqueueing job audio) r e room fits n k = ground (arith, ap steps_left e)
  step_worker-work h (pushing job audio) r e room fits n k =
      ground (
        arith,
        ap steps_left e,
        h.awake (length r.jobs.jobs) job.generation audio r.audio fits room,
      )
  step_worker-work h (queued_audio job) r e room fits n k = ground (arith, ap steps_left e)
  step_worker-work h (failed job what) r e room fits n k = ground (arith, ap steps_left e)
  step_worker-work h (releasing job) r e room fits n k = ground (arith, ap steps_left e)
  step_worker-work h settling r e room fits n k = ground (arith, ap steps_left e)
  step_worker-work h ended r e room fits n k = absurd (n refl)

  synthesis_step-Works : (r : Runtime D S) → Works r (synthesis_step sink synthesize m r)
  unfolding synthesis_step
  synthesis_step-Works r = step_worker-Works r.worker r refl

  synthesis_step-work :
      {Fits : PcmAudio → Type 0} {Room : ℕ → S → Type 0}
      → HasRoom sink synthesize m Fits Room
      → (r : Runtime D S) → IsRoomy sink synthesize m Fits Room r
      → r.worker ≢ ended
      → 0 < work r
      → work (synthesis_step sink synthesize m r) < work r
  unfolding synthesis_step
  synthesis_step-work h r i n k = step_worker-work h r.worker r refl i.room i.fits n k

  -- What the thread leaves when it has no work left.
  pub record Idles (r r' : Runtime D S) : Type 0 where
    pub accounted : IsAccounted r'
    pub works : Works r r'
    pub done : work r' ≡ 0

  pop_jobs-idle :
      (jobs : List (SynthesisJob D)) (r : Runtime D S)
      → r.jobs.jobs ≡ jobs
      → r.jobs.stopped ≡ false
      → length jobs ≡ 0
      → after_pop sink synthesize m (pop_jobs jobs r.jobs) r ≡ r
  unfolding after_pop pop_jobs
  pop_jobs-idle [] r e open_queue h = ground arith
  pop_jobs-idle (job ∷ rest) r e open_queue h = absurd (omega arith)

  step_worker-idle :
      (w : Worker D) (r : Runtime D S)
      → w ≢ ended
      → r.jobs.stopped ≡ false
      → steps_left w + 8 * length r.jobs.jobs ≡ 0
      → step_worker sink synthesize m w r ≡ r
  unfolding step_worker pop
  step_worker-idle popping r n open_queue h =
      pop_jobs-idle r.jobs.jobs r refl open_queue (omega arith)
  step_worker-idle ended r n open_queue h = refl
  step_worker-idle (taken job) r n open_queue h = absurd (omega arith)
  step_worker-idle (synthesizing job) r n open_queue h = absurd (omega arith)
  step_worker-idle (enqueueing job audio) r n open_queue h = absurd (omega arith)
  step_worker-idle (pushing job audio) r n open_queue h = absurd (omega arith)
  step_worker-idle (queued_audio job) r n open_queue h = absurd (omega arith)
  step_worker-idle (failed job what) r n open_queue h = absurd (omega arith)
  step_worker-idle (releasing job) r n open_queue h = absurd (omega arith)
  step_worker-idle settling r n open_queue h = absurd (omega arith)

  synthesis_step-idle :
      (r : Runtime D S)
      → r.worker ≢ ended
      → r.jobs.stopped ≡ false
      → work r ≡ 0
      → synthesis_step sink synthesize m r ≡ r
  unfolding synthesis_step
  synthesis_step-idle r n open_queue h = step_worker-idle r.worker r n open_queue h

  synthesis_step-le :
      {Fits : PcmAudio → Type 0} {Room : ℕ → S → Type 0}
      → HasRoom sink synthesize m Fits Room
      → (r : Runtime D S) → IsRoomy sink synthesize m Fits Room r
      → r.worker ≢ ended
      → r.jobs.stopped ≡ false
      → (n : ℕ) → work r ≤ suc n
      → work (synthesis_step sink synthesize m r) ≤ n
  synthesis_step-le h r i alive open_queue n k = elim (ℕ-cases (work r)) [
    | inl none_left ↦ omega (arith, ap work (synthesis_step-idle r alive open_queue none_left))
    | inr some_left ↦ omega (arith, synthesis_step-work h r i alive some_left)
  ]

  pub synthesis_steps-Idles :
      {Fits : PcmAudio → Type 0} {Room : ℕ → S → Type 0}
      → HasRoom sink synthesize m Fits Room
      → (n : ℕ) (r : Runtime D S) → IsRoomy sink synthesize m Fits Room r
      → IsAccounted r
      → r.worker ≢ ended
      → r.jobs.stopped ≡ false
      → work r ≤ n
      → Idles r (synthesis_steps n r)
  unfolding synthesis_steps
  synthesis_steps-Idles h zero r y a alive open_queue k = record {
    accounted = a;
    works = ground arith;
    done = omega arith;
  }
  synthesis_steps-Idles h (suc n) r y a alive open_queue k =
      let w = synthesis_step-Works r in
      let next = synthesis_step sink synthesize m r in
      let i : Idles next (synthesis_steps n next) =
        synthesis_steps-Idles h n next (synthesis_step-IsRoomy sink synthesize m _ _ h r y)
          (synthesis_step-IsAccounted sink synthesize m r a) (w.living open_queue alive)
          (w.same_stopped ∙ open_queue) (synthesis_step-le h r y alive open_queue n k) in
      record {
        accounted = i.accounted;
        works = Works-trans r next (synthesis_steps n next) w i.works;
        done = i.done;
      }

  pub no_jobs-idle :
      (w : Worker D) (jobs : List (SynthesisJob D))
      → w ≢ ended
      → steps_left w + 8 * length jobs ≡ 0
      → (w ≡ popping) × (jobs ≡ [])
  no_jobs-idle popping [] n h = (refl, refl)
  no_jobs-idle w (job ∷ rest) n h = absurd (omega arith)
  no_jobs-idle ended [] n h = absurd (n refl)
  no_jobs-idle (taken job) [] n h = absurd (omega arith)
  no_jobs-idle (synthesizing job) [] n h = absurd (omega arith)
  no_jobs-idle (enqueueing job audio) [] n h = absurd (omega arith)
  no_jobs-idle (pushing job audio) [] n h = absurd (omega arith)
  no_jobs-idle (queued_audio job) [] n h = absurd (omega arith)
  no_jobs-idle (failed job what) [] n h = absurd (omega arith)
  no_jobs-idle (releasing job) [] n h = absurd (omega arith)
  no_jobs-idle settling [] n h = absurd (omega arith)
