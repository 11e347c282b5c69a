-- ===== src/Runtime/Delivery.antt =====
-- What becomes of accepted text in src/streaming_runtime.cpp: the runtime as a first-in first-out
-- stream of text from the client to the synthesis thread.
use tiny_robotic_voice.Common.{
  ℕ, ◌+◌, ◌-◌, ◌≤◌, ◌≡◌, ◌≢◌, refl, sym, ap, ◌∙◌, Bool, true, false, not, ◌&&◌, Bytes, List, [],
  ◌∷◌, ◌++◌, length, arith, min, ltb, if◌then◌else◌, append_assoc, append-nil, Result,
}
use tiny_robotic_voice.Double.{Double}
use tiny_robotic_voice.Audio.{PcmAudio, AudioSink}
use tiny_robotic_voice.Audio.Gain.{GainMath}
use tiny_robotic_voice.Voice.{VoiceSettings}
use tiny_robotic_voice.Protocol.{Command, CommandType, start, append, finish, interrupt, shutdown}
use tiny_robotic_voice.Runtime.Jobs.{SynthesisJob, pop_jobs, pop, maximum_pending_text_bytes}
use tiny_robotic_voice.Runtime.{
  Runtime, Worker, popping, taken, synthesizing, enqueueing, pushing, queued_audio, failed,
  releasing, settling, ended, receives, initial_runtime, start_session, handle_start, accept_text,
  handle_append, handle_finish, handle_type, handle, commit_available_locked,
}
use tiny_robotic_voice.Runtime.Threads.{
  flush_idle, complete, flush_finished, maintenance_round, after_pop, after_synthesis, after_push,
  announce, report, step_worker, synthesis_step,
}
use tiny_robotic_voice.Runtime.Accounting.{IsAccounted}
use tiny_robotic_voice.Runtime.Commit.{
  spoken, spoken-append, texts, ahead, commit_available_locked-accounted,
}
use tiny_robotic_voice.Runtime.Steps.{
  received-IsAccounted, handle-IsAccounted, maintenance_round-IsAccounted,
  synthesis_step-IsAccounted, flush_idle-IsAccounted,
}
use tiny_robotic_voice.Runtime.System.{flush_finished_complete}

module _ {D S : Type 0} ⦃d : Double D⦄ (sink : AudioSink S) where
  -- Whether `handle` takes the text of an append in.
  abbrev pub takes_in : Command D → Runtime D S → Bool
  takes_in c r =
      receives sink c r
      && not (
          ltb (maximum_pending_text_bytes - min maximum_pending_text_bytes r.owned_text_bytes)
            (length c.text))

  -- The text that a command adds.
  abbrev pub accepted_by : CommandType → Command D → Runtime D S → Bytes
  accepted_by append c r = if takes_in c r then c.text else []
  accepted_by type c r = []

  -- What waits keeps its place when text comes in behind it.
  handle_start-ahead :
      (now : ℕ) (c : Command D) (r : Runtime D S)
      → IsAccounted r
      → ahead (handle_start sink now c r) ≡ ahead r
  unfolding handle_start start_session
  handle_start-ahead now c r a = ground arith

  commit-ahead :
      (force : Bool) (r : Runtime D S)
      → IsAccounted r
      → ahead (commit_available_locked force r) ≡ ahead r
  commit-ahead force r a = (commit_available_locked-accounted force r a).frame.text_kept

  accept_text-ahead :
      (now : ℕ) (c : Command D) (r : Runtime D S)
      → IsAccounted r
      → r.active ≡ true
      → r.owned_text_bytes + length c.text ≤ 65536
      → ahead (accept_text sink now c r) ≡ ahead r ++ spoken c.text
  unfolding accept_text
  accept_text-ahead now c r a active fits =
      commit-ahead false _ (received-IsAccounted sink now c.text r fits active a)
      ∙ ap spoken (sym (append_assoc (texts r.jobs.jobs) r.buffer c.text))
      ∙ spoken-append (texts r.jobs.jobs ++ r.buffer) c.text

  handle_append-ahead :
      (now : ℕ) (c : Command D) (r : Runtime D S)
      → IsAccounted r
      → ahead (handle_append sink now c r) ≡ ahead r ++ spoken (accepted_by append c r)
  unfolding handle_append spoken
  handle_append-ahead now c r a = ground (arith, accept_text-ahead now c r a, append-nil (ahead r))

  handle_finish-ahead :
      (c : Command D) (r : Runtime D S) → IsAccounted r → ahead (handle_finish sink c r) ≡ ahead r
  unfolding handle_finish
  handle_finish-ahead c r a =
      ground (arith, commit-ahead true (record r { accepting = false }) (ground arith))

  handle_type-ahead :
      (type : CommandType) (now : ℕ) (c : Command D) (r : Runtime D S)
      → IsAccounted r
      → type ≢ interrupt
      → ahead (handle_type sink type now c r).0 ≡ ahead r ++ spoken (accepted_by type c r)
  unfolding handle_type spoken
  handle_type-ahead start now c r a h = handle_start-ahead now c r a ∙ sym (append-nil (ahead r))
  handle_type-ahead append now c r a h = handle_append-ahead now c r a
  handle_type-ahead finish now c r a h = handle_finish-ahead c r a ∙ sym (append-nil (ahead r))
  handle_type-ahead interrupt now c r a h = absurd (h refl)
  handle_type-ahead shutdown now c r a h = sym (append-nil (ahead r))

  complete-ahead : (r : Runtime D S) → ahead (complete sink r) ≡ ahead r
  unfolding complete
  complete-ahead r = ground arith

  flush_idle-ahead :
      (now : ℕ) (r : Runtime D S) → IsAccounted r → ahead (flush_idle sink now r) ≡ ahead r
  unfolding flush_idle
  flush_idle-ahead now r a = ground (arith, commit-ahead true r a)

  flush_finished-ahead : (r : Runtime D S) → IsAccounted r → ahead (flush_finished sink r) ≡ ahead r
  unfolding flush_finished
  flush_finished-ahead r a =
      ground (arith, commit-ahead true r a, complete-ahead (commit_available_locked true r))

  maintenance_round-ahead :
      (now : ℕ) (r : Runtime D S) → IsAccounted r → ahead (maintenance_round sink now r) ≡ ahead r
  unfolding maintenance_round
  maintenance_round-ahead now r a = ground (
    arith,
    flush_idle-ahead now r a,
    flush_finished-ahead (flush_idle sink now r) (flush_idle-IsAccounted sink now r a),
  )

  module _ (synthesize : Bytes → VoiceSettings D → Result Bytes PcmAudio) (m : GainMath D) where
    -- The text that a step of the synthesis thread takes from the queue.
    abbrev pub first_text : List (SynthesisJob D) → Bytes
    first_text [] = []
    first_text (job ∷ rest) = job.text

    abbrev pub taken_by : Worker D → Runtime D S → Bytes
    taken_by popping r = first_text r.jobs.jobs
    taken_by w r = []

    pop_jobs-ahead :
        (jobs : List (SynthesisJob D)) (r : Runtime D S)
        → r.jobs.jobs ≡ jobs
        → ahead r
          ≡ spoken (first_text jobs) ++ ahead (after_pop sink synthesize m (pop_jobs jobs r.jobs) r)
    unfolding after_pop pop_jobs spoken
    pop_jobs-ahead [] r e = ground arith
    pop_jobs-ahead (job ∷ rest) r e =
        ap (λ jobs. spoken (texts jobs ++ r.buffer)) e
        ∙ ap spoken (append_assoc job.text (texts rest) r.buffer)
        ∙ spoken-append job.text (texts rest ++ r.buffer)

    step_worker-ahead :
        (w : Worker D) (r : Runtime D S)
        → ahead r ≡ spoken (taken_by w r) ++ ahead (step_worker sink synthesize m w r)
    unfolding step_worker after_push after_synthesis announce report pop spoken
    step_worker-ahead popping r = pop_jobs-ahead r.jobs.jobs r refl
    step_worker-ahead (taken job) r = ground arith
    step_worker-ahead (synthesizing job) r = ground arith
    step_worker-ahead (enqueueing job audio) r = ground arith
    step_worker-ahead (pushing job audio) r = ground arith
    step_worker-ahead (queued_audio job) r = ground arith
    step_worker-ahead (failed job what) r = ground arith
    step_worker-ahead (releasing job) r = ground arith
    step_worker-ahead settling r = ground arith
    step_worker-ahead ended r = ground arith

    -- A run of the threads with no interrupt command and no step of a shutdown, from a state in which no
    -- text waits or is buffered, with all the text that was taken in and all the text that the
    -- synthesis thread was handed, each in order. It may begin anywhere, for instance behind an
    -- interrupt.
    pub data Delivers : Bytes → Bytes → Runtime D S → Type 0 where
      begun : {r : Runtime D S} → IsAccounted r → ahead r ≡ [] → Delivers [] [] r
      commanded :
          {accepted delivered : Bytes} {r : Runtime D S} (now : ℕ) (c : Command D)
          → c.type ≢ interrupt
          → Delivers accepted delivered r
          → Delivers (accepted ++ accepted_by c.type c r) delivered (handle sink now c r).0
      maintained :
          {accepted delivered : Bytes} {r : Runtime D S} (now : ℕ)
          → Delivers accepted delivered r
          → Delivers accepted delivered (maintenance_round sink now r)
      synthesised :
          {accepted delivered : Bytes} {r : Runtime D S}
          → Delivers accepted delivered r
          → Delivers accepted
              (delivered ++ taken_by r.worker r)
              (synthesis_step sink synthesize m r)
      played :
          {accepted delivered : Bytes} {r : Runtime D S} (audio : S)
          → Delivers accepted delivered r
          → Delivers accepted delivered (record r { audio = audio })

    Delivers-IsAccounted :
        {accepted delivered : Bytes} {r : Runtime D S}
        → Delivers accepted delivered r
        → IsAccounted r
    Delivers-IsAccounted (begun a nothing) = a
    Delivers-IsAccounted (commanded {r = r} now c h before) =
        handle-IsAccounted sink now c r (Delivers-IsAccounted before)
    Delivers-IsAccounted (maintained {r = r} now before) =
        maintenance_round-IsAccounted sink now r (Delivers-IsAccounted before)
    Delivers-IsAccounted (synthesised {r = r} before) =
        synthesis_step-IsAccounted sink synthesize m r (Delivers-IsAccounted before)
    Delivers-IsAccounted (played audio before) = let a = Delivers-IsAccounted before in ground arith

    -- In a run with no interrupt and no shutdown, from a state in which no text waits, no accepted text
    -- is lost, doubled or put out of order, but for spaces: without its space bytes, what was taken in
    -- is what the synthesis thread was handed, followed by what still waits.
    pub Delivers-ahead :
        {accepted delivered : Bytes} {r : Runtime D S}
        → Delivers accepted delivered r
        → spoken accepted ≡ spoken delivered ++ ahead r
    unfolding spoken initial_runtime handle synthesis_step
    Delivers-ahead (begun a nothing) = sym nothing
    Delivers-ahead (commanded {accepted} {delivered} {r} now c h before) =
        spoken-append accepted (accepted_by c.type c r)
        ∙ ap (λ x. x ++ spoken (accepted_by c.type c r)) (Delivers-ahead before)
        ∙ append_assoc (spoken delivered) (ahead r) (spoken (accepted_by c.type c r))
        ∙ ap (λ x. spoken delivered ++ x)
            (sym (handle_type-ahead c.type now c r (Delivers-IsAccounted before) h))
    Delivers-ahead (maintained {delivered = delivered} {r = r} now before) =
        Delivers-ahead before
        ∙ ap (λ x. spoken delivered ++ x)
            (sym (maintenance_round-ahead now r (Delivers-IsAccounted before)))
    Delivers-ahead (synthesised {accepted} {delivered} {r} before) =
        Delivers-ahead before
        ∙ ap (λ x. spoken delivered ++ x) (step_worker-ahead r.worker r)
        ∙ sym (
            append_assoc (spoken delivered) (spoken (taken_by r.worker r))
              (ahead (step_worker sink synthesize m r.worker r)))
        ∙ ap (λ x. x ++ ahead (step_worker sink synthesize m r.worker r))
            (sym (spoken-append delivered (taken_by r.worker r)))
    Delivers-ahead (played audio before) = Delivers-ahead before

    -- In a run with no interrupt and no shutdown, from a state in which no text waits: when the
    -- maintenance thread reports the session finished, the synthesis thread has been handed exactly the
    -- text that was taken in, without the space bytes of either.
    pub Delivers-finished :
        {accepted delivered : Bytes} {r : Runtime D S}
        → Delivers accepted delivered r
        → r.stopping ≡ false
        → r.active ≡ true
        → (flush_finished sink r).active ≡ false
        → spoken accepted ≡ spoken delivered
    unfolding spoken
    Delivers-finished {accepted} {delivered} {r} d running active gone =
        Delivers-ahead d
        ∙ ap (λ x. spoken delivered ++ x)
            (sym (flush_finished-ahead r (Delivers-IsAccounted d)) ∙ nothing_ahead)
        ∙ append-nil (spoken delivered)
      where
        nothing_ahead : ahead (flush_finished sink r) ≡ []
        nothing_ahead =
            let over =
              flush_finished_complete sink synthesize m r (Delivers-IsAccounted d) running active
                gone in
            ground (arith, over)
