-- ===== src/Runtime/Steps.antt =====
-- Every step of the runtime keeps the accounts.
use tiny_robotic_voice.Common.{
  ℕ, ◌+◌, ◌-◌, ◌^◌, ◌≤◌, ◌<◌, ◌≡◌, refl, ap, subst, Bool, true, false, not, ◌&&◌, Bytes, List, [],
  ◌∷◌, ◌++◌, length, arith, length-append, if-elim, min, ltb, eqb, is_empty-nil, add_size, Result,
}
use tiny_robotic_voice.Double.{Double}
use tiny_robotic_voice.Audio.{PcmAudio, AudioSink}
use tiny_robotic_voice.Audio.Gain.{GainMath}
use tiny_robotic_voice.Voice.{VoiceSettings}
use tiny_robotic_voice.Protocol.{
  Command, CommandType, start, append, finish, interrupt, shutdown, Event,
}
use tiny_robotic_voice.Runtime.Jobs.{
  SynthesisJob, Cancelled, pop, cancel_loop, cancel, stop, pop_jobs,
}
use tiny_robotic_voice.Runtime.{
  Runtime, Worker, popping, taken, synthesizing, enqueueing, pushing, queued_audio, failed,
  releasing, settling, ended, emit, receives, handle_type, commit_available_locked, start_session,
  handle_start, handle_append, accept_text, handle_finish, interrupt_session, handle_interrupt,
  handle, begin_shutdown, close_session, stop_jobs,
}
use tiny_robotic_voice.Runtime.Threads.{
  flush_idle, complete, flush_finished, maintenance_round, synthesis_step, step_worker, after_pop,
  after_synthesis, after_push, announce, report,
}
use tiny_robotic_voice.Runtime.Accounting.{IsAccounted, total, AllSpeakable, length-le-total}
use tiny_robotic_voice.Runtime.Commit.{commit_available_locked-accounted}

-- Cancelling: what goes and what stays make up what there was.
module _ {D : Type 0} where
  -- The sums stay far below the width of the counters.
  cancel_loop-splits :
      (generation : ℕ) (jobs : List (SynthesisJob D)) (removed : Cancelled)
      → removed.bytes + total jobs < 2 ^ 64
      → removed.jobs + length jobs < 2 ^ 64
      → let (gone, kept) = cancel_loop generation jobs removed in
        (gone.bytes + total kept ≡ removed.bytes + total jobs)
        × (gone.jobs + length kept ≡ removed.jobs + length jobs)
  unfolding cancel_loop
  cancel_loop-splits generation [] removed h k = omega arith
  cancel_loop-splits generation (job ∷ rest) removed h k = ground (
    arith,
    cancel_loop-splits generation rest removed,
    cancel_loop-splits generation rest (record {
      jobs = add_size removed.jobs 1;
      bytes = add_size removed.bytes (length job.text);
    }),
  )

  AllSpeakable-cancel_loop :
      (generation : ℕ) (jobs : List (SynthesisJob D)) (removed : Cancelled)
      → AllSpeakable jobs
      → AllSpeakable (cancel_loop generation jobs removed).1
  unfolding cancel_loop
  AllSpeakable-cancel_loop generation [] removed h = tt
  AllSpeakable-cancel_loop generation (job ∷ rest) removed h = ground (
    arith,
    AllSpeakable-cancel_loop generation rest removed h.1,
    AllSpeakable-cancel_loop generation rest
        (record {
          jobs = add_size removed.jobs 1;
          bytes = add_size removed.bytes (length job.text);
        })
        h.1,
  )

module _ {D S : Type 0} ⦃d : Double D⦄ (sink : AudioSink S) where
  handle_start-IsAccounted :
      (now : ℕ) (c : Command D) (r : Runtime D S)
      → IsAccounted r
      → IsAccounted (handle_start sink now c r)
  unfolding handle_start start_session
  handle_start-IsAccounted now c r a = ground arith

  emit-IsAccounted : (e : Event D) (r : Runtime D S) → IsAccounted r → IsAccounted (emit e r)
  emit-IsAccounted e r a = ground arith

  -- The state between taking a text in and committing.
  abbrev pub with_text : ℕ → Bytes → Runtime D S → Runtime D S
  with_text now text r = record r {
    owned_text_bytes = add_size r.owned_text_bytes (length text);
    buffer = r.buffer ++ text;
    last_append = now;
  }

  pub received-IsAccounted :
      (now : ℕ) (text : Bytes) (r : Runtime D S)
      → r.owned_text_bytes + length text ≤ 65536
      → r.active ≡ true
      → IsAccounted r
      → IsAccounted (record r {
        owned_text_bytes = add_size r.owned_text_bytes (length text);
        buffer = r.buffer ++ text;
        last_append = now;
      })
  received-IsAccounted now text r h k a = ground (arith, length-append r.buffer text)

  accept_text-IsAccounted :
      (now : ℕ) (c : Command D) (r : Runtime D S)
      → r.owned_text_bytes + length c.text ≤ 65536
      → r.active ≡ true
      → IsAccounted r
      → IsAccounted (accept_text sink now c r)
  unfolding accept_text
  accept_text-IsAccounted now c r h k a =
      emit-IsAccounted _ _
        (commit_available_locked-accounted false _
          (received-IsAccounted now c.text r h k a)).accounted

  handle_append-IsAccounted :
      (now : ℕ) (c : Command D) (r : Runtime D S)
      → IsAccounted r
      → IsAccounted (handle_append sink now c r)
  unfolding handle_append
  handle_append-IsAccounted now c r a =
      if-elim IsAccounted (not (receives sink c r)) _ _ (λ _. emit-IsAccounted _ r a)
        (λ open_session.
          if-elim IsAccounted (ltb (65536 - min 65536 r.owned_text_bytes) (length c.text)) _ _
            (λ _. emit-IsAccounted _ r a)
            (λ room. accept_text-IsAccounted now c r (ground arith) (ground arith) a))

  handle_finish-IsAccounted :
      (c : Command D) (r : Runtime D S) → IsAccounted r → IsAccounted (handle_finish sink c r)
  unfolding handle_finish
  handle_finish-IsAccounted c r a =
      if-elim IsAccounted (not (receives sink c r)) _ _ (λ _. emit-IsAccounted _ r a)
        (λ _.
          (commit_available_locked-accounted true (record r { accepting = false })
            (ground arith)).accounted)

  interrupt_session-IsAccounted :
      (r : Runtime D S) → IsAccounted r → IsAccounted (interrupt_session sink r)
  unfolding interrupt_session cancel
  interrupt_session-IsAccounted r a = ground (
    arith,
    cancel_loop-splits r.generation r.jobs.jobs (record { jobs = 0; bytes = 0 }),
    AllSpeakable-cancel_loop r.generation r.jobs.jobs (record { jobs = 0; bytes = 0 }),
    length-le-total r.jobs.jobs a.speakable,
  )

  handle_interrupt-IsAccounted :
      (c : Command D) (r : Runtime D S) → IsAccounted r → IsAccounted (handle_interrupt sink c r)
  unfolding handle_interrupt
  handle_interrupt-IsAccounted c r a =
      if-elim IsAccounted (not (r.active && eqb c.session r.session)) _ _
        (λ _. emit-IsAccounted _ r a) (λ _. interrupt_session-IsAccounted r a)

  handle_type-IsAccounted :
      (type : CommandType) (now : ℕ) (c : Command D) (r : Runtime D S)
      → IsAccounted r
      → IsAccounted (handle_type sink type now c r).0
  unfolding handle_type
  handle_type-IsAccounted start now c r a = handle_start-IsAccounted now c r a
  handle_type-IsAccounted append now c r a = handle_append-IsAccounted now c r a
  handle_type-IsAccounted finish now c r a = handle_finish-IsAccounted c r a
  handle_type-IsAccounted interrupt now c r a = handle_interrupt-IsAccounted c r a
  handle_type-IsAccounted shutdown now c r a = a

  -- Every command keeps the accounts.
  pub handle-IsAccounted :
      (now : ℕ) (c : Command D) (r : Runtime D S)
      → IsAccounted r
      → IsAccounted (handle sink now c r).0
  unfolding handle
  handle-IsAccounted now c r a = handle_type-IsAccounted c.type now c r a

  pub begin_shutdown-IsAccounted :
      (emit_event : Bool) (r : Runtime D S)
      → IsAccounted r
      → IsAccounted (begin_shutdown sink emit_event r)
  unfolding begin_shutdown
  begin_shutdown-IsAccounted emit_event r a = ground arith

  pub close_session-IsAccounted :
      (r : Runtime D S) → r.stopping ≡ true → IsAccounted r → IsAccounted (close_session sink r)
  unfolding close_session
  close_session-IsAccounted r stopped a = ground arith

  pub stop_jobs-IsAccounted : (r : Runtime D S) → IsAccounted r → IsAccounted (stop_jobs sink r)
  unfolding stop_jobs stop
  stop_jobs-IsAccounted r a = ground arith

  complete-IsAccounted : (r : Runtime D S) → IsAccounted r → IsAccounted (complete sink r)
  unfolding complete
  complete-IsAccounted r a = ground (arith, is_empty-nil r.buffer)

  pub flush_idle-IsAccounted :
      (now : ℕ) (r : Runtime D S) → IsAccounted r → IsAccounted (flush_idle sink now r)
  unfolding flush_idle
  flush_idle-IsAccounted now r a =
      ground (arith, (commit_available_locked-accounted true r a).accounted)

  pub flush_finished-IsAccounted :
      (r : Runtime D S) → IsAccounted r → IsAccounted (flush_finished sink r)
  unfolding flush_finished
  flush_finished-IsAccounted r a = ground (
    arith,
    complete-IsAccounted (commit_available_locked true r)
        (commit_available_locked-accounted true r a).accounted,
  )

  pub maintenance_round-IsAccounted :
      (now : ℕ) (r : Runtime D S) → IsAccounted r → IsAccounted (maintenance_round sink now r)
  unfolding maintenance_round
  maintenance_round-IsAccounted now r a =
      ground
        (arith, flush_finished-IsAccounted (flush_idle sink now r) (flush_idle-IsAccounted now r a))

  module _ (synthesize : Bytes → VoiceSettings D → Result Bytes PcmAudio) (m : GainMath D) where
    pop_jobs-IsAccounted :
        (jobs : List (SynthesisJob D)) (r : Runtime D S)
        → r.jobs.jobs ≡ jobs
        → r.worker ≡ popping
        → IsAccounted r
        → IsAccounted (after_pop sink synthesize m (pop_jobs jobs r.jobs) r)
    unfolding after_pop pop_jobs
    pop_jobs-IsAccounted [] r e w a = ground arith
    pop_jobs-IsAccounted (job ∷ rest) r e w a =
        ground (arith, ap total e, ap length e, subst AllSpeakable e a.speakable)

    step_worker-IsAccounted :
        (w : Worker D) (r : Runtime D S)
        → r.worker ≡ w
        → IsAccounted r
        → IsAccounted (step_worker sink synthesize m w r)
    unfolding step_worker after_push after_synthesis announce report pop
    step_worker-IsAccounted popping r e a = pop_jobs-IsAccounted r.jobs.jobs r refl e a
    step_worker-IsAccounted (taken job) r e a = ground arith
    step_worker-IsAccounted (synthesizing job) r e a = ground arith
    step_worker-IsAccounted (enqueueing job audio) r e a = ground arith
    step_worker-IsAccounted (pushing job audio) r e a = ground arith
    step_worker-IsAccounted (queued_audio job) r e a = ground arith
    step_worker-IsAccounted (failed job what) r e a = ground arith
    step_worker-IsAccounted (releasing job) r e a = ground arith
    step_worker-IsAccounted settling r e a = ground (arith, length-le-total r.jobs.jobs a.speakable)
    step_worker-IsAccounted ended r e a = a

    -- Every step of the synthesis thread keeps the accounts.
    pub synthesis_step-IsAccounted :
        (r : Runtime D S) → IsAccounted r → IsAccounted (synthesis_step sink synthesize m r)
    unfolding synthesis_step
    synthesis_step-IsAccounted r a = step_worker-IsAccounted r.worker r refl a
