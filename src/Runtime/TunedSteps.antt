-- ===== src/Runtime/TunedSteps.antt =====
-- The steps of the runtime of src/streaming_runtime.cpp that reach the output keep it tuned.
use tiny_robotic_voice.Common.{
  pos, suc, ◌≤◌, subst, if◌then◌else◌, ℕ, suc, ◌^◌, ◌<◌, ◌≡◌, refl, sym, ap, subst, ◌∙◌, inl, inr,
  Bool, true, false, Bytes, List, [], ◌∷◌, pos, arith, if-elim, Result, add_size,
}
use tiny_robotic_voice.Double.{Double}
use tiny_robotic_voice.Audio.{PcmAudio}
use tiny_robotic_voice.Audio.Gain.{GainMath}
use tiny_robotic_voice.Voice.{VoiceSettings, apply_voice_settings_patch}
use tiny_robotic_voice.Protocol.{Command, CommandType, start, append, finish, interrupt, shutdown}
use tiny_robotic_voice.Output
use tiny_robotic_voice.Output.{
  Output, output_sink, callback, has_room, accepts_format, set_valid_generation,
}
use tiny_robotic_voice.Output.Invariant.{
  IsValid, interrupt-IsValid, enqueued-IsValid, retargeted-IsValid,
}
use tiny_robotic_voice.Output.Frame.{callback-SameSetting}
use tiny_robotic_voice.Output.Newest.{
  IsUpTo, IsUpTo-mono, interrupt-IsUpTo, enqueued-IsUpTo, callback-IsUpTo,
}
use tiny_robotic_voice.Output.Calls.{callback-IsValid}
use tiny_robotic_voice.Runtime.Jobs.{SynthesisJob, pop, pop_jobs}
use tiny_robotic_voice.Runtime.{
  Runtime, Worker, popping, taken, synthesizing, enqueueing, pushing, queued_audio, failed,
  releasing, settling, ended, start_session, handle_start, handle_append, handle_finish,
  interrupt_session, handle_interrupt, handle_type, begin_shutdown, close_session, stop_jobs,
}
use tiny_robotic_voice.Runtime.Threads.{
  after_pop, after_synthesis, after_push, announce, report, step_worker,
}
use tiny_robotic_voice.Runtime.Accounting.{IsAccounted}
use tiny_robotic_voice.Runtime.Tuning.{
  IsPushable, IsPushable-mono, IsTuned, SameTuning, SameTuning-IsTuned, handle_append-SameTuning,
  handle_finish-SameTuning,
}

module _ {D : Type 0} ⦃d : Double D⦄ where
  start_session-IsTuned :
      (now : ℕ) (c : Command D) (r : Runtime D Output)
      → suc r.current_generation < 2 ^ 64
      → IsTuned r
      → IsTuned (start_session output_sink now c r)
  unfolding start_session set_valid_generation
  start_session-IsTuned now c r few t = record {
    valid = retargeted-IsValid (add_size r.current_generation 1) r.audio t.valid;
    same_generation = refl;
    own_generation = inr refl;
    up_to_date = ground (
      arith,
      IsUpTo-mono r.current_generation (suc r.current_generation) r.audio (omega arith)
          t.up_to_date,
    );
    pushable =
        IsPushable-mono r.current_generation (add_size r.current_generation 1) r.worker
          (omega arith) t.pushable;
  }

  handle_start-IsTuned :
      (now : ℕ) (c : Command D) (r : Runtime D Output)
      → suc r.current_generation < 2 ^ 64
      → IsTuned r
      → IsTuned (handle_start output_sink now c r)
  unfolding handle_start
  handle_start-IsTuned now c r few t = ground (
    arith,
    start_session-IsTuned now c
        (record r { current_voice = (apply_voice_settings_patch r.default_voice c.voice).0 }) few,
  )

  pub handle_start-began :
      (now : ℕ) (c : Command D) (r : Runtime D Output)
      → r.active ≡ false
      → (handle_start output_sink now c r).active ≡ true
      → ((handle_start output_sink now c r).audio
          ≡ set_valid_generation (add_size r.current_generation 1) r.audio)
        × ((handle_start output_sink now c r).generation ≡ add_size r.current_generation 1)
  unfolding handle_start start_session
  handle_start-began now c r idle started = ground arith

  -- A step behind which the output is empty, at a new generation.
  silenced-IsTuned :
      (generation : ℕ) (o : Output) (r : Runtime D Output)
      → IsValid o
      → r.audio ≡ Output.interrupt (set_valid_generation generation o)
      → r.current_generation ≡ generation
      → r.active ≡ false
      → IsPushable generation r.worker
      → IsTuned r
  unfolding Output.interrupt set_valid_generation
  silenced-IsTuned generation o r v e g off p = record {
    valid = subst IsValid (sym e) (interrupt-IsValid _ (retargeted-IsValid generation o v));
    same_generation = ap (λ o. o.valid_generation) e ∙ sym g;
    own_generation = inl off;
    up_to_date =
        subst (IsUpTo r.current_generation) (sym e)
          (interrupt-IsUpTo r.current_generation (set_valid_generation generation o));
    pushable = subst (λ h. IsPushable h r.worker) (sym g) p;
  }

  interrupt_session-IsTuned :
      (r : Runtime D Output)
      → suc r.current_generation < 2 ^ 64
      → IsTuned r
      → IsTuned (interrupt_session output_sink r)
  unfolding interrupt_session
  interrupt_session-IsTuned r few t =
      silenced-IsTuned (add_size r.current_generation 1) r.audio _ t.valid refl refl refl (
        IsPushable-mono r.current_generation (add_size r.current_generation 1) r.worker
          (omega arith) t.pushable)

  pub begin_shutdown-SameTuning :
      (emit_event : Bool) (r : Runtime D Output)
      → SameTuning r (begin_shutdown output_sink emit_event r)
  unfolding begin_shutdown
  begin_shutdown-SameTuning emit_event r = ground arith

  pub close_session-IsTuned :
      (r : Runtime D Output)
      → suc r.current_generation < 2 ^ 64
      → IsTuned r
      → IsTuned (close_session output_sink r)
  unfolding close_session
  close_session-IsTuned r few t =
      silenced-IsTuned (add_size r.current_generation 1) r.audio _ t.valid refl refl refl (
        IsPushable-mono r.current_generation (add_size r.current_generation 1) r.worker
          (omega arith) t.pushable)

  pub stop_jobs-SameTuning : (r : Runtime D Output) → SameTuning r (stop_jobs output_sink r)
  unfolding stop_jobs
  stop_jobs-SameTuning r = ground arith

  handle_interrupt-IsTuned :
      (c : Command D) (r : Runtime D Output)
      → suc r.current_generation < 2 ^ 64
      → IsTuned r
      → IsTuned (handle_interrupt output_sink c r)
  unfolding handle_interrupt
  handle_interrupt-IsTuned c r few t = ground (arith, interrupt_session-IsTuned r few t)

  pub handle_type-IsTuned :
      (type : CommandType) (now : ℕ) (c : Command D) (r : Runtime D Output)
      → suc r.current_generation < 2 ^ 64
      → IsAccounted r
      → IsTuned r
      → IsTuned (handle_type output_sink type now c r).0
  unfolding handle_type
  handle_type-IsTuned start now c r few a t = handle_start-IsTuned now c r few t
  handle_type-IsTuned append now c r few a t =
      SameTuning-IsTuned r (handle_append output_sink now c r) (handle_append-SameTuning now c r a)
        t
  handle_type-IsTuned finish now c r few a t =
      SameTuning-IsTuned r (handle_finish output_sink c r) (handle_finish-SameTuning c r a) t
  handle_type-IsTuned interrupt now c r few a t = handle_interrupt-IsTuned c r few t
  handle_type-IsTuned shutdown now c r few a t = t

  pub called-IsTuned :
      (locked : Bool) (n : ℕ) (r : Runtime D Output)
      → IsTuned r
      → IsTuned (record r { audio = (callback locked n r.audio).1 })
  called-IsTuned locked n r t = record {
    valid = callback-IsValid locked n r.audio t.valid;
    same_generation = (callback-SameSetting locked n r.audio).same_generation ∙ t.same_generation;
    own_generation = t.own_generation;
    up_to_date = callback-IsUpTo r.current_generation locked n r.audio t.up_to_date;
    pushable = t.pushable;
  }

  module _ (synthesize : Bytes → VoiceSettings D → Result Bytes PcmAudio) (m : GainMath D) where
    -- The tests of `enqueue` ready a push of the generation that they saw.
    tested-IsTuned :
        (job : SynthesisJob D) (audio : PcmAudio) (r : Runtime D Output)
        → IsTuned r
        → IsTuned (
            if output_sink.accepts job.generation audio r.audio
            then record r { worker = pushing job audio }
            else record r { worker = releasing job })
    tested-IsTuned job audio r t =
        if-elim IsTuned (output_sink.accepts job.generation audio r.audio) _ _
          (λ accepted. record {
            valid = t.valid;
            same_generation = t.same_generation;
            own_generation = t.own_generation;
            up_to_date = t.up_to_date;
            pushable = let same = t.same_generation in ground arith;
          })
          (λ _. record {
            valid = t.valid;
            same_generation = t.same_generation;
            own_generation = t.own_generation;
            up_to_date = t.up_to_date;
            pushable = tt;
          })

    -- The push keeps the agreement, also when its generation is no longer the current one.
    pushed-IsTuned :
        (job : SynthesisJob D) (audio : PcmAudio) (r : Runtime D Output)
        → audio.channels ≡ pos 1
        → job.generation ≤ r.current_generation
        → IsTuned r
        → IsTuned (
            after_push output_sink synthesize m job audio
              (output_sink.push job.generation audio r.audio)
              r)
    unfolding after_push
    pushed-IsTuned job audio r mono older t =
        if-elim (λ pushed. IsTuned (after_push output_sink synthesize m job audio pushed r))
          (has_room audio r.audio) _ _
          (λ room. record {
            valid = enqueued-IsValid job.generation audio r.audio mono room t.valid;
            same_generation = t.same_generation;
            own_generation = t.own_generation;
            up_to_date =
                enqueued-IsUpTo r.current_generation job.generation audio r.audio older
                  t.up_to_date;
            pushable = tt;
          })
          (λ _. record {
            valid = t.valid;
            same_generation = t.same_generation;
            own_generation = t.own_generation;
            up_to_date = t.up_to_date;
            pushable = tt;
          })

    pop_jobs-SameTuning :
        (jobs : List (SynthesisJob D)) (r : Runtime D Output)
        → SameTuning r (after_pop output_sink synthesize m (pop_jobs jobs r.jobs) r)
    unfolding after_pop pop_jobs
    pop_jobs-SameTuning [] r = ground arith
    pop_jobs-SameTuning (job ∷ rest) r = ground arith

    pub step_worker-IsTuned :
        (w : Worker D) (r : Runtime D Output)
        → r.worker ≡ w
        → IsTuned r
        → IsTuned (step_worker output_sink synthesize m w r)
    unfolding step_worker after_synthesis announce report pop
    step_worker-IsTuned popping r e t = SameTuning-IsTuned r _ (pop_jobs-SameTuning r.jobs.jobs r) t
    step_worker-IsTuned (taken job) r e t = ground arith
    step_worker-IsTuned (synthesizing job) r e t = ground arith
    step_worker-IsTuned (enqueueing job audio) r e t = tested-IsTuned job audio r t
    step_worker-IsTuned (pushing job audio) r e t =
        let p = subst (IsPushable r.current_generation) e t.pushable in
        pushed-IsTuned job audio r p.0 p.1 t
    step_worker-IsTuned (queued_audio job) r e t = ground arith
    step_worker-IsTuned (failed job what) r e t = ground arith
    step_worker-IsTuned (releasing job) r e t = ground arith
    step_worker-IsTuned settling r e t = ground arith
    step_worker-IsTuned ended r e t = t
