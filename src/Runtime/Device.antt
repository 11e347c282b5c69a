-- ===== src/Runtime/Device.antt =====
-- The runtime of src/streaming_runtime.cpp in front of the output of src/miniaudio_output.cpp, with
-- the device calling back at any time.
use tiny_robotic_voice.Common.{
  ℕ, suc, ◌^◌, ◌<◌, ◌≡◌, refl, sym, ap₂, subst, ◌∙◌, inl, Bool, true, false, Bytes, [], pos,
  replicate, arith, Result, add_size,
}
use tiny_robotic_voice.Double.{Double}
use tiny_robotic_voice.Audio.{PcmAudio}
use tiny_robotic_voice.Audio.Gain.{GainMath}
use tiny_robotic_voice.Voice.{VoiceSettings}
use tiny_robotic_voice.Protocol.{Command}
use tiny_robotic_voice.Output.{Output, output_sink, callback}
use tiny_robotic_voice.Output.Pending.{pending}
use tiny_robotic_voice.Output.Invariant.{IsValid}
use tiny_robotic_voice.Output.Newest.{IsUpTo, IsUpTo-pending}
use tiny_robotic_voice.Output.Calls.{retargeted-pending, retargeted-silent}
use tiny_robotic_voice.Runtime.{
  Runtime, initial_runtime, handle_start, handle, begin_shutdown, close_session, stop_jobs,
}
use tiny_robotic_voice.Runtime.Threads.{
  flush_idle, flush_finished, maintenance_round, synthesis_step,
}
use tiny_robotic_voice.Runtime.Accounting.{IsAccounted}
use tiny_robotic_voice.Runtime.Steps.{
  flush_idle-IsAccounted, handle-IsAccounted, maintenance_round-IsAccounted,
  synthesis_step-IsAccounted, begin_shutdown-IsAccounted, close_session-IsAccounted,
  stop_jobs-IsAccounted, flush_finished-IsAccounted,
}
use tiny_robotic_voice.Runtime.System.{initial_runtime-IsAccounted}
use tiny_robotic_voice.Runtime.Tuning.{
  IsTuned, SameTuning-IsTuned, maintenance_round-SameTuning, flush_idle-SameTuning,
  flush_finished-SameTuning,
}
use tiny_robotic_voice.Runtime.TunedSteps.{
  handle_type-IsTuned, begin_shutdown-SameTuning, close_session-IsTuned, stop_jobs-SameTuning,
  called-IsTuned, step_worker-IsTuned, handle_start-began,
}

module _ {D : Type 0} ⦃d : Double D⦄ (synthesize : Bytes → VoiceSettings D → Result Bytes PcmAudio)
    (m : GainMath D) where
  -- The states that the three threads and the device reach from the constructor, with fewer than
  -- 2 ^ 64 generations.
  pub data Runs (o : Output) : Runtime D Output → Type 0 where
    begun : (voice : VoiceSettings D) (now : ℕ) → Runs o (initial_runtime voice now o)
    commanded :
        {r : Runtime D Output} (now : ℕ) (c : Command D)
        → suc r.current_generation < 2 ^ 64
        → Runs o r
        → Runs o (handle output_sink now c r).0
    maintained :
        {r : Runtime D Output} (now : ℕ) → Runs o r → Runs o (maintenance_round output_sink now r)
    synthesised :
        {r : Runtime D Output} → Runs o r → Runs o (synthesis_step output_sink synthesize m r)
    -- A round that met `stopping` unset, and takes the lock when it is set.
    flushed :
        {r : Runtime D Output} (now : ℕ)
        → Runs o r
        → Runs o (flush_finished output_sink (flush_idle output_sink now r))
    began_shutdown :
        {r : Runtime D Output} (emit_event : Bool)
        → Runs o r
        → Runs o (begin_shutdown output_sink emit_event r)
    closed :
        {r : Runtime D Output}
        → r.stopping ≡ true
        → suc r.current_generation < 2 ^ 64
        → Runs o r
        → Runs o (close_session output_sink r)
    stopped : {r : Runtime D Output} → Runs o r → Runs o (stop_jobs output_sink r)
    called :
        {r : Runtime D Output} (locked : Bool) (n : ℕ)
        → Runs o r
        → Runs o (record r { audio = (callback locked n r.audio).1 })

  Runs-IsAccounted : {o : Output} {r : Runtime D Output} → Runs o r → IsAccounted r
  Runs-IsAccounted {o} (begun voice now) =
      initial_runtime-IsAccounted output_sink synthesize m voice now o
  Runs-IsAccounted (commanded {r} now c few before) =
      handle-IsAccounted output_sink now c r (Runs-IsAccounted before)
  Runs-IsAccounted (maintained {r} now before) =
      maintenance_round-IsAccounted output_sink now r (Runs-IsAccounted before)
  Runs-IsAccounted (synthesised {r} before) =
      synthesis_step-IsAccounted output_sink synthesize m r (Runs-IsAccounted before)
  Runs-IsAccounted (flushed {r} now before) =
      flush_finished-IsAccounted output_sink (flush_idle output_sink now r)
        (flush_idle-IsAccounted output_sink now r (Runs-IsAccounted before))
  Runs-IsAccounted (began_shutdown {r} emit_event before) =
      begin_shutdown-IsAccounted output_sink emit_event r (Runs-IsAccounted before)
  Runs-IsAccounted (closed {r} stopping few before) =
      close_session-IsAccounted output_sink r stopping (Runs-IsAccounted before)
  Runs-IsAccounted (stopped {r} before) =
      stop_jobs-IsAccounted output_sink r (Runs-IsAccounted before)
  Runs-IsAccounted (called {r} locked n before) = let a = Runs-IsAccounted before in ground arith

  -- From a well-formed output with nothing in it on, in every state that the threads and the device
  -- reach with fewer than 2 ^ 64 generations, the output is well formed, the generation that it plays
  -- is the current one and that of the active session, and neither the output nor a push that is about
  -- to be made is of a newer one. A push may be of an older one, when an interrupt came between the
  -- tests of `enqueue` and its lock.
  pub Runs-IsTuned :
      {o : Output} {r : Runtime D Output}
      → IsValid o
      → o.valid_generation ≡ 0
      → IsUpTo 0 o
      → Runs o r
      → IsTuned r
  unfolding initial_runtime handle synthesis_step
  Runs-IsTuned v g u (begun voice now) = record {
    valid = v;
    same_generation = g;
    own_generation = inl refl;
    up_to_date = u;
    pushable = tt;
  }
  Runs-IsTuned v g u (commanded {r} now c few before) =
      handle_type-IsTuned c.type now c r few (Runs-IsAccounted before) (Runs-IsTuned v g u before)
  Runs-IsTuned v g u (maintained {r} now before) =
      SameTuning-IsTuned r _ (maintenance_round-SameTuning now r (Runs-IsAccounted before))
        (Runs-IsTuned v g u before)
  Runs-IsTuned v g u (synthesised {r} before) =
      step_worker-IsTuned synthesize m r.worker r refl (Runs-IsTuned v g u before)
  Runs-IsTuned v g u (flushed {r} now before) =
      let a = Runs-IsAccounted before in
      let idle = flush_idle output_sink now r in
      SameTuning-IsTuned idle _
        (flush_finished-SameTuning idle (flush_idle-IsAccounted output_sink now r a))
        (SameTuning-IsTuned r idle (flush_idle-SameTuning now r a) (Runs-IsTuned v g u before))
  Runs-IsTuned v g u (began_shutdown {r} emit_event before) =
      SameTuning-IsTuned r _ (begin_shutdown-SameTuning emit_event r) (Runs-IsTuned v g u before)
  Runs-IsTuned v g u (closed {r} stopping few before) =
      close_session-IsTuned r few (Runs-IsTuned v g u before)
  Runs-IsTuned v g u (stopped {r} before) =
      SameTuning-IsTuned r _ (stop_jobs-SameTuning r) (Runs-IsTuned v g u before)
  Runs-IsTuned v g u (called {r} locked n before) =
      called-IsTuned locked n r (Runs-IsTuned v g u before)

  -- A session that begins hears nothing of an older one: in every such state, also with stale audio in
  -- the output, a start that ends with an active session of its own leaves nothing of its generation
  -- to play, and the next callback gives only zeros.
  pub Runs-start-silent :
      {o : Output} {r : Runtime D Output}
      → IsValid o
      → o.valid_generation ≡ 0
      → IsUpTo 0 o
      → Runs o r
      → suc r.current_generation < 2 ^ 64
      → (now : ℕ) (c : Command D) (locked : Bool) (n : ℕ) → r.active ≡ false
      → (handle_start output_sink now c r).active ≡ true
      → let r' = handle_start output_sink now c r in
        (pending r'.generation r'.audio ≡ [])
        × ((callback locked n r'.audio).0 ≡ replicate n (pos 0))
  Runs-start-silent {o} {r} v g u runs few now c locked n idle started =
      let t = Runs-IsTuned v g u runs in
      let newer = add_size r.current_generation 1 in
      let (audio, own) = handle_start-began now c r idle started in
      let fresh : r.current_generation < newer = omega arith in
      let nothing = IsUpTo-pending r.current_generation newer r.audio t.up_to_date fresh in
      (
        ap₂ pending own audio ∙ retargeted-pending newer r.audio nothing,
        subst (λ o. (callback locked n o).0 ≡ replicate n (pos 0)) (sym audio)
            (retargeted-silent locked n newer r.audio t.valid nothing),
      )
