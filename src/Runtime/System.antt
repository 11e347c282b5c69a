-- ===== src/Runtime/System.antt =====
-- The runtime with its threads: every interleaving of steps, from the constructor on.
use tiny_robotic_voice.Common.{
  ℕ, ◌≡◌, refl, Bool, true, false, Bytes, List, [], ◌∷◌, ◌++◌, length, is_empty-nil, arith, Result,
  lit,
}
use tiny_robotic_voice.Double.{Double}
use tiny_robotic_voice.Audio.{PcmAudio, AudioSink}
use tiny_robotic_voice.Audio.Gain.{GainMath}
use tiny_robotic_voice.Voice.{VoiceSettings}
use tiny_robotic_voice.Protocol.{Command, event}
use tiny_robotic_voice.Runtime.Jobs.{SynthesisJob}
use tiny_robotic_voice.Runtime.{
  Runtime, initial_runtime, handle, begin_shutdown, close_session, stop_jobs,
  commit_available_locked,
}
use tiny_robotic_voice.Runtime.Threads.{
  flush_idle, maintenance_round, synthesis_step, complete, flush_finished,
}
use tiny_robotic_voice.Runtime.Accounting.{IsAccounted, held, busy}
use tiny_robotic_voice.Runtime.Commit.{Commits, commit_available_locked-accounted}
use tiny_robotic_voice.Runtime.Steps.{
  handle-IsAccounted, begin_shutdown-IsAccounted, close_session-IsAccounted, stop_jobs-IsAccounted,
  flush_idle-IsAccounted, flush_finished-IsAccounted, maintenance_round-IsAccounted,
  synthesis_step-IsAccounted,
}

module _ {D S : Type 0} ⦃d : Double D⦄ (sink : AudioSink S)
    (synthesize : Bytes → VoiceSettings D → Result Bytes PcmAudio) (m : GainMath D) where
  -- One step of the main thread, of the maintenance thread, of the synthesis thread, or of the
  -- playback device, which may change the sink's state at any time.
  pub data Step (r : Runtime D S) : Runtime D S → Type 0 where
    commanded : (now : ℕ) (c : Command D) → Step r (handle sink now c r).0
    maintained : (now : ℕ) → Step r (maintenance_round sink now r)
    synthesised : Step r (synthesis_step sink synthesize m r)
    -- A round that met `stopping` unset, and takes the lock when it is set.
    flushed : (now : ℕ) → Step r (flush_finished sink (flush_idle sink now r))
    began_shutdown : (emit_event : Bool) → Step r (begin_shutdown sink emit_event r)
    closed : r.stopping ≡ true → Step r (close_session sink r)
    stopped : Step r (stop_jobs sink r)
    played : (audio : S) → Step r (record r { audio = audio })

  pub data Reach (r : Runtime D S) : Runtime D S → Type 0 where
    here : Reach r r
    next : {s t : Runtime D S} → Reach r s → Step s t → Reach r t

  Step-IsAccounted : {r s : Runtime D S} → Step r s → IsAccounted r → IsAccounted s
  Step-IsAccounted {r} (commanded now c) a = handle-IsAccounted sink now c r a
  Step-IsAccounted {r} (maintained now) a = maintenance_round-IsAccounted sink now r a
  Step-IsAccounted {r} synthesised a = synthesis_step-IsAccounted sink synthesize m r a
  Step-IsAccounted {r} (flushed now) a =
      flush_finished-IsAccounted sink (flush_idle sink now r) (flush_idle-IsAccounted sink now r a)
  Step-IsAccounted {r} (began_shutdown emit_event) a =
      begin_shutdown-IsAccounted sink emit_event r a
  Step-IsAccounted {r} (closed stopping) a = close_session-IsAccounted sink r stopping a
  Step-IsAccounted {r} stopped a = stop_jobs-IsAccounted sink r a
  Step-IsAccounted {r} (played audio) a = ground arith

  Reach-keeps : {r s : Runtime D S} → Reach r s → IsAccounted r → IsAccounted s
  Reach-keeps here a = a
  Reach-keeps (next before st) a = Step-IsAccounted st (Reach-keeps before a)

  pub initial_runtime-IsAccounted :
      (voice : VoiceSettings D) (now : ℕ) (audio : S)
      → IsAccounted (initial_runtime voice now audio)
  unfolding initial_runtime
  initial_runtime-IsAccounted voice now audio = ground arith

  -- In every state that any interleaving reaches, the text that is buffered, waiting or in synthesis
  -- is covered by `owned_text_bytes`, which never exceeds 64 KiB; until a shutdown it is exact; the
  -- counters of jobs and queued bytes are exact; no waiting job is silent; and nothing is buffered
  -- outside a session.
  pub Reach-IsAccounted :
      (voice : VoiceSettings D) (now : ℕ) (audio : S) {r : Runtime D S}
      → Reach (initial_runtime voice now audio) r
      → IsAccounted r
  Reach-IsAccounted voice now audio reached =
      Reach-keeps reached (initial_runtime-IsAccounted voice now audio)

  no_jobs : (jobs : List (SynthesisJob D)) → length jobs ≡ 0 → jobs ≡ []
  no_jobs [] h = refl
  no_jobs (x ∷ xs) h = absurd (omega arith)

  idle_holds : (w : _) → busy {D = D} w ≡ 0 → held w ≡ 0
  idle_holds w h = ground arith

  -- When the maintenance thread reports the session finished, no text is left anywhere: nothing is
  -- buffered, waiting or in synthesis, `owned_text_bytes` is 0, and the sink is drained. The event
  -- names the session, and is the only one.
  pub flush_finished_complete :
      (r : Runtime D S)
      → IsAccounted r
      → r.stopping ≡ false
      → r.active ≡ true
      → (flush_finished sink r).active ≡ false
      → let r' = flush_finished sink r in
        (r'.buffer ≡ [])
        × (r'.jobs.jobs ≡ [])
        × (held r'.worker ≡ 0)
        × (r'.owned_text_bytes ≡ 0)
        × (sink.is_drained r.generation r.audio ≡ true)
        × (r'.events ≡ r.events ++ event (lit "finished") r.session ∷ [])
  unfolding flush_finished complete
  flush_finished_complete r a running active gone = ground (
    arith,
    committed.accounted,
    committed.frame,
    is_empty-nil r₁.buffer,
    no_jobs r₁.jobs.jobs,
    idle_holds r₁.worker,
  )
    where
      r₁ : Runtime D S
      r₁ = commit_available_locked true r

      committed : Commits r r₁
      committed = commit_available_locked-accounted true r a
