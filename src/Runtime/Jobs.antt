-- ===== src/Runtime/Jobs.antt =====
-- `JobQueue` of src/streaming_runtime.cpp: the phrases that wait for the synthesis thread.
-- Its methods run under its mutex, so each is one step.
use tiny_robotic_voice.Common.{
  ℕ, ◌*◌, Bool, true, false, ◌||◌, List, [], ◌∷◌, ◌++◌, Bytes, length, ltb, ◌==◌, if◌then◌else◌,
  add_size, sub_size,
}
use tiny_robotic_voice.Voice.{VoiceSettings}

pub record SynthesisJob (D : Type 0) : Type 0 where
  pub generation : ℕ
  pub session : Bytes
  pub text : Bytes
  pub voice : VoiceSettings D

pub record JobQueue (D : Type 0) : Type 0 where
  pub jobs : List (SynthesisJob D)
  pub bytes : ℕ
  pub stopped : Bool

-- `StreamingRuntime::kMaximumPendingTextBytes`.
abbrev pub maximum_pending_text_bytes : ℕ
maximum_pending_text_bytes = 64 * 1024

pub record Cancelled : Type 0 where
  pub jobs : ℕ
  pub bytes : ℕ

-- What a call of `pop` comes to: it waits for a notification, it ends the thread, or it takes a job.
pub data Popped (D : Type 0) : Type 0 where
  waits : Popped D
  ends : Popped D
  takes : SynthesisJob D → JobQueue D → Popped D

module _ {D : Type 0} where
  unfoldable pub push : SynthesisJob D → JobQueue D → JobQueue D × Bool
  push job q =
      if q.stopped || ltb maximum_pending_text_bytes (add_size q.bytes (length job.text))
      then (q, false)
      else (
        record q { bytes = add_size q.bytes (length job.text); jobs = q.jobs ++ job ∷ [] },
        true,
      )

  unfoldable pub pop_jobs : List (SynthesisJob D) → JobQueue D → Popped D
  pop_jobs [] q = if q.stopped then ends else waits
  pop_jobs (job ∷ rest) q =
      takes job (record q { jobs = rest; bytes = sub_size q.bytes (length job.text) })

  unfoldable pub pop : JobQueue D → Popped D
  unfolding pop_jobs
  pop q = pop_jobs q.jobs q

  -- The loop over the jobs, with what is removed so far.
  unfoldable pub cancel_loop :
      ℕ → List (SynthesisJob D) → Cancelled → Cancelled × List (SynthesisJob D)
  cancel_loop generation [] removed = (removed, [])
  cancel_loop generation (job ∷ rest) removed =
      let hit = job.generation == generation in
      let more : Cancelled = record {
        jobs = add_size removed.jobs 1;
        bytes = add_size removed.bytes (length job.text);
      } in
      let (total, kept) = cancel_loop generation rest (if hit then more else removed) in
      (total, if hit then kept else job ∷ kept)

  unfoldable pub cancel : ℕ → JobQueue D → Cancelled × JobQueue D
  unfolding cancel_loop
  cancel generation q =
      let (removed, kept) = cancel_loop generation q.jobs (record { jobs = 0; bytes = 0 }) in
      (removed, record q { jobs = kept; bytes = sub_size q.bytes removed.bytes })

  unfoldable pub stop : JobQueue D → JobQueue D
  stop q = record q { stopped = true }
