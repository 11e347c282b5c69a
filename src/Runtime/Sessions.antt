-- ===== src/Runtime/Sessions.antt =====
-- What a client can rely on when it appends to a session of src/streaming_runtime.cpp and when it
-- interrupts one.
use tiny_robotic_voice.Common.{
  ℕ, ◌+◌, ◌≤◌, ◌<◌, ◌≡◌, ◌≢◌, ap, ◌∙◌, sym, true, false, List, [], ◌∷◌, ◌++◌, length, arith, subst,
  eqb, eqb_refl, add_size, some, append_assoc, lit,
}
use tiny_robotic_voice.Double.{Double, HasLiterals}
use tiny_robotic_voice.Audio.{AudioSink}
use tiny_robotic_voice.Voice.Range.{IsUsable, apply_voice_settings_patch-IsUsable}
use tiny_robotic_voice.Protocol.Commands.{AlwaysAccepted}
use tiny_robotic_voice.Protocol.{Command, event}
use tiny_robotic_voice.Runtime.Jobs.{SynthesisJob, Cancelled, cancel_loop, cancel}
use tiny_robotic_voice.Runtime.{
  Runtime, emit, error_event, accept_text, handle_append, interrupt_session, handle_interrupt,
  start_session, handle_start, commit_available_locked,
}
use tiny_robotic_voice.Runtime.Accounting.{IsAccounted}
use tiny_robotic_voice.Runtime.Commit.{
  spoken, texts, ahead, IsCommit, Commits, commit_available_locked-Commits,
}
use tiny_robotic_voice.Runtime.Steps.{received-IsAccounted}

module _ {D : Type 0} where
  -- No job of the generation waits.
  abbrev pub NoneOf : ℕ → List (SynthesisJob D) → Type 0
  NoneOf generation [] = Unit {0}
  NoneOf generation (job ∷ rest) = (job.generation ≢ generation) × NoneOf generation rest

  cancel_loop-NoneOf :
      (generation : ℕ) (jobs : List (SynthesisJob D)) (removed : Cancelled)
      → NoneOf generation (cancel_loop generation jobs removed).1
  unfolding cancel_loop
  cancel_loop-NoneOf generation [] removed = tt
  cancel_loop-NoneOf generation (job ∷ rest) removed = ground (
    arith,
    cancel_loop-NoneOf generation rest removed,
    cancel_loop-NoneOf generation rest (record {
      jobs = add_size removed.jobs 1;
      bytes = add_size removed.bytes (length job.text);
    }),
  )

module _ {D S : Type 0} ⦃d : Double D⦄ (sink : AudioSink S) where
  -- An interrupt that names the active session ends it at once, whatever the threads are doing: no
  -- job of its generation is left in the queue, the buffer is empty, the sink was told the next
  -- generation and then to drop what it holds, and the session is told so.
  pub handle_interrupt-cancels :
      (c : Command D) (r : Runtime D S)
      → r.active ≡ true
      → c.session ≡ r.session
      → let r' = handle_interrupt sink c r in
        let newer = add_size r.current_generation 1 in
        NoneOf r.generation r'.jobs.jobs
        × (r'.buffer ≡ [])
        × (r'.active ≡ false)
        × (r'.current_generation ≡ newer)
        × (r'.audio ≡ sink.interrupt (sink.set_valid_generation newer r.audio))
        × (r'.events ≡ r.events ++ event (lit "interrupted") r.session ∷ [])
  unfolding handle_interrupt interrupt_session cancel
  handle_interrupt-cancels c r active same =
      ground (
        arith,
        cancel_loop-NoneOf r.generation r.jobs.jobs (record { jobs = 0; bytes = 0 }),
        matches,
      )
    where
      matches : eqb c.session r.session ≡ true
      matches = subst (λ s. eqb s r.session ≡ true) (sym same) (eqb_refl r.session)

  -- What an append that fits leaves.
  accept_text-takes-all :
      (now : ℕ) (c : Command D) (r : Runtime D S)
      → IsAccounted r
      → r.active ≡ true
      → r.jobs.stopped ≡ false
      → r.owned_text_bytes + length c.text ≤ 65536
      → let r' = accept_text sink now c r in
        (ahead r' ≡ spoken ((texts r.jobs.jobs ++ r.buffer) ++ c.text))
        × (length r'.buffer < 180)
        × (r'.events
            ≡ r.events
              ++ record (event (lit "accepted") r.session) {
                seq = c.seq;
                bytes = some (length c.text);
              }
                ∷ [])
  unfolding accept_text
  accept_text-takes-all now c r a active open_queue fits = (
    frame.text_kept ∙ ap spoken (sym (append_assoc (texts r.jobs.jobs) r.buffer c.text)),
    committed.1,
    ground (arith, frame),
  )
    where
      appended : Runtime D S
      appended = record r {
        owned_text_bytes = add_size r.owned_text_bytes (length c.text);
        buffer = r.buffer ++ c.text;
        last_append = now;
      }

      r₁ : Runtime D S
      r₁ = commit_available_locked false appended

      committed : Commits appended r₁ × (length r₁.buffer < 180) × (false ≡ true → r₁.buffer ≡ [])
      committed =
          commit_available_locked-Commits false appended
            (received-IsAccounted sink now c.text r fits active a) open_queue

      frame : IsCommit appended r₁
      frame = committed.0.frame

  -- An append to the session that receives text, while the queue is open, is either refused as a
  -- whole or taken as a whole. It is refused exactly when the text does not fit into 64 KiB beside
  -- what the session owns already, and then nothing but the error is added. Otherwise its text stands
  -- behind all that waits to be spoken, up to spaces, less than 180 bytes stay in the buffer, and
  -- the client is told the number of bytes.
  pub handle_append-takes-all :
      (now : ℕ) (c : Command D) (r : Runtime D S)
      → IsAccounted r
      → r.active ≡ true
      → r.accepting ≡ true
      → c.session ≡ r.session
      → r.jobs.stopped ≡ false
      → let r' = handle_append sink now c r in
        (65536 < r.owned_text_bytes + length c.text
          → r'
            ≡ emit
                (record (error_event
                  (lit "backpressure")
                  (lit "Pending speech capacity is exhausted.")
                  true
                  c.session) { seq = c.seq })
                r)
        × (r.owned_text_bytes + length c.text ≤ 65536
            → (ahead r' ≡ spoken ((texts r.jobs.jobs ++ r.buffer) ++ c.text))
              × (length r'.buffer < 180)
              × (r'.events
                  ≡ r.events
                    ++ record (event (lit "accepted") r.session) {
                      seq = c.seq;
                      bytes = some (length c.text);
                    }
                      ∷ []))
  unfolding handle_append
  handle_append-takes-all now c r a active accepting same open_queue = (
    λ full. ground (arith, matches),
    λ fits.
        subst
          (λ r'.
            (ahead r' ≡ spoken ((texts r.jobs.jobs ++ r.buffer) ++ c.text))
            × (length r'.buffer < 180)
            × (r'.events
                ≡ r.events
                  ++ record (event (lit "accepted") r.session) {
                    seq = c.seq;
                    bytes = some (length c.text);
                  }
                    ∷ []))
          (accepts fits) (accept_text-takes-all now c r a active open_queue fits),
  )
    where
      matches : eqb c.session r.session ≡ true
      matches = subst (λ s. eqb s r.session ≡ true) (sym same) (eqb_refl r.session)

      accepts :
          r.owned_text_bytes + length c.text ≤ 65536
          → accept_text sink now c r ≡ handle_append sink now c r
      accepts fits = unfold handle_append in ground (arith, matches, fits)

  -- A start with a patch that usable settings accept always begins a session when none is active
  -- and the default voice is usable: the session has a usable voice, which the client is told, a
  -- generation of its own, and an empty buffer, and it receives text.
  pub handle_start-starts :
      (l : HasLiterals D) (now : ℕ) (c : Command D) (r : Runtime D S)
      → r.active ≡ false
      → IsUsable r.default_voice
      → AlwaysAccepted c.voice
      → let r' = handle_start sink now c r in
        IsUsable r'.current_voice
        × (r'.active ≡ true)
        × (r'.accepting ≡ true)
        × (r'.session ≡ c.session)
        × (r'.buffer ≡ [])
        × (r'.generation ≡ add_size r.current_generation 1)
        × (r'.current_generation ≡ add_size r.current_generation 1)
        × (r'.events
            ≡ r.events
              ++ record (event (lit "session_started") c.session) { voice = some r'.current_voice }
                ∷ [])
  unfolding handle_start start_session
  handle_start-starts l now c r idle usable accepted = ground (
    arith,
    accepted r.default_voice usable,
    apply_voice_settings_patch-IsUsable l r.default_voice c.voice usable
        (accepted r.default_voice usable),
  )
