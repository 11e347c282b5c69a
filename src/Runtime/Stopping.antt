-- ===== src/Runtime/Stopping.antt =====
-- `shutdown` of src/streaming_runtime.cpp: what is left to do behind it, and what the other threads
-- may do meanwhile.
use tiny_robotic_voice.Common.{
  ℕ, ◌≡◌, refl, sym, ap, ◌∙◌, Bool, true, false, List, [], ◌∷◌, ◌++◌, lit, arith, if◌then◌else◌,
  if-elim, append-nil, append_assoc,
}
use tiny_robotic_voice.Audio.{AudioSink}
use tiny_robotic_voice.Double.{Double}
use tiny_robotic_voice.Protocol.{Event, event}
use tiny_robotic_voice.Runtime.Jobs.{SynthesisJob, push, stop}
use tiny_robotic_voice.Runtime.{Runtime, begin_shutdown, close_session, stop_jobs, shutdown_runtime}
use tiny_robotic_voice.Runtime.Threads.{maintenance_round}

-- What the other threads may do while a shutdown is under way: they emit events, but neither unset
-- `stopping`, nor start a session, nor let the queue take jobs again.
pub record Concludes {D S : Type 0} (r r' : Runtime D S) : Type 0 where
  pub told : (later : List (Event D)) × (r'.events ≡ r.events ++ later)
  pub still_stopping : r.stopping ≡ true → r'.stopping ≡ true
  pub no_session : r.active ≡ false → r.buffer ≡ [] → (r'.active ≡ false) × (r'.buffer ≡ [])
  pub still_stopped : r.jobs.stopped ≡ true → r'.jobs.stopped ≡ true

-- What holds from the lock on: the session is closed, and the events are those there were before and
-- what was told since.
pub record IsClosed {D S : Type 0} (before : List (Event D)) (r : Runtime D S) : Type 0 where
  pub no_session : r.active ≡ false
  pub no_text : r.buffer ≡ []
  pub stopping : r.stopping ≡ true
  pub told : (later : List (Event D)) × (r.events ≡ before ++ later)

-- What a shutdown tells.
abbrev pub announced : {D : Type 0} → Bool → List (Event D)
announced emit_event = if emit_event then event (lit "shutting_down") [] ∷ [] else []

module _ {D S : Type 0} where
  pub Concludes-refl : (r : Runtime D S) → Concludes r r
  Concludes-refl r = record {
    told = ([], sym (append-nil r.events));
    still_stopping = λ h. h;
    no_session = λ off empty. (off, empty);
    still_stopped = λ h. h;
  }

  Concludes-IsClosed :
      (before : List (Event D)) (r r' : Runtime D S)
      → Concludes r r'
      → IsClosed before r
      → IsClosed before r'
  Concludes-IsClosed before r r' c o = record {
    no_session = (c.no_session o.no_session o.no_text).0;
    no_text = (c.no_session o.no_session o.no_text).1;
    stopping = c.still_stopping o.stopping;
    told = (
      o.told.0 ++ c.told.0,
      c.told.1 ∙ ap (λ x. x ++ c.told.0) o.told.1 ∙ append_assoc before o.told.0 c.told.0,
    );
  }

module _ {D S : Type 0} ⦃d : Double D⦄ (sink : AudioSink S) (others : ℕ → Runtime D S → Runtime D S)
    (conclude : (n : ℕ) (r : Runtime D S) → Concludes r (others n r)) where
  began-told :
      (emit_event : Bool) (r : Runtime D S)
      → (begin_shutdown sink emit_event r).events ≡ r.events ++ announced emit_event
  unfolding begin_shutdown
  began-told emit_event r = ground (arith, append-nil r.events)

  began-stopping :
      (emit_event : Bool) (r : Runtime D S) → (begin_shutdown sink emit_event r).stopping ≡ true
  unfolding begin_shutdown
  began-stopping emit_event r = ground arith

  close_session-IsClosed :
      (emit_event : Bool) (r : Runtime D S)
      → IsClosed
          (r.events ++ announced emit_event)
          (close_session sink (others 0 (begin_shutdown sink emit_event r)))
  unfolding close_session
  close_session-IsClosed emit_event r =
      let told = begin_shutdown sink emit_event r in
      let c = conclude 0 told in
      record {
        no_session = refl;
        no_text = refl;
        stopping = c.still_stopping (began-stopping emit_event r);
        told = (c.told.0, c.told.1 ∙ ap (λ x. x ++ c.told.0) (began-told emit_event r));
      }

  stop_jobs-IsClosed :
      (before : List (Event D)) (r : Runtime D S)
      → IsClosed before r
      → IsClosed before (stop_jobs sink r)
  unfolding stop_jobs
  stop_jobs-IsClosed before r o = record {
    no_session = o.no_session;
    no_text = o.no_text;
    stopping = o.stopping;
    told = o.told;
  }

  stop_jobs-stopped : (r : Runtime D S) → (stop_jobs sink r).jobs.stopped ≡ true
  unfolding stop_jobs stop
  stop_jobs-stopped r = refl

  pub shutdown_runtime-IsClosed :
      (emit_event : Bool) (r : Runtime D S)
      → r.stopping ≡ false
      → let r' = shutdown_runtime sink others emit_event r in
        IsClosed (r.events ++ announced emit_event) r' × (r'.jobs.stopped ≡ true)
  unfolding shutdown_runtime
  shutdown_runtime-IsClosed emit_event r running =
      if-elim {A = Runtime D S} (λ x. IsClosed before x × (x.jobs.stopped ≡ true)) r.stopping _ _
        (λ h. ground arith)
        (λ _. (
          Concludes-IsClosed before _ _ (conclude 2 (stop_jobs sink late)) (
              stop_jobs-IsClosed before late (
                Concludes-IsClosed before _ _ (conclude 1 closed)
                  (close_session-IsClosed emit_event r))),
          (conclude 2 (stop_jobs sink late)).still_stopped (stop_jobs-stopped late),
        ))
    where
      before : List (Event D)
      before = r.events ++ announced emit_event

      closed : Runtime D S
      closed = close_session sink (others 0 (begin_shutdown sink emit_event r))

      late : Runtime D S
      late = others 1 closed

  push-refused :
      (job : SynthesisJob D) (r : Runtime D S)
      → r.jobs.stopped ≡ true
      → push job r.jobs ≡ (r.jobs, false)
  unfolding push
  push-refused job r h = ground arith

  maintenance_round-idle :
      (now : ℕ) (r : Runtime D S) → r.stopping ≡ true → maintenance_round sink now r ≡ r
  unfolding maintenance_round
  maintenance_round-idle now r h = ground arith

  shutdown_runtime-again :
      (again : Bool) (r : Runtime D S)
      → r.stopping ≡ true
      → shutdown_runtime sink others again r ≡ r
  unfolding shutdown_runtime
  shutdown_runtime-again again r h = ground arith

  -- Whatever the other threads still do, as long as they only emit events and neither start a session
  -- nor undo the shutdown: behind the first shutdown there is no session and no buffered text, the
  -- events are those from before, then `shutting_down` when asked for, then what the threads told; the
  -- queue takes no job, a round of the maintenance thread does nothing, and neither does another
  -- shutdown, so the destructor may call it again.
  pub shutdown_runtime-stops :
      (emit_event again : Bool) (now : ℕ) (job : SynthesisJob D) (r : Runtime D S)
      → r.stopping ≡ false
      → let r' = shutdown_runtime sink others emit_event r in
        IsClosed (r.events ++ announced emit_event) r'
        × (push job r'.jobs ≡ (r'.jobs, false))
        × (maintenance_round sink now r' ≡ r')
        × (shutdown_runtime sink others again r' ≡ r')
  shutdown_runtime-stops emit_event again now job r running =
      let r' = shutdown_runtime sink others emit_event r in
      let (closed, stopped) = shutdown_runtime-IsClosed emit_event r running in
      (
        closed,
        push-refused job r' stopped,
        maintenance_round-idle now r' closed.stopping,
        shutdown_runtime-again again r' closed.stopping,
      )
