-- ===== src/Runtime/Serving.antt =====
-- What every command of src/streaming_runtime.cpp keeps while the runtime serves: the accounts, and
-- the event that came first.
use tiny_robotic_voice.Common.{
  ℕ, ◌-◌, ◌≡◌, refl, ap, ◌∙◌, Bool, true, false, not, ◌&&◌, Option, none, some, List, [], ◌∷◌, ◌++◌,
  length, arith, min, ltb, eqb, if-elim, add_size,
}
use tiny_robotic_voice.Double.{Double}
use tiny_robotic_voice.Audio.{AudioSink}
use tiny_robotic_voice.Protocol.{
  Command, CommandType, start, append, finish, interrupt, shutdown, Event,
}
use tiny_robotic_voice.Runtime.{
  Runtime, emit, receives, start_session, handle_start, accept_text, handle_append, handle_finish,
  interrupt_session, handle_interrupt, handle_type, handle, commit_available_locked,
}
use tiny_robotic_voice.Runtime.Accounting.{IsAccounted}
use tiny_robotic_voice.Runtime.Commit.{commit_available_locked-accounted}
use tiny_robotic_voice.Runtime.Steps.{with_text, received-IsAccounted, handle-IsAccounted}

-- The first event of a list.
abbrev pub first_event : {D : Type 0} → List (Event D) → Option (Event D)
first_event [] = none
first_event (e ∷ rest) = some e

pub first_event-append :
    {D : Type 0} (xs ys : List (Event D)) (e : Event D)
    → first_event xs ≡ some e
    → first_event (xs ++ ys) ≡ some e
first_event-append [] ys e h = cc
first_event-append (x ∷ xs) ys e h = h

-- Which event came first.
abbrev pub BeginsWith : {D S : Type 0} → Event D → Runtime D S → Type 0
BeginsWith e r = first_event r.events ≡ some e

-- While the runtime serves.
pub record IsServing {D S : Type 0} (ready : Event D) (r : Runtime D S) : Type 0 where
  pub accounted : IsAccounted r
  pub running : r.stopping ≡ false
  pub begins : BeginsWith ready r

module _ {D S : Type 0} ⦃d : Double D⦄ (sink : AudioSink S) (ready : Event D) where
  emit-Begins : (e : Event D) (r : Runtime D S) → BeginsWith ready r → BeginsWith ready (emit e r)
  emit-Begins e r b = first_event-append r.events (e ∷ []) ready b

  handle_start-Begins :
      (now : ℕ) (c : Command D) (r : Runtime D S)
      → BeginsWith ready r
      → BeginsWith ready (handle_start sink now c r)
  unfolding handle_start start_session
  handle_start-Begins now c r b = grind (arith, first_event-append)

  commit-Begins :
      (force : Bool) (r : Runtime D S)
      → IsAccounted r
      → BeginsWith ready r
      → BeginsWith ready (commit_available_locked force r)
  commit-Begins force r a b =
      ap first_event (commit_available_locked-accounted force r a).frame.same_events ∙ b

  handle_append-Begins :
      (now : ℕ) (c : Command D) (r : Runtime D S)
      → IsAccounted r
      → BeginsWith ready r
      → BeginsWith ready (handle_append sink now c r)
  unfolding handle_append accept_text
  handle_append-Begins now c r a b =
      if-elim (BeginsWith ready) (not (receives sink c r)) _ _ (λ _. emit-Begins _ r b)
        (λ open_session.
          if-elim (BeginsWith ready) (ltb (65536 - min 65536 r.owned_text_bytes) (length c.text)) _
            _ (λ _. emit-Begins _ r b)
            (λ room. emit-Begins _ (commit_available_locked false (with_text sink now c.text r)) (
              commit-Begins false (with_text sink now c.text r)
                (received-IsAccounted sink now c.text r (ground arith) (ground arith) a) b)))

  handle_finish-Begins :
      (c : Command D) (r : Runtime D S)
      → IsAccounted r
      → BeginsWith ready r
      → BeginsWith ready (handle_finish sink c r)
  unfolding handle_finish
  handle_finish-Begins c r a b =
      if-elim (BeginsWith ready) (not (receives sink c r)) _ _ (λ _. emit-Begins _ r b)
        (λ _. commit-Begins true (record r { accepting = false }) (ground arith) b)

  handle_interrupt-Begins :
      (c : Command D) (r : Runtime D S)
      → BeginsWith ready r
      → BeginsWith ready (handle_interrupt sink c r)
  unfolding handle_interrupt interrupt_session
  handle_interrupt-Begins c r b =
      if-elim (BeginsWith ready) (not (r.active && eqb c.session r.session)) _ _
        (λ _. emit-Begins _ r b) (λ _. first_event-append r.events _ ready b)

  handle_type-Begins :
      (type : CommandType) (now : ℕ) (c : Command D) (r : Runtime D S)
      → IsAccounted r
      → BeginsWith ready r
      → BeginsWith ready (handle_type sink type now c r).0
  unfolding handle_type
  handle_type-Begins start now c r a b = handle_start-Begins now c r b
  handle_type-Begins append now c r a b = handle_append-Begins now c r a b
  handle_type-Begins finish now c r a b = handle_finish-Begins c r a b
  handle_type-Begins interrupt now c r a b = handle_interrupt-Begins c r b
  handle_type-Begins shutdown now c r a b = b

  handle_start-running :
      (now : ℕ) (c : Command D) (r : Runtime D S)
      → (handle_start sink now c r).stopping ≡ r.stopping
  unfolding handle_start start_session
  handle_start-running now c r = ground arith

  commit-running :
      (force : Bool) (r : Runtime D S)
      → IsAccounted r
      → (commit_available_locked force r).stopping ≡ r.stopping
  commit-running force r a = (commit_available_locked-accounted force r a).frame.same_stopping

  handle_append-running :
      (now : ℕ) (c : Command D) (r : Runtime D S)
      → IsAccounted r
      → (handle_append sink now c r).stopping ≡ r.stopping
  unfolding handle_append accept_text
  handle_append-running now c r a = ground (
    arith,
    commit-running false (record r {
      owned_text_bytes = add_size r.owned_text_bytes (length c.text);
      buffer = r.buffer ++ c.text;
      last_append = now;
    }),
    received-IsAccounted sink now c.text r,
  )

  handle_finish-running :
      (c : Command D) (r : Runtime D S)
      → IsAccounted r
      → (handle_finish sink c r).stopping ≡ r.stopping
  unfolding handle_finish
  handle_finish-running c r a =
      ground (arith, commit-running true (record r { accepting = false }) (ground arith))

  handle_interrupt-running :
      (c : Command D) (r : Runtime D S) → (handle_interrupt sink c r).stopping ≡ r.stopping
  unfolding handle_interrupt interrupt_session
  handle_interrupt-running c r = ground arith

  handle_type-running :
      (type : CommandType) (now : ℕ) (c : Command D) (r : Runtime D S)
      → IsAccounted r
      → (handle_type sink type now c r).0.stopping ≡ r.stopping
  unfolding handle_type
  handle_type-running start now c r a = handle_start-running now c r
  handle_type-running append now c r a = handle_append-running now c r a
  handle_type-running finish now c r a = handle_finish-running c r a
  handle_type-running interrupt now c r a = handle_interrupt-running c r
  handle_type-running shutdown now c r a = refl

  pub emit-IsServing :
      (e : Event D) (r : Runtime D S) → IsServing ready r → IsServing ready (emit e r)
  emit-IsServing e r s = record {
    accounted = let a = s.accounted in ground arith;
    running = s.running;
    begins = emit-Begins e r s.begins;
  }

  pub handle-IsServing :
      (now : ℕ) (c : Command D) (r : Runtime D S)
      → IsServing ready r
      → IsServing ready (handle sink now c r).0
  handle-IsServing now c r s = record {
    accounted = handle-IsAccounted sink now c r s.accounted;
    running = unfold handle in handle_type-running c.type now c r s.accounted ∙ s.running;
    begins = unfold handle in handle_type-Begins c.type now c r s.accounted s.begins;
  }
