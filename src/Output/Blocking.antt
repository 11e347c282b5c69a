-- ===== src/Output/Blocking.antt =====
-- `enqueue`: what it lets in, and when it cannot return.
use tiny_robotic_voice.Common.{
  ℕ, ◌+◌, ◌≤◌, ◌<◌, ◌≡◌, refl, Bool, true, false, Option, none, some, List, [], ◌∷◌, ◌++◌, pos,
  arith, if-elim, append_assoc, append-nil,
}
use tiny_robotic_voice.Audio.{PcmAudio, frame_count, Attempt, refused, queued, sleeping}
use tiny_robotic_voice.Output.{
  QueuedAudio, Output, enqueue_round, enqueue_loop, enqueue, enqueued, accepts_format, settle,
  interrupt, is_drained, none_of_generation,
}
use tiny_robotic_voice.Output.Pending.{queue_pending, pending, rest_of_current}
use tiny_robotic_voice.Output.Invariant.{IsValid, enqueue_round-IsValid}

-- What the other threads do while the caller sleeps keeps a property of the state.
abbrev pub AllKeep : (Output → Type 0) → List (Output → Output) → Type 0
AllKeep P [] = Unit {0}
AllKeep P (others ∷ rest) = ((o : Output) → P o → P (others o)) × AllKeep P rest

settle-elim :
    (P : Option Bool × Output → Type 0) (attempt : Attempt Output) (o : Output)
    (rest : Option Bool × Output)
    → P (some false, o)
    → ((o' : Output) → attempt ≡ queued o' → P (some true, o'))
    → (attempt ≡ sleeping → P rest)
    → P (settle attempt o rest)
settle-elim P refused o rest a b c = a
settle-elim P (queued o') o rest a b c = b o' refl
settle-elim P sleeping o rest a b c = c refl

enqueue_loop-IsValid :
    (generation : ℕ) (audio : PcmAudio) (sleeps : List (Output → Output)) (o : Output)
    → audio.channels ≡ pos 1
    → AllKeep IsValid sleeps
    → IsValid o
    → IsValid (enqueue_loop generation audio sleeps o).1
unfolding enqueue_loop
enqueue_loop-IsValid generation audio [] o m k v =
    settle-elim (λ r. IsValid r.1) (enqueue_round generation audio o) o (none, o) v
      (λ o'. enqueue_round-IsValid generation audio o o' m v) (λ _. v)
enqueue_loop-IsValid generation audio (others ∷ rest) o m k v =
    settle-elim (λ r. IsValid r.1) (enqueue_round generation audio o) o _ v
      (λ o'. enqueue_round-IsValid generation audio o o' m v)
      (λ _. enqueue_loop-IsValid generation audio rest (others o) m k.1 (k.0 o v))

-- `enqueue` leaves a well-formed queue, whatever it returns and however often it sleeps, if the
-- other threads do.
pub enqueue-IsValid :
    (generation : ℕ) (audio : PcmAudio) (sleeps : List (Output → Output)) (o : Output)
    → AllKeep IsValid sleeps
    → IsValid o
    → IsValid (enqueue generation audio sleeps o).1
unfolding enqueue
enqueue-IsValid generation audio sleeps o k v =
    if-elim {A = Option Bool × Output} (λ r. IsValid r.1) (accepts_format o audio) _ _
      (λ accepted. enqueue_loop-IsValid generation audio sleeps o (ground arith) k v) (λ _. v)

queue_pending-append :
    (valid : ℕ) (xs ys : List QueuedAudio)
    → queue_pending valid (xs ++ ys) ≡ queue_pending valid xs ++ queue_pending valid ys
queue_pending-append valid [] ys = refl
queue_pending-append valid (x ∷ xs) ys = rw (queue_pending-append valid xs ys, append_assoc)

pub enqueue_round-room :
    (audio : PcmAudio) (o : Output)
    → o.stopping ≡ false
    → o.queued_frames + frame_count audio ≤ o.maximum_frames
    → enqueue_round o.valid_generation audio o ≡ queued (enqueued o.valid_generation audio o)
unfolding enqueue_round
enqueue_round-room audio o running room = ground arith

enqueue_loop-queued :
    (generation : ℕ) (audio : PcmAudio) (sleeps : List (Output → Output)) (o o' : Output)
    → enqueue_round generation audio o ≡ queued o'
    → enqueue_loop generation audio sleeps o ≡ (some true, o')
unfolding enqueue_loop
enqueue_loop-queued generation audio [] o o' e = rw e
enqueue_loop-queued generation audio (others ∷ rest) o o' e = rw e

pub pending-enqueued :
    (audio : PcmAudio) (o : Output)
    → pending o.valid_generation (enqueued o.valid_generation audio o)
      ≡ pending o.valid_generation o ++ audio.samples
pending-enqueued audio o = ground (
  arith,
  queue_pending-append o.valid_generation o.queue
      (record { generation = o.valid_generation; audio = audio } ∷ []),
  append-nil audio.samples,
  append_assoc (rest_of_current o) (queue_pending o.valid_generation o.queue) audio.samples,
)

-- There is room: the call returns at once.
pub enqueue-queued :
    (audio : PcmAudio) (sleeps : List (Output → Output)) (o : Output)
    → accepts_format o audio ≡ true
    → o.stopping ≡ false
    → o.queued_frames + frame_count audio ≤ o.maximum_frames
    → enqueue o.valid_generation audio sleeps o ≡ (some true, enqueued o.valid_generation audio o)
unfolding enqueue
enqueue-queued audio sleeps o f running room =
    rw
      (
        f,
        enqueue_loop-queued o.valid_generation audio sleeps o (enqueued o.valid_generation audio o)
            (enqueue_round-room audio o running room),
      )
      refl

-- Audio of the valid generation in an accepted format for which there is room is queued at once,
-- behind all that is pending, whatever the other threads would do later.
pub pending-enqueue :
    (audio : PcmAudio) (sleeps : List (Output → Output)) (o : Output)
    → accepts_format o audio ≡ true
    → o.stopping ≡ false
    → o.queued_frames + frame_count audio ≤ o.maximum_frames
    → let valid = o.valid_generation in
      let (result, after) = enqueue valid audio sleeps o in
      (result ≡ some true) × (pending valid after ≡ pending valid o ++ audio.samples)
pending-enqueue audio sleeps o f running room =
    rw (enqueue-queued audio sleeps o f running room) (refl, pending-enqueued audio o)

-- A state in which `enqueue` of this audio has to wait for more room than there can ever be.
pub record IsStuck (generation : ℕ) (audio : PcmAudio) (o : Output) : Type 0 where
  pub running : o.stopping ≡ false
  pub current : o.valid_generation ≡ generation
  pub too_long : o.maximum_frames < frame_count audio

enqueue_loop-blocks :
    (generation : ℕ) (audio : PcmAudio) (sleeps : List (Output → Output)) (o : Output)
    → AllKeep (IsStuck generation audio) sleeps
    → IsStuck generation audio o
    → (enqueue_loop generation audio sleeps o).0 ≡ none
unfolding enqueue_loop enqueue_round
enqueue_loop-blocks generation audio [] o k s = ground arith
enqueue_loop-blocks generation audio (others ∷ rest) o k s =
    ground (arith, enqueue_loop-blocks generation audio rest (others o) k.1 (k.0 o s))

-- Audio longer than the maximum queue never gets in and is never refused: the call sleeps as long
-- as nobody stops the output or makes another generation valid.
pub enqueue-blocks :
    (generation : ℕ) (audio : PcmAudio) (sleeps : List (Output → Output)) (o : Output)
    → accepts_format o audio ≡ true
    → AllKeep (IsStuck generation audio) sleeps
    → IsStuck generation audio o
    → (enqueue generation audio sleeps o).0 ≡ none
unfolding enqueue
enqueue-blocks generation audio sleeps o f k s =
    ground (arith, enqueue_loop-blocks generation audio sleeps o k s)

none_of_generation-pending :
    (generation : ℕ) (items : List QueuedAudio)
    → none_of_generation generation items ≡ true
    → queue_pending generation items ≡ []
unfolding none_of_generation
none_of_generation-pending generation [] h = refl
none_of_generation-pending generation (item ∷ rest) h =
    ground (arith, none_of_generation-pending generation rest)

-- A generation that is reported drained has nothing left to play, and `interrupt` drains every one.
pub is_drained-pending :
    (generation : ℕ) (o : Output)
    → (is_drained generation o ≡ true → pending generation o ≡ [])
      × (is_drained generation (interrupt o) ≡ true)
unfolding is_drained interrupt none_of_generation
is_drained-pending generation o =
    (λ h. ground (arith, none_of_generation-pending generation o.queue), refl)
