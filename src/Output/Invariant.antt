-- ===== src/Output/Invariant.antt =====
-- The well-formed states of the audio queue, kept by every method and by each part of the callback.
use tiny_robotic_voice.Common.{
  ℕ, ◌+◌, ◌^◌, ◌≤◌, ◌<◌, ◌≡◌, refl, ◌⊎◌, true, false, List, [], ◌∷◌, ◌++◌, pos, arith,
}
use tiny_robotic_voice.Audio.{PcmAudio, frame_count, queued}
use tiny_robotic_voice.Output.{
  QueuedAudio, Output, discard_current, pop_valid, next_current, advance, take_frames,
  enqueue_round, enqueued, has_room, interrupt, set_valid_generation,
}
use tiny_robotic_voice.Output.Pending.{queue_frames, current_frames}

abbrev pub AllMono : List QueuedAudio → Type 0
AllMono [] = Unit {0}
AllMono (item ∷ rest) = (item.audio.channels ≡ pos 1) × AllMono rest

-- `queued_frames` counts what is left of the current item and of the queue, exactly, and never more
-- than the maximum; the cursor is within the current item; every item has one channel.
pub record IsValid (o : Output) : Type 0 where
  pub counted : o.queued_frames ≡ current_frames o + queue_frames o.queue
  pub bounded : o.queued_frames ≤ o.maximum_frames
  pub small : o.maximum_frames < 2 ^ 64
  pub cursor : o.current_frame ≤ frame_count o.current.audio
  pub idle : (o.has_current ≡ true) ⊎ (o.current_frame ≡ 0)
  pub mono : o.current.audio.channels ≡ pos 1
  pub queue_mono : AllMono o.queue

pub discard_current-IsValid :
    (valid : ℕ) (o : Output) → IsValid o → IsValid (discard_current valid o)
unfolding discard_current
discard_current-IsValid valid o v = ground arith

pub pop_valid-IsValid :
    (valid : ℕ) (items : List QueuedAudio) (o : Output)
    → o.has_current ≡ false
    → o.queue ≡ items
    → IsValid o
    → IsValid (pop_valid valid items o)
unfolding pop_valid
pop_valid-IsValid valid [] o h e v = ground arith
pop_valid-IsValid valid (item ∷ rest) o h e v = ground (
  arith,
  pop_valid-IsValid valid rest
      (record o {
        queue = rest;
        current = item;
        current_frame = 0;
        has_current = false;
        queued_frames = take_frames o.queued_frames (frame_count item.audio);
      })
      refl refl,
)

pub advance-IsValid :
    (count : ℕ) (o : Output)
    → o.has_current ≡ true
    → o.current_frame + count ≤ frame_count o.current.audio
    → IsValid o
    → IsValid (advance count o)
unfolding advance
advance-IsValid count o h k v = ground arith

AllMono-append : (xs ys : List QueuedAudio) → AllMono xs → AllMono ys → AllMono (xs ++ ys)
AllMono-append [] ys hx hy = hy
AllMono-append (x ∷ xs) ys hx hy = (hx.0, AllMono-append xs ys hx.1 hy)

queue_frames-append :
    (xs ys : List QueuedAudio) → queue_frames (xs ++ ys) ≡ queue_frames xs + queue_frames ys
queue_frames-append [] ys = omega arith
queue_frames-append (x ∷ xs) ys = omega (arith, queue_frames-append xs ys)

pub interrupt-IsValid : (o : Output) → IsValid o → IsValid (interrupt o)
unfolding interrupt frame_count
interrupt-IsValid o v = ground arith

-- A push for which there is room, of whatever generation.
pub enqueued-IsValid :
    (generation : ℕ) (audio : PcmAudio) (o : Output)
    → audio.channels ≡ pos 1
    → has_room audio o ≡ true
    → IsValid o
    → IsValid (enqueued generation audio o)
enqueued-IsValid generation audio o m room v = ground (
  arith,
  AllMono-append o.queue (record { generation = generation; audio = audio } ∷ []),
  queue_frames-append o.queue (record { generation = generation; audio = audio } ∷ []),
)

pub enqueue_round-IsValid :
    (generation : ℕ) (audio : PcmAudio) (o o' : Output)
    → audio.channels ≡ pos 1
    → IsValid o
    → enqueue_round generation audio o ≡ queued o'
    → IsValid o'
unfolding enqueue_round
enqueue_round-IsValid generation audio o o' m v e = ground (
  arith,
  AllMono-append o.queue (record { generation = generation; audio = audio } ∷ []),
  queue_frames-append o.queue (record { generation = generation; audio = audio } ∷ []),
)

pub next_current-IsValid : (valid : ℕ) (o : Output) → IsValid o → IsValid (next_current valid o)
unfolding next_current
next_current-IsValid valid o v = ground (arith, pop_valid-IsValid valid o.queue o)

pub retargeted-IsValid :
    (generation : ℕ) (o : Output) → IsValid o → IsValid (set_valid_generation generation o)
unfolding set_valid_generation
retargeted-IsValid generation o v = ground arith
