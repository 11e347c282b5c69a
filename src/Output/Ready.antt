-- ===== src/Output/Ready.antt =====
-- The part of the callback that looks for an item of the valid generation.
use tiny_robotic_voice.Common.{
  ℕ, ◌+◌, ◌≤◌, ◌≡◌, refl, ◌∙◌, ◌⊎◌, true, false, List, [], ◌∷◌, length, arith, if◌then◌else◌,
}
use tiny_robotic_voice.Audio.{frame_count}
use tiny_robotic_voice.Output.{
  QueuedAudio, Output, discard_current, pop_valid, next_current, take_frames,
}
use tiny_robotic_voice.Output.Pending.{queue_pending, pending}

pending-discard_current :
    (valid : ℕ) (o : Output) → pending valid (discard_current valid o) ≡ pending valid o
unfolding discard_current
pending-discard_current valid o = ground arith

-- A current item is of the valid generation, or there is none and the queue is empty.
abbrev pub IsReady : ℕ → Output → Type 0
IsReady valid o =
    ((o.has_current ≡ true) × (o.current.generation ≡ valid))
    ⊎ ((o.has_current ≡ false) × (o.queue ≡ []))

pending-pop_valid :
    (valid : ℕ) (items : List QueuedAudio) (o : Output)
    → o.has_current ≡ false
    → pending valid (pop_valid valid items o) ≡ queue_pending valid items
unfolding pop_valid
pending-pop_valid valid [] o h = ground arith
pending-pop_valid valid (item ∷ rest) o h = ground (
  arith,
  pending-pop_valid valid rest
      (record o {
        queue = rest;
        current = item;
        current_frame = 0;
        has_current = false;
        queued_frames = take_frames o.queued_frames (frame_count item.audio);
      })
      refl,
)

pop_valid-IsReady :
    (valid : ℕ) (items : List QueuedAudio) (o : Output)
    → o.has_current ≡ false
    → IsReady valid (pop_valid valid items o)
unfolding pop_valid
pop_valid-IsReady valid [] o h = ground arith
pop_valid-IsReady valid (item ∷ rest) o h = ground (
  arith,
  pop_valid-IsReady valid rest
      (record o {
        queue = rest;
        current = item;
        current_frame = 0;
        has_current = false;
        queued_frames = take_frames o.queued_frames (frame_count item.audio);
      })
      refl,
)

-- After the two steps that look for an item.
abbrev pub readied : ℕ → Output → Output
readied valid o = next_current valid (discard_current valid o)

pub readied-IsReady : (valid : ℕ) (o : Output) → IsReady valid (readied valid o)
unfolding next_current discard_current
readied-IsReady valid o =
    ground
      (arith, pop_valid-IsReady valid (discard_current valid o).queue (discard_current valid o))

pending-next_current :
    (valid : ℕ) (o : Output) → pending valid (next_current valid o) ≡ pending valid o
unfolding next_current
pending-next_current valid o = ground (arith, pending-pop_valid valid o.queue o)

pub pending-readied : (valid : ℕ) (o : Output) → pending valid (readied valid o) ≡ pending valid o
pending-readied valid o =
    pending-next_current valid (discard_current valid o) ∙ pending-discard_current valid o

-- The items that are left, with the current one.
abbrev pub items_left : Output → ℕ
items_left o = (if o.has_current then 1 else 0) + length o.queue

pop_valid-items_left :
    (valid : ℕ) (items : List QueuedAudio) (o : Output)
    → o.has_current ≡ false
    → items_left (pop_valid valid items o) ≤ length items
unfolding pop_valid
pop_valid-items_left valid [] o h = ground arith
pop_valid-items_left valid (item ∷ rest) o h = ground (
  arith,
  pop_valid-items_left valid rest
      (record o {
        queue = rest;
        current = item;
        current_frame = 0;
        has_current = false;
        queued_frames = take_frames o.queued_frames (frame_count item.audio);
      })
      refl,
)

pub readied-items_left : (valid : ℕ) (o : Output) → items_left (readied valid o) ≤ items_left o
unfolding next_current discard_current
readied-items_left valid o =
    ground
      (arith, pop_valid-items_left valid (discard_current valid o).queue (discard_current valid o))
