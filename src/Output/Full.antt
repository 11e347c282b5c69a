-- ===== src/Output/Full.antt =====
-- The queue of src/miniaudio_output.cpp holds no empty item once none was put in: what is left to
-- play and `is_drained` agree then.
use tiny_robotic_voice.Common.{
  ℕ, zero, suc, ◌+◌, ◌-◌, ◌≤◌, ◌<◌, ◌≡◌, refl, ◌⊎◌, Bool, true, false, not, ◌&&◌, ◌||◌, List, [],
  ◌∷◌, ◌++◌, ℤ, length, length-drop, min, arith, ltb, ◌==◌, if◌then◌else◌, if-elim,
}
use tiny_robotic_voice.Audio.{PcmAudio, frame_count, frame_count_mono}
use tiny_robotic_voice.Output.{
  QueuedAudio, Output, discard_current, pop_valid, next_current, advance, copied, remaining,
  take_frames, fill, callback, enqueued, is_drained, none_of_generation,
}
use tiny_robotic_voice.Output.Pending.{pending, queue_pending, rest_of_current}
use tiny_robotic_voice.Output.Invariant.{IsValid, AllMono}

abbrev pub AllFull : List QueuedAudio → Type 0
AllFull [] = Unit {0}
AllFull (item ∷ rest) = (0 < frame_count item.audio) × AllFull rest

-- No item is empty, and the current one is not used up.
pub record IsFull (o : Output) : Type 0 where
  pub current_left : (o.has_current ≡ false) ⊎ (o.current_frame < frame_count o.current.audio)
  pub queue_full : AllFull o.queue

discard_current-IsFull : (valid : ℕ) (o : Output) → IsFull o → IsFull (discard_current valid o)
unfolding discard_current
discard_current-IsFull valid o f = ground arith

pop_valid-IsFull :
    (valid : ℕ) (items : List QueuedAudio) (o : Output)
    → AllFull items
    → o.has_current ≡ false
    → IsFull (pop_valid valid items o)
unfolding pop_valid
pop_valid-IsFull valid [] o a h = ground arith
pop_valid-IsFull valid (item ∷ rest) o a h = ground (
  arith,
  pop_valid-IsFull valid rest
      (record o {
        queue = rest;
        current = item;
        current_frame = 0;
        has_current = false;
        queued_frames = take_frames o.queued_frames (frame_count item.audio);
      })
      a.1 refl,
)

next_current-IsFull : (valid : ℕ) (o : Output) → IsFull o → IsFull (next_current valid o)
unfolding next_current
next_current-IsFull valid o f = ground (arith, pop_valid-IsFull valid o.queue o f.queue_full)

advance-IsFull :
    (count : ℕ) (o : Output)
    → o.current_frame + count ≤ frame_count o.current.audio
    → IsFull o
    → IsFull (advance count o)
unfolding advance
advance-IsFull count o h f = ground arith

fill-IsFull :
    (fuel valid n : ℕ) (out : List ℤ) (o : Output) → IsFull o → IsFull (fill fuel valid n out o).1
unfolding fill
fill-IsFull zero valid n out o f = f
fill-IsFull (suc fuel) valid n out o f =
    if-elim {A = List ℤ × Output} (λ r. IsFull r.1) (ltb (length out) n) _ _
      (λ _.
        if-elim {A = List ℤ × Output} (λ r. IsFull r.1) ready.has_current _ _
          (λ sounding.
            fill-IsFull fuel valid n (out ++ copied count ready) (advance count ready)
              (advance-IsFull count ready (ground (arith, ready_full.current_left)) ready_full))
          (λ _. ready_full))
      (λ _. f)
  where
    ready : Output
    ready = next_current valid (discard_current valid o)

    count : ℕ
    count = min (remaining ready) (n - length out)

    ready_full : IsFull ready
    ready_full =
        next_current-IsFull valid (discard_current valid o) (discard_current-IsFull valid o f)

pub callback-IsFull :
    (locked : Bool) (n : ℕ) (o : Output) → IsFull o → IsFull (callback locked n o).1
unfolding callback
callback-IsFull locked n o f =
    if-elim {A = List ℤ × Output} (λ r. IsFull r.1) (not locked || o.stopping) _ _ (λ _. f)
      (λ _. fill-IsFull (suc (suc (length o.queue))) o.valid_generation n [] o f)

AllFull-append : (xs ys : List QueuedAudio) → AllFull xs → AllFull ys → AllFull (xs ++ ys)
AllFull-append [] ys a b = b
AllFull-append (x ∷ xs) ys a b = (a.0, AllFull-append xs ys a.1 b)

pub enqueued-IsFull :
    (generation : ℕ) (audio : PcmAudio) (o : Output)
    → 0 < frame_count audio
    → IsFull o
    → IsFull (enqueued generation audio o)
enqueued-IsFull generation audio o h f = record {
  current_left = f.current_left;
  queue_full =
      AllFull-append o.queue (record { generation = generation; audio = audio } ∷ []) f.queue_full
        (h, tt);
}

append-empty : {A : Type 0} (xs ys : List A) → xs ++ ys ≡ [] → (length xs ≡ 0) × (ys ≡ [])
append-empty [] ys h = (refl, h)
append-empty (x ∷ xs) ys h = cc

none_pending :
    (generation : ℕ) (items : List QueuedAudio)
    → AllMono items
    → AllFull items
    → queue_pending generation items ≡ []
    → none_of_generation generation items ≡ true
unfolding none_of_generation
none_pending generation [] m f h = refl
none_pending generation (item ∷ rest) m f h =
    let (here, there) =
      append-empty (if item.generation == generation then item.audio.samples else [])
        (queue_pending generation rest) h in
    ground (
      arith,
      here,
      none_pending generation rest m.1 f.1 there,
      frame_count_mono item.audio m.0,
      f.0,
    )

-- In a well-formed queue with no empty item, a generation with nothing to play is drained.
pub pending-drained :
    (generation : ℕ) (o : Output)
    → IsValid o
    → IsFull o
    → pending generation o ≡ []
    → is_drained generation o ≡ true
unfolding is_drained
pending-drained generation o v f h =
    let (here, there) =
      append-empty
        (if o.has_current && o.current.generation == generation then rest_of_current o else [])
        (queue_pending generation o.queue) h in
    ground (
      arith,
      here,
      f.current_left,
      none_pending generation o.queue v.queue_mono f.queue_full there,
      frame_count_mono o.current.audio v.mono,
      length-drop o.current_frame o.current.audio.samples,
    )
