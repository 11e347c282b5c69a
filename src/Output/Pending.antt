-- ===== src/Output/Pending.antt =====
-- The abstract view of the audio queue: the samples that are still to be played for a generation.
use tiny_robotic_voice.Common.{ℕ, ◌+◌, ◌-◌, ◌&&◌, List, [], ◌∷◌, ◌++◌, ℤ, drop, ◌==◌, if◌then◌else◌}
use tiny_robotic_voice.Audio.{frame_count}
use tiny_robotic_voice.Output.{QueuedAudio, Output}

-- What is left of the current item.
abbrev pub rest_of_current : Output → List ℤ
rest_of_current o = drop o.current_frame o.current.audio.samples

abbrev pub queue_pending : ℕ → List QueuedAudio → List ℤ
queue_pending valid [] = []
queue_pending valid (item ∷ rest) =
    (if item.generation == valid then item.audio.samples else []) ++ queue_pending valid rest

abbrev pub pending : ℕ → Output → List ℤ
pending valid o =
    (if o.has_current && o.current.generation == valid then rest_of_current o else [])
    ++ queue_pending valid o.queue

abbrev pub queue_frames : List QueuedAudio → ℕ
queue_frames [] = 0
queue_frames (item ∷ rest) = frame_count item.audio + queue_frames rest

abbrev pub current_frames : Output → ℕ
current_frames o = if o.has_current then frame_count o.current.audio - o.current_frame else 0
