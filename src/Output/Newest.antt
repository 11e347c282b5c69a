-- ===== src/Output/Newest.antt =====
-- The generations in the queue of src/miniaudio_output.cpp: no step brings in a newer one than the
-- valid one, so a newer generation has nothing to play.
use tiny_robotic_voice.Common.{
  ℕ, zero, suc, ◌-◌, ◌≤◌, ◌<◌, ◌≡◌, refl, min, false, Bool, List, [], ◌∷◌, ◌++◌, ℤ, length, ltb,
  arith, if-elim, not, ◌||◌,
}
use tiny_robotic_voice.Audio.{PcmAudio, frame_count}
use tiny_robotic_voice.Output.{
  QueuedAudio, Output, discard_current, pop_valid, next_current, advance, copied, fill, callback,
  remaining, take_frames, enqueued, interrupt,
}
use tiny_robotic_voice.Output.Pending.{queue_pending, pending}

abbrev pub AllUpTo : ℕ → List QueuedAudio → Type 0
AllUpTo g [] = Unit {0}
AllUpTo g (item ∷ rest) = (item.generation ≤ g) × AllUpTo g rest

-- Nothing in the output is newer than `g`.
pub record IsUpTo (g : ℕ) (o : Output) : Type 0 where
  pub current_up_to : o.current.generation ≤ g
  pub queue_up_to : AllUpTo g o.queue

AllUpTo-mono : (g h : ℕ) (items : List QueuedAudio) → g ≤ h → AllUpTo g items → AllUpTo h items
AllUpTo-mono g h [] le a = tt
AllUpTo-mono g h (item ∷ rest) le a = (omega (arith, a.0), AllUpTo-mono g h rest le a.1)

pub IsUpTo-mono : (g h : ℕ) (o : Output) → g ≤ h → IsUpTo g o → IsUpTo h o
IsUpTo-mono g h o le u = ground (arith, AllUpTo-mono g h o.queue le u.queue_up_to)

AllUpTo-append :
    (g : ℕ) (xs ys : List QueuedAudio) → AllUpTo g xs → AllUpTo g ys → AllUpTo g (xs ++ ys)
AllUpTo-append g [] ys a b = b
AllUpTo-append g (x ∷ xs) ys a b = (a.0, AllUpTo-append g xs ys a.1 b)

pub interrupt-IsUpTo : (g : ℕ) (o : Output) → IsUpTo g (interrupt o)
unfolding interrupt
interrupt-IsUpTo g o = ground arith

pub enqueued-IsUpTo :
    (g generation : ℕ) (audio : PcmAudio) (o : Output)
    → generation ≤ g
    → IsUpTo g o
    → IsUpTo g (enqueued generation audio o)
enqueued-IsUpTo g generation audio o older u = record {
  current_up_to = u.current_up_to;
  queue_up_to =
      AllUpTo-append g o.queue (record { generation = generation; audio = audio } ∷ [])
        u.queue_up_to (older, tt);
}

module _ (g : ℕ) where
  discard_current-IsUpTo :
      (valid : ℕ) (o : Output) → IsUpTo g o → IsUpTo g (discard_current valid o)
  unfolding discard_current
  discard_current-IsUpTo valid o u = ground arith

  pop_valid-IsUpTo :
      (valid : ℕ) (items : List QueuedAudio) (o : Output)
      → AllUpTo g items
      → IsUpTo g o
      → IsUpTo g (pop_valid valid items o)
  unfolding pop_valid
  pop_valid-IsUpTo valid [] o a u = ground arith
  pop_valid-IsUpTo valid (item ∷ rest) o a u = ground (
    arith,
    pop_valid-IsUpTo valid rest
        (record o {
          queue = rest;
          current = item;
          current_frame = 0;
          has_current = false;
          queued_frames = take_frames o.queued_frames (frame_count item.audio);
        })
        a.1,
  )

  next_current-IsUpTo : (valid : ℕ) (o : Output) → IsUpTo g o → IsUpTo g (next_current valid o)
  unfolding next_current
  next_current-IsUpTo valid o u = ground (arith, pop_valid-IsUpTo valid o.queue o u.queue_up_to u)

  advance-IsUpTo : (count : ℕ) (o : Output) → IsUpTo g o → IsUpTo g (advance count o)
  unfolding advance
  advance-IsUpTo count o u = ground arith

  fill-IsUpTo :
      (fuel valid n : ℕ) (out : List ℤ) (o : Output)
      → IsUpTo g o
      → IsUpTo g (fill fuel valid n out o).1
  unfolding fill
  fill-IsUpTo zero valid n out o u = u
  fill-IsUpTo (suc fuel) valid n out o u =
      if-elim {A = List ℤ × Output} (λ r. IsUpTo g r.1) (ltb (length out) n) _ _
        (λ _.
          if-elim {A = List ℤ × Output} (λ r. IsUpTo g r.1) ready.has_current _ _
            (λ _.
              fill-IsUpTo fuel valid n (out ++ copied count ready) (advance count ready)
                (advance-IsUpTo count ready ready_u))
            (λ _. ready_u))
        (λ _. u)
    where
      ready : Output
      ready = next_current valid (discard_current valid o)

      count : ℕ
      count = min (remaining ready) (n - length out)

      ready_u : IsUpTo g ready
      ready_u =
          next_current-IsUpTo valid (discard_current valid o) (discard_current-IsUpTo valid o u)

  pub callback-IsUpTo :
      (locked : Bool) (n : ℕ) (o : Output) → IsUpTo g o → IsUpTo g (callback locked n o).1
  unfolding callback
  callback-IsUpTo locked n o u =
      if-elim {A = List ℤ × Output} (λ r. IsUpTo g r.1) (not locked || o.stopping) _ _ (λ _. u)
        (λ _. fill-IsUpTo (suc (suc (length o.queue))) o.valid_generation n [] o u)

AllUpTo-pending :
    (g newer : ℕ) (items : List QueuedAudio)
    → AllUpTo g items
    → g < newer
    → queue_pending newer items ≡ []
AllUpTo-pending g newer [] a h = refl
AllUpTo-pending g newer (item ∷ rest) a h = ground (arith, AllUpTo-pending g newer rest a.1 h)

-- A newer generation has nothing to play.
pub IsUpTo-pending : (g newer : ℕ) (o : Output) → IsUpTo g o → g < newer → pending newer o ≡ []
IsUpTo-pending g newer o u h = ground (arith, AllUpTo-pending g newer o.queue u.queue_up_to h)
