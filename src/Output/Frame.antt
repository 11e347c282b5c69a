-- ===== src/Output/Frame.antt =====
-- What the callback of src/miniaudio_output.cpp leaves as it is.
use tiny_robotic_voice.Common.{
  ℕ, zero, suc, ◌-◌, ◌≡◌, min, false, Bool, List, [], ◌∷◌, ◌++◌, ℤ, length, ltb, arith, if-elim,
  not, ◌||◌,
}
use tiny_robotic_voice.Audio.{frame_count}
use tiny_robotic_voice.Output.{
  QueuedAudio, Output, discard_current, pop_valid, next_current, advance, copied, fill, callback,
  remaining, take_frames,
}

pub record SameSetting (o p : Output) : Type 0 where
  pub same_rate : p.device_rate ≡ o.device_rate
  pub same_maximum : p.maximum_frames ≡ o.maximum_frames
  pub same_generation : p.valid_generation ≡ o.valid_generation
  pub same_stopping : p.stopping ≡ o.stopping
  pub same_initialized : p.initialized ≡ o.initialized

SameSetting-refl : (o : Output) → SameSetting o o
SameSetting-refl o = ground arith

SameSetting-trans : (o p q : Output) → SameSetting o p → SameSetting p q → SameSetting o q
SameSetting-trans o p q a b = ground arith

discard_current-SameSetting : (valid : ℕ) (o : Output) → SameSetting o (discard_current valid o)
unfolding discard_current
discard_current-SameSetting valid o = ground arith

pop_valid-SameSetting :
    (valid : ℕ) (items : List QueuedAudio) (o : Output) → SameSetting o (pop_valid valid items o)
unfolding pop_valid
pop_valid-SameSetting valid [] o = ground arith
pop_valid-SameSetting valid (item ∷ rest) o = ground (
  arith,
  pop_valid-SameSetting valid rest (record o {
    queue = rest;
    current = item;
    current_frame = 0;
    has_current = false;
    queued_frames = take_frames o.queued_frames (frame_count item.audio);
  }),
)

next_current-SameSetting : (valid : ℕ) (o : Output) → SameSetting o (next_current valid o)
unfolding next_current
next_current-SameSetting valid o = ground (arith, pop_valid-SameSetting valid o.queue o)

advance-SameSetting : (count : ℕ) (o : Output) → SameSetting o (advance count o)
unfolding advance
advance-SameSetting count o = ground arith

fill-SameSetting :
    (fuel valid n : ℕ) (out : List ℤ) (o : Output) → SameSetting o (fill fuel valid n out o).1
unfolding fill
fill-SameSetting zero valid n out o = SameSetting-refl o
fill-SameSetting (suc fuel) valid n out o =
    if-elim {A = List ℤ × Output} (λ r. SameSetting o r.1) (ltb (length out) n) _ _
      (λ _.
        if-elim {A = List ℤ × Output} (λ r. SameSetting o r.1) ready.has_current _ _
          (λ _. SameSetting-trans o ready _ same (
            SameSetting-trans ready next _ (advance-SameSetting count ready)
              (fill-SameSetting fuel valid n (out ++ copied count ready) next)))
          (λ _. same))
      (λ _. SameSetting-refl o)
  where
    ready : Output
    ready = next_current valid (discard_current valid o)

    count : ℕ
    count = min (remaining ready) (n - length out)

    next : Output
    next = advance count ready

    same : SameSetting o ready
    same =
        SameSetting-trans o (discard_current valid o) ready (discard_current-SameSetting valid o)
          (next_current-SameSetting valid (discard_current valid o))

pub callback-SameSetting :
    (locked : Bool) (n : ℕ) (o : Output) → SameSetting o (callback locked n o).1
unfolding callback
callback-SameSetting locked n o =
    if-elim {A = List ℤ × Output} (λ r. SameSetting o r.1) (not locked || o.stopping) _ _
      (λ _. SameSetting-refl o)
      (λ _. fill-SameSetting (suc (suc (length o.queue))) o.valid_generation n [] o)
