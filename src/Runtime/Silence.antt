-- ===== src/Runtime/Silence.antt =====
-- The runtime of src/streaming_runtime.cpp in front of the output of src/miniaudio_output.cpp: what
-- is heard after an interrupt.
use tiny_robotic_voice.Common.{ℕ, ◌≡◌, refl, subst, sym, Bool, true, pos, replicate, add_size}
use tiny_robotic_voice.Double.{Double}
use tiny_robotic_voice.Output.{Output, callback, set_valid_generation, interrupt, output_sink}
use tiny_robotic_voice.Output.Invariant.{IsValid, interrupt-IsValid, retargeted-IsValid}
use tiny_robotic_voice.Output.Calls.{callback-silent}
use tiny_robotic_voice.Protocol.{Command}
use tiny_robotic_voice.Runtime.{Runtime, handle_interrupt}
use tiny_robotic_voice.Runtime.Sessions.{handle_interrupt-cancels}

-- The output as an interrupt leaves it plays silence, with or without the mutex.
interrupted-silent :
    (locked : Bool) (n generation : ℕ) (o : Output)
    → IsValid o
    → (callback locked n (interrupt (set_valid_generation generation o))).0 ≡ replicate n (pos 0)
unfolding interrupt set_valid_generation
interrupted-silent locked n generation o v =
    callback-silent locked n (interrupt (set_valid_generation generation o))
      (interrupt-IsValid (set_valid_generation generation o) (retargeted-IsValid generation o v))
      refl

module _ {D : Type 0} ⦃d : Double D⦄ where
  -- An interrupt that names the active session silences the device at once: whatever was queued or
  -- half played in a well-formed output, the next callback gives nothing but zeros.
  pub handle_interrupt-silences :
      (locked : Bool) (n : ℕ) (c : Command D) (r : Runtime D Output)
      → IsValid r.audio
      → r.active ≡ true
      → c.session ≡ r.session
      → (callback locked n (handle_interrupt output_sink c r).audio).0 ≡ replicate n (pos 0)
  handle_interrupt-silences locked n c r v active same =
      subst (λ o. (callback locked n o).0 ≡ replicate n (pos 0))
        (sym (handle_interrupt-cancels output_sink c r active same).4)
        (interrupted-silent locked n (add_size r.current_generation 1) r.audio v)
