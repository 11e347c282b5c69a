-- ===== src/Output/Opening.antt =====
-- `initialize` of src/miniaudio_output.cpp.
use tiny_robotic_voice.Common.{ℕ, ◌*◌, ◌^◌, ◌<◌, ◌≡◌, ◌≢◌, ◌⊎◌, true, false, none, pos, arith}
use tiny_robotic_voice.Audio.{frame_count}
use tiny_robotic_voice.Output.{Device, initialize, initial_output}
use tiny_robotic_voice.Output.Invariant.{IsValid}

-- With a positive sample rate of an `int`, a fresh output is well formed and holds no frames
-- afterwards. Either the device was opened and started, there is no error, and the output is
-- initialized with room for 20 seconds; or the device was not opened or not started, there is an
-- error, and the output is not initialized.
pub initialize-IsValid :
    (device : Device) (rate : ℕ)
    → 0 < rate
    → rate < 2 ^ 31
    → let (error, o) = initialize device (pos rate) initial_output in
      IsValid o
      × (o.queued_frames ≡ 0)
      × ((error ≡ none)
            × (o.initialized ≡ true)
            × (o.maximum_frames ≡ rate * 20)
            × ((device.init rate).0 ≡ 0)
            × (device.start ≡ 0)
          ⊎ ((error ≢ none)
              × (o.initialized ≡ false)
              × (((device.init rate).0 ≢ 0) ⊎ (device.start ≢ 0))))
unfolding initialize initial_output frame_count
initialize-IsValid device rate h k = ground arith
