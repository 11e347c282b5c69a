-- ===== src/Runtime/Ending.antt =====
-- A session of src/streaming_runtime.cpp comes to its end behind a finish.
use tiny_robotic_voice.Common.{◌≡◌, false, Bytes, [], Result}
use tiny_robotic_voice.Double.{Double}
use tiny_robotic_voice.Audio.{PcmAudio, AudioSink}
use tiny_robotic_voice.Audio.Gain.{GainMath}
use tiny_robotic_voice.Voice.{VoiceSettings}
use tiny_robotic_voice.Runtime.{Runtime}
use tiny_robotic_voice.Runtime.Accounting.{IsAccounted}

module _ {D S : Type 0} ⦃d : Double D⦄ (sink : AudioSink S)
    (synthesize : Bytes → VoiceSettings D → Result Bytes PcmAudio) (m : GainMath D) where
  -- What a finish of the session leaves to the threads.
  record Finishing (r r' : Runtime D S) : Type 0 where
    accounted : IsAccounted r'
    closed : r'.accepting ≡ false
    empty : r'.buffer ≡ []
    same_active : r'.active ≡ r.active
    same_worker : r'.worker ≡ r.worker
    same_stopped : r'.jobs.stopped ≡ r.jobs.stopped
    same_stopping : r'.stopping ≡ r.stopping
    same_session : r'.session ≡ r.session
