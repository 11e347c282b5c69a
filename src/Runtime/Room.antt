-- ===== src/Runtime/Room.antt =====
-- A sink that has room for all the jobs of src/streaming_runtime.cpp that still wait, so that the
-- synthesis thread never sleeps in `enqueue`.
use tiny_robotic_voice.Common.{
  ℕ, suc, ◌+◌, ◌*◌, ◌^◌, ◌≤◌, ◌<◌, ◌≡◌, ◌≢◌, refl, sym, subst, Bool, true, false, Option, some,
  none, if◌then◌else◌, not, ◌&&◌, Bytes, List, [], ◌∷◌, length, ◌==◌, is_empty, arith, Result, ok,
  err, if-elim,
}
use tiny_robotic_voice.Double.{Double}
use tiny_robotic_voice.Audio.{PcmAudio, AudioSink, frame_count}
use tiny_robotic_voice.Audio.Gain.{GainMath, apply_output_gain}
use tiny_robotic_voice.Voice.{VoiceSettings}
use tiny_robotic_voice.Runtime.Jobs.{SynthesisJob, pop, pop_jobs}
use tiny_robotic_voice.Runtime.{
  Runtime, Worker, popping, taken, synthesizing, enqueueing, pushing, queued_audio, failed,
  releasing, settling, ended,
}
use tiny_robotic_voice.Runtime.Threads.{
  after_pop, after_synthesis, after_push, announce, report, step_worker, synthesis_step,
}
use tiny_robotic_voice.Output.{Output, output_sink}

module _ {D S : Type 0} ⦃d : Double D⦄ (sink : AudioSink S)
    (synthesize : Bytes → VoiceSettings D → Result Bytes PcmAudio) (m : GainMath D)
    (Fits : PcmAudio → Type 0) (Room : ℕ → S → Type 0) where
  -- `Room n s`: the sink takes n more pieces of audio that fits.
  pub record HasRoom : Type 0 where
    pub awake :
        (n generation : ℕ) (audio : PcmAudio) (s : S)
        → Fits audio
        → Room (suc n) s
        → sink.push generation audio s ≢ none
    pub used :
        (n generation : ℕ) (audio : PcmAudio) (s s' : S)
        → Fits audio
        → Room (suc n) s
        → sink.push generation audio s ≡ some s'
        → Room n s'
    pub unused : (n : ℕ) (s : S) → Room (suc n) s → Room n s

  -- The pieces that may still come, with so many jobs behind the one in hand.
  abbrev pub pieces : Worker D → ℕ → ℕ
  pieces popping n = n
  pieces (taken job) n = suc n
  pieces (synthesizing job) n = suc n
  pieces (enqueueing job audio) n = suc n
  pieces (pushing job audio) n = suc n
  pieces (queued_audio job) n = n
  pieces (failed job what) n = n
  pieces (releasing job) n = n
  pieces settling n = n
  pieces ended n = n

  -- What the engine says for this job fits.
  abbrev pub FitsJob : SynthesisJob D → Type 0
  FitsJob job =
      (pcm : PcmAudio)
      → synthesize job.text job.voice ≡ ok pcm
      → Fits (apply_output_gain m pcm job.voice)

  abbrev pub AllFit : List (SynthesisJob D) → Type 0
  AllFit [] = Unit {0}
  AllFit (job ∷ rest) = FitsJob job × AllFit rest

  abbrev pub HoldsFitting : Worker D → Type 0
  HoldsFitting (taken job) = FitsJob job
  HoldsFitting (synthesizing job) = FitsJob job
  HoldsFitting (enqueueing job audio) = Fits audio
  HoldsFitting (pushing job audio) = Fits audio
  HoldsFitting w = Unit {0}

  -- There is room for the job in hand and for all that wait, and what comes of them fits.
  pub record IsRoomy (r : Runtime D S) : Type 0 where
    pub room : Room (pieces r.worker (length r.jobs.jobs)) r.audio
    pub jobs_fit : AllFit r.jobs.jobs
    pub fits : HoldsFitting r.worker

  pop_jobs-IsRoomy :
      (jobs : List (SynthesisJob D)) (r : Runtime D S)
      → r.jobs.jobs ≡ jobs
      → r.worker ≡ popping
      → IsRoomy r
      → IsRoomy (after_pop sink synthesize m (pop_jobs jobs r.jobs) r)
  unfolding after_pop pop_jobs
  pop_jobs-IsRoomy [] r e w i =
      let here = subst (λ w. Room (pieces w (length r.jobs.jobs)) r.audio) w i.room in
      if-elim (λ p. IsRoomy (after_pop sink synthesize m p r)) r.jobs.stopped _ _
        (λ _. record { room = here; jobs_fit = i.jobs_fit; fits = tt }) (λ _. i)
  pop_jobs-IsRoomy (job ∷ rest) r e w i =
      let here = subst (λ w. Room (pieces w (length r.jobs.jobs)) r.audio) w i.room in
      let all = subst AllFit e i.jobs_fit in
      record {
        room = subst (λ jobs. Room (length jobs) r.audio) e here;
        jobs_fit = all.1;
        fits = all.0;
      }

  after_synthesis-IsRoomy :
      HasRoom
      → (job : SynthesisJob D) (r : Runtime D S) (result : Result Bytes PcmAudio)
      → synthesize job.text job.voice ≡ result
      → Room (suc (length r.jobs.jobs)) r.audio
      → AllFit r.jobs.jobs
      → FitsJob job
      → IsRoomy (after_synthesis sink synthesize m job result r)
  unfolding after_synthesis
  after_synthesis-IsRoomy h job r (err what) e i all fits = record {
    room = h.unused (length r.jobs.jobs) r.audio i;
    jobs_fit = all;
    fits = tt;
  }
  after_synthesis-IsRoomy h job r (ok pcm) e i all fits =
      let audio = apply_output_gain m pcm job.voice in
      if-elim IsRoomy (job.generation == r.current_generation && not (is_empty audio.samples)) _ _
        (λ _. record { room = i; jobs_fit = all; fits = fits pcm e })
        (λ _. record { room = h.unused (length r.jobs.jobs) r.audio i; jobs_fit = all; fits = tt })

  after_push-IsRoomy :
      HasRoom
      → (job : SynthesisJob D) (audio : PcmAudio) (r : Runtime D S) (pushed : Option S)
      → sink.push job.generation audio r.audio ≡ pushed
      → Fits audio
      → Room (suc (length r.jobs.jobs)) r.audio
      → AllFit r.jobs.jobs
      → IsRoomy (after_push sink synthesize m job audio pushed r)
  unfolding after_push
  after_push-IsRoomy h job audio r (some s) e fits i all = record {
    room = h.used (length r.jobs.jobs) job.generation audio r.audio s fits i e;
    jobs_fit = all;
    fits = tt;
  }
  after_push-IsRoomy h job audio r none e fits i all = record {
    room = i;
    jobs_fit = all;
    fits = fits;
  }

  announce-IsRoomy :
      (job : SynthesisJob D) (r : Runtime D S)
      → Room (length r.jobs.jobs) r.audio
      → AllFit r.jobs.jobs
      → IsRoomy (announce sink synthesize m job r)
  unfolding announce
  announce-IsRoomy job r i all =
      if-elim IsRoomy (r.active && r.generation == job.generation && not r.speaking_emitted) _ _
        (λ _. record { room = i; jobs_fit = all; fits = tt })
        (λ _. record { room = i; jobs_fit = all; fits = tt })

  report-IsRoomy :
      (job : SynthesisJob D) (what : Bytes) (r : Runtime D S)
      → Room (length r.jobs.jobs) r.audio
      → AllFit r.jobs.jobs
      → IsRoomy (report sink synthesize m job what r)
  unfolding report
  report-IsRoomy job what r i all =
      if-elim IsRoomy (job.generation == r.current_generation) _ _
        (λ _. record { room = i; jobs_fit = all; fits = tt })
        (λ _. record { room = i; jobs_fit = all; fits = tt })

  -- A change of the worker alone, from a job to a piece of audio or to its end.
  moved-IsRoomy :
      HasRoom
      → (test : Bool) (r : Runtime D S) (kept dropped : Worker D)
      → Room (suc (length r.jobs.jobs)) r.audio
      → AllFit r.jobs.jobs
      → pieces kept (length r.jobs.jobs) ≡ suc (length r.jobs.jobs)
      → HoldsFitting kept
      → pieces dropped (length r.jobs.jobs) ≡ length r.jobs.jobs
      → HoldsFitting dropped
      → IsRoomy (if test then record r { worker = kept } else record r { worker = dropped })
  moved-IsRoomy h true r kept dropped i all more fits less none_left = record {
    room = subst (λ n. Room n r.audio) (sym more) i;
    jobs_fit = all;
    fits = fits;
  }
  moved-IsRoomy h false r kept dropped i all more fits less none_left = record {
    room = subst (λ n. Room n r.audio) (sym less) (h.unused (length r.jobs.jobs) r.audio i);
    jobs_fit = all;
    fits = none_left;
  }

  step_worker-IsRoomy :
      HasRoom
      → (w : Worker D) (r : Runtime D S) → r.worker ≡ w
      → IsRoomy r
      → Room (pieces w (length r.jobs.jobs)) r.audio
      → HoldsFitting w
      → IsRoomy (step_worker sink synthesize m w r)
  unfolding step_worker pop
  step_worker-IsRoomy h popping r e i room fits = pop_jobs-IsRoomy r.jobs.jobs r refl e i
  step_worker-IsRoomy h (taken job) r e i room fits =
      if-elim (λ w. IsRoomy (record r { worker = w })) (job.generation == r.current_generation) _ _
        (λ _. record { room = room; jobs_fit = i.jobs_fit; fits = fits })
        (λ _. record {
          room = h.unused (length r.jobs.jobs) r.audio room;
          jobs_fit = i.jobs_fit;
          fits = tt;
        })
  step_worker-IsRoomy h (synthesizing job) r e i room fits =
      after_synthesis-IsRoomy h job r (synthesize job.text job.voice) refl room i.jobs_fit fits
  step_worker-IsRoomy h (enqueueing job audio) r e i room fits =
      moved-IsRoomy h (sink.accepts job.generation audio r.audio) r (pushing job audio)
        (releasing job) room i.jobs_fit refl fits refl tt
  step_worker-IsRoomy h (pushing job audio) r e i room fits =
      after_push-IsRoomy h job audio r (sink.push job.generation audio r.audio) refl fits room
        i.jobs_fit
  step_worker-IsRoomy h (queued_audio job) r e i room fits = announce-IsRoomy job r room i.jobs_fit
  step_worker-IsRoomy h (failed job what) r e i room fits =
      report-IsRoomy job what r room i.jobs_fit
  step_worker-IsRoomy h (releasing job) r e i room fits = record {
    room = room;
    jobs_fit = i.jobs_fit;
    fits = tt;
  }
  step_worker-IsRoomy h settling r e i room fits = record {
    room = room;
    jobs_fit = i.jobs_fit;
    fits = tt;
  }
  step_worker-IsRoomy h ended r e i room fits = i

  pub synthesis_step-IsRoomy :
      HasRoom → (r : Runtime D S) → IsRoomy r → IsRoomy (synthesis_step sink synthesize m r)
  unfolding synthesis_step
  synthesis_step-IsRoomy h r i = step_worker-IsRoomy h r.worker r refl i i.room i.fits

-- The output has room for n pieces of so many frames each.
abbrev pub RoomFor : ℕ → ℕ → Output → Type 0
RoomFor frames n o = (o.queued_frames + n * frames ≤ o.maximum_frames) × (o.maximum_frames < 2 ^ 64)

module _ {D : Type 0} ⦃d : Double D⦄ (synthesize : Bytes → VoiceSettings D → Result Bytes PcmAudio)
    (m : GainMath D) where
  room-awake :
      (frames n generation : ℕ) (audio : PcmAudio) (o : Output)
      → frame_count audio ≤ frames
      → RoomFor frames (suc n) o
      → output_sink.push generation audio o ≢ none
  room-awake frames n generation audio o fits room = ground arith

  room-used :
      (frames n generation : ℕ) (audio : PcmAudio) (o o' : Output)
      → frame_count audio ≤ frames
      → RoomFor frames (suc n) o
      → output_sink.push generation audio o ≡ some o'
      → RoomFor frames n o'
  room-used frames n generation audio o o' fits room e = ground arith

  -- `MiniaudioOutput` keeps this promise.
  pub output_sink-HasRoom :
      (frames : ℕ)
      → HasRoom output_sink synthesize m (λ audio. frame_count audio ≤ frames) (RoomFor frames)
  output_sink-HasRoom frames = record {
    awake = room-awake frames;
    used = room-used frames;
    unused = λ n o room. (omega (arith, room.0), room.1);
  }
