-- ===== src/Output/Trace.antt =====
-- The output of src/miniaudio_output.cpp over a whole run: a first-in first-out stream of samples
-- from the synthesis thread to the device.
use tiny_robotic_voice.Common.{
  ℕ, ◌-◌, ◌≡◌, sym, ap, ◌∙◌, Bool, true, List, [], ◌∷◌, ◌++◌, ℤ, pos, length, replicate, take,
  take-append-drop, arith, inl, inr, subst, append_assoc, append-nil,
}
use tiny_robotic_voice.Audio.{PcmAudio, queued}
use tiny_robotic_voice.Output.{Output, callback, enqueue_round, enqueued, accepts_format}
use tiny_robotic_voice.Output.Pending.{pending}
use tiny_robotic_voice.Output.Invariant.{IsValid, enqueue_round-IsValid}
use tiny_robotic_voice.Output.Calls.{callback-cases}
use tiny_robotic_voice.Output.Frame.{callback-SameSetting}
use tiny_robotic_voice.Output.Blocking.{pending-enqueued}

-- The samples of buffers, each of which is some samples and silence behind them.
pub data Sound : List (List ℤ) → List ℤ → Type 0 where
  quiet : Sound [] []
  then_heard :
      {buffers : List (List ℤ)} {before : List ℤ} (piece : List ℤ) (k : ℕ)
      → Sound buffers before
      → Sound (buffers ++ (piece ++ replicate k (pos 0)) ∷ []) (before ++ piece)

-- A run from `o` in which audio of the valid generation is enqueued and the device calls back, with
-- all the samples that were enqueued and all the buffers that were filled, each in order.
pub data Streams (o : Output) : List ℤ → List (List ℤ) → Output → Type 0 where
  opened : Streams o [] [] o
  took :
      {given : List ℤ} {buffers : List (List ℤ)} {p p' : Output} (audio : PcmAudio)
      → accepts_format p audio ≡ true
      → enqueue_round p.valid_generation audio p ≡ queued p'
      → Streams o given buffers p
      → Streams o (given ++ audio.samples) buffers p'
  called :
      {given : List ℤ} {buffers : List (List ℤ)} {p : Output} (locked : Bool) (n : ℕ)
      → Streams o given buffers p
      → Streams o given (buffers ++ (callback locked n p).0 ∷ []) (callback locked n p).1

-- What a run keeps.
pub record Flows (o : Output) (given : List ℤ) (buffers : List (List ℤ)) (p : Output) : Type 0 where
  pub heard : List ℤ
  pub sound : Sound buffers heard
  pub in_order : pending o.valid_generation o ++ given ≡ heard ++ pending p.valid_generation p
  pub valid : IsValid p

enqueue_round-queued :
    (audio : PcmAudio) (p p' : Output)
    → enqueue_round p.valid_generation audio p ≡ queued p'
    → p' ≡ enqueued p.valid_generation audio p
unfolding enqueue_round
enqueue_round-queued audio p p' h = ground arith

Flows-called :
    (locked : Bool) (n : ℕ) (o p : Output) {given : List ℤ} {buffers : List (List ℤ)}
    → Flows o given buffers p
    → Flows o given (buffers ++ (callback locked n p).0 ∷ []) (callback locked n p).1
Flows-called locked n o p {given} {buffers} f = elim (callback-cases locked n p f.valid) [
  | inl off ↦ rw off (record {
    heard = f.heard ++ [];
    sound = then_heard [] n f.sound;
    in_order = f.in_order ∙ ap (λ x. x ++ pending p.valid_generation p) (sym (append-nil f.heard));
    valid = f.valid;
  })
  | inr plays ↦
      let ahead = pending p.valid_generation p in
      let p' = (callback locked n p).1 in
      record {
        heard = f.heard ++ take n ahead;
        sound =
            subst (λ b. Sound (buffers ++ b ∷ []) (f.heard ++ take n ahead)) (sym plays.0)
              (then_heard (take n ahead) (n - length ahead) f.sound);
        in_order =
            f.in_order
            ∙ ap (λ x. f.heard ++ x)
                (sym (take-append-drop n ahead)
                  ∙ ap (λ x. take n ahead ++ x)
                      (sym plays.1
                        ∙ ap (λ g. pending g p')
                            (sym (callback-SameSetting locked n p).same_generation)))
            ∙ sym (append_assoc f.heard (take n ahead) (pending p'.valid_generation p'));
        valid = plays.2;
      }
]

Streams-Flows :
    {o p : Output} {given : List ℤ} {buffers : List (List ℤ)}
    → IsValid o
    → Streams o given buffers p
    → Flows o given buffers p
Streams-Flows {o} v opened = record {
  heard = [];
  sound = quiet;
  in_order = append-nil (pending o.valid_generation o);
  valid = v;
}
Streams-Flows {o} v (took {given} {buffers} {p} {p'} audio format round before) =
    let f = Streams-Flows v before in
    let e : p' ≡ enqueued p.valid_generation audio p = enqueue_round-queued audio p p' round in
    record {
      heard = f.heard;
      sound = f.sound;
      in_order =
          sym (append_assoc (pending o.valid_generation o) given audio.samples)
          ∙ ap (λ x. x ++ audio.samples) f.in_order
          ∙ append_assoc f.heard (pending p.valid_generation p) audio.samples
          ∙ ap (λ x. f.heard ++ x)
              (sym (pending-enqueued audio p) ∙ ap (λ q. pending q.valid_generation q) (sym e));
      valid = enqueue_round-IsValid p.valid_generation audio p p' (ground arith) f.valid round;
    }
Streams-Flows {o} v (called {p = p} locked n before) =
    Flows-called locked n o p (Streams-Flows v before)

-- However enqueues and callbacks interleave, the samples of the valid generation come out once and
-- in order: what was pending at the start, followed by what was enqueued, is what the buffers hold
-- without the silence behind each, followed by what is still pending.
pub Streams-in_order :
    {o p : Output} {given : List ℤ} {buffers : List (List ℤ)}
    → IsValid o
    → Streams o given buffers p
    → (heard : List ℤ) × Sound buffers heard
      × (pending o.valid_generation o ++ given ≡ heard ++ pending p.valid_generation p)
Streams-in_order v s = let f = Streams-Flows v s in (f.heard, f.sound, f.in_order)
