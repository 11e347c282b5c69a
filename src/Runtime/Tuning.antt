-- ===== src/Runtime/Tuning.antt =====
-- What the runtime of src/streaming_runtime.cpp and the output of src/miniaudio_output.cpp agree on,
-- and the steps that touch neither the output nor the generations.
use tiny_robotic_voice.Common.{
  inl, inr, true, pos, ℕ, ◌+◌, ◌-◌, ◌≤◌, ◌≡◌, sym, ap, subst, ◌∙◌, ◌⊎◌, Bool, true, false, not,
  ◌&&◌, ◌++◌, length, arith, ltb, if-elim, min, add_size,
}
use tiny_robotic_voice.Double.{Double}
use tiny_robotic_voice.Protocol.{Command}
use tiny_robotic_voice.Output.{Output, output_sink}
use tiny_robotic_voice.Output.Invariant.{IsValid}
use tiny_robotic_voice.Output.Newest.{IsUpTo}
use tiny_robotic_voice.Runtime.{
  Worker, popping, taken, synthesizing, enqueueing, pushing, queued_audio, failed, releasing,
  settling, ended, Runtime, accept_text, handle_append, receives, handle_finish,
  commit_available_locked,
}
use tiny_robotic_voice.Runtime.Threads.{flush_idle, complete, flush_finished, maintenance_round}
use tiny_robotic_voice.Runtime.Accounting.{IsAccounted}
use tiny_robotic_voice.Runtime.Commit.{IsCommit, commit_available_locked-accounted}
use tiny_robotic_voice.Runtime.Steps.{received-IsAccounted, flush_idle-IsAccounted}

module _ {D : Type 0} where
  abbrev pub is_pushing : Worker D → Bool
  is_pushing (pushing job audio) = true
  is_pushing w = false

  -- Audio that is about to be pushed has one channel, and is of this generation or an older one.
  abbrev pub IsPushable : ℕ → Worker D → Type 0
  IsPushable g (pushing job audio) = (audio.channels ≡ pos 1) × (job.generation ≤ g)
  IsPushable g w = Unit {0}

  pub IsPushable-mono : (g h : ℕ) (w : Worker D) → g ≤ h → IsPushable g w → IsPushable h w
  IsPushable-mono g h popping le p = tt
  IsPushable-mono g h (taken job) le p = tt
  IsPushable-mono g h (synthesizing job) le p = tt
  IsPushable-mono g h (enqueueing job audio) le p = tt
  IsPushable-mono g h (pushing job audio) le p = (p.0, omega arith)
  IsPushable-mono g h (queued_audio job) le p = tt
  IsPushable-mono g h (failed job what) le p = tt
  IsPushable-mono g h (releasing job) le p = tt
  IsPushable-mono g h settling le p = tt
  IsPushable-mono g h ended le p = tt

  not_pushing : (g : ℕ) (w : Worker D) → is_pushing w ≡ false → IsPushable g w
  not_pushing g popping e = tt
  not_pushing g (taken job) e = tt
  not_pushing g (synthesizing job) e = tt
  not_pushing g (enqueueing job audio) e = tt
  not_pushing g (pushing job audio) e = cc
  not_pushing g (queued_audio job) e = tt
  not_pushing g (failed job what) e = tt
  not_pushing g (releasing job) e = tt
  not_pushing g settling e = tt
  not_pushing g ended e = tt

-- What the runtime and the output agree on: the output is well formed, the generation that it plays
-- is the current one and that of the active session, it holds nothing newer, and neither is newer
-- what the synthesis thread is about to push. That may be older: an interrupt may come between the
-- tests of `enqueue` and its lock.
pub record IsTuned {D : Type 0} (r : Runtime D Output) : Type 0 where
  pub valid : IsValid r.audio
  pub same_generation : r.audio.valid_generation ≡ r.current_generation
  pub own_generation : (r.active ≡ false) ⊎ (r.generation ≡ r.current_generation)
  pub up_to_date : IsUpTo r.current_generation r.audio
  pub pushable : IsPushable r.current_generation r.worker

module _ {D : Type 0} where
  -- A step that leaves the output and the generations alone, starts no session and readies no push.
  pub record SameTuning (r r' : Runtime D Output) : Type 0 where
    pub same_audio : r'.audio ≡ r.audio
    pub same_current_generation : r'.current_generation ≡ r.current_generation
    pub same_generation : r'.generation ≡ r.generation
    pub no_start : (r'.active ≡ false) ⊎ (r'.active ≡ r.active)
    pub no_push : (is_pushing r'.worker ≡ false) ⊎ (r'.worker ≡ r.worker)

  SameTuning-refl : (r : Runtime D Output) → SameTuning r r
  SameTuning-refl r = ground arith

  SameTuning-trans : (r s t : Runtime D Output) → SameTuning r s → SameTuning s t → SameTuning r t
  SameTuning-trans r s t a b = ground arith

  pub SameTuning-IsTuned : (r r' : Runtime D Output) → SameTuning r r' → IsTuned r → IsTuned r'
  SameTuning-IsTuned r r' s t = record {
    valid = subst IsValid (sym s.same_audio) t.valid;
    same_generation =
        ap (λ o. o.valid_generation) s.same_audio
        ∙ t.same_generation
        ∙ sym s.same_current_generation;
    own_generation = ground arith;
    up_to_date =
        subst (λ o. IsUpTo r'.current_generation o) (sym s.same_audio)
          (subst (λ g. IsUpTo g r.audio) (sym s.same_current_generation) t.up_to_date);
    pushable = elim s.no_push [
      | inl off ↦ not_pushing r'.current_generation r'.worker off
      | inr same ↦
          subst (IsPushable r'.current_generation) (sym same)
            (subst (λ g. IsPushable g r.worker) (sym s.same_current_generation) t.pushable)
    ];
  }

  commit-SameTuning :
      (force : Bool) (r : Runtime D Output)
      → IsAccounted r
      → SameTuning r (commit_available_locked force r)
  commit-SameTuning force r a =
      let f : IsCommit r (commit_available_locked force r) =
        (commit_available_locked-accounted force r a).frame in
      ground arith

module _ {D : Type 0} ⦃d : Double D⦄ where
  accept_text-SameTuning :
      (now : ℕ) (c : Command D) (r : Runtime D Output)
      → r.owned_text_bytes + length c.text ≤ 65536
      → r.active ≡ true
      → IsAccounted r
      → SameTuning r (accept_text output_sink now c r)
  unfolding accept_text
  accept_text-SameTuning now c r h k a = ground (
    arith,
    commit-SameTuning false
        (record r {
          owned_text_bytes = add_size r.owned_text_bytes (length c.text);
          buffer = r.buffer ++ c.text;
          last_append = now;
        })
        (received-IsAccounted output_sink now c.text r h k a),
  )

  pub handle_append-SameTuning :
      (now : ℕ) (c : Command D) (r : Runtime D Output)
      → IsAccounted r
      → SameTuning r (handle_append output_sink now c r)
  unfolding handle_append
  handle_append-SameTuning now c r a =
      if-elim (SameTuning r) (not (receives output_sink c r)) _ _ (λ _. ground arith)
        (λ open_session.
          if-elim (SameTuning r) (ltb (65536 - min 65536 r.owned_text_bytes) (length c.text)) _ _
            (λ _. ground arith)
            (λ room. accept_text-SameTuning now c r (ground arith) (ground arith) a))

  pub handle_finish-SameTuning :
      (c : Command D) (r : Runtime D Output)
      → IsAccounted r
      → SameTuning r (handle_finish output_sink c r)
  unfolding handle_finish
  handle_finish-SameTuning c r a =
      ground (arith, commit-SameTuning true (record r { accepting = false }) (ground arith))

  complete-SameTuning : (r : Runtime D Output) → SameTuning r (complete output_sink r)
  unfolding complete
  complete-SameTuning r = ground arith

  pub flush_idle-SameTuning :
      (now : ℕ) (r : Runtime D Output) → IsAccounted r → SameTuning r (flush_idle output_sink now r)
  unfolding flush_idle
  flush_idle-SameTuning now r a = ground (arith, commit-SameTuning true r a)

  pub flush_finished-SameTuning :
      (r : Runtime D Output) → IsAccounted r → SameTuning r (flush_finished output_sink r)
  unfolding flush_finished
  flush_finished-SameTuning r a =
      if-elim (SameTuning r) (r.active && not r.accepting) _ _
        (λ _.
          SameTuning-trans r (commit_available_locked true r) _ (commit-SameTuning true r a)
            (complete-SameTuning (commit_available_locked true r)))
        (λ _. SameTuning-refl r)

  pub maintenance_round-SameTuning :
      (now : ℕ) (r : Runtime D Output)
      → IsAccounted r
      → SameTuning r (maintenance_round output_sink now r)
  unfolding maintenance_round
  maintenance_round-SameTuning now r a =
      if-elim (SameTuning r) r.stopping _ _ (λ _. SameTuning-refl r)
        (λ _. SameTuning-trans r (flush_idle output_sink now r) _ (flush_idle-SameTuning now r a) (
          flush_finished-SameTuning (flush_idle output_sink now r)
            (flush_idle-IsAccounted output_sink now r a)))
