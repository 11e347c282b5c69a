-- ===== src/Runtime/Commit.antt =====
-- `commit_available_locked`: how far it gets, and what becomes of the text.
use tiny_robotic_voice.Common.{
  ℕ, zero, suc, ◌≤◌, ◌<◌, ◌≡◌, refl, sym, ap, ◌∙◌, ◌⊎◌, inl, inr, Bool, true, false, not, ◌&&◌,
  Bytes, List, [], ◌∷◌, ◌++◌, length, is_empty, is_empty-nil, is_empty-pos, leb, leb→le,
  leb_false→lt, take, drop, arith, length-drop, length-take, take-append-drop, ◌==◌, if◌then◌else◌,
  if-elim, Bool-cases, append_assoc, append-nil,
}
use tiny_robotic_voice.Chunker.{ascii_space, has_speakable_text, next_chunk_bytes}
use tiny_robotic_voice.Chunker.Bounds.{next_chunk_bytes-le-length, next_chunk_bytes-pos}
use tiny_robotic_voice.Runtime.Jobs.{SynthesisJob, push}
use tiny_robotic_voice.Runtime.{
  Runtime, commit_phrase, commit_one_locked, commit_rounds, commit_available_locked,
}
use tiny_robotic_voice.Runtime.Accounting.{IsAccounted, phrase_job, commit_phrase-IsAccounted}

-- The bytes of a text that are not spaces.
unfoldable pub spoken : Bytes → Bytes
spoken [] = []
spoken (c ∷ rest) = if ascii_space c then spoken rest else c ∷ spoken rest

pub spoken-append : (xs ys : Bytes) → spoken (xs ++ ys) ≡ spoken xs ++ spoken ys
unfolding spoken
spoken-append [] ys = refl
spoken-append (x ∷ xs) ys = ground (arith, spoken-append xs ys)

spoken-silent : (text : Bytes) → has_speakable_text text ≡ false → spoken text ≡ []
unfolding spoken has_speakable_text
spoken-silent [] h = refl
spoken-silent (c ∷ rest) h = ground (arith, spoken-silent rest)

-- The texts of the waiting jobs, in order.
abbrev pub texts : {D : Type 0} → List (SynthesisJob D) → Bytes
texts [] = []
texts (job ∷ rest) = job.text ++ texts rest

texts-append :
    {D : Type 0} (xs ys : List (SynthesisJob D)) → texts (xs ++ ys) ≡ texts xs ++ texts ys
texts-append [] ys = refl
texts-append (x ∷ xs) ys = rw (texts-append xs ys, append_assoc)

module _ {D S : Type 0} where
  -- All the text that is still to be handed to the synthesis thread.
  abbrev pub ahead : Runtime D S → Bytes
  ahead r = spoken (texts r.jobs.jobs ++ r.buffer)

  -- What committing leaves as it is.
  pub record IsCommit (r r' : Runtime D S) : Type 0 where
    pub text_kept : ahead r' ≡ ahead r
    pub same_stopped : r'.jobs.stopped ≡ r.jobs.stopped
    pub same_stopping : r'.stopping ≡ r.stopping
    pub same_generation : r'.generation ≡ r.generation
    pub same_current_generation : r'.current_generation ≡ r.current_generation
    pub same_session : r'.session ≡ r.session
    pub same_active : r'.active ≡ r.active
    pub same_accepting : r'.accepting ≡ r.accepting
    pub same_events : r'.events ≡ r.events
    pub same_worker : r'.worker ≡ r.worker
    pub same_audio : r'.audio ≡ r.audio

  IsCommit-refl : (r : Runtime D S) → IsCommit r r
  IsCommit-refl r = ground arith

  IsCommit-trans : (r s t : Runtime D S) → IsCommit r s → IsCommit s t → IsCommit r t
  IsCommit-trans r s t a b = ground arith

  phrase-text :
      (bytes : ℕ) (r : Runtime D S)
      → spoken (texts r.jobs.jobs ++ r.buffer)
        ≡ spoken (texts r.jobs.jobs)
          ++ (spoken (take bytes r.buffer) ++ spoken (drop bytes r.buffer))
  phrase-text bytes r =
      spoken-append (texts r.jobs.jobs) r.buffer
      ∙ ap (λ b. spoken (texts r.jobs.jobs) ++ b)
          (ap spoken (sym (take-append-drop bytes r.buffer))
            ∙ spoken-append (take bytes r.buffer) (drop bytes r.buffer))

  queued-text :
      (bytes : ℕ) (r : Runtime D S)
      → spoken (texts (r.jobs.jobs ++ phrase_job bytes r ∷ []) ++ drop bytes r.buffer)
        ≡ spoken (texts r.jobs.jobs)
          ++ (spoken (take bytes r.buffer) ++ spoken (drop bytes r.buffer))
  queued-text bytes r =
      spoken-append (texts (r.jobs.jobs ++ phrase_job bytes r ∷ [])) (drop bytes r.buffer)
      ∙ ap (λ b. b ++ spoken (drop bytes r.buffer))
          (ap spoken (
              texts-append r.jobs.jobs (phrase_job bytes r ∷ [])
              ∙ ap (λ b. texts r.jobs.jobs ++ b) (append-nil (take bytes r.buffer)))
            ∙ spoken-append (texts r.jobs.jobs) (take bytes r.buffer))
      ∙ append_assoc (spoken (texts r.jobs.jobs)) (spoken (take bytes r.buffer))
          (spoken (drop bytes r.buffer))

  -- A phrase of the buffer always gets through while the queue is not stopped: its bytes are
  -- accounted for already, so the limit of the job queue is never met.
  module _ (bytes : ℕ) (r : Runtime D S) (fits : bytes ≤ length r.buffer) (a : IsAccounted r) where
    commit_phrase-committed :
        r.jobs.stopped ≡ false
        → ((commit_phrase bytes r).1 ≡ true)
          × ((commit_phrase bytes r).0.buffer ≡ drop bytes r.buffer)
    unfolding commit_phrase push
    commit_phrase-committed open_queue = ground (arith, length-take bytes r.buffer)

    commit_phrase-IsCommit : IsCommit r (commit_phrase bytes r).0
    unfolding commit_phrase push
    commit_phrase-IsCommit = ground (
      arith,
      phrase-text bytes r,
      queued-text bytes r,
      spoken-append (texts r.jobs.jobs) (drop bytes r.buffer),
      spoken-silent (take bytes r.buffer),
    )

-- What one call or the whole loop has done.
module _ {D S : Type 0} where
  pub record Commits (r r' : Runtime D S) : Type 0 where
    pub accounted : IsAccounted r'
    pub frame : IsCommit r r'
    pub shorter : length r'.buffer ≤ length r.buffer

  Commits-refl : (r : Runtime D S) → IsAccounted r → Commits r r
  Commits-refl r a = record { accounted = a; frame = IsCommit-refl r; shorter = omega arith }

  Commits-trans : (r s t : Runtime D S) → Commits r s → Commits s t → Commits r t
  Commits-trans r s t a b = record {
    accounted = b.accounted;
    frame = IsCommit-trans r s t a.frame b.frame;
    shorter = omega (arith, a.shorter, b.shorter);
  }

  commit_phrase-Commits :
      (bytes : ℕ) (r : Runtime D S)
      → bytes ≤ length r.buffer
      → IsAccounted r
      → Commits r (commit_phrase bytes r).0
  commit_phrase-Commits bytes r h a = record {
    accounted = commit_phrase-IsAccounted bytes r h a;
    frame = commit_phrase-IsCommit bytes r h a;
    shorter = commit_phrase-shorter;
  }
    where
      commit_phrase-shorter : length (commit_phrase bytes r).0.buffer ≤ length r.buffer
      commit_phrase-shorter = unfold commit_phrase in ground (arith, length-drop bytes r.buffer)

  commit_one-Commits :
      (force : Bool) (r : Runtime D S) → IsAccounted r → Commits r (commit_one_locked force r).0
  unfolding commit_one_locked
  commit_one-Commits force r a =
      if-elim {A = Runtime D S × Bool} (λ x. Commits r x.0) (next_chunk_bytes r.buffer force == 0) _
        _ (λ _. Commits-refl r a)
        (λ _.
          commit_phrase-Commits (next_chunk_bytes r.buffer force) r
            (next_chunk_bytes-le-length r.buffer force) a)

  commit_rounds-Commits :
      (fuel : ℕ) (force : Bool) (r : Runtime D S)
      → IsAccounted r
      → Commits r (commit_rounds fuel force r)
  unfolding commit_rounds
  commit_rounds-Commits zero force r a = Commits-refl r a
  commit_rounds-Commits (suc fuel) force r a =
      if-elim (Commits r) (is_empty r.buffer) _ _ (λ _. Commits-refl r a)
        (λ _.
          if-elim (Commits r) (not one.1) _ _ (λ _. first)
            (λ _.
              if-elim (Commits r) (not force && length one.0.buffer == length r.buffer) _ _
                (λ _. first)
                (λ _.
                  Commits-trans r one.0 _ first
                    (commit_rounds-Commits fuel force one.0 first.accounted))))
    where
      one : Runtime D S × Bool
      one = commit_one_locked force r

      first : Commits r one.0
      first = commit_one-Commits force r a

  -- Where the loop stops while the job queue is open.
  abbrev pub Stops : Bool → Runtime D S → Type 0
  Stops force r = (r.buffer ≡ []) ⊎ (next_chunk_bytes r.buffer force ≡ 0)

  Stops-small : (force : Bool) (r : Runtime D S) → Stops force r → length r.buffer < 180
  Stops-small force r (inl e) = omega (arith, ap length e)
  Stops-small force r (inr e) = elim (Bool-cases (leb 180 (length r.buffer))) [
    | inl full ↦ absurd (omega (arith, next_chunk_bytes-pos r.buffer force (inr (leb→le _ _ full))))
    | inr short ↦ leb_false→lt _ _ short
  ]

  Stops-empty : (force : Bool) (r : Runtime D S) → Stops force r → force ≡ true → r.buffer ≡ []
  Stops-empty force r (inl e) h = e
  Stops-empty force r (inr e) h = elim (Bool-cases (is_empty r.buffer)) [
    | inl empty ↦ is_empty-nil r.buffer empty
    | inr some_left ↦ absurd (
        omega
          (arith, next_chunk_bytes-pos r.buffer force (inl (h, is_empty-pos r.buffer some_left))))
  ]

  commit_one-progress :
      (force : Bool) (r : Runtime D S)
      → IsAccounted r
      → r.jobs.stopped ≡ false
      → (next_chunk_bytes r.buffer force ≡ 0)
        ⊎ (((commit_one_locked force r).1 ≡ true)
            × (length (commit_one_locked force r).0.buffer < length r.buffer))
  unfolding commit_one_locked
  commit_one-progress force r a open_queue = ground (
    arith,
    commit_phrase-committed (next_chunk_bytes r.buffer force) r
        (next_chunk_bytes-le-length r.buffer force) a open_queue,
    length-drop (next_chunk_bytes r.buffer force) r.buffer,
    next_chunk_bytes-le-length r.buffer force,
  )

  commit_one-zero :
      (force : Bool) (r : Runtime D S)
      → next_chunk_bytes r.buffer force ≡ 0
      → commit_one_locked force r ≡ (r, false)
  unfolding commit_one_locked
  commit_one-zero force r h = ground arith

  commit_rounds-Stops :
      (fuel : ℕ) (force : Bool) (r : Runtime D S)
      → IsAccounted r
      → r.jobs.stopped ≡ false
      → length r.buffer < fuel
      → Stops force (commit_rounds fuel force r)
  unfolding commit_rounds
  commit_rounds-Stops zero force r a open_queue h = absurd (omega arith)
  commit_rounds-Stops (suc fuel) force r a open_queue h =
      if-elim (Stops force) (is_empty r.buffer) _ _ (λ empty. inl (is_empty-nil r.buffer empty))
        (λ _.
          if-elim (Stops force) (not one.1) _ _
            (λ stuck.
              ground (arith, commit_one-progress force r a open_queue, commit_one-zero force r))
            (λ went.
              if-elim (Stops force) (not force && length one.0.buffer == length r.buffer) _ _
                (λ same.
                  ground (arith, commit_one-progress force r a open_queue, commit_one-zero force r))
                (λ _.
                  commit_rounds-Stops fuel force one.0 first.accounted
                    (first.frame.same_stopped ∙ open_queue)
                    (ground
                      (arith, commit_one-progress force r a open_queue, commit_one-zero force r)))))
    where
      one : Runtime D S × Bool
      one = commit_one_locked force r

      first : Commits r one.0
      first = commit_one-Commits force r a

  pub commit_available_locked-accounted :
      (force : Bool) (r : Runtime D S) → IsAccounted r → Commits r (commit_available_locked force r)
  unfolding commit_available_locked
  commit_available_locked-accounted force r a =
      commit_rounds-Commits (suc (length r.buffer)) force r a

  -- The loop ends within its fuel, keeps the accounts, and loses no byte but spaces: what waits in
  -- jobs and in the buffer is, up to spaces, what waited before, in the same order. While the queue
  -- is open it leaves less than the hard maximum in the buffer, and nothing with `force`.
  pub commit_available_locked-Commits :
      (force : Bool) (r : Runtime D S)
      → IsAccounted r
      → r.jobs.stopped ≡ false
      → let r' = commit_available_locked force r in
        Commits r r' × (length r'.buffer < 180) × (force ≡ true → r'.buffer ≡ [])
  unfolding commit_available_locked
  commit_available_locked-Commits force r a open_queue =
      (done, Stops-small force r' stops, Stops-empty force r' stops)
    where
      r' : Runtime D S
      r' = commit_rounds (suc (length r.buffer)) force r

      done : Commits r r'
      done = commit_rounds-Commits (suc (length r.buffer)) force r a

      stops : Stops force r'
      stops = commit_rounds-Stops (suc (length r.buffer)) force r a open_queue (omega arith)
