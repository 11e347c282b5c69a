-- ===== src/Runtime/Accounting.antt =====
-- How the runtime accounts for text: every accepted byte is in the buffer, in a waiting job or with
-- the synthesis thread until it is given back, and the atomic counters are exact.
use tiny_robotic_voice.Common.{
  ℕ, zero, suc, ◌+◌, ◌≤◌, ◌<◌, ◌≡◌, refl, ◌⊎◌, true, Bytes, List, [], ◌∷◌, ◌++◌, length, take, drop,
  arith, length-append, length-drop, length-take,
}
use tiny_robotic_voice.Chunker.{has_speakable_text}
use tiny_robotic_voice.Runtime.Jobs.{SynthesisJob, push}
use tiny_robotic_voice.Runtime.{
  Runtime, Worker, popping, taken, synthesizing, enqueueing, pushing, queued_audio, failed,
  releasing, settling, ended, commit_phrase,
}

has_speakable_text-pos : (text : Bytes) → has_speakable_text text ≡ true → 0 < length text
unfolding has_speakable_text
has_speakable_text-pos [] h = cc
has_speakable_text-pos (c ∷ rest) h = omega arith

module _ {D : Type 0} where
  -- The bytes of the waiting jobs.
  abbrev pub total : List (SynthesisJob D) → ℕ
  total [] = 0
  total (job ∷ rest) = length job.text + total rest

  abbrev pub AllSpeakable : List (SynthesisJob D) → Type 0
  AllSpeakable [] = Unit {0}
  AllSpeakable (job ∷ rest) = (has_speakable_text job.text ≡ true) × AllSpeakable rest

  -- The bytes of the job that the synthesis thread has not given back yet.
  abbrev pub held : Worker D → ℕ
  held popping = 0
  held (taken job) = length job.text
  held (synthesizing job) = length job.text
  held (enqueueing job audio) = length job.text
  held (pushing job audio) = length job.text
  held (queued_audio job) = length job.text
  held (failed job what) = length job.text
  held (releasing job) = length job.text
  held settling = 0
  held ended = 0

  -- Whether it still counts as outstanding.
  abbrev pub busy : Worker D → ℕ
  busy popping = 0
  busy (taken job) = 1
  busy (synthesizing job) = 1
  busy (enqueueing job audio) = 1
  busy (pushing job audio) = 1
  busy (queued_audio job) = 1
  busy (failed job what) = 1
  busy (releasing job) = 1
  busy settling = 1
  busy ended = 0

  pub total-append : (xs ys : List (SynthesisJob D)) → total (xs ++ ys) ≡ total xs + total ys
  total-append [] ys = omega arith
  total-append (x ∷ xs) ys = omega (arith, total-append xs ys)

  pub AllSpeakable-append :
      (xs ys : List (SynthesisJob D)) → AllSpeakable xs → AllSpeakable ys → AllSpeakable (xs ++ ys)
  AllSpeakable-append [] ys hx hy = hy
  AllSpeakable-append (x ∷ xs) ys hx hy = (hx.0, AllSpeakable-append xs ys hx.1 hy)

  pub length-le-total : (xs : List (SynthesisJob D)) → AllSpeakable xs → length xs ≤ total xs
  length-le-total [] h = omega arith
  length-le-total (x ∷ xs) h =
      omega (arith, has_speakable_text-pos x.text h.0, length-le-total xs h.1)

drop-nil : (n : ℕ) → drop {A = ℕ} n [] ≡ []
drop-nil zero = refl
drop-nil (suc n) = refl

module _ {D S : Type 0} where
  pub record IsAccounted (r : Runtime D S) : Type 0 where
    -- `bytes_` is exact, and no waiting job is silent.
    pub counted : r.jobs.bytes ≡ total r.jobs.jobs
    pub speakable : AllSpeakable r.jobs.jobs
    -- `owned_text_bytes` covers all text, within the limit, and is exact until the shutdown.
    pub covered : length r.buffer + total r.jobs.jobs + held r.worker ≤ r.owned_text_bytes
    pub bounded : r.owned_text_bytes ≤ 65536
    pub exact :
        (r.stopping ≡ true)
        ⊎ (r.owned_text_bytes ≡ length r.buffer + total r.jobs.jobs + held r.worker)
    -- `outstanding_jobs` counts the waiting jobs and that of the synthesis thread.
    pub outstanding : r.outstanding_jobs ≡ length r.jobs.jobs + busy r.worker
    -- Nothing is buffered outside a session.
    pub quiet : (r.active ≡ true) ⊎ (r.buffer ≡ [])

  abbrev pub phrase_job : ℕ → Runtime D S → SynthesisJob D
  phrase_job bytes r = record {
    generation = r.generation;
    session = r.session;
    text = take bytes r.buffer;
    voice = r.current_voice;
  }

  -- Committing a phrase keeps the accounts.
  pub commit_phrase-IsAccounted :
      (bytes : ℕ) (r : Runtime D S)
      → bytes ≤ length r.buffer
      → IsAccounted r
      → IsAccounted (commit_phrase bytes r).0
  unfolding commit_phrase push
  commit_phrase-IsAccounted bytes r h a = ground (
    arith,
    length-drop bytes r.buffer,
    length-take bytes r.buffer,
    total-append r.jobs.jobs (phrase_job bytes r ∷ []),
    AllSpeakable-append r.jobs.jobs (phrase_job bytes r ∷ []),
    length-append r.jobs.jobs (phrase_job bytes r ∷ []),
    length-le-total r.jobs.jobs a.speakable,
    drop-nil bytes,
  )
