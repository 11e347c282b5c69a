-- ===== src/Output/Play.antt =====
-- The callback against the abstract view: it plays the pending samples of the valid generation.
use tiny_robotic_voice.Common.{
  ℕ, zero, suc, ◌+◌, ◌-◌, ◌≤◌, ◌<◌, ◌≡◌, refl, sym, ap, ◌∙◌, min, ◌⊎◌, inl, inr, true, false, List,
  [], ◌++◌, ℤ, pos, length, take, drop, replicate, arith, if-elim, Bool-cases, leb, leb_false→lt,
  ltb→lt, length-append-take, ltb, append-nil, take_all, drop_all, take-append_le, drop-append_le,
  drop-drop, length-drop, length-take, length-append, fill_twice, drop_twice,
}
use tiny_robotic_voice.Audio.{frame_count, frame_count_mono}
use tiny_robotic_voice.Output.{
  Output, discard_current, advance, copied, fill, padded, callback, remaining,
}
use tiny_robotic_voice.Output.Pending.{queue_pending, pending, rest_of_current}
use tiny_robotic_voice.Output.Invariant.{
  IsValid, discard_current-IsValid, next_current-IsValid, advance-IsValid,
}
use tiny_robotic_voice.Output.Ready.{
  IsReady, readied, items_left, readied-IsReady, pending-readied, readied-items_left,
}

-- A ready item: `count` frames of it are the first `count` pending samples, and go.
module _ (valid count : ℕ) (o : Output) where
  advance-items_left :
      o.has_current ≡ true
      → (o.current_frame + count ≡ frame_count o.current.audio)
      → suc (items_left (advance count o)) ≡ items_left o
  unfolding advance
  advance-items_left h e = ground arith

module _ (valid count : ℕ) (o : Output) (h : o.has_current ≡ true)
    (g : o.current.generation ≡ valid) (v : IsValid o)
    (fits : o.current_frame + count ≤ frame_count o.current.audio) where
  length-rest : length (rest_of_current o) ≡ frame_count o.current.audio - o.current_frame
  length-rest =
      length-drop o.current_frame o.current.audio.samples
      ∙ ap (λ k. k - o.current_frame) (sym (frame_count_mono o.current.audio v.mono))

  pending-ready : pending valid o ≡ rest_of_current o ++ queue_pending valid o.queue
  pending-ready = ground arith

  copied-take : copied count o ≡ take count (pending valid o)
  unfolding copied
  copied-take = sym (
      ap (take count) pending-ready
      ∙ take-append_le count (rest_of_current o) (queue_pending valid o.queue)
          (omega (arith, length-rest)))

  pending-advance : pending valid (advance count o) ≡ drop count (pending valid o)
  unfolding advance
  pending-advance = ground (
    arith,
    pending-ready,
    drop-append_le count (rest_of_current o) (queue_pending valid o.queue),
    length-rest,
    drop_all count (rest_of_current o),
    drop-drop count o.current_frame o.current.audio.samples,
  )

-- What `fill` has done when it stops.
record Filled (valid n : ℕ) (out : List ℤ) (o : Output) (r : List ℤ × Output) : Type 0 where
  played : r.0 ≡ out ++ take (n - length out) (pending valid o)
  kept : pending valid r.1 ≡ drop (n - length out) (pending valid o)
  valid_after : IsValid r.1

-- Nothing is left to write.
Filled-done :
    (valid n : ℕ) (out : List ℤ) (o : Output)
    → n ≤ length out
    → IsValid o
    → Filled valid n out o (out, o)
Filled-done valid n out o h v =
    let z : n - length out ≡ 0 = omega arith in
    record { played = rw (z, append-nil); kept = rw z; valid_after = v }

-- Nothing is left to play.
Filled-empty :
    (valid n : ℕ) (out : List ℤ) (o r : Output)
    → pending valid o ≡ []
    → pending valid r ≡ []
    → IsValid r
    → Filled valid n out o (out, r)
Filled-empty valid n out o r e k v = record {
  played = rw (e, take_all {A = ℤ} (n - length out) [] (omega arith), append-nil);
  kept = rw (e, k, drop_all {A = ℤ} (n - length out) [] (omega arith));
  valid_after = v;
}

-- A round that plays `count` samples and then the rest of the loop.
Filled-round :
    (valid n count : ℕ) (out : List ℤ) (o ready next : Output) (r : List ℤ × Output)
    → pending valid ready ≡ pending valid o
    → count ≤ length (pending valid o)
    → length out + count ≤ n
    → pending valid next ≡ drop count (pending valid ready)
    → Filled valid n (out ++ take count (pending valid ready)) next r
    → Filled valid n out o r
Filled-round valid n count out o ready next r same fits room moved f = record {
  played =
      f.played
      ∙ ap
          (λ p.
            (out ++ take count (pending valid ready))
            ++ take (n - length (out ++ take count (pending valid ready))) p)
          moved
      ∙ fill_twice n count out (pending valid ready) (rw same fits) room
      ∙ ap (λ p. out ++ take (n - length out) p) same;
  kept =
      f.kept
      ∙ ap (drop (n - length (out ++ take count (pending valid ready)))) moved
      ∙ drop_twice n count out (pending valid ready) (rw same fits) room
      ∙ ap (drop (n - length out)) same;
  valid_after = f.valid_after;
}

fill-done :
    (fuel valid n : ℕ) (out : List ℤ) (o : Output)
    → n ≤ length out
    → fill fuel valid n out o ≡ (out, o)
unfolding fill
fill-done zero valid n out o h = refl
fill-done (suc fuel) valid n out o h = ground arith

remaining-eq :
    (o : Output)
    → o.has_current ≡ true
    → IsValid o
    → remaining o ≡ frame_count o.current.audio - o.current_frame
remaining-eq o h v = ground arith

ready-generation :
    (valid : ℕ) (r : Output) → IsReady valid r → r.has_current ≡ true → r.current.generation ≡ valid
ready-generation valid r h e = ground arith

ready-empty :
    (valid : ℕ) (r : Output) → IsReady valid r → r.has_current ≡ false → pending valid r ≡ []
ready-empty valid r h e = ground arith

-- A round with an item: what the recursive call does serves the whole.
module _ (fuel valid n : ℕ) (out : List ℤ) (o r : Output) (same : pending valid r ≡ pending valid o)
    (fewer : items_left r ≤ items_left o) (v : IsValid r) (held : r.has_current ≡ true)
    (current : r.current.generation ≡ valid) (enough : (items_left o < suc fuel) ⊎ (n ≤ length out))
    (room : length out < n) where
  abbrev count : ℕ
  count = min (remaining r) (n - length out)

  count_fits : r.current_frame + count ≤ frame_count r.current.audio
  count_fits = omega (arith, remaining-eq r held v)

  count_pending : count ≤ length (pending valid r)
  count_pending = omega (
    arith,
    ap length (pending-ready valid count r held current v count_fits),
    length-append (rest_of_current r) (queue_pending valid r.queue),
    length-rest valid count r held current v count_fits,
    remaining-eq r held v,
  )

  count-IsValid : IsValid (advance count r)
  count-IsValid = advance-IsValid count r held count_fits v

  -- The item is used up, or the destination is full.
  count_progress : (items_left (advance count r) < fuel) ⊎ (n ≤ length (out ++ copied count r))
  count_progress = elim (Bool-cases (leb (remaining r) (n - length out))) [
    | inl last ↦
        let whole : r.current_frame + count ≡ frame_count r.current.audio =
          ground (arith, remaining-eq r held v) in
        inl (omega (arith, advance-items_left valid count r held whole))
    | inr more ↦ inr (
        omega (
          arith,
          ap (λ p. length (out ++ p)) (copied-take valid count r held current v count_fits),
          length-append-take n count out (pending valid r) count_pending,
          leb_false→lt (remaining r) (n - length out) more,
        ))
  ]

  round-Filled :
      (result : List ℤ × Output)
      → (IsValid (advance count r)
          → (items_left (advance count r) < fuel) ⊎ (n ≤ length (out ++ copied count r))
          → Filled valid n (out ++ copied count r) (advance count r) result)
      → Filled valid n out o result
  round-Filled result then_rest =
      Filled-round valid n count out o r (advance count r) result same (rw (← same) count_pending)
        (omega arith) (pending-advance valid count r held current v count_fits)
        (rw (← copied-take valid count r held current v count_fits)
          (then_rest count-IsValid count_progress))

fill-Filled :
    (fuel valid n : ℕ) (out : List ℤ) (o : Output)
    → IsValid o
    → (items_left o < fuel) ⊎ (n ≤ length out)
    → Filled valid n out o (fill fuel valid n out o)
unfolding fill
fill-Filled zero valid n out o v h = Filled-done valid n out o (omega arith) v
fill-Filled (suc fuel) valid n out o v h =
    if-elim (Filled valid n out o) (ltb (length out) n) _ _
      (λ room.
        if-elim (Filled valid n out o) ready.has_current _ _
          (λ held.
            let current : ready.current.generation ≡ valid =
              ready-generation valid ready is_ready held in
            round-Filled fuel valid n out o ready (pending-readied valid o)
              (readied-items_left valid o) valid_ready held current h (ltb→lt _ _ room) _
              (fill-Filled fuel valid n
                (out ++ copied (min (remaining ready) (n - length out)) ready)
                (advance (min (remaining ready) (n - length out)) ready)))
          (λ empty.
            Filled-empty valid n out o ready
              (sym (pending-readied valid o) ∙ ready-empty valid ready is_ready empty)
              (ready-empty valid ready is_ready empty) valid_ready))
      (λ full. Filled-done valid n out o (ground arith) v)
  where
    ready : Output
    ready = readied valid o

    is_ready : IsReady valid ready
    is_ready = readied-IsReady valid o

    valid_ready : IsValid ready
    valid_ready =
        next_current-IsValid valid (discard_current valid o) (discard_current-IsValid valid o v)

-- What is heard and what is kept for the next callback, on the abstract view.
abbrev pub Plays : ℕ → Output → List ℤ × Output → Type 0
Plays n o r =
    let ahead = pending o.valid_generation o in
    (r.0 ≡ take n ahead ++ replicate (n - length ahead) (pos 0))
    × (pending o.valid_generation r.1 ≡ drop n ahead)
    × IsValid r.1

padded-Plays :
    (n : ℕ) (o : Output) (r : List ℤ × Output)
    → Filled o.valid_generation n [] o r
    → Plays n o (padded n r)
padded-Plays n o r f = (
  ap (λ out. out ++ replicate (n - length out) (pos 0)) heard
      ∙ ap (λ k. take n ahead ++ replicate k (pos 0)) silent,
  f.kept ∙ ap (λ k. drop k ahead) whole,
  f.valid_after,
)
  where
    ahead : List ℤ
    ahead = pending o.valid_generation o

    whole : n - 0 ≡ n
    whole = omega arith

    heard : r.0 ≡ take n ahead
    heard = f.played ∙ ap (λ k. take k ahead) whole

    silent : n - length (take n ahead) ≡ n - length ahead
    silent = omega (arith, length-take n ahead)

-- With the mutex and before `stop`, the callback plays the pending samples of the valid generation
-- in order, as many as the destination holds, with silence behind them, and keeps exactly the
-- samples that it has not played, in a well-formed queue. In particular its loop ends.
pub callback-Plays :
    (n : ℕ) (o : Output) → IsValid o → o.stopping ≡ false → Plays n o (callback true n o)
unfolding callback
callback-Plays n o v running =
    if-elim (Plays n o) o.stopping _ _ (λ stopped. cc)
      (λ _.
        padded-Plays n o _ (
          fill-Filled (suc (suc (length o.queue))) o.valid_generation n [] o v
            (inl (ground arith))))
