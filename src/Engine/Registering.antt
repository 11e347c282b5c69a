-- ===== src/Engine/Registering.antt =====
-- What the constructor and the destructor of `FliteEngine` in src/flite_engine.cpp leave registered.
use tiny_robotic_voice.Common.{
  ◌≡◌, refl, false, not, ◌||◌, Option, none, some, Bytes, List, [], ◌∷◌, pos, leb_ℤ, eqb_ℤ, Result,
  ok, err, if-elim, arith,
}
use tiny_robotic_voice.Engine.{
  Flite, Engine, VoiceName, kal16, rms, VoiceCall, registered, unregistered, Voices, Built,
  unregister_voices, leave_constructor, guarded, check_rates, with_rms, with_kal16,
  make_flite_engine,
}

module _ {W D F : Type 0} (f : Flite W D F) where
  -- Over the calls, a voice goes from registered as `held` (or not at all) to `end`: it is never
  -- registered twice, and only what is registered is given back.
  abbrev pub Ends : VoiceName → List (VoiceCall W) → Option W → Option W → Type 0
  Ends name [] held end = held ≡ end
  Ends kal16 (registered kal16 w ∷ rest) held end = (held ≡ none) × Ends kal16 rest (some w) end
  Ends kal16 (unregistered kal16 w ∷ rest) held end = (held ≡ some w) × Ends kal16 rest none end
  Ends kal16 (registered rms w ∷ rest) held end = Ends kal16 rest held end
  Ends kal16 (unregistered rms w ∷ rest) held end = Ends kal16 rest held end
  Ends rms (registered kal16 w ∷ rest) held end = Ends rms rest held end
  Ends rms (unregistered kal16 w ∷ rest) held end = Ends rms rest held end
  Ends rms (registered rms w ∷ rest) held end = (held ≡ none) × Ends rms rest (some w) end
  Ends rms (unregistered rms w ∷ rest) held end = (held ≡ some w) × Ends rms rest none end

  -- The pointers are to the voices that the calls leave registered, and to no other.
  pub record Holds (v : Voices W) (k r : Option W) : Type 0 where
    pub kal16_pointer : v.kal16_voice ≡ k
    pub rms_pointer : v.rms_voice ≡ r
    pub kal16_calls : Ends kal16 v.calls none k
    pub rms_calls : Ends rms v.calls none r

  -- What an exception and an engine leave registered; the destructor calls `unregister_voices`.
  abbrev pub Leaves : Voices W → Result Bytes (Engine W) → Type 0
  Leaves v (err what) = Holds v none none
  Leaves v (ok engine) =
      Holds v (some engine.kal16_voice) (some engine.rms_voice)
      × Holds (unregister_voices v) none none
      × (f.sample_rate engine.kal16_voice ≡ engine.sample_rate)
      × (f.sample_rate engine.rms_voice ≡ engine.sample_rate)
      × (leb_ℤ engine.sample_rate (pos 0) ≡ false)

  abbrev pub IsBuilt : Built W → Type 0
  IsBuilt b = Leaves b.voices b.result

  both-IsBuilt :
      (k r : W)
      → IsBuilt (
          guarded (
            check_rates f k r (record {
              kal16_voice = some k;
              rms_voice = some r;
              calls = registered kal16 k ∷ registered rms r ∷ [];
            })))
  unfolding check_rates guarded unregister_voices
  both-IsBuilt k r =
      if-elim (λ result. IsBuilt (leave_constructor v result))
        (leb_ℤ (f.sample_rate k) (pos 0) || leb_ℤ (f.sample_rate r) (pos 0)) _ _ (λ _. freed)
        (λ rates.
          if-elim (λ result. IsBuilt (leave_constructor v result))
            (not (eqb_ℤ (f.sample_rate k) (f.sample_rate r))) _ _ (λ _. freed)
            (λ same. (
              record {
                kal16_pointer = refl;
                rms_pointer = refl;
                kal16_calls = (refl, refl);
                rms_calls = (refl, refl);
              },
              freed,
              refl,
              ground arith,
              ground arith,
            )))
    where
      v : Voices W
      v = record {
        kal16_voice = some k;
        rms_voice = some r;
        calls = registered kal16 k ∷ registered rms r ∷ [];
      }

      freed : Holds (unregister_voices v) none none
      freed = record {
        kal16_pointer = refl;
        rms_pointer = refl;
        kal16_calls = (refl, (refl, refl));
        rms_calls = (refl, (refl, refl));
      }

  with_rms-IsBuilt :
      (k : W) (o : Option W)
      → IsBuilt (
          guarded (
            with_rms f k
              (record { kal16_voice = some k; rms_voice = none; calls = registered kal16 k ∷ [] })
              o))
  unfolding guarded unregister_voices
  with_rms-IsBuilt k none = record {
    kal16_pointer = refl;
    rms_pointer = refl;
    kal16_calls = (refl, (refl, refl));
    rms_calls = refl;
  }
  with_rms-IsBuilt k (some r) = both-IsBuilt k r

  with_kal16-IsBuilt :
      (o : Option W)
      → IsBuilt
          (guarded (with_kal16 f (record { kal16_voice = none; rms_voice = none; calls = [] }) o))
  unfolding guarded unregister_voices
  with_kal16-IsBuilt none = record {
    kal16_pointer = refl;
    rms_pointer = refl;
    kal16_calls = refl;
    rms_calls = refl;
  }
  with_kal16-IsBuilt (some k) = with_rms-IsBuilt k f.register_rms

  -- If the constructor throws, every voice that it registered has been given back once, and its
  -- pointers are null. Otherwise the engine's voices are registered, at their common positive
  -- sample rate, and the destructor gives both back once.
  pub make_flite_engine-IsBuilt : IsBuilt (make_flite_engine f)
  unfolding make_flite_engine
  make_flite_engine-IsBuilt = with_kal16-IsBuilt f.register_kal16
