-- ===== src/Output/Calls.antt =====
-- Single calls of the callback of src/miniaudio_output.cpp, with and without the mutex.
use tiny_robotic_voice.Common.{
  Bool, ◌∷◌, ℕ, zero, suc, ◌-◌, ◌≡◌, refl, ap, ◌∙◌, ◌⊎◌, inl, inr, true, false, List, [], ◌++◌, ℤ,
  pos, length, take, replicate, arith, Bool-cases,
}
use tiny_robotic_voice.Output.{Output, callback, set_valid_generation, set_valid_generation}
use tiny_robotic_voice.Output.Pending.{pending}
use tiny_robotic_voice.Output.Invariant.{IsValid, retargeted-IsValid}
use tiny_robotic_voice.Output.Play.{Plays, callback-Plays}

nothing-silent :
    (n : ℕ) (ahead : List ℤ)
    → ahead ≡ []
    → take n ahead ++ replicate (n - length ahead) (pos 0) ≡ replicate n (pos 0)
nothing-silent zero [] h = refl
nothing-silent (suc n) [] h =
    let whole : suc n - 0 ≡ suc n = omega arith in ap (λ k. replicate k (pos 0)) whole
nothing-silent n (x ∷ xs) h = cc

-- With nothing pending for the valid generation the callback gives silence, whether it has the mutex
-- or not, and whether the output is stopped or not.
pub callback-silent :
    (locked : Bool) (n : ℕ) (o : Output)
    → IsValid o
    → pending o.valid_generation o ≡ []
    → (callback locked n o).0 ≡ replicate n (pos 0)
callback-silent false n o v nothing = unfold callback in refl
callback-silent true n o v nothing = elim (Bool-cases o.stopping) [
  | inl stopped ↦ unfold callback in rw stopped refl
  | inr running ↦
      (callback-Plays n o v running).0 ∙ nothing-silent n (pending o.valid_generation o) nothing
]

-- A call gives silence and changes nothing, or it plays.
pub callback-cases :
    (locked : Bool) (n : ℕ) (p : Output)
    → IsValid p
    → (callback locked n p ≡ (replicate n (pos 0), p)) ⊎ Plays n p (callback locked n p)
callback-cases false n p v = inl (unfold callback in refl)
callback-cases true n p v = elim (Bool-cases p.stopping) [
  | inl stopped ↦ inl (unfold callback in rw stopped)
  | inr running ↦ inr (callback-Plays n p v running)
]

-- Every call leaves a well-formed queue.
pub callback-IsValid :
    (locked : Bool) (n : ℕ) (o : Output) → IsValid o → IsValid (callback locked n o).1
callback-IsValid locked n o v = elim (callback-cases locked n o v) [
  | inl off ↦ rw off v
  | inr plays ↦ plays.2
]

-- With another valid generation of which there is nothing.
pub retargeted-pending :
    (newer : ℕ) (o : Output)
    → pending newer o ≡ []
    → pending newer (set_valid_generation newer o) ≡ []
unfolding set_valid_generation
retargeted-pending newer o nothing = nothing

pub retargeted-silent :
    (locked : Bool) (n newer : ℕ) (o : Output)
    → IsValid o
    → pending newer o ≡ []
    → (callback locked n (set_valid_generation newer o)).0 ≡ replicate n (pos 0)
retargeted-silent locked n newer o v nothing =
    callback-silent locked n (set_valid_generation newer o) (retargeted-IsValid newer o v)
      (unfold set_valid_generation in nothing)
