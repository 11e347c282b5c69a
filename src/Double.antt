-- ===== src/Double.antt =====
-- What the program uses of `double`: tests, and literals, which are whole hundredths throughout.
use tiny_robotic_voice.Common.{
  ◌≡◌, refl, Bool, true, false, Option, none, some, ℤ, pos, negsuc, ◌≤ℤ◌, ltb_ℤ, eqb_ℤ,
}

pub record Double (D : Type 0) : Type 0 where
  pub is_finite : D → Bool
  pub lt : D → D → Bool
  pub eq : D → D → Bool
  -- The value of the literal that is so many hundredths.
  pub hundredths : ℤ → D

-- Literals from -24 to 24: finite, and rounded without changing their order.
pub record HasLiterals (D : Type 0) ⦃d : Double D⦄ : Type 0 where
  pub literal_finite :
      (n : ℤ) → negsuc 2399 ≤ℤ n → n ≤ℤ pos 2400 → d.is_finite (d.hundredths n) ≡ true
  pub literal_lt :
      (m n : ℤ)
      → negsuc 2399 ≤ℤ m
      → m ≤ℤ pos 2400
      → negsuc 2399 ≤ℤ n
      → n ≤ℤ pos 2400
      → d.lt (d.hundredths m) (d.hundredths n) ≡ ltb_ℤ m n

-- The laws can be met: whole hundredths, with `none` for NaN.
abbrev pub Hundredths : Type 0
Hundredths = Option ℤ

abbrev pub on_numbers : (ℤ → ℤ → Bool) → Hundredths → Hundredths → Bool
on_numbers f (some a) (some b) = f a b
on_numbers f _ _ = false

abbrev pub is_number : Hundredths → Bool
is_number (some a) = true
is_number none = false

instance abbrev pub hundredths_double : Double Hundredths
hundredths_double = record {
  is_finite = is_number;
  lt = on_numbers ltb_ℤ;
  eq = on_numbers eqb_ℤ;
  hundredths = λ n. some n;
}

pub Hundredths-HasLiterals : HasLiterals Hundredths
Hundredths-HasLiterals = record { literal_finite = λ n a b. refl; literal_lt = λ m n a b c e. refl }
