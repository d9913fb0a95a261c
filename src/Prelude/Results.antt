-- ===== src/Prelude/Results.antt =====
-- How a C++ call ends: with a value, with an exception, or not as the language defines.

-- The exceptions that the sources throw, and that of `new`.
pub data Exception : Type 0 where
  out_of_range invalid_argument logic_error bad_alloc : Exception

-- `crashed` is undefined behaviour: a null or dangling pointer followed, a store past an array.
-- `stuck` is no C++ outcome: the fuel of a loop ran out.
pub data Outcome {ℓ} (A : Type ℓ) : Type ℓ where
  ok : A → Outcome A
  threw : Exception → Outcome A
  crashed : Outcome A
  stuck : Outcome A

infixl 5 ◌>>=◌
abbrev pub ◌>>=◌ {ℓ κ} : {A : Type ℓ} {B : Type κ} → Outcome A → (A → Outcome B) → Outcome B
ok a >>= f = f a
threw e >>= f = threw e
crashed >>= f = crashed
stuck >>= f = stuck
