-- ===== src/Common/Results.antt =====
-- Python's exceptions, as far as the modelled code raises or handles them.
use mathlib.Core.Bool.{Bool, true, false}

pub data Error : Type 0 where
  value_error runtime_error key_error protocol_error incomplete_read_error : Error

pub data Result {ℓ} (A : Type ℓ) : Type ℓ where
  ok : A → Result A
  raise : Error → Result A

-- Going on with the result of a call; an exception passes through.
infixl 5 ◌>>=◌ ◌>>◌
abbrev pub ◌>>=◌ {ℓ ℓ'} :
    {A : Type ℓ} {B : Type ℓ'} (result : Result A) (next : A → Result B) → Result B
raise error >>= next = raise error
ok value >>= next = next value

abbrev pub ◌>>◌ {ℓ'} : {B : Type ℓ'} (check : Result (Unit {0})) (next : Result B) → Result B
check >> next = check >>= λ done. next

-- `if bad: raise e`
abbrev pub raise_if : Bool → Error → Result (Unit {0})
raise_if true e = raise e
raise_if false e = ok tt
