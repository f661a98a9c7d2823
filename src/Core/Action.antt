-- ===== src/Core/Action.antt =====
-- Methods that may throw: state passing with exceptions, where what was stored before a throw stays
-- stored.
use ros2_canopen.Base.{Bool, if◌then◌else◌, Option, none, some}

-- How a method ends: `error` is `none` where it returns.
pub record Result (E S : Type 0) : Type 0 where
  pub error : Option E
  pub after : S

abbrev pub Action : Type 0 → Type 0 → Type 0
Action E S = S → Result E S

module _ {E S : Type 0} where
  abbrev pub throw : E → Action E S
  throw e s = record { error = some e; after = s }

  abbrev pub return : Action E S
  return s = record { error = none; after = s }

  abbrev pub continue : Option E → Action E S → Action E S
  continue none k = k
  continue (some e) k = throw e

infixl 5 ◌>>◌
abbrev pub ◌>>◌ : {E S : Type 0} → Action E S → Action E S → Action E S
m >> k = λ s. let r = m s in continue r.error k r.after

module _ {E S : Type 0} where
  -- `if (test()) throw e;`
  abbrev pub throw_if : (S → Bool) → E → Action E S
  throw_if test e s = if test s then throw e s else return s

  abbrev pub modify : (S → S) → Action E S
  modify f s = return (f s)

  -- `if (test()) m();`
  abbrev pub when : (S → Bool) → Action E S → Action E S
  when test m s = if test s then m s else return s
