-- ===== src/Prelude/Exec.antt =====
-- Methods that change an object and may raise: what was written before a raise stays written.
-- An exception's message is the list of the pieces of its f-string.
use mathlib.Core.Bool.{Bool, true, false}
use mathlib.Core.List.{List, [], ◌∷◌}
use mathlib.Core.Option.{Option, none, some}
use Prim.Native.String.{String}

abbrev pub Message : Type 0
Message = List String

-- The exceptions of core/errors.py that are raised here, and those of Python and of sqlite3. The
-- calls of db/connection.py differ on a row that the tables refuse: `Database.execute` raises a
-- DatabaseError, which is a KSECError, and a statement inside `Database.transaction` lets sqlite3's
-- own IntegrityError pass.
pub data Error : Type 0 where
  ksec_error : Message → Error
  authorization_error : Message → Error
  session_error : Message → Error
  value_error : Message → Error
  assertion_error : Error
  integrity_error : Error
  database_error : Error

-- `except KSECError`: the class itself and its subclasses.
abbrev pub is_ksec_error : Error → Bool
is_ksec_error (ksec_error m) = true
is_ksec_error (authorization_error m) = true
is_ksec_error (session_error m) = true
is_ksec_error database_error = true
is_ksec_error _ = false

abbrev pub message : Error → Message
message (ksec_error m) = m
message (authorization_error m) = m
message (session_error m) = m
message (value_error m) = m
message assertion_error = []
message integrity_error = []
-- The text of sqlite3 behind it is left out.
message database_error = "SQL execution failed: " ∷ []

-- `blocked`: the caller waits for a lock that it holds itself, and never returns.
pub data Outcome {ℓ} (A : Type ℓ) : Type ℓ where
  returned : A → Outcome A
  raised : Error → Outcome A
  blocked : Outcome A

abbrev pub Exec {ℓ κ} : Type ℓ → Type κ → Type (ℓ ⊔ κ)
Exec S A = S → Outcome A × S

module _ {ℓ κ} {S : Type ℓ} {A : Type κ} where
  abbrev pub pure : A → Exec S A
  pure a s = (returned a, s)

  abbrev pub raise : Error → Exec S A
  raise e s = (raised e, s)

  abbrev pub block : Exec S A
  block s = (blocked, s)

  abbrev pub gets : (S → A) → Exec S A
  gets f s = (returned (f s), s)

  -- `assert x is not None`
  abbrev pub assert_some : Option A → Exec S A
  assert_some (some a) s = (returned a, s)
  assert_some none s = (raised assertion_error, s)

  -- `if row is None: raise e`
  abbrev pub or_raise : Option A → Error → Exec S A
  or_raise (some a) e s = (returned a, s)
  or_raise none e s = (raised e, s)

abbrev pub modify {ℓ} : {S : Type ℓ} → (S → S) → Exec S (Unit {0})
modify f s = (returned tt, f s)

abbrev pub raise_if {ℓ} : {S : Type ℓ} → Bool → Error → Exec S (Unit {0})
raise_if true e s = (raised e, s)
raise_if false e s = (returned tt, s)

module _ {ℓ κ μ} {S : Type ℓ} {A : Type κ} {B : Type μ} where
  abbrev pub continue : Outcome A → (A → Exec S B) → Exec S B
  continue (returned a) f s = f a s
  continue (raised e) f s = (raised e, s)
  continue blocked f s = (blocked, s)

  infixl 5 ◌>>=◌
  abbrev pub ◌>>=◌ : Exec S A → (A → Exec S B) → Exec S B
  ◌>>=◌ m f s = continue (m s).0 f (m s).1

module _ {ℓ κ μ} {S : Type ℓ} {A : Type κ} {B : Type μ} where
  infixl 5 ◌>>◌
  abbrev pub ◌>>◌ : Exec S A → Exec S B → Exec S B
  m >> n = m >>= λ _. n

module _ {ℓ κ} {S : Type ℓ} {A : Type κ} where
  abbrev pub on_error : Outcome A → (Error → Exec S A) → Exec S A
  on_error (returned a) h s = (returned a, s)
  on_error (raised e) h s = h e s
  on_error blocked h s = (blocked, s)

  -- `try: … except …`: the handler starts from the state that the raise left.
  abbrev pub try_except : Exec S A → (Error → Exec S A) → Exec S A
  try_except m h s = on_error (m s).0 h (m s).1
