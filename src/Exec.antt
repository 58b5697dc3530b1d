-- ===== src/Exec.antt =====
-- Methods that mutate the engine and may throw. What was written before a `throw` stays written,
-- so the state comes back beside the error too: packages/reference/src/errors.ts.
pub mod Follows
use loyalty_interchange_prot.Base.{ℕ, Bool, true, false, Option, none, some, List, [], ◌∷◌}

-- EngineErrorCode, and the TypeError or RangeError that the runtime throws
pub data ErrorCode : Type 0 where
  conflict currency_mismatch expired forbidden idempotency_conflict : ErrorCode
  insufficient_balance invalid_order invalid_cursor invalid_program invalid_state : ErrorCode
  validation_failed member_not_found member_not_active not_found : ErrorCode
  reward_not_available reward_not_found runtime_error : ErrorCode

-- EngineError, without its message
pub record EngineError : Type 0 where
  pub code : ErrorCode
  pub status : ℕ

pub data Outcome (A : Type 0) : Type 0 where
  returned : A → Outcome A
  threw : EngineError → Outcome A

abbrev pub Exec : Type 0 → Type 0 → Type 0
Exec S A = S → Outcome A × S

module _ {S A : Type 0} where
  unfoldable pub pure : A → Exec S A
  pure a s = (returned a, s)

  -- `throw new EngineError(code, message, status)`
  unfoldable pub throw : ErrorCode → ℕ → Exec S A
  throw code status s = (threw (record { code = code; status = status }), s)

  unfoldable pub gets : (S → A) → Exec S A
  gets f s = (returned (f s), s)

  -- an outcome that does not depend on the state
  unfoldable pub settle : Outcome A → Exec S A
  settle o s = (o, s)

module _ {S A B : Type 0} where
  -- a thrown error skips what follows
  abbrev pub proceed : Outcome A → (A → Exec S B) → Exec S B
  proceed (returned a) f s = f a s
  proceed (threw e) f s = (threw e, s)

  infixl 10 ◌>>=◌ ◌>>◌
  unfoldable pub ◌>>=◌ : Exec S A → (A → Exec S B) → Exec S B
  ◌>>=◌ m f s = let (r, s') = m s in proceed r f s'

  abbrev pub ◌>>◌ : Exec S A → Exec S B → Exec S B
  m >> n = m >>= λ _. n

module _ {S : Type 0} where
  unfoldable pub modify : (S → S) → Exec S (Unit {0})
  modify f s = (returned tt, f s)

  -- `if (test) throw …`
  unfoldable pub throw_if : Bool → ErrorCode → ℕ → Exec S (Unit {0})
  unfolding pure throw
  throw_if true code status = throw code status
  throw_if false code status = pure tt

  -- `if (!x) throw …`
  unfoldable pub or_throw : {A : Type 0} → Option A → ErrorCode → ℕ → Exec S A
  unfolding pure throw
  or_throw none code status = throw code status
  or_throw (some a) code status = pure a

  -- `if (test) …`
  unfoldable pub do_if : Bool → Exec S (Unit {0}) → Exec S (Unit {0})
  unfolding pure
  do_if true m = m
  do_if false m = pure tt

  -- a branch on an optional value
  unfoldable pub branch : {A B : Type 0} → Option A → Exec S B → (A → Exec S B) → Exec S B
  branch none m f = m
  branch (some a) m f = f a

  -- a loop that collects: `xs.map(f)` where `f` mutates
  unfoldable pub map_each : {A B : Type 0} → (A → Exec S B) → List A → Exec S (List B)
  unfolding pure ◌>>=◌
  map_each f [] = pure []
  map_each f (x ∷ xs) = do y ← f x; ys ← map_each f xs; pure (y ∷ ys)

  -- `for (const x of xs) …`
  unfoldable pub for_each : {A : Type 0} → (A → Exec S (Unit {0})) → List A → Exec S (Unit {0})
  unfolding pure ◌>>=◌
  for_each f [] = pure tt
  for_each f (x ∷ xs) = do f x; for_each f xs
