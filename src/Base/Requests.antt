-- ===== src/Base/Requests.antt =====
-- A request to a service: state and HTTP exceptions. The state comes back after a throw too, since
-- what was written stays written; `transaction` alone takes it back.
use Prim.Native.String.{String}
use mathlib.Core.Bool.{Bool}
use mathlib.Core.Option.{Option, none, some}
use beleqet_ecosystem_update.Base.Tests.{if◌then◌else◌}

-- The exceptions of the web framework that the services throw, with their messages.
pub data HttpError : Type 0 where
  bad_request forbidden not_found conflict unauthorized : String → HttpError
  internal_server_error service_unavailable too_many_requests : String → HttpError

pub data Result {ℓ} (A : Type ℓ) : Type ℓ where
  ok : A → Result A
  err : HttpError → Result A

abbrev pub Request {ℓ κ} : Type ℓ → Type κ → Type (ℓ ⊔ κ)
Request S A = S → Result A × S

module _ {ℓ κ} {S : Type ℓ} {A : Type κ} where
  abbrev pub pure : A → Request S A
  pure a s = (ok a, s)

  abbrev pub throw : HttpError → Request S A
  throw e s = (err e, s)

  abbrev pub gets : (S → A) → Request S A
  gets f s = (ok (f s), s)

  abbrev pub or_throw : Option A → HttpError → Request S A
  or_throw none e = throw e
  or_throw (some a) _ = pure a

module _ {ℓ} {S : Type ℓ} where
  abbrev pub throw_if : Bool → HttpError → Request S (Unit {0})
  throw_if c e s = (if c then err e else ok tt, s)

  abbrev pub modify : (S → S) → Request S (Unit {0})
  modify f s = (ok tt, f s)

infixl 5 ◌>>=◌ ◌>>◌
abbrev pub ◌>>=◌ {ℓ κ μ} :
    {S : Type ℓ} {A : Type κ} {B : Type μ} → Request S A → (A → Request S B) → Request S B
◌>>=◌ m f s = let (r, s') = m s in elim r [ ok a ↦ f a s' | err e ↦ (err e, s') ]

abbrev pub ◌>>◌ {ℓ κ} : {S : Type ℓ} {B : Type κ} → Request S (Unit {0}) → Request S B → Request S B
m >> k = m >>= λ _. k

-- `$transaction(async (tx) => …)`: a throw takes every write of the block back.
abbrev pub transaction {ℓ κ} : {S : Type ℓ} {A : Type κ} → Request S A → Request S A
transaction m s = let (r, s') = m s in elim r [ ok a ↦ (ok a, s') | err e ↦ (err e, s) ]

module _ {ℓ} {S : Type ℓ} where
  abbrev pub when : Bool → Request S (Unit {0}) → Request S (Unit {0})
  when c m = if c then m else pure tt

-- `try { … } catch (err) { …; throw err; }`: the handler runs on the state at the throw.
abbrev pub rethrow_after {ℓ κ} : {S : Type ℓ} {A : Type κ} → Request S A → (S → S) → Request S A
rethrow_after m handler s =
    let (r, s') = m s in elim r [ ok a ↦ (ok a, s') | err e ↦ (err e, handler s') ]
