-- ===== src/Common/Results.antt =====
-- A call that returns a value or throws an error of its component.
use mathlib.Core.Path.{◌≡◌, refl}
use mathlib.Core.Bool.{Bool, true, false}

pub data Result (E V : Type 0) : Type 0 where
  ok : V → Result E V
  throw : E → Result E V

module _ {E : Type 0} where
  infixl 5 ◌>>=◌ ◌>>◌
  abbrev pub ◌>>=◌ : {V W : Type 0} → Result E V → (V → Result E W) → Result E W
  throw e >>= next = throw e
  ok v >>= next = next v

  abbrev pub ◌>>◌ : {W : Type 0} → Result E (Unit {0}) → Result E W → Result E W
  check >> next = check >>= λ passed. next

  -- `if (test) throw …`
  abbrev pub throw_if : Bool → E → Result E (Unit {0})
  throw_if false e = ok tt
  throw_if true e = throw e

  -- What a chain that returned says of its first step.
  pub ok_chain :
      {V W : Type 0} (first : Result E V) (next : V → Result E W) (w : W)
      → (first >>= next) ≡ ok w
      → (v : V) × (first ≡ ok v) × (next v ≡ ok w)
  ok_chain (throw e) next w h = absurd (cc)
  ok_chain (ok v) next w h = (v, refl, h)

  -- A chain throws when each of its continuations does.
  pub chain_throws :
      {V W : Type 0} (first : Result E V) (next : V → Result E W)
      → ((v : V) → (e : E) × (next v ≡ throw e))
      → (e : E) × ((first >>= next) ≡ throw e)
  chain_throws (throw e) next h = (e, refl)
  chain_throws (ok v) next h = h v

  pub throw_if-ok : (test : Bool) (e : E) (u : Unit {0}) → throw_if test e ≡ ok u → test ≡ false
  throw_if-ok false e u h = refl
  throw_if-ok true e u h = cc

  pub ok_eq : {V : Type 0} (v w : V) → ◌≡◌ {A = Result E V} (ok v) (ok w) → v ≡ w
  ok_eq v w h = cc

  -- A chain that returned passed the check in front of it.
  pub throw_if_chain :
      {W : Type 0} (test : Bool) (e : E) (next : Result E W) (w : W)
      → (throw_if test e >> next) ≡ ok w
      → (test ≡ false) × (next ≡ ok w)
  throw_if_chain false e next w h = (refl, h)
  throw_if_chain true e next w h = absurd (cc)
