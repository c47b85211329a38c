-- ===== src/Base/Effects.antt =====
-- Code with a state that may throw: what it returns or throws, and the state afterwards.
use soqtec.Base.Tests.{Result, ok, err}
use soqtec.Base.Texts.{Text}

abbrev pub Effect : Type 0 → Type 0 → Type 0
Effect S A = S → Result Text A × S

module _ {S : Type 0} where
  abbrev pub pure : {A : Type 0} → A → Effect S A
  pure a s = (ok a, s)

  abbrev pub throw : {A : Type 0} → Text → Effect S A
  throw message s = (err message, s)

  infixl 5 ◌>>=◌ ◌>>◌
  abbrev pub ◌>>=◌ : {A B : Type 0} → Effect S A → (A → Effect S B) → Effect S B
  ◌>>=◌ m f s = let (r, s') = m s in elim r [ ok a ↦ f a s' | err e ↦ (err e, s') ]

  abbrev pub ◌>>◌ : {A B : Type 0} → Effect S A → Effect S B → Effect S B
  m >> k = m >>= λ _. k

  -- `try { m } catch (err) { handler(err) }`
  abbrev pub catch : {A : Type 0} → Effect S A → (Text → Effect S A) → Effect S A
  catch m handler s = let (r, s') = m s in elim r [ ok a ↦ (ok a, s') | err e ↦ handler e s' ]

  abbrev pub gets : {A : Type 0} → (S → A) → Effect S A
  gets f s = (ok (f s), s)

  abbrev pub modify : (S → S) → Effect S (Unit {0})
  modify f s = (ok tt, f s)
