-- ===== src/Prelude/Io.antt =====
-- Programs that change a state and can fail: `?` ends them with the error, and keeps the state.
use mathlib.Core.Path.{◌≡◌, refl}
use mathlib.Core.Option.{Option, none, some}
use palingenesis.Prelude.Outcome.{Result, ok, err}

abbrev pub Io : Type 0 → Type 0 → Type 0 → Type 0
Io S E A = S → Result A E × S

abbrev pub then_run : {S E A B : Type 0} → Result A E × S → (A → Io S E B) → Result B E × S
then_run (ok a, s) f = f a s
then_run (err e, s) f = (err e, s)

infixl 5 ◌>>=◌ ◌>>◌
abbrev pub ◌>>=◌ : {S E A B : Type 0} → Io S E A → (A → Io S E B) → Io S E B
◌>>=◌ m f s = then_run (m s) f

abbrev pub ◌>>◌ : {S E B : Type 0} → Io S E (Unit {0}) → Io S E B → Io S E B
m >> k = m >>= λ _. k

abbrev pub give : {S E A : Type 0} → Result A E → Io S E A
give r s = (r, s)

-- A call that changes nothing of the state, or its error.
abbrev pub call_or : {S E X : Type 0} → (X → E) → Option X → Io S E (Unit {0})
call_or error none = give (ok tt)
call_or error (some x) = give (err (error x))

-- What holds of every end of a program holds of its first call's error, and of the rest.
module _ {S E A : Type 0} (P : Result A E × S → Type 0) where
  pub call_step :
      {X : Type 0} (error : X → E) (fault : Option X) (k : Io S E A) (s : S)
      → ((x : X) → P (err (error x), s))
      → P (k s)
      → P ((call_or error fault >> k) s)
  call_step error none k s h g = g
  call_step error (some x) k s h g = h x

  pub give_step :
      {B : Type 0} (r : Result B E) (k : B → Io S E A) (s : S)
      → ((e : E) → P (err e, s))
      → ((b : B) → r ≡ ok b → P (k b s))
      → P ((give r >>= k) s)
  give_step (ok b) k s h g = g b refl
  give_step (err e) k s h g = h e
