-- ===== src/Base/Results.antt =====
-- Errors as values: a result with its error type, `do` blocks, and the inversion of a chain of
-- checks.
use mathlib.Core.Path.{◌≡◌, refl, ap}
use mathlib.Core.Bool.{Bool, true, false}
use mathlib.Core.Option.{Option, none, some}
use mathlib.Core.List.{List, [], ◌∷◌}

pub data Result (E A : Type 0) : Type 0 where
  err : E → Result E A
  ok : A → Result E A

infixl 5 ◌>>=◌ ◌>>◌
-- Go's `if err != nil { return err }` in front of what follows.
abbrev pub ◌>>=◌ : {Why Val Out : Type 0} → Result Why Val → (Val → Result Why Out) → Result Why Out
err why >>= next = err why
ok val >>= next = next val

-- The same where the first part has no value.
abbrev pub ◌>>◌ : {Why Out : Type 0} → Result Why (Unit {0}) → Result Why Out → Result Why Out
err why >> next = err why
ok tt >> next = next

-- `if bad { return e }`
abbrev pub refuse_if : {E : Type 0} → Bool → E → Result E (Unit {0})
refuse_if true e = err e
refuse_if false e = ok tt

pub refuse_if-ok : {E : Type 0} (b : Bool) (e : E) → refuse_if b e ≡ ok tt → b ≡ false
refuse_if-ok true e h = cc
refuse_if-ok false e h = refl

-- What follows a step succeeds only behind a step that does.
pub >>=-ok :
    {Why Val Out : Type 0} (step : Result Why Val) (next : Val → Result Why Out) {out : Out}
    → (step >>= next) ≡ ok out
    → (val : Val) × (step ≡ ok val) × (next val ≡ ok out)
>>=-ok (err why) next done = cc
>>=-ok (ok val) next done = (val, refl, done)

pub >>-ok :
    {Why Out : Type 0} (step : Result Why (Unit {0})) (next : Result Why Out) {out : Out}
    → (step >> next) ≡ ok out
    → (step ≡ ok tt) × (next ≡ ok out)
>>-ok (err why) next done = cc
>>-ok (ok tt) next done = (refl, done)

-- `for _, x := range xs { if err := check(x); err != nil { return err } }`
abbrev pub each : {E A : Type 0} → (A → Result E (Unit {0})) → List A → Result E (Unit {0})
each f [] = ok tt
each f (x ∷ xs) = f x >> each f xs

pub ok-injective : {E A : Type 0} (a b : A) → ◌≡◌ {A = Result E A} (ok a) (ok b) → a ≡ b
ok-injective a b h = cc

-- The error of a call, in front of its value.
abbrev pub or_fail : {E A : Type 0} → E → Option A → Result E A
or_fail e none = err e
or_fail e (some a) = ok a

-- An error that is wrapped.
abbrev pub map_err : {E F A : Type 0} → (E → F) → Result E A → Result F A
map_err f (err e) = err (f e)
map_err f (ok a) = ok a

pub map_err-ok :
    {E F A : Type 0} (f : E → F) (m : Result E A) {a : A} → map_err f m ≡ ok a → m ≡ ok a
map_err-ok f (err e) h = absurd (cc)
map_err-ok f (ok b) h = ap ok (ok-injective b _ h)
