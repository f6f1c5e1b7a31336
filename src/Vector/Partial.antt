-- ===== src/Vector/Partial.antt =====
-- Code that may panic, or loop forever, as an `Option`: `none` is the panic, or the fuel of a loop
-- that has run out.
use mathlib.Core.Option.{some-injective}
use torvmremix.Base.{
  Option, none, some, List, [], ◌∷◌, ◌≡◌, refl, sym, subst, Bool, true, false, All, Option-cases,
  inl, inr,
}

infixl 5 ◌>>=◌
abbrev pub ◌>>=◌ : {Val Out : Type 0} → Option Val → (Val → Option Out) → Option Out
none >>= next = none
some val >>= next = next val

-- `for _, x := range xs { state = f(x, state) }`
abbrev pub for_each :
    {Val State : Type 0} → (Val → State → Option State) → List Val → State → Option State
for_each f [] s = some s
for_each f (x ∷ xs) s = f x s >>= for_each f xs

-- The code returns, and what it returns is as `P` says.
abbrev pub Returns : {Val : Type 0} → (Val → Type 0) → Option Val → Type 0
Returns P none = ⊥
Returns P (some val) = P val

pub Returns->>= :
    {Val Out : Type 0} (P : Val → Type 0) (Q : Out → Type 0) (step : Option Val)
    (next : Val → Option Out)
    → Returns P step
    → ((val : Val) → P val → Returns Q (next val))
    → Returns Q (step >>= next)
Returns->>= P Q none next h k = absurd h
Returns->>= P Q (some val) next h k = k val h

pub Returns-weaken :
    {Val : Type 0} (P Q : Val → Type 0) (step : Option Val)
    → Returns P step
    → ((val : Val) → P val → Q val)
    → Returns Q step
Returns-weaken P Q none h k = h
Returns-weaken P Q (some val) h k = k val h

pub Returns-some :
    {Val : Type 0} (P : Val → Type 0) (step : Option Val)
    → Returns P step
    → (val : Val) × (step ≡ some val) × P val
Returns-some P none h = absurd h
Returns-some P (some val) h = (val, refl, h)

pub some-Returns :
    {Val : Type 0} (P : Val → Type 0) (step : Option Val) {val : Val}
    → step ≡ some val
    → P val
    → Returns P step
some-Returns P none e h = absurd (cc)
some-Returns P (some one) e h = subst P (sym (some-injective one _ e)) h

-- The two branches of a test.
pub Returns-elim :
    {Val : Type 0} (P : Val → Type 0) (b : Bool) (x y : Option Val)
    → (b ≡ true → Returns P x)
    → (b ≡ false → Returns P y)
    → Returns P (elim b [ true ↦ x | false ↦ y ])
Returns-elim P true x y h k = h refl
Returns-elim P false x y h k = k refl

-- A loop keeps what each turn of it keeps.
pub Returns-for_each :
    {Val State : Type 0} (Good : Val → Type 0) (P : State → Type 0) (f : Val → State → Option State)
    → ((x : Val) (s : State) → Good x → P s → Returns P (f x s))
    → (xs : List Val) (s : State) → All Good xs
    → P s
    → Returns P (for_each f xs s)
Returns-for_each Good P f keep [] s good p = p
Returns-for_each Good P f keep (x ∷ xs) s good p =
    Returns->>= P P (f x s) (for_each f xs) (keep x s good.0 p)
      (λ t q. Returns-for_each Good P f keep xs t good.1 q)

-- A chain of three steps from its first two.
pub Returns-assoc :
    {Val Mid Out : Type 0} (Q : Out → Type 0) (m : Option Val) (f : Val → Option Mid)
    (g : Mid → Option Out)
    → Returns Q ((m >>= f) >>= g)
    → Returns Q (m >>= λ x. f x >>= g)
Returns-assoc Q none f g h = h
Returns-assoc Q (some x) f g h = h

-- A chain that panics in the end.
pub >>=-none :
    {Val Mid Out : Type 0} (m : Option Val) (f : Val → Option Mid) (g : Mid → Option Out)
    → ((x : Mid) → g x ≡ none)
    → (m >>= λ x. f x >>= g) ≡ none
>>=-none none f g h = refl
>>=-none (some x) f g h = elim (Option-cases (f x)) [ inl e ↦ rw e refl | inr (y, e) ↦ rw e (h y) ]
