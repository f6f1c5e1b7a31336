-- ===== src/Tor/Circuit.antt =====
-- controller/internal/tor/circuit.go: the lines of the answer to GETINFO circuit-status, and
-- ParseRelayPath of relay.go. `none` is the panic of a slice out of bounds.
use torvmremix.Base.{
  ◌≡◌, ◌↔◌, refl, Bool, true, false, not, ◌&&◌, ◌||◌, Option, none, some, List, [], ◌∷◌, ◌++◌,
  Bytes, bytes, is_nil, has_prefix, split, trim_space, split_at_byte, if◌then◌else◌, length, drop,
  all, any, ltb, leb, arith,
}
use torvmremix.Tor.Fields.{fields}

pub record CircuitInfo : Type 0 where
  pub id : Bytes
  pub status : Bytes
  pub path : List Bytes
  pub purpose : Bytes

abbrev no_circuit : CircuitInfo
no_circuit = record { id = []; status = []; path = []; purpose = [] }

-- The value of the first field that begins with PURPOSE=.
unfoldable pub find_purpose : List Bytes → Bytes
find_purpose [] = []
find_purpose (f ∷ fs) =
    let rest = find_purpose fs in if has_prefix f (bytes "PURPOSE=") then drop 8 f else rest

-- fields[3:]
abbrev from_fourth : List Bytes → Option (List Bytes)
from_fourth (a ∷ b ∷ c ∷ fs) = some fs
from_fourth _ = none

abbrev finish : CircuitInfo → List Bytes → Option CircuitInfo
finish ci fs = elim (from_fourth fs) [
  | none ↦ none
  | some rest ↦ some (record ci { purpose = find_purpose rest })
]

-- The body of parseCircuitLine behind strings.Fields.
unfoldable pub parse_fields : List Bytes → Option CircuitInfo
parse_fields [] = finish no_circuit []
parse_fields (i ∷ []) = finish (record no_circuit { id = i }) (i ∷ [])
parse_fields (i ∷ s ∷ []) = finish (record no_circuit { id = i; status = s }) (i ∷ s ∷ [])
parse_fields (i ∷ s ∷ p ∷ fs) =
    if has_prefix p (bytes "PURPOSE=")
    then some (record { id = i; status = s; path = []; purpose = drop 8 p })
    else finish (record { id = i; status = s; path = split 44 p; purpose = [] }) (i ∷ s ∷ p ∷ fs)

unfoldable pub parse_circuit_line : Bytes → Option CircuitInfo
parse_circuit_line line = parse_fields (fields line)

-- append(circuits, parseCircuitLine(line)), in front of those of the lines that follow.
unfoldable pub add_circuit :
    Option CircuitInfo → Option (List CircuitInfo) → Option (List CircuitInfo)
add_circuit none rest = none
add_circuit (some ci) none = none
add_circuit (some ci) (some cis) = some (ci ∷ cis)

-- The loop of GetCircuits over the lines of the answer.
unfoldable pub parse_circuits : List Bytes → Option (List CircuitInfo)
parse_circuits [] = some []
parse_circuits (l ∷ ls) =
    let rest = parse_circuits ls in
    let line = trim_space l in
    if is_nil line then rest else add_circuit (parse_circuit_line line) rest

-- GetCircuits behind GetInfo; `answer` is the value of the key circuit-status.
unfoldable pub get_circuits : Bytes → Option (List CircuitInfo)
get_circuits answer = parse_circuits (split 10 answer)

-- circuitIDRe: digits, and at least one.
unfoldable pub is_circuit_id : Bytes → Bool
is_circuit_id s = not (is_nil s) && all (λ c. leb b'0' c && leb c b'9') s

-- CloseCircuit: the command that it sends, or its refusal.
unfoldable pub close_circuit : Bytes → Option Bytes
close_circuit id = if is_circuit_id id then some (bytes "CLOSECIRCUIT " ++ id) else none

unfoldable pub parse_relay_path : Bytes → Bytes × Bytes
parse_relay_path entry =
    let e = trim_space entry in elim (split_at_byte b'~' e) [ none ↦ (e, []) | some p ↦ p ]

if-some : (b : Bool) (x y : CircuitInfo) → (if b then some x else some y) ≡ none → ⊥
if-some true x y h = cc
if-some false x y h = cc

short-fields : (fs : List Bytes) → (parse_fields fs ≡ none) ↔ (ltb (length fs) 3 ≡ true)
unfolding parse_fields
short-fields [] = (λ h. refl, λ h. refl)
short-fields (i ∷ []) = (λ h. refl, λ h. refl)
short-fields (i ∷ s ∷ []) = (λ h. refl, λ h. refl)
short-fields (i ∷ s ∷ p ∷ fs) = (
  λ h. absurd (
      if-some (has_prefix p (bytes "PURPOSE="))
        (record { id = i; status = s; path = []; purpose = drop 8 p })
        (record { id = i; status = s; path = split 44 p; purpose = find_purpose fs }) h),
  λ h. absurd (ground (arith, h)),
)

-- A line that GetCircuits does not pass over and that has fewer than three fields.
unfoldable pub is_short : Bytes → Bool
is_short l = not (is_nil (trim_space l)) && ltb (length (fields (trim_space l))) 3

circuits-none : (ls : List Bytes) → (parse_circuits ls ≡ none) ↔ (any is_short ls ≡ true)
unfolding parse_circuits is_short parse_circuit_line
circuits-none [] = (λ h. absurd (cc), λ h. absurd (cc))
circuits-none (l ∷ ls) =
    step (is_nil (trim_space l)) (parse_fields (fields (trim_space l))) (parse_circuits ls)
      (ltb (length (fields (trim_space l))) 3) (any is_short ls)
      (short-fields (fields (trim_space l))) (circuits-none ls)
  where
    step :
        (blank : Bool) (m : Option CircuitInfo) (r : Option (List CircuitInfo)) (short rest : Bool)
        → ((m ≡ none) ↔ (short ≡ true))
        → ((r ≡ none) ↔ (rest ≡ true))
        → ((if blank then r else add_circuit m r) ≡ none) ↔ (((not blank && short) || rest) ≡ true)
    step true m r short rest s k = k
    step false none r true rest s k = (λ h. refl, λ h. unfold add_circuit in refl)
    step false none r false rest s k = absurd (cc (s.0 refl))
    step false (some ci) r true rest s k = absurd (cc (s.1 refl))
    step false (some ci) none false rest s k = (λ h. k.0 refl, λ h. unfold add_circuit in refl)
    step false (some ci) (some cis) false rest s k =
        (λ h. absurd (unfold add_circuit in cc), λ h. absurd (cc (k.1 h)))

-- The code that reads the answer to GETINFO circuit-status panics exactly when a line of it, behind
-- its white space, is not empty and has one or two fields.
pub get_circuits-panics :
    (answer : Bytes) → (get_circuits answer ≡ none) ↔ (any is_short (split 10 answer) ≡ true)
unfolding get_circuits
get_circuits-panics answer = circuits-none (split 10 answer)
