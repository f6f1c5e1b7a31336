-- ===== src/Secwatch/Recent.antt =====
-- The history of the monitor's events (controller/internal/secwatch/monitor.go), cut to its last ones.
use torvmremix.Base.{
  ℕ, zero, suc, ◌+◌, ◌-◌, ◌≤◌, ◌≡◌, refl, sym, ap, ◌∙◌, Bool, true, false, List, [], ◌∷◌, ◌++◌,
  length, length-append, length-drop, drop, ltb, if◌then◌else◌, arith,
}
use torvmremix.Secwatch.Monitor.{SecurityEvent, trimmed, max_event_history}

abbrev pub last_of : List SecurityEvent → List SecurityEvent
last_of h = drop (length h - 100) h

drop-append : (n : ℕ) (h t : List SecurityEvent) → n ≤ length h → drop n (h ++ t) ≡ drop n h ++ t
drop-append zero h t le = refl
drop-append (suc n) [] t le = absurd (omega (arith, le))
drop-append (suc n) (x ∷ h) t le = drop-append n h t (omega (arith, le))

drop-nil : (n : ℕ) → drop {A = SecurityEvent} n [] ≡ []
drop-nil zero = refl
drop-nil (suc n) = refl

drop-drop : (m n : ℕ) (h : List SecurityEvent) → drop m (drop n h) ≡ drop (n + m) h
drop-drop m zero h = ap (λ k. drop k h) (omega arith)
drop-drop m (suc n) [] = drop-nil m ∙ sym (drop-nil (suc n + m))
drop-drop m (suc n) (x ∷ h) =
    drop-drop m n h ∙ ap (λ k. drop k (x ∷ h)) {x = suc (n + m)} (omega arith)

trimmed-last_of : (h : List SecurityEvent) → trimmed h ≡ last_of h
unfolding trimmed max_event_history
trimmed-last_of h = go (ltb 100 (length h)) refl
  where
    go :
        (b : Bool) → ltb 100 (length h) ≡ b → (if b then drop (length h - 100) h else h) ≡ last_of h
    go true k = refl
    go false k = ap (λ n. drop n h) {x = 0} (ground arith)

-- The events that are kept of a history, with one more, are those that are kept of the longer one.
pub trimmed-snoc :
    (h : List SecurityEvent) (e : SecurityEvent)
    → trimmed (last_of h ++ (e ∷ [])) ≡ last_of (h ++ (e ∷ []))
trimmed-snoc h e =
    let t = h ++ (e ∷ []) in
    let k = length h - 100 in
    let cut = drop-append k h (e ∷ []) (omega arith) in
    trimmed-last_of (last_of h ++ (e ∷ []))
    ∙ ap last_of (sym cut)
    ∙ drop-drop (length (drop k t) - 100) k t
    ∙ ap (λ n. drop n t) (omega (arith, length-drop k t, length-append h (e ∷ [])))

pub length-last_of : (h : List SecurityEvent) → length (last_of h) ≤ 100
length-last_of h = omega (arith, length-drop (length h - 100) h)
