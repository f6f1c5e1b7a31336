-- ===== src/Logging/Parts.antt =====
-- The complete lines of a text and what is behind the last newline, for
-- controller/internal/logging/ringwriter.go.
use torvmremix.Base.{
  ℕ, ◌≡◌, refl, ap, ◌∙◌, false, List, [], ◌∷◌, ◌++◌, Bytes, split, split_step, ◌==◌, Bool-cases,
  inl, inr,
}

-- All parts but the last, and the last.
abbrev pub complete : List Bytes → List Bytes
complete [] = []
complete (p ∷ []) = []
complete (p ∷ q ∷ ps) = p ∷ complete (q ∷ ps)

abbrev pub rest_of : List Bytes → Bytes
rest_of [] = []
rest_of (p ∷ []) = p
rest_of (p ∷ q ∷ ps) = rest_of (q ∷ ps)

-- The lines of a text that a newline ends, and the text behind them.
unfoldable pub whole_lines : Bytes → List Bytes
whole_lines s = complete (split 10 s)

unfoldable pub open_line : Bytes → Bytes
open_line s = rest_of (split 10 s)

pub split-cons : (s : Bytes) → (p : Bytes) × (ps : List Bytes) × (split 10 s ≡ p ∷ ps)
unfolding split
split-cons [] = ([], [], refl)
split-cons (a ∷ s) =
    let (p, ps, e) = split-cons s in
    elim (Bool-cases (a == 10)) [ inl h ↦ ([], split 10 s, rw h) | inr h ↦ (a ∷ p, ps, rw (h, e)) ]

complete-append :
    (xs : List Bytes) (y : Bytes) (ys : List Bytes)
    → complete (xs ++ (y ∷ ys)) ≡ xs ++ complete (y ∷ ys)
complete-append [] y ys = refl
complete-append (x ∷ []) y ys = refl
complete-append (x ∷ w ∷ xs) y ys = ap (λ l. x ∷ l) (complete-append (w ∷ xs) y ys)

rest-append :
    (xs : List Bytes) (y : Bytes) (ys : List Bytes) → rest_of (xs ++ (y ∷ ys)) ≡ rest_of (y ∷ ys)
rest-append [] y ys = refl
rest-append (x ∷ []) y ys = refl
rest-append (x ∷ w ∷ xs) y ys = rest-append (w ∷ xs) y ys

-- A byte that is no newline joins the first part.
push-split :
    (a : ℕ) (s t : Bytes) (ps : List Bytes)
    → split 10 (s ++ t) ≡ complete ps ++ split 10 (rest_of ps ++ t)
    → (p : Bytes) (qs : List Bytes) → ps ≡ p ∷ qs
    → a == 10 ≡ false
    → split_step false a (split 10 (s ++ t))
      ≡ complete ((a ∷ p) ∷ qs) ++ split 10 (rest_of ((a ∷ p) ∷ qs) ++ t)
unfolding split
push-split a s t ps ih p [] e h = rw (ih, e, h)
push-split a s t ps ih p (q ∷ qs) e h = rw (ih, e)

-- Cutting a text goes on from its open line.
pub split-append : (s t : Bytes) → split 10 (s ++ t) ≡ whole_lines s ++ split 10 (open_line s ++ t)
unfolding split whole_lines open_line
split-append [] t = refl
split-append (a ∷ s) t =
    let (p, ps, e) = split-cons s in
    elim (Bool-cases (a == 10)) [
      | inl h ↦ rw (h, split-append s t, e)
      | inr h ↦ rw (h, e, push-split a s t (split 10 s) (split-append s t) p ps e h)
    ]

pub whole_lines-append :
    (s t : Bytes) → whole_lines (s ++ t) ≡ whole_lines s ++ complete (split 10 (open_line s ++ t))
whole_lines-append s t =
    let (p, ps, e) = split-cons (open_line s ++ t) in
    unfold whole_lines in
    ap complete (split-append s t) ∙ rw (e, complete-append (whole_lines s) p ps)

pub open_line-append : (s t : Bytes) → open_line (s ++ t) ≡ rest_of (split 10 (open_line s ++ t))
unfolding open_line
open_line-append s t =
    let (p, ps, e) = split-cons (open_line s ++ t) in
    ap rest_of (split-append s t) ∙ rw (e, rest-append (whole_lines s) p ps)
