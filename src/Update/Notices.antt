-- ===== src/Update/Notices.antt =====
-- What the observers of the checker (controller/internal/update/checker.go) hear over many rounds.
use torvmremix.Base.{
  ℕ, ◌≡◌, ◌≢◌, if◌then◌else◌, refl, sym, ap, subst, ◌∙◌, Bool, true, false, List, [], ◌∷◌, ◌++◌,
  Bytes, eq_bytes, eq_bytes_sound, eq_bytes_refl, Result, ok, err, arith,
}
use torvmremix.Update.Checker.{
  UpdateInfo, Answer, FetchError, Checker, same_bool, changed, Call, call_all, notify, fetch_latest,
  check, checks,
}

-- What an update is, the addresses aside.
abbrev pub view : UpdateInfo → Bool × Bytes
view i = (i.available, i.new_version)

-- The infos lead from one view to another, each with a view that is not that of the one before.
unfoldable pub Told : Bool × Bytes → List UpdateInfo → Bool × Bytes → Type 0
Told known [] now = known ≡ now
Told known (i ∷ infos) now = (view i ≢ known) × Told (view i) infos now

abbrev pub calls_of : List ℕ → List UpdateInfo → List Call
calls_of fns [] = []
calls_of fns (i ∷ infos) = call_all fns i ++ calls_of fns infos

pair : (a b : Bool) (s t : Bytes) → a ≡ b → s ≡ t → ◌≡◌ {A = Bool × Bytes} (a, s) (b, t)
pair a b s t h k = rw (h, k) refl

same_bool_sound : (a b : Bool) → same_bool a b ≡ true → a ≡ b
unfolding same_bool
same_bool_sound true b h = sym h
same_bool_sound false true h = cc
same_bool_sound false false h = refl

same_bool_refl : (a : Bool) → same_bool a a ≡ true
unfolding same_bool
same_bool_refl true = refl
same_bool_refl false = refl

changed-false : (i j : UpdateInfo) → changed i j ≡ false → view i ≡ view j
unfolding changed
changed-false i j h =
    pair i.available j.available i.new_version j.new_version
      (same_bool_sound i.available j.available (ground arith))
      (eq_bytes_sound i.new_version j.new_version (ground arith))

changed-true : (i j : UpdateInfo) → changed i j ≡ true → view i ≢ view j
unfolding changed
changed-true i j h e =
    let same : same_bool i.available j.available ≡ true =
      rw (ap (λ (p : Bool × Bytes). p.0) e) (same_bool_refl j.available) in
    let alike : eq_bytes i.new_version j.new_version ≡ true =
      rw (ap (λ (p : Bool × Bytes). p.1) e) (eq_bytes_refl j.new_version) in
    ground (arith, same, alike, h)

-- One answer in front of what is heard of the others.
notify-Told :
    (c : Checker) (r : Result FetchError UpdateInfo) (infos : List UpdateInfo) (now : Bool × Bytes)
    → Told (view (notify c r).0.latest) infos now
    → (told : List UpdateInfo) × Told (view c.latest) told now
      × ((notify c r).1 ++ calls_of c.observers infos ≡ calls_of c.observers told)
unfolding notify Told
notify-Told c (err e) infos now h = (infos, h, refl)
notify-Told c (ok info) infos now h = go (changed info c.latest) refl
  where
    go :
        (b : Bool)
        → changed info c.latest ≡ b
        → (told : List UpdateInfo) × Told (view c.latest) told now
          × ((if b then call_all c.observers info else []) ++ calls_of c.observers infos
              ≡ calls_of c.observers told)
    go true k = (info ∷ infos, (changed-true info c.latest k, h), refl)
    go false k = (infos, subst (λ v. Told v infos now) (changed-false info c.latest k) h, refl)

notify-observers :
    (c : Checker) (r : Result FetchError UpdateInfo) → (notify c r).0.observers ≡ c.observers
unfolding notify
notify-observers c (err e) = refl
notify-observers c (ok info) = refl

-- Over any rounds, each observer is called, in the order of subscription, with the same infos. They
-- lead from what was known at first to what is known in the end, and each is another update than
-- the one before it.
pub checks-Told :
    (c : Checker) (answers : List Answer)
    → (infos : List UpdateInfo) × Told (view c.latest) infos (view (checks c answers).0.latest)
      × ((checks c answers).1 ≡ calls_of c.observers infos)
unfolding checks check
checks-Told c [] = ([], unfold Told in refl, refl)
checks-Told c (a ∷ answers) =
    let r = fetch_latest c.version a in
    let c' = (notify c r).0 in
    let (infos, told, calls) = checks-Told c' answers in
    let (all, told', calls') = notify-Told c r infos (view (checks c' answers).0.latest) told in
    (
      all,
      told',
      ap (λ cs. (notify c r).1 ++ cs)
            (calls ∙ ap (λ fns. calls_of fns infos) (notify-observers c r))
          ∙ calls',
    )
