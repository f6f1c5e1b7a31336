-- ===== src/Vm/BinaryLaws.antt =====
-- Where the binary lies that resolveQEMUBinary of controller/internal/vm/qemu.go accepts.
use torvmremix.Base.{
  ℕ, ◌≡◌, refl, sym, ap, ◌∙◌, subst, Bool, true, false, ◌||◌, List, [], ◌∷◌, ◌++◌, append_assoc,
  Result, ok, err, ◌⊎◌, inl, inr, Bytes, bytes, is_nil, eq_bytes, eq_bytes_sound, has_prefix,
  has_prefix_sound, has_byte, to_lower, any, if◌then◌else◌, ◌==◌, Bool-cases, ==_iff, ||-false,
  ok-injective, or_fail, >>=-ok, arith,
}
use torvmremix.Config.Schema.{Os, windows, darwin, linux}
use torvmremix.Vm.Binary.{
  Finder, BinaryError, not_in_path, unresolved, no_absolute, not_allowed, qemu_allowed_dirs,
  separator, before_last, dir_of, spelled, is_under, check_dir, resolve_qemu_binary,
}

-- A path below a directory, as the platform spells it.
abbrev pub Below : Os → Bytes → Bytes → Type 0
Below os allowed path =
    (rest : Bytes) × (spelled os path ≡ spelled os allowed ++ (separator os ∷ rest))

-- One of the directories has the path below it.
abbrev pub BelowOne : Os → List Bytes → Bytes → Type 0
BelowOne os [] path = ⊥
BelowOne os (d ∷ ds) path = Below os d path ⊎ BelowOne os ds path

to_lower-append : (s t : Bytes) → to_lower (s ++ t) ≡ to_lower s ++ to_lower t
unfolding to_lower
to_lower-append [] t = refl
to_lower-append (c ∷ s) t = rw (to_lower-append s t) refl

spelled-append :
    (os : Os) (s t : Bytes)
    → spelled os (s ++ (separator os ∷ t)) ≡ spelled os s ++ (separator os ∷ spelled os t)
unfolding to_lower
spelled-append windows s t = to_lower-append s (separator windows ∷ t)
spelled-append darwin s t = refl
spelled-append linux s t = refl

before_last_none : (sep : ℕ) (s : Bytes) → has_byte sep s ≡ false → before_last sep s ≡ []
unfolding before_last has_byte
before_last_none sep [] h = refl
before_last_none sep (c ∷ s) h = let (_, k) = ||-false (c == sep) (has_byte sep s) h in rw k refl

-- A path with a separator, at its last one.
before_last-split :
    (sep : ℕ) (s : Bytes)
    → has_byte sep s ≡ true
    → (rest : Bytes) × (s ≡ before_last sep s ++ (sep ∷ rest))
unfolding before_last has_byte
before_last-split sep [] h = absurd (cc)
before_last-split sep (c ∷ s) h = go (has_byte sep s) refl (before_last-split sep s)
  where
    go :
        (b : Bool)
        → has_byte sep s ≡ b
        → (has_byte sep s ≡ true → (rest : Bytes) × (s ≡ before_last sep s ++ (sep ∷ rest)))
        → (rest : Bytes) × (c ∷ s ≡ (if b then c ∷ before_last sep s else []) ++ (sep ∷ rest))
    go true k r = let (rest, e) = r k in (rest, ap (λ t. c ∷ t) e)
    go false k r = (s, ap (λ a. a ∷ s) ((==_iff c sep).0 (ground (arith, h, k))))

under-Below :
    (os : Os) (d allowed path rest : Bytes)
    → path ≡ d ++ (separator os ∷ rest)
    → is_under os d allowed ≡ true
    → Below os allowed path
under-Below os d allowed path rest e h =
    go (Bool-cases (eq_bytes (spelled os d) (spelled os allowed)))
  where
    full : spelled os path ≡ spelled os d ++ (separator os ∷ spelled os rest)
    full = ap (spelled os) e ∙ spelled-append os d rest

    go :
        (eq_bytes (spelled os d) (spelled os allowed) ≡ true)
          ⊎ (eq_bytes (spelled os d) (spelled os allowed) ≡ false)
        → Below os allowed path
    go (inl k) = (
      spelled os rest,
      full
          ∙ ap (λ t. t ++ (separator os ∷ spelled os rest))
              (eq_bytes_sound (spelled os d) (spelled os allowed) k),
    )
    go (inr k) =
        let (r, q) =
          has_prefix_sound (spelled os d) (spelled os allowed ++ (separator os ∷ []))
            (ground (arith, h, k)) in
        (
          r ++ (separator os ∷ spelled os rest),
          full
              ∙ ap (λ t. t ++ (separator os ∷ spelled os rest)) q
              ∙ append_assoc (spelled os allowed ++ (separator os ∷ [])) r
                  (separator os ∷ spelled os rest)
              ∙ append_assoc (spelled os allowed) (separator os ∷ [])
                  (r ++ (separator os ∷ spelled os rest)),
        )

any-BelowOne :
    (os : Os) (d path rest : Bytes) (dirs : List Bytes)
    → path ≡ d ++ (separator os ∷ rest)
    → any (is_under os d) dirs ≡ true
    → BelowOne os dirs path
any-BelowOne os d path rest [] e h = absurd (cc)
any-BelowOne os d path rest (a ∷ dirs) e h = elim (Bool-cases (is_under os d a)) [
  | inl k ↦ inl (under-Below os d a path rest e k)
  | inr k ↦ inr (any-BelowOne os d path rest dirs e (ground (arith, h, k)))
]

root_not_under : (os : Os) → any (is_under os (separator os ∷ [])) (qemu_allowed_dirs os) ≡ false
unfolding eq_bytes has_prefix to_lower bytes
root_not_under windows = refl
root_not_under darwin = refl
root_not_under linux = refl

some_dirs : (os : Os) → is_nil (qemu_allowed_dirs os) ≡ false
some_dirs windows = refl
some_dirs darwin = refl
some_dirs linux = refl

dir-BelowOne :
    (os : Os) (path : Bytes)
    → any (is_under os (dir_of os path)) (qemu_allowed_dirs os) ≡ true
    → BelowOne os (qemu_allowed_dirs os) path
unfolding dir_of
dir-BelowOne os path h = go d refl h
  where
    d : Bytes
    d = before_last (separator os) path

    go :
        (t : Bytes)
        → d ≡ t
        → any (is_under os (if is_nil t then separator os ∷ [] else t)) (qemu_allowed_dirs os)
          ≡ true
        → BelowOne os (qemu_allowed_dirs os) path
    go [] e k = absurd (ground (arith, root_not_under os, k))
    go (c ∷ t) e k = elim (Bool-cases (has_byte (separator os) path)) [
      | inl p ↦
          let (rest, q) = before_last-split (separator os) path p in
          any-BelowOne os (c ∷ t) path rest (qemu_allowed_dirs os)
            (q ∙ ap (λ u. u ++ (separator os ∷ rest)) e) k
      | inr p ↦ absurd (grind (arith, before_last_none (separator os) path p, e))
    ]

checked-BelowOne :
    (os : Os) (path full : Bytes)
    → check_dir os path ≡ ok full
    → BelowOne os (qemu_allowed_dirs os) full
checked-BelowOne os path full h =
    go (Bool-cases (any (is_under os (dir_of os path)) (qemu_allowed_dirs os)))
  where
    under : Bool
    under = any (is_under os (dir_of os path)) (qemu_allowed_dirs os)

    given :
        ◌≡◌ {A = Result BinaryError Bytes} (if under then ok path else err not_allowed) (ok full)
    given = ap (λ b. if b || under then ok path else err not_allowed) (sym (some_dirs os)) ∙ h

    go : (under ≡ true) ⊎ (under ≡ false) → BelowOne os (qemu_allowed_dirs os) full
    go (inl k) =
        subst (BelowOne os (qemu_allowed_dirs os))
          (ok-injective path full
            (ap (λ b. if b then ok path else err not_allowed) (sym k) ∙ given))
          (dir-BelowOne os path k)
    go (inr k) =
        let bad = ap (λ b. if b then ok path else err not_allowed) (sym k) ∙ given in
        absurd (grind (arith, bad))

-- A binary that is found lies below one of the platform's allowed directories: behind its name comes the
-- separator. Links are resolved before, and on Windows ASCII letters count alike in both cases.
pub resolve_qemu_binary-BelowOne :
    (os : Os) (f : Finder) (path : Bytes)
    → resolve_qemu_binary os f ≡ ok path
    → BelowOne os (qemu_allowed_dirs os) path
unfolding resolve_qemu_binary
resolve_qemu_binary-BelowOne os f path h =
    let (found, _, h₁) = >>=-ok (or_fail not_in_path f.look_path) _ h in
    let (resolved, _, h₂) = >>=-ok (or_fail unresolved (f.eval_symlinks found)) _ h₁ in
    let (full, _, h₃) = >>=-ok (or_fail no_absolute (f.absolute resolved)) _ h₂ in
    checked-BelowOne os full path h₃
