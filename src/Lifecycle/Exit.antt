-- ===== src/Lifecycle/Exit.antt =====
-- What holds when `Run` of controller/internal/lifecycle/lifecycle.go returns without an error.
use torvmremix.Base.{
  subst, ◌≢◌, ◌≡◌, refl, Bool, true, false, Option, none, some, List, [], ◌∷◌, ◌++◌, arith, sym, ap,
  ◌∙◌, inl, inr,
}
use torvmremix.Config.Schema.{Config}
use torvmremix.Lifecycle.State.{
  State, check_privileges, save_network, create_tap, launch_vm, wait_tap, configure_tap, flush_dns,
  wait_bootstrap, running, shutdown, restore_network, cleanup,
}
use torvmremix.Lifecycle.Engine.{
  Engine, call, Call, SavedConfig, new_engine, transition, activate, deactivate, tears_down_routing,
  destroys_tap, restores_config, moved,
}
use torvmremix.Lifecycle.Handlers.{
  World, Handled, Outcome, continues, returned, run, iterate, resume,
}
use torvmremix.Lifecycle.Graph
use torvmremix.Lifecycle.Turn
use torvmremix.Lifecycle.Turn.{Turn, Connects, Stops, Restores}
use torvmremix.Lifecycle.Invariant.{IsInvariant, Leaves, Ends, iterate_keeps}

abbrev pub restoring : Option SavedConfig → List Call
restoring none = []
restoring (some s) = restores_config s ∷ []

-- The last calls put the network back: the routing was torn down, then the saved configuration, if
-- there is one, was restored, then the TAP device destroyed.
pub Undone : Engine → Type 0
Undone e =
    (before : List Call) × (e.log
      ≡ moved restore_network cleanup
        ∷ destroys_tap
        ∷ (restoring e.saved_net ++ (tears_down_routing ∷ before)))

-- In the cleanup the network has been put back.
abbrev CleanAtEnd : Engine → Type 0
CleanAtEnd e = e.state ≡ cleanup → Undone e

not-cleanup : (e : Engine) (t : State) → t ≢ cleanup → CleanAtEnd (transition e t)
unfolding transition
not-cleanup e t n h = absurd (n h)

Restores-undone :
    (e e' : Engine) (before : List Call)
    → e.log ≡ tears_down_routing ∷ before
    → Restores e e'
    → e'.log ≡ restoring e'.saved_net ++ (tears_down_routing ∷ before)
Restores-undone e e' before q (Turn.nothing_saved h) = rw h q
Restores-undone e e' before q (Turn.restores s h) = rw h (ap (λ l. restores_config s ∷ l) q)

activate-log :
    (e : Engine) (before : List Call)
    → e.log ≡ tears_down_routing ∷ before
    → (older : List Call) × ((activate e).log ≡ tears_down_routing ∷ older)
unfolding activate
activate-log e before q = go e.failsafe
  where
    go :
        (b : Bool)
        → (older : List Call) × ((elim b as (λ b. Engine) [
          | true ↦ e
          | false ↦ record e { failsafe = true; log = tears_down_routing ∷ e.log }
        ]).log
            ≡ tears_down_routing ∷ older)
    go true = (before, q)
    go false = (e.log, refl)

Undone-moves :
    (e : Engine) (before : List Call)
    → e.state ≡ restore_network
    → e.log ≡ restoring e.saved_net ++ (tears_down_routing ∷ before)
    → Undone (transition (call destroys_tap e) cleanup)
unfolding transition Undone
Undone-moves e before s q = (before, rw (s, q))

Restores-phase : {e e' : Engine} → Restores e e' → e'.state ≡ e.state
Restores-phase (Turn.nothing_saved h) = refl
Restores-phase (Turn.restores s h) = refl

activate-phase : (e : Engine) → (activate e).state ≡ e.state
unfolding activate
activate-phase e = ground arith

elsewhere : (s : State) (e : Engine) → e.state ≡ s → s ≢ cleanup → CleanAtEnd e
elsewhere s e q n h = absurd (n (sym q ∙ h))

deactivate-clean : (e : Engine) → CleanAtEnd e → CleanAtEnd (deactivate e)
unfolding deactivate Undone
deactivate-clean e c = c

CleanAtEnd-turned :
    {s : State} {e : Engine} {h : Handled}
    → Turn s e h
    → e.state ≡ s
    → CleanAtEnd e
    → Leaves CleanAtEnd h
CleanAtEnd-turned Turn.starts q c = not-cleanup _ check_privileges (λ h. cc)
CleanAtEnd-turned (Turn.denied x) q c = c
CleanAtEnd-turned Turn.allowed q c = not-cleanup _ save_network (λ h. cc)
CleanAtEnd-turned (Turn.not_saved x) q c = elsewhere save_network _ q (λ h. cc)
CleanAtEnd-turned (Turn.saves s) q c = not-cleanup _ create_tap (λ h. cc)
CleanAtEnd-turned (Turn.bad_address x) q c = c
CleanAtEnd-turned (Turn.not_created x) q c = elsewhere create_tap _ q (λ h. cc)
CleanAtEnd-turned Turn.creates q c = not-cleanup _ launch_vm (λ h. cc)
CleanAtEnd-turned (Turn.not_launched x) q c = elsewhere launch_vm _ q (λ h. cc)
CleanAtEnd-turned Turn.launches q c = not-cleanup _ wait_tap (λ h. cc)
CleanAtEnd-turned (Turn.no_tap x) q c = c
CleanAtEnd-turned Turn.tap_appears q c = not-cleanup _ configure_tap (λ h. cc)
CleanAtEnd-turned (Turn.bad_gateway x) q c = c
CleanAtEnd-turned (Turn.not_routed x) q c = elsewhere configure_tap _ q (λ h. cc)
CleanAtEnd-turned Turn.routes q c = not-cleanup _ flush_dns (λ h. cc)
CleanAtEnd-turned (Turn.flushes k) q c = not-cleanup _ wait_bootstrap (λ h. cc)
CleanAtEnd-turned (Turn.no_bootstrap x) q c = c
CleanAtEnd-turned Turn.bootstraps q c = not-cleanup _ running (λ h. cc)
CleanAtEnd-turned Turn.vm_ends q c = not-cleanup _ shutdown (λ h. cc)
CleanAtEnd-turned Turn.vm_dies q c = not-cleanup _ shutdown (λ h. cc)
CleanAtEnd-turned (Turn.stops_open t k) q c = not-cleanup _ restore_network (λ h. cc)
CleanAtEnd-turned (Turn.stops_closed t k) q c = not-cleanup _ restore_network (λ h. cc)
CleanAtEnd-turned {e} (Turn.undoes {e' = f} k) q c =
    λ _. Undone-moves f e.log (Restores-phase k ∙ q) (Restores-undone _ f e.log refl k)
CleanAtEnd-turned {e} (Turn.undoes_blocked {e' = f} k) q c = λ _.
    let (older, p) = activate-log (call tears_down_routing e) e.log refl in
    Undone-moves f older (Restores-phase k ∙ activate-phase _ ∙ q) (Restores-undone _ f older p k)
CleanAtEnd-turned Turn.cleans q c = deactivate-clean _ c
CleanAtEnd-turned (Turn.dead x) q c = c

CleanAtEnd-invariant : IsInvariant CleanAtEnd
unfolding Undone
CleanAtEnd-invariant = record {
  stopped = λ e c. not-cleanup e shutdown (λ h. cc);
  blocked = λ e c. not-cleanup (activate e) shutdown (λ h. cc);
  counted = λ e m c. c;
  turned = CleanAtEnd-turned;
}

-- A return without an error is the cleanup's.
pub IsCleanReturn : Outcome → Type 0
IsCleanReturn (continues e) = Unit {0}
IsCleanReturn (returned e none) = (e.state ≡ cleanup) × (e.failsafe ≡ false) × Undone e
IsCleanReturn (returned e (some x)) = Unit {0}

resume-clean :
    (o : Outcome) (f : Engine → Outcome)
    → IsCleanReturn o
    → Ends CleanAtEnd o
    → ((e : Engine) → CleanAtEnd e → IsCleanReturn (f e))
    → IsCleanReturn (resume o f)
resume-clean (continues e) f r c k = k e c
resume-clean (returned e r) f p c k = p

iterate-clean :
    (e : Engine) (w : World) (o : Outcome) → iterate e w ≡ o → Ends CleanAtEnd o → IsCleanReturn o
unfolding IsCleanReturn deactivate
iterate-clean e w (continues e') q c = tt
iterate-clean e w (returned e' (some x)) q c = tt
iterate-clean e w (returned e' none) q c = elim (Graph.iterate_returns e w e' none q) [
  | inl (s, _, p) ↦ (ground arith, ground arith, c (ground arith))
  | inr (_, n, _) ↦ absurd (n refl)
]

run-clean : (e : Engine) (ws : List World) → CleanAtEnd e → IsCleanReturn (run e ws)
unfolding run IsCleanReturn
run-clean e [] c = tt
run-clean e (w ∷ ws) c =
    let kept = iterate_keeps CleanAtEnd CleanAtEnd-invariant e w c in
    resume-clean (iterate e w) _ (iterate-clean e w (iterate e w) refl kept) kept
      (λ e' c'. run-clean e' ws c')

-- When `Run` of a new engine returns without an error, the failsafe is off, the phase is the
-- cleanup, and the last calls undid the setup in this order: the routing was torn down, the saved
-- configuration restored if there is one, and the TAP device destroyed.
pub clean_return :
    (cfg : Config) (ws : List World) (e : Engine)
    → run (new_engine cfg) ws ≡ returned e none
    → (e.state ≡ cleanup)
      × (e.failsafe ≡ false)
      × ((before : List Call) × (e.log
            ≡ moved restore_network cleanup
              ∷ destroys_tap
              ∷ (restoring e.saved_net ++ (tears_down_routing ∷ before))))
unfolding IsCleanReturn Undone new_engine
clean_return cfg ws e h = subst IsCleanReturn h (run-clean (new_engine cfg) ws (λ q. absurd (cc)))
