-- ===== src/Lifecycle/Cancel.antt =====
-- What `Run` of controller/internal/lifecycle/lifecycle.go does once its context is done.
use torvmremix.Base.{ℕ, suc, ◌≡◌, refl, true, List, [], ◌∷◌, All, none, ◌∙◌, ap}
use torvmremix.Lifecycle.State.{shutdown, restore_network}
use torvmremix.Lifecycle.Engine.{
  Engine, Call, transition, tears_down_routing, destroys_tap, restores_config,
}
use torvmremix.Lifecycle.Handlers.{
  World, Handled, done, continues, handle, iterate, enter, after, run,
}
use torvmremix.Lifecycle.Turn.{Turn, Stops, idle, stops, stops_open, stops_closed, handle-Turn}

-- The calls that put the network back.
abbrev pub undo_calls : List Call → ℕ
undo_calls [] = 0
undo_calls (tears_down_routing ∷ l) = suc (undo_calls l)
undo_calls (destroys_tap ∷ l) = suc (undo_calls l)
undo_calls (restores_config s ∷ l) = suc (undo_calls l)
undo_calls (c ∷ l) = undo_calls l

Stops-undo : {e e' : Engine} → Stops e e' → undo_calls e'.log ≡ undo_calls e.log
Stops-undo idle = refl
Stops-undo stops = refl

-- All that the handler of the shutdown does, as far as the undoing calls go.
shutdown_turn :
    (e : Engine) {h : Handled}
    → Turn shutdown e h
    → (e' : Engine) × (h ≡ done e' none)
      × (e'.state ≡ restore_network)
      × (undo_calls e'.log ≡ undo_calls e.log)
unfolding transition
shutdown_turn e (stops_open {e' = f} t k) = (transition f restore_network, refl, refl, Stops-undo k)
shutdown_turn e (stops_closed {e' = f} t k) =
    (transition f restore_network, refl, refl, Stops-undo k)

iterate_at :
    (e e₀ : Engine) (w : World) → enter e w ≡ e₀ → iterate e w ≡ after (handle e₀.state e₀ w) w
unfolding iterate
iterate_at e e₀ w q = ap (λ (z : Engine). after (handle z.state z w) w) q

enter_done : (e : Engine) (w : World) → w.ctx_done ≡ true → enter e w ≡ transition e shutdown
unfolding enter
enter_done e w h = rw h

cancelled_turn :
    (e : Engine) (w : World)
    → w.ctx_done ≡ true
    → (e' : Engine) × (iterate e w ≡ continues e')
      × (e'.state ≡ restore_network)
      × (undo_calls e'.log ≡ undo_calls e.log)
unfolding after transition
cancelled_turn e w h =
    let e₀ = transition e shutdown in
    let (e', q, s, u) = shutdown_turn e₀ (handle-Turn shutdown e₀ w) in
    (e', iterate_at e e₀ w (enter_done e w h) ∙ ap (λ (z : Handled). after z w) q, s, u)

-- Once the context is done at the head of every turn, `Run` never returns and never undoes anything:
-- after any number of turns it goes on, its phase is `restore_network`, whose handler it has not
-- entered, and no routing has been torn down, no configuration restored and no TAP device destroyed
-- since.
pub cancelled_never_restores :
    (e : Engine) (w : World) (ws : List World)
    → All (λ (v : World). v.ctx_done ≡ true) (w ∷ ws)
    → (e' : Engine) × (run e (w ∷ ws) ≡ continues e')
      × (e'.state ≡ restore_network)
      × (undo_calls e'.log ≡ undo_calls e.log)
unfolding run
cancelled_never_restores e w [] h = let (e', q, s, u) = cancelled_turn e w h.0 in (e', rw q, s, u)
cancelled_never_restores e w (v ∷ vs) h =
    let (e', q, s, u) = cancelled_turn e w h.0 in
    let (e'', q', s', u') = cancelled_never_restores e' v vs h.1 in (e'', rw q q', s', u' ∙ u)
