-- ===== src/Actor/Updates/Live.antt =====
-- An actor that is not replaying its journal stays so (actor/graph.go, persistence/plugin.go).
use completer.Prelude.{
  ℕ, ◌≡◌, refl, ◌∙◌, List, [], ◌∷◌, Bool, false, not, arith, Outcome, done, panicked, out_of_fuel,
  Ensures, ◌>>=◌,
}
use completer.Model.Event.{Event}
use completer.Graph.Engine.{World}
use completer.Graph.Progress.Listener.{Moves}
use completer.Persistence.Provider.{ProviderState}
use completer.Persistence.Mixin.{Mixin, persist_receive}
use completer.Actor.State.{Host}
use completer.Actor.Updates.{persist, persist_and_update}
use completer.Actor.Updates.Growth.{persist_all, Grows}
use completer.Actor.Updates.Progress.{persist_receive-ends}

-- The actor is not replaying its journal.
abbrev pub IsLive : {J : Type 0} → World (Host J) → Type 0
IsLive w = w.host.mixin.recovering ≡ false

module _ {J : Type 0} (P : ProviderState Event J) where
  persist_receive-recovering :
      (e : Event) (x y : Mixin J) → persist_receive P e x ≡ done y → y.recovering ≡ x.recovering
  unfolding persist_receive
  persist_receive-recovering e x y h = ground (arith, h)

  persist_all-recovering :
      (es : List Event) (x y : Mixin J) → persist_all P es x ≡ done y → y.recovering ≡ x.recovering
  unfolding persist_all
  persist_all-recovering [] x y h = ground (arith, h)
  persist_all-recovering (e ∷ es) x y h =
      first (persist_receive P e x) (persist_receive-recovering e x)
        (λ z. persist_all-recovering es z y) h
    where
      first :
          (m : Outcome (Mixin J))
          → ((z : Mixin J) → m ≡ done z → z.recovering ≡ x.recovering)
          → ((z : Mixin J) → persist_all P es z ≡ done y → y.recovering ≡ z.recovering)
          → (m >>= persist_all P es) ≡ done y
          → y.recovering ≡ x.recovering
      first (done z) keep rest q = rest z q ∙ keep z refl
      first (panicked p) keep rest q = cc
      first out_of_fuel keep rest q = cc

  pub Moves-IsLive : {w v : World (Host J)} → Moves (Grows P) w v → IsLive w → IsLive v
  Moves-IsLive {w} {v} m h =
      persist_all-recovering m.host.events w.host.mixin v.host.mixin m.host.journaled ∙ h

  module _ (range : ℕ → List ℕ → List ℕ) where
    -- What a live actor does for an event that a check brings about.
    pub live_call :
        (up : Event → Bool → World (Host J) → Outcome (World (Host J))) (e : Event)
        (w : World (Host J)) (Q : World (Host J) → Type 0)
        → IsLive w
        → ((h : Host J)
            → IsLive (record w { host = h })
            → (b : Bool) → Ensures Q (up e b (record w { host = h })))
        → Ensures Q (persist_and_update P range up e w)
    unfolding persist_and_update persist
    live_call up e w Q live next =
        after (persist_receive P e w.host.mixin) (persist_receive-recovering e w.host.mixin)
          (persist_receive-ends P range e w.host.mixin)
      where
        after :
            (m : Outcome (Mixin J))
            → ((y : Mixin J) → m ≡ done y → y.recovering ≡ w.host.mixin.recovering)
            → Ensures (λ x. Unit {0}) m
            → Ensures Q (
                m >>= (λ x. done (record w { host = record w.host { mixin = x } })) >>= λ v.
                up e (not v.host.mixin.recovering) v)
        after (done y) keep ends = next _ (keep y refl ∙ live) _
        after (panicked p) keep ends = tt
        after out_of_fuel keep ends = ends
