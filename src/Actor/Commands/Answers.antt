-- ===== src/Actor/Commands/Answers.antt =====
-- What a command is answered (receiveCommand of actor/graph.go): the parts of its handling.
use mathlib.Core.List.{append-nil}
use completer.Prelude.{
  ℕ, ◌≡◌, refl, sym, ◌∙◌, List, [], ◌∷◌, ◌++◌, Bool, true, false, Outcome, Ensures, Ensures-bind,
  Ensures-mono, ◌>>=◌,
}
use completer.Model.Event.{Event}
use completer.Model.Command.{Command}
use completer.Graph.Engine.{World}
use completer.Persistence.Provider.{ProviderState}
use completer.Persistence.Mixin.{persist_receive}
use completer.Actor.State.{
  Host, Message, respond_error, respond_created, respond_state, respond_added,
  respond_completed_externally, respond_processed, await_future, is_reply, send, replies,
  replies-append,
}
use completer.Actor.Updates.{persist}
use completer.Actor.Updates.Progress.{persist_receive-ends}
use completer.Actor.Commands.Soundness.{IsSound, Stays}

-- A later world that is sound, in which a list of messages was answered.
abbrev pub Answers : {J : Type 0} (Q : List Message → Type 0) (w v : World (Host J)) → Type 0
Answers Q w v =
    IsSound v × (ms : List Message) × (replies v.host.sent ≡ replies w.host.sent ++ ms) × Q ms

-- The replies that a command may have: one of its kind or an error for a request, and none for
-- what the program sends itself.
unfoldable pub accepts : Command → List Message → Bool
accepts c (respond_error e ∷ []) = true
accepts (Command.create_graph f) (respond_created g ∷ []) = true
accepts Command.get_graph_state (respond_state ss ∷ []) = true
accepts (Command.add_stage m) (respond_added i ∷ []) = true
accepts (Command.add_completed_value_stage v) (respond_added i ∷ []) = true
accepts (Command.add_delay_stage ms) (respond_added i ∷ []) = true
accepts (Command.add_invoke_function_stage f arg) (respond_added i ∷ []) = true
accepts (Command.complete_stage_externally i v) (respond_completed_externally j b ∷ []) = true
accepts Command.commit_graph (respond_processed ∷ []) = true
accepts (Command.await_stage_result i) (await_future j ∷ []) = true
accepts (Command.complete_delay_stage i v) [] = true
accepts (Command.faas_invocation_response i v call_id) [] = true
accepts Command.deactivate_graph [] = true
accepts _ _ = false

module _ {J : Type 0} (P : ProviderState Event J) (range : ℕ → List ℕ → List ℕ) where
  pub persist-Stays :
      (e : Event) (w : World (Host J)) → IsSound w → Ensures (Stays w) (persist P range e w)
  unfolding persist
  persist-Stays e w sound =
      Ensures-bind (λ x. Unit) (Stays w) (persist_receive P e w.host.mixin) _
        (persist_receive-ends P range e w.host.mixin) (λ x u. (sound, refl))

  -- A first part that answers nothing, and a rest.
  pub in_turn :
      (Q : List Message → Type 0) (w : World (Host J)) (m : Outcome (World (Host J)))
      (f : World (Host J) → Outcome (World (Host J)))
      → Ensures (Stays w) m
      → ((v : World (Host J)) → IsSound v → Ensures (Answers Q v) (f v))
      → Ensures (Answers Q w) (m >>= f)
  in_turn Q w m f h k = Ensures-bind (Stays w) (Answers Q w) m f h (λ v s.
      Ensures-mono (Answers Q v) (Answers Q w) (f v) (k v s.0)
        (λ u a. (a.0, a.1, rw (a.2, s.1) refl, a.3)))

  -- Two parts that answer nothing.
  pub in_turn-Stays :
      (w : World (Host J)) (m : Outcome (World (Host J)))
      (f : World (Host J) → Outcome (World (Host J)))
      → Ensures (Stays w) m
      → ((v : World (Host J)) → IsSound v → Ensures (Stays v) (f v))
      → Ensures (Stays w) (m >>= f)
  in_turn-Stays w m f h k =
      Ensures-bind (Stays w) (Stays w) m f h
        (λ v s. Ensures-mono (Stays v) (Stays w) (f v) (k v s.0) (λ u a. (a.0, a.1 ∙ s.1)))

  pub Answers-Stays :
      (Q : List Message → Type 0) (w : World (Host J)) (m : Outcome (World (Host J)))
      → Q []
      → Ensures (Stays w) m
      → Ensures (Answers Q w) m
  Answers-Stays Q w m q h =
      Ensures-mono (Stays w) (Answers Q w) m h (λ v a. (a.0, [], a.1 ∙ sym (append-nil _), q))

  pub Answers-send :
      (Q : List Message → Type 0) (m : Message) (w : World (Host J))
      → IsSound w
      → Q (replies (m ∷ []))
      → Answers Q w (record w { host = send m w.host })
  Answers-send Q m w sound q = (sound, replies (m ∷ []), replies-append w.host.sent (m ∷ []), q)

  pub Stays-send :
      (m : Message) (w : World (Host J))
      → is_reply m ≡ false
      → IsSound w
      → Stays w (record w { host = send m w.host })
  Stays-send m w q sound =
      (sound, rw (replies-append w.host.sent (m ∷ []), q) (append-nil (replies w.host.sent)))
