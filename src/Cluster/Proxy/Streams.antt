-- ===== src/Cluster/Proxy/Streams.antt =====
-- The streams that a node passes on to a client (StreamLifecycle and StreamEvents of
-- cluster/cluster_proxy.go). A goroutine for each node receives from its stream, and holds an event
-- until the loop of the call takes it, since the channel between them has no buffer. Goroutine `i` is
-- that of the client `i` of GetClients.
use completer.Prelude.{
  ℕ, suc, ◌≡◌, ◌≢◌, refl, sym, ap, subst, ◌∙◌, List, [], ◌∷◌, ◌++◌, Option, none, some, Bool, true,
  false, ◌==◌, inl, inr, if◌then◌else◌, arith, Bool-cases,
}
use mathlib.Core.List.{append-nil}

-- A value for each goroutine.
abbrev pub update {ℓ} : {A : Type ℓ} → (ℕ → A) → ℕ → A → ℕ → A
update f i a j = if j == i then a else f j

-- How the call ends.
pub data Ending : Type 0 where
  client_done node_failed send_failed : Ending

-- `received` is what each goroutine has received so far, and `sent` what was sent to the client, with
-- the goroutine that it came from. `errors` counts the errors that wait in their channel.
pub record Merge (E : Type 0) : Type 0 where
  pub received : ℕ → List E
  pub held : ℕ → Option E
  pub running : ℕ → Bool
  pub errors : ℕ
  pub sent : List (ℕ × E)
  pub returned : Option Ending

abbrev pub merge_start : {E : Type 0} → Merge E
merge_start = record {
  received = λ i. [];
  held = λ i. none;
  running = λ i. true;
  errors = 0;
  sent = [];
  returned = none;
}

unfoldable pub receive : {E : Type 0} → ℕ → E → Merge E → Merge E
receive i e s = record s {
  received = update s.received i (s.received i ++ e ∷ []);
  held = update s.held i (some e);
}

unfoldable pub pass_on : {E : Type 0} → (sent_ok : Bool) → ℕ → E → Merge E → Merge E
pass_on true i e s = record s { held = update s.held i none; sent = s.sent ++ (i, e) ∷ [] }
pass_on false i e s = record s { held = update s.held i none; returned = some send_failed }

-- What may happen in a call of StreamLifecycle, up to its return.
pub data MergeReach {E : Type 0} : Merge E → Type 0 where
  start : MergeReach merge_start
  received_event :
      {s : Merge E} (i : ℕ) (e : E)
      → MergeReach s
      → s.returned ≡ none
      → s.running i ≡ true
      → s.held i ≡ none
      → MergeReach (receive i e s)
  stream_failed :
      {s : Merge E} (i : ℕ)
      → MergeReach s
      → s.returned ≡ none
      → s.running i ≡ true
      → s.held i ≡ none
      → MergeReach (record s { running = update s.running i false; errors = suc s.errors })
  taken :
      {s : Merge E} (sent_ok : Bool) (i : ℕ) (e : E)
      → MergeReach s
      → s.returned ≡ none
      → s.held i ≡ some e
      → MergeReach (pass_on sent_ok i e s)
  error_taken :
      {s : Merge E} (n : ℕ)
      → MergeReach s
      → s.returned ≡ none
      → s.errors ≡ suc n
      → MergeReach (record s { errors = n; returned = some node_failed })
  client_closed :
      {s : Merge E}
      → MergeReach s
      → s.returned ≡ none
      → MergeReach (record s { returned = some client_done })

-- What was sent from a goroutine, and what it holds.
abbrev pub sent_from : {E : Type 0} → ℕ → List (ℕ × E) → List E
sent_from i [] = []
sent_from i ((j, e) ∷ es) = if i == j then e ∷ sent_from i es else sent_from i es

abbrev pub to_list : {E : Type 0} → Option E → List E
to_list none = []
to_list (some e) = e ∷ []

sent_from-append :
    {E : Type 0} (i j : ℕ) (e : E) (es : List (ℕ × E))
    → sent_from i (es ++ (j, e) ∷ [])
      ≡ (if i == j then sent_from i es ++ e ∷ [] else sent_from i es)
sent_from-append i j e [] = ground arith
sent_from-append i j e ((k, x) ∷ es) = ground (arith, sent_from-append i j e es)

same_index : (i j : ℕ) → (i == j) ≡ true → j ≡ i
same_index i j t = ground (arith, t)

-- In every state of a call that streams the lifecycle events of all nodes, until sending to the
-- client fails, and for each node: what was sent to the client of the node's events, and the one
-- that waits to be sent, if any, are exactly the events received from the node, in their order.
pub MergeReach-sent_from :
    {E : Type 0} {s : Merge E}
    → MergeReach s
    → (i : ℕ) → s.returned ≢ some send_failed
    → sent_from i s.sent ++ to_list (s.held i) ≡ s.received i
unfolding receive pass_on
MergeReach-sent_from MergeReach.start i ok = refl
MergeReach-sent_from (MergeReach.received_event {s} j e r q run h) i ok =
    let before =
      subst (λ o. sent_from j s.sent ++ to_list o ≡ s.received j) h (MergeReach-sent_from r j ok) in
    elim (Bool-cases (i == j)) [
      | inl t ↦ rw t (
          subst (λ k. sent_from k s.sent ++ e ∷ [] ≡ s.received j ++ e ∷ []) (same_index i j t)
            (ap (λ l. l ++ e ∷ []) (sym (append-nil (sent_from j s.sent)) ∙ before)))
      | inr t ↦ rw t (MergeReach-sent_from r i ok)
    ]
MergeReach-sent_from (MergeReach.stream_failed j r q run h) i ok = MergeReach-sent_from r i ok
MergeReach-sent_from (MergeReach.taken {s} true j e r q h) i ok =
    let before =
      subst (λ o. sent_from j s.sent ++ to_list o ≡ s.received j) h (MergeReach-sent_from r j ok) in
    elim (Bool-cases (i == j)) [
      | inl t ↦
          rw (sent_from-append i j e s.sent, t)
            (append-nil (sent_from i s.sent ++ e ∷ [])
              ∙ subst (λ k. sent_from k s.sent ++ e ∷ [] ≡ s.received k) (same_index i j t) before)
      | inr t ↦ rw (sent_from-append i j e s.sent, t) (MergeReach-sent_from r i ok)
    ]
MergeReach-sent_from (MergeReach.taken false j e r q h) i ok = absurd (ok refl)
MergeReach-sent_from (MergeReach.error_taken {s} n r q h) i ok =
    MergeReach-sent_from r i (λ f. absurd (ground (arith, q, f)))
MergeReach-sent_from (MergeReach.client_closed {s} r q) i ok =
    MergeReach-sent_from r i (λ f. absurd (ground (arith, q, f)))
