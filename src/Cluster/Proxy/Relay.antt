-- ===== src/Cluster/Proxy/Relay.antt =====
-- StreamEvents of cluster/cluster_proxy.go: the events that the serving node streams are passed on to
-- the client. The remote stream is a parameter: what it gives until it ends, which Recv reports as an
-- error, its plain end included. So is the client's stream, whose Send may fail.
use mathlib.Core.List.{append_assoc, append-nil}
use completer.Prelude.{
  ℕ, ◌≡◌, refl, sym, ap, ◌∙◌, ◌⊎◌, inl, inr, String, List, [], ◌∷◌, ◌++◌, Option, none, some,
  Option-cases,
}
use completer.Sharding.{Uuid}
use completer.Cluster.{Settings, Address}
use completer.Cluster.Proxy.{Proxied, proxy_call}

pub data RelayError : Type 0 where
  not_opened remote_ended send_failed : RelayError

-- `none` is the error of the client's StreamEvents.
abbrev pub RemoteStream : Type 0 → Type 0
RemoteStream E = Option (List E)

module _ {E S : Type 0} (send : E → S → Option S) where
  -- The loop: the client's stream after it, and the error that it returns.
  unfoldable pub relay : List E → S → S × RelayError
  relay [] s = (s, remote_ended)
  relay (e ∷ es) s = elim (send e s) [ none ↦ (s, send_failed) | some t ↦ relay es t ]

  unfoldable pub relay_stream : RemoteStream E → S → S × RelayError
  relay_stream none s = (s, not_opened)
  relay_stream (some es) s = relay es s

  unfoldable pub proxy_stream_events :
      (parse : String → Option Uuid) (shard_count : ℕ) (settings : Settings)
      → (open_stream : Address → RemoteStream E) → (flow_id : String) → S
      → Proxied (S × RelayError)
  proxy_stream_events parse shard_count settings open_stream flow_id s =
      proxy_call parse shard_count settings (λ address. relay_stream (open_stream address) s)
        flow_id

  -- What was passed on is a first part of what the node streamed, in order; it is all of it, unless
  -- sending failed at the event behind it.
  pub record Relayed (sent : S → List E) (es : List E) (s : S) (result : S × RelayError)
      : Type 0 where
    pub passed : List E
    pub left : List E
    pub parts : es ≡ passed ++ left
    pub sent_on : sent result.0 ≡ sent s ++ passed
    pub ended :
        ((left ≡ []) × (result.1 ≡ remote_ended))
        ⊎ ((e : E) × (rest : List E) × (left ≡ e ∷ rest)
            × (send e result.0 ≡ none)
            × (result.1 ≡ send_failed))

  relay-Relayed :
      (sent : S → List E)
      → ((e : E) (s t : S) → send e s ≡ some t → sent t ≡ sent s ++ e ∷ [])
      → (es : List E) (s : S) → Relayed sent es s (relay es s)
  unfolding relay
  relay-Relayed sent law [] s = record {
    passed = [];
    left = [];
    parts = refl;
    sent_on = sym (append-nil (sent s));
    ended = inl (refl, refl);
  }
  relay-Relayed sent law (e ∷ es) s = elim (Option-cases (send e s)) [
    | inl q ↦
        rw (q, relay)
          (record {
            passed = [];
            left = e ∷ es;
            parts = refl;
            sent_on = sym (append-nil (sent s));
            ended = inr (e, es, refl, q, refl);
          })
    | inr (t, q) ↦
        let rest = relay-Relayed sent law es t in
        rw (q, relay)
          (record {
            passed = e ∷ rest.passed;
            left = rest.left;
            parts = ap (λ l. e ∷ l) rest.parts;
            sent_on =
                rest.sent_on
                ∙ ap (λ l. l ++ rest.passed) (law e s t q)
                ∙ append_assoc (sent s) (e ∷ []) rest.passed;
            ended = rest.ended;
          })
  ]
