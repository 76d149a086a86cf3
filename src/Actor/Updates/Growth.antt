-- ===== src/Actor/Updates/Growth.antt =====
-- How an actor's host grows: it journals a list of events, in order, and sends a list of messages,
-- none of which answers a request.
use mathlib.Core.List.{append-nil, append_assoc}
use completer.Prelude.{
  ◌≡◌, refl, sym, ap, List, [], ◌∷◌, ◌++◌, Outcome, done, done-injective, All-append, panicked,
  ◌>>=◌, out_of_fuel,
}
use completer.Model.Event.{Event}
use completer.Persistence.Provider.{ProviderState}
use completer.Persistence.Mixin.{Mixin, persist_receive}
use completer.Actor.State.{Host, Message, IsQuiet, replies, replies-append, replies-IsQuiet}

module _ {J : Type 0} (P : ProviderState Event J) where
  -- PersistReceive of each event of a list.
  unfoldable pub persist_all : List Event → Mixin J → Outcome (Mixin J)
  persist_all [] x = done x
  persist_all (e ∷ es) x = persist_receive P e x >>= persist_all es

  pub persist_all-append :
      (es fs : List Event) (x y z : Mixin J)
      → persist_all es x ≡ done y
      → persist_all fs y ≡ done z
      → persist_all (es ++ fs) x ≡ done z
  unfolding persist_all
  persist_all-append [] fs x y z p q = rw (← q) (ap (persist_all fs) (done-injective p))
  persist_all-append (e ∷ es) fs x y z p q =
      first (persist_receive P e x) (λ v. persist_all-append es fs v y z) p
    where
      first :
          (m : Outcome (Mixin J))
          → ((v : Mixin J)
              → persist_all es v ≡ done y
              → persist_all fs y ≡ done z
              → persist_all (es ++ fs) v ≡ done z)
          → (m >>= persist_all es) ≡ done y
          → (m >>= persist_all (es ++ fs)) ≡ done z
      first (done v) rest p' = rest v p' q
      first (panicked c) rest p' = cc
      first out_of_fuel rest p' = cc

  -- From one host to a later one.
  pub record Grows (h k : Host J) : Type 0 where
    pub events : List Event
    pub messages : List Message
    pub journaled : persist_all events h.mixin ≡ done k.mixin
    pub sent : k.sent ≡ h.sent ++ messages
    pub quiet : IsQuiet messages

  pub Grows-refl : (h : Host J) → Grows h h
  unfolding persist_all
  Grows-refl h = record {
    events = [];
    messages = [];
    journaled = refl;
    sent = sym (append-nil _);
    quiet = tt;
  }

  pub Grows-trans : (a b c : Host J) → Grows a b → Grows b c → Grows a c
  Grows-trans a b c p q = record {
    events = p.events ++ q.events;
    messages = p.messages ++ q.messages;
    journaled =
        persist_all-append p.events q.events a.mixin b.mixin c.mixin p.journaled q.journaled;
    sent = rw (q.sent, p.sent) (append_assoc a.sent p.messages q.messages);
    quiet = All-append _ p.messages q.messages p.quiet q.quiet;
  }

  -- Growing answers nothing.
  pub replies-Grows : (h k : Host J) → Grows h k → replies k.sent ≡ replies h.sent
  replies-Grows h k g =
      rw (g.sent, replies-append h.sent g.messages, replies-IsQuiet g.messages g.quiet)
        (append-nil (replies h.sent))
