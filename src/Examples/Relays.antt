-- ===== src/Examples/Relays.antt =====
-- Outboxes in memory, and relays of their entries.
use event_sourcing_testbed.Common.{
  ◌≡◌, refl, sym, ap, ◌∙◌, inl, inr, String, List, [], ◌∷◌, Option, none, some, Bool, true, false,
  All, arith,
}
use event_sourcing_testbed.Common.Result.{ok}
use event_sourcing_testbed.Kurrent.Driver.{done}
use event_sourcing_testbed.Store.Relay.{Outbox, mark, pending, IsIn, sent, IsDelivered}
use event_sourcing_testbed.Store.Relay.Loop.{IsRelay, run_relay_loop, run_relay_loop_drains}
use event_sourcing_testbed.Mongo.Outbox
use event_sourcing_testbed.Mongo.Outbox.{relay_next_integration_event-IsRelay}
use event_sourcing_testbed.Mongo.Outbox.Workers.{
  idle, holding, published, advance, works, Reach, here, next,
}
use event_sourcing_testbed.Mongo.Outbox.Safety.{Reach-IsDelivered}
use event_sourcing_testbed.Postgres.Outbox as Pg
use event_sourcing_testbed.Postgres.Outbox.{RelayedPast, relay_next_integration_event_lem}

abbrev first : List String → Option String
first [] = none
first (k ∷ ks) = some k

first-none : (ks : List String) → done (first ks) ≡ done none → ks ≡ []
first-none [] h = refl
first-none (k ∷ ks) h = absurd (cc h)

first-IsIn : (ks : List String) (id : String) → done (first ks) ≡ done (some id) → IsIn id ks
first-IsIn [] id h = absurd (cc h)
first-IsIn (k ∷ ks) id h = inl (cc h)

abbrev marked : Outbox → String → Outbox
marked s id = record s { entries = mark id s.entries }

abbrev memory : Outbox.Publisher
memory = record {
  World = Outbox;
  Document = String;
  find_pending = λ w. done (first (pending w.entries));
  get_id = λ d. some d;
  publish = λ w d. (sent w d, ok tt);
  set_dispatched = λ w id. (marked w id, done tt);
  outbox = λ w. w;
}

memory_IsReliable : Outbox.IsReliable memory
memory_IsReliable = record {
  found_none = λ w h. first-none (pending w.entries) h;
  found = λ w d id h same.
      let own : d ≡ id = cc same in
      first-IsIn (pending w.entries) id (h ∙ ap (λ k. done (some k)) own);
  published = λ w d id same h. let own : d ≡ id = cc same in ap (λ k. sent w k) own;
  not_published = λ w d id e same h. absurd (cc h);
  marked = λ w id h. refl;
  not_marked = λ w id message h. absurd (cc h);
}

-- two entries, the second not yet dispatched
abbrev waiting : Outbox
waiting = record { entries = ("e1", true) ∷ ("e2", false) ∷ []; published = "e1" ∷ [] }

waiting-IsDelivered : IsDelivered waiting
waiting-IsDelivered = (inr (inl refl), (inl refl, tt))

relay_next_integration_event-IsRelay_example :
    IsRelay (Outbox.relay_next_integration_event memory) (λ w. w)
relay_next_integration_event-IsRelay_example =
    relay_next_integration_event-IsRelay memory memory_IsReliable

answered : (w : Outbox) → (b : Bool) × ((Outbox.relay_next_integration_event memory w).1 ≡ ok b)
unfolding Outbox.relay_next_integration_event
answered w = by_entry (first (pending w.entries))
  where
    by_entry : (o : Option String) → (b : Bool) × ((Outbox.with_entry memory w (done o)).1 ≡ ok b)
    by_entry none = (false, refl)
    by_entry (some id) = (true, refl)

run_relay_loop_drains_example :
    let w' = run_relay_loop (Outbox.relay_next_integration_event memory) 1 waiting in
    (pending w'.entries ≡ []) × All (λ id. IsIn id w'.published) ("e1" ∷ "e2" ∷ [])
run_relay_loop_drains_example =
    run_relay_loop_drains (Outbox.relay_next_integration_event memory) (λ w. w)
      (relay_next_integration_event-IsRelay memory memory_IsReliable) 1 waiting answered
      waiting-IsDelivered (omega arith)

-- Two workers find the same entry and publish it; one of them marks it.
abbrev twice : Outbox
twice = record { entries = ("e1", true) ∷ ("e2", true) ∷ []; published = "e1" ∷ "e2" ∷ "e2" ∷ [] }

racing : Reach memory (waiting, idle ∷ idle ∷ []) (twice, idle ∷ published "e2" ∷ [])
unfolding advance
racing =
    next
      (next
        (next
          (next (next here (works waiting [] (idle ∷ []) idle))
            (works waiting (holding "e2" ∷ []) [] idle))
          (works waiting [] (holding "e2" ∷ []) (holding "e2")))
        (works (sent waiting "e2") (published "e2" ∷ []) [] (holding "e2")))
      (works (sent (sent waiting "e2") "e2") [] (published "e2" ∷ []) (published "e2"))

Reach-IsDelivered_example : IsDelivered twice
Reach-IsDelivered_example =
    Reach-IsDelivered memory memory_IsReliable (waiting-IsDelivered, (tt, (tt, tt))) racing

-- a transaction is the outbox at an abort, and now
abbrev server : Pg.Publisher
server = record {
  World = Outbox;
  Tx = Outbox × Outbox;
  Row = String;
  Json = String;
  columns = record {
    get_string = λ row name. row;
    get_number = λ row name. 0;
    get_json = λ row name. row;
    get_time = λ row name. "now";
  };
  begin = λ w. done (w, w);
  find_pending = λ tx. done (first (pending tx.1.entries));
  publish = λ tx payload event_type. ((sent tx.0 payload, sent tx.1 payload), ok tt);
  set_dispatched = λ tx id. ((tx.0, marked tx.1 id), done tt);
  commit = λ tx. (tx.1, done tt);
  rollback = λ tx. (tx.0, done tt);
  abort = λ tx. tx.0;
  outbox = λ w. w;
  locked = λ w. [];
  base = λ tx. tx.0;
  seen = λ tx. tx.1;
}

server_IsReliable : Pg.IsReliable server
server_IsReliable = record {
  begun = λ w tx h.
      let same : (w, w) ≡ tx = cc h in (ap (λ x. x.0) (sym same), ap (λ x. x.1) (sym same));
  found_none = λ w tx b h. let none_left = first-none (pending tx.1.entries) h in rw none_left tt;
  found = λ tx row h. first-IsIn (pending tx.1.entries) row h;
  published = λ tx row f h. (refl, refl);
  not_published = λ tx row e f h. absurd (cc h);
  set_base = λ tx id. refl;
  set_done = λ tx id h. refl;
  rolled_back = λ tx. refl;
  transactional = record {
    aborted = λ tx. refl;
    commit_done = λ tx h. refl;
    commit_refused = λ tx message h. absurd (cc h);
  };
}

relay_next_integration_event_lem_example :
    let after = Pg.relay_next_integration_event server waiting in
    RelayedPast [] waiting after.0 after.1
relay_next_integration_event_lem_example =
    relay_next_integration_event_lem server server_IsReliable waiting
