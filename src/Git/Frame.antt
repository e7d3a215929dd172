-- ===== src/Git/Frame.antt =====
-- What the writing of events leaves alone, in src/store/mod.rs.
use tit.Prelude.{String, ℕ, ◌+◌, ◌≡◌, refl, ap, ◌∙◌, List, [], ◌∷◌}
use tit.Store.Error.{Result, Ensures, Ensures-ok, Ensures-guard, Ensures-bind, Ensures-on_row}
use tit.Store.Schema.{Database, Bytes, Time, VersionedEvent, RepositoryEvent, AuditEvent}
use tit.Store.Events.{NewDomainEvent, insert_domain_event, insert_pull_request_event}
use tit.Store.Common.{insert_audit_event}
use tit.Store.PushEvents.{insert_reference_events, insert_managed_push, insert_push_events}

-- The tables of intents, of their events and of pull requests are the same.
pub record Keeps (db db' : Database) : Type 0 where
  pub intents : db'.git_intents ≡ db.git_intents
  pub events : db'.git_operation_events ≡ db.git_operation_events
  pub pulls : db'.pull_requests ≡ db.pull_requests

-- Only the events of repositories and the audit are written.
pub record OnlyLogs (a b : Database) : Type 0 where
  pub events : List RepositoryEvent
  pub audit : List AuditEvent
  pub same : b ≡ record a { repository_events = events; audit_events = audit }

OnlyLogs-refl : (db : Database) → OnlyLogs db db
OnlyLogs-refl db = record { events = db.repository_events; audit = db.audit_events; same = refl }

OnlyLogs-trans : {a b c : Database} → OnlyLogs a b → OnlyLogs b c → OnlyLogs a c
OnlyLogs-trans {a} {b} f g = record {
  events = g.events;
  audit = g.audit;
  same =
      g.same
      ∙ ap {A = Database} (λ x. record x { repository_events = g.events; audit_events = g.audit })
          f.same;
}

pub OnlyLogs-Keeps : {a b : Database} → OnlyLogs a b → Keeps a b
OnlyLogs-Keeps f = record {
  intents = ap {A = Database} (λ x. x.git_intents) f.same;
  events = ap {A = Database} (λ x. x.git_operation_events) f.same;
  pulls = ap {A = Database} (λ x. x.pull_requests) f.same;
}

Ensures-Keeps :
    (db : Database) (m : Result Database) → Ensures (OnlyLogs db) m → Ensures (Keeps db) m
Ensures-Keeps db m h = record { at = λ x e. OnlyLogs-Keeps (h.at x e) }

pub insert_domain_event-OnlyLogs :
    (id : String) (e : NewDomainEvent) (db : Database)
    → Ensures (OnlyLogs db) (insert_domain_event id e db)
unfolding insert_domain_event
insert_domain_event-OnlyLogs id e db =
    Ensures-guard _ _ _
      λ _. Ensures-ok _ record { events = _; audit = db.audit_events; same = refl }

pub insert_domain_event-Keeps :
    (id : String) (e : NewDomainEvent) (db : Database)
    → Ensures (Keeps db) (insert_domain_event id e db)
insert_domain_event-Keeps id e db = Ensures-Keeps db _ (insert_domain_event-OnlyLogs id e db)

pub insert_pull_request_event-Keeps :
    (e r p a : String) (t : Time) (v : VersionedEvent) (db : Database)
    → Ensures (Keeps db) (insert_pull_request_event e r p a t v db)
unfolding insert_pull_request_event
insert_pull_request_event-Keeps e r p a t v db = insert_domain_event-Keeps e _ db

insert_reference_events-OnlyLogs :
    (draw : ℕ → String) (push : NewDomainEvent) (n : ℕ) (is ps : List (Bytes × Bytes))
    (db : Database)
    → Ensures (OnlyLogs db) (insert_reference_events draw push n is ps db)
unfolding insert_reference_events
insert_reference_events-OnlyLogs draw push n [] ps db = Ensures-ok db (OnlyLogs-refl db)
insert_reference_events-OnlyLogs draw push n (i ∷ is) [] db = Ensures-ok db (OnlyLogs-refl db)
insert_reference_events-OnlyLogs draw push n ((o, a) ∷ is) ((w, b) ∷ ps) db =
    Ensures-guard _ _ _ λ _. Ensures-bind _ _ λ tag _. Ensures-bind _ _ λ db₁ e₁. record {
      at = λ db₂ e₂.
          OnlyLogs-trans ((insert_domain_event-OnlyLogs _ _ db).at db₁ e₁)
            ((insert_reference_events-OnlyLogs draw push (n + 1) is ps db₁).at db₂ e₂);
    }

insert_managed_push-OnlyLogs :
    (draw : ℕ → String) (push : NewDomainEvent) (id : String) (is ps : Bytes) (db : Database)
    → Ensures (OnlyLogs db) (insert_managed_push draw push id is ps db)
unfolding insert_managed_push insert_audit_event
insert_managed_push-OnlyLogs draw push id is ps db = Ensures-bind _ _ λ i _. Ensures-bind _ _ λ p _.
    Ensures-guard _ _ _ λ _. Ensures-bind _ _ λ db₁ e₁. Ensures-bind _ _ λ db₂ e₂.
      let kept =
        OnlyLogs-trans ((insert_domain_event-OnlyLogs _ _ db).at db₁ e₁)
          ((insert_reference_events-OnlyLogs draw push 1 i p db₁).at db₂ e₂) in
      Ensures-ok _
        (OnlyLogs-trans kept record { events = db₂.repository_events; audit = _; same = refl })

pub insert_push_events-OnlyLogs :
    (draw : ℕ → String) (id : String) (path : List Bytes) (actor : String) (is ps : Bytes)
    (t : Time) (db : Database)
    → Ensures (OnlyLogs db) (insert_push_events draw id path actor is ps t db)
unfolding insert_push_events
insert_push_events-OnlyLogs draw id path actor is ps t db =
    Ensures-on_row _ _ _ (λ _. Ensures-ok db (OnlyLogs-refl db))
      (λ r _. insert_managed_push-OnlyLogs draw _ id is ps db)

pub insert_push_events-Keeps :
    (draw : ℕ → String) (id : String) (path : List Bytes) (actor : String) (is ps : Bytes)
    (t : Time) (db : Database)
    → Ensures (Keeps db) (insert_push_events draw id path actor is ps t db)
insert_push_events-Keeps draw id path actor is ps t db =
    Ensures-Keeps db _ (insert_push_events-OnlyLogs draw id path actor is ps t db)
