-- ===== src/Audit/Steps.antt =====
-- What `Event::write` leaves behind when it succeeds.
use fukulow.Common.{ℕ, ◌≡◌, true, arith, insert}
use fukulow.Db.Schema.{Db, AuditEvent}
use fukulow.Db.Context.{Settings}
use fukulow.Db.Policies.{may_insert_audit}
use fukulow.Db.Transaction.{Server, Tx, M, ok, ◌>>=◌}
use fukulow.Db.Steps.{Ensures, execute-then}
use fukulow.Audit.{Event, audit_row, insert_audit, write}

abbrev pub with_audit : Db → AuditEvent → Db
with_audit db row = record db { audit_events = insert row db.audit_events }

pub insert_audit-ok :
    (row : AuditEvent) (settings : Settings) (db : Db) (u : Unit) (db' : Db)
    → insert_audit row settings db ≡ ok (u, db')
    → (may_insert_audit settings db row ≡ true) × (db' ≡ with_audit db row)
unfolding insert_audit
insert_audit-ok row settings db u db' h = ground arith

pub write-then :
    (server : Server) {V B : Type 0} (Q : B → Tx → Type 0) (t : Tx) (e : Event)
    (organization performed_by : ℕ) (f : Unit → M V B)
    → ((n id : ℕ)
        → may_insert_audit t.settings t.db (audit_row id e organization performed_by) ≡ true
        → Ensures Q (
            f tt (record t {
              db = with_audit t.db (audit_row id e organization performed_by);
              tick = n;
            })))
    → Ensures Q ((write server e organization performed_by >>= f) t)
unfolding write ◌>>=◌
write-then server Q t e organization performed_by f h =
    execute-then server Q t
      (insert_audit (audit_row (server.new_id t.tick) e organization performed_by)) f
      λ n a db p.
        let (allowed, same) = insert_audit-ok _ _ _ a db p in
        rw same (h n (server.new_id t.tick) allowed)
