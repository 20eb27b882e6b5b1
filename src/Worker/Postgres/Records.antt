-- ===== src/Worker/Postgres/Records.antt =====
-- `insertDeadLetter` and `insertAuditEvent` of worker/src/persistence/postgres-service.ts: single
-- statements outside a transaction.
use semantic_layer_explore.Prelude.{
  String, Bool, true, false, ◌&&◌, [], ◌∷◌, ◌++◌, ◌==◌, any, eqb, if◌then◌else◌,
}
use semantic_layer_explore.Js.Result.{Result, ok, threw}
use semantic_layer_explore.Worker.Store.Tables.{
  Database, Position, AuditEvent, DeadLetter, insert_new,
}
use semantic_layer_explore.Worker.Store.Task.{Task, query, query_or_throw}

unfoldable pub same_position : Position → Position → Bool
same_position a b = a.topic == b.topic && eqb a.partition b.partition && eqb a.offset b.offset

abbrev pub has_dead_letter : Position → Database → Bool
has_dead_letter p db = any (λ r. same_position r.source p) db.dead_letters

abbrev pub has_dead_letter_id : String → Database → Bool
has_dead_letter_id id db = any (λ r. r.dead_letter_id == id) db.dead_letters

unfoldable pub append_dead_letter : DeadLetter → Database → Database
append_dead_letter row db = record db { dead_letters = db.dead_letters ++ row ∷ [] }

abbrev pub put_dead_letter : DeadLetter → Database → Result Bool × Database
put_dead_letter row db =
    if has_dead_letter row.source db
    then (ok true, db)
    else if has_dead_letter_id row.dead_letter_id db
    then (threw "duplicate key value violates unique constraint", db)
    else (ok false, append_dead_letter row db)

-- A row at the same position is left alone; another row with the same id is an error, by the
-- `unique` of the column. The result is `duplicate`.
unfoldable pub insert_dead_letter : DeadLetter → Task Bool
unfolding query_or_throw same_position append_dead_letter
insert_dead_letter row = query_or_throw (put_dead_letter row)

abbrev pub has_audit : String → Database → Bool
has_audit id db = any (λ r. r.audit_id == id) db.audit_events

unfoldable pub add_audit : AuditEvent → Database → Database
unfolding insert_new
add_audit row db = record db {
  audit_events = insert_new (λ r. r.audit_id == row.audit_id) row db.audit_events;
}

-- The result is `duplicate`.
unfoldable pub insert_audit_event : AuditEvent → Task Bool
unfolding query add_audit
insert_audit_event row = query (λ db. (has_audit row.audit_id db, add_audit row db))
