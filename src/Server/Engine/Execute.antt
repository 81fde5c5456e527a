-- ===== src/Server/Engine/Execute.antt =====
-- crates/nova-server/src/engine.rs: `execute`, the dispatch of a statement.
use nova_db.Base.Text.{Text}
use nova_db.Core.Error.{invalid_query}
use nova_db.Core.Outcome.{Outcome, done, raise}
use nova_db.Core.Value.{Float}
use nova_db.Protocol.Payload.{ResponsePayload, success}
use nova_db.Query.Ast.{Statement}
use nova_db.Server.Engine.{DatabaseEngine, Environment, Json}
use nova_db.Server.Engine.Indexes.{execute_create_index, execute_drop_index}
use nova_db.Server.Engine.Reads.{execute_find, execute_count, execute_exists}
use nova_db.Server.Engine.Writes.{execute_update}
use nova_db.Server.Engine.Inserts.{execute_insert}
use nova_db.Server.Engine.Removes.{execute_remove}
use nova_db.Server.Metrics.{inc_queries, inc_reads, inc_writes}
use nova_db.Wire.{Wire}

module _ {F H : Type 0} (fl : Float F) (x : Wire H) (json : Json F) (env : Environment) where
  abbrev note_query : DatabaseEngine F → DatabaseEngine F
  note_query s = record s { metrics = inc_queries s.metrics }

  abbrev note_read : DatabaseEngine F → DatabaseEngine F
  note_read s = record s { metrics = inc_reads (inc_queries s.metrics) }

  abbrev note_write : DatabaseEngine F → DatabaseEngine F
  note_write s = record s { metrics = inc_writes (inc_queries s.metrics) }

  -- A read leaves the engine as it is, but for the counters.
  unfoldable pub execute :
      Statement F → Text → DatabaseEngine F → Outcome (ResponsePayload F) × DatabaseEngine F
  unfolding execute_find execute_count execute_exists execute_insert execute_update execute_remove
      execute_create_index execute_drop_index
  execute (Statement.find coll filter sort limit offset) ns s =
      (execute_find fl (ns, coll) filter sort limit offset s, note_read s)
  execute (Statement.insert coll doc) ns s =
      execute_insert fl x json env (ns, coll) doc (note_write s)
  execute (Statement.update coll todo filter) ns s =
      execute_update fl x json env (ns, coll) todo filter (note_write s)
  execute (Statement.remove coll filter) ns s =
      execute_remove fl x json env (ns, coll) filter (note_write s)
  execute (Statement.count coll filter) ns s = (execute_count fl (ns, coll) filter s, note_read s)
  execute (Statement.exists coll filter) ns s = (execute_exists fl (ns, coll) filter s, note_read s)
  execute (Statement.create_index coll f t) ns s =
      execute_create_index fl (ns, coll) f t (note_query s)
  execute (Statement.drop_index coll f) ns s = execute_drop_index fl (ns, coll) f (note_query s)
  -- the connection routes WATCH to its stream handler
  execute (Statement.watch coll filter) ns s = (raise invalid_query, note_query s)
  execute Statement.begin ns s = (done (success 0), note_query s)
  execute Statement.commit ns s = (done (success 0), note_query s)
  execute Statement.rollback ns s = (done (success 0), note_query s)
