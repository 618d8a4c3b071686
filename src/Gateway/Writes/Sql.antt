-- ===== src/Gateway/Writes/Sql.antt =====
-- The statements that a client's write may run, as the doc comments and the queries of
-- crates/pes-gateway/src/connection.rs have them: the reference that Guard compares the code with.
use prometheus_entity_sync.Base.{Text, codes, ◌++◌}

-- The scope check: whether the query has a row for the id.
abbrev pub scope_check : Text → Text
scope_check query =
    codes "SELECT 1 FROM (" ++ (query ++ codes ") AS sq WHERE sq.id::text = $1 LIMIT 1")

abbrev pub set_payload : Text → Text
set_payload table = codes "UPDATE " ++ (table ++ codes " SET payload = $1 WHERE id::text = $2")

abbrev pub remove_row : Text → Text
remove_row table = codes "DELETE FROM " ++ (table ++ codes " WHERE id::text = $1")

abbrev pub get_state : Text → Text
get_state table = codes "SELECT crdt_state FROM " ++ (table ++ codes " WHERE id::text = $1")

abbrev pub set_state : Text → Text
set_state table = codes "UPDATE " ++ (table ++ codes " SET crdt_state = $1 WHERE id::text = $2")
