-- ===== src/Gateway/Writes/Guard.antt =====
-- crates/pes-gateway/src/connection.rs: what a client's write does to the database.
use prometheus_entity_sync.Base.{
  Text, text_eq, Map, get, Has, Result, ok, err, map_err, Option, none, some, List, [], ◌∷◌, ◌++◌,
  Bool, true, false, ◌≡◌, refl, sym, ap, ◌∙◌, ◌⊎◌, inl, inr,
}
use mathlib.Core.List.{append-nil}
use prometheus_entity_sync.Core.{
  BucketAssignment, BucketId, Op, upsert, delete, crdt_patch, SyncError, database,
}
use prometheus_entity_sync.Protocol.{ServerMessage, error}
use prometheus_entity_sync.Gateway.Effects.{
  Env, Event, sent, fetched, executed, Bind, bind_json, bind_bytes, bind_text, continue_conn, pure,
  run_statement,
}
use prometheus_entity_sync.Gateway.Connection.{Session}
use prometheus_entity_sync.Gateway.Writes.Sql
use prometheus_entity_sync.Gateway.Writes.Emits.{
  Emits, Emits-one, Emits-append, Emits-continue, map_err-ok,
}
use prometheus_entity_sync.Gateway.Writes.{
  scope_statement, find_writable, or_query, or_empty, apply_write, crdt_failed, row_is_within_scope,
  is_some, reported, write_if_owned, write_with, handle_write,
}

abbrev pub IsErrorFrame : ServerMessage → Type 0
IsErrorFrame (error code message) = Unit
IsErrorFrame _ = ⊥

-- A bucket of the session has the query for the entity type.
abbrev pub MayWrite : Session → Text → Text → Type 0
MayWrite s entity_type query =
    (a : BucketAssignment) × (b : BucketId) × Has (b, a) s.authorized_buckets
    × (get a.data_queries entity_type ≡ some query)

module _ (env : Env) where
  -- The scope check of the query, made when `events` had happened, gave a row for the entity.
  abbrev pub InScope : List Event → Text → Text → Type 0
  InScope events query entity_id =
      (row : Text) × (env.fetch_scalar events (Sql.scope_check query) (bind_text entity_id ∷ [])
        ≡ ok (some row))

  -- The read that an op needs before its statement.
  abbrev pub IsRead : Text → Op → Text → Type 0
  IsRead entity_type (crdt_patch patch) sql = sql ≡ Sql.get_state entity_type
  IsRead entity_type _ sql = ⊥

  -- The statement of an op, which is on the one row of the entity; `before` has happened when a patch
  -- reads the state that it is merged into.
  abbrev pub IsStatement : List Event → Text → Text → Op → Text → List Bind → Type 0
  IsStatement before entity_type entity_id (upsert value) sql binds =
      (sql ≡ Sql.set_payload entity_type) × (binds ≡ bind_json value ∷ bind_text entity_id ∷ [])
  IsStatement before entity_type entity_id delete sql binds =
      (sql ≡ Sql.remove_row entity_type) × (binds ≡ bind_text entity_id ∷ [])
  IsStatement before entity_type entity_id (crdt_patch patch) sql binds =
      (state : Option Text) × (merged : Text) × (env.fetch_scalar before (Sql.get_state entity_type)
          (bind_text entity_id ∷ [])
        ≡ ok state)
      × (env.apply_delta (or_empty state) patch ≡ ok merged)
      × (sql ≡ Sql.set_state entity_type)
      × (binds ≡ bind_bytes merged ∷ bind_text entity_id ∷ [])

  -- What happens by the scope check of a query.
  abbrev pub checked : List Event → Text → Text → List Event
  checked events query entity_id =
      events ++ fetched (Sql.scope_check query) (bind_text entity_id ∷ []) ∷ []

  -- What a write may do, when `events` had happened before it, where `May` says which query an entity
  -- type may be written by: error frames; the scope check itself; and for a row that it has found the read and
  -- the statement of the op.
  abbrev pub IsGuarded : (Text → Text → Type 0) → List Event → Text → Text → Op → Event → Type 0
  IsGuarded May events entity_type entity_id op (sent m) = IsErrorFrame m
  IsGuarded May events entity_type entity_id op (fetched sql binds) =
      (binds ≡ bind_text entity_id ∷ [])
      × (query : Text) × May entity_type query
      × ((sql ≡ Sql.scope_check query)
          ⊎ (InScope events query entity_id × IsRead entity_type op sql))
  IsGuarded May events entity_type entity_id op (executed sql binds) =
      (query : Text) × May entity_type query
      × InScope events query entity_id
      × IsStatement (checked events query entity_id) entity_type entity_id op sql binds

writable_head :
    (entity_type : Text) (b : BucketId) (x : BucketAssignment) (m : Map BucketId BucketAssignment)
    (o : Option Text) (rest : Option (BucketAssignment × Text)) (a : BucketAssignment)
    (query : Text)
    → get x.data_queries entity_type ≡ o
    → (rest ≡ some (a, query)
        → (c : BucketId) × Has (c, a) m × (get a.data_queries entity_type ≡ some query))
    → or_query entity_type o rest x ≡ some (a, query)
    → (c : BucketId) × Has (c, a) ((b, x) ∷ m) × (get a.data_queries entity_type ≡ some query)
writable_head ty b x m none rest a query e f h = let (c, has, found) = f h in (c, inr has, found)
writable_head ty b x m (some q) rest a query e f h =
    let same : x ≡ a = cc in
    (
      b,
      inl (λ i. (b, same i)),
      ap (λ y. get (BucketAssignment.data_queries y) ty) (sym same) ∙ e ∙ (cc),
    )

find_writable-MayWrite :
    (entity_type : Text) (m : Map BucketId BucketAssignment) (a : BucketAssignment) (query : Text)
    → find_writable entity_type m ≡ some (a, query)
    → (b : BucketId) × Has (b, a) m × (get a.data_queries entity_type ≡ some query)
unfolding find_writable
find_writable-MayWrite ty [] a query h = cc
find_writable-MayWrite ty ((b, x) ∷ m) a query h =
    writable_head ty b x m (get x.data_queries ty) (find_writable ty m) a query refl
      (λ e. find_writable-MayWrite ty m a query e) h

module _ (env : Env) (s : Session) (start : List Event) (ty id : Text) where
  abbrev Ok' : Op → Event → Type 0
  Ok' = IsGuarded env (MayWrite s) start ty id

  module _ (query : Text) (may : MayWrite s ty query) where
    -- What a result leads to that a statement is made from.
    merged-Emits :
        (op : Op) (merged : Result SyncError Text) (sql : Text) (binds : Text → List Bind)
        (events : List Event)
        → ((m : Text) → merged ≡ ok m → Ok' op (executed sql (binds m)))
        → Emits
            (Ok' op)
            events
            (continue_conn (merged, events) (λ m. run_statement env sql (binds m))).1
    merged-Emits op (ok m) sql binds events h = (_ ∷ [], refl, (h m refl, tt))
    merged-Emits op (err e) sql binds events h = ([], sym (append-nil events), tt)

    apply_write-Emits :
        (op : Op)
        → InScope env start query id
        → Emits
            (Ok' op)
            (checked env start query id)
            (apply_write env ty id op (checked env start query id)).1
    unfolding apply_write
    apply_write-Emits (upsert value) scope = (_ ∷ [], refl, ((query, may, scope, (refl, refl)), tt))
    apply_write-Emits delete scope = (_ ∷ [], refl, ((query, may, scope, (refl, refl)), tt))
    apply_write-Emits (crdt_patch patch) scope =
        Emits-continue (Ok' (crdt_patch patch)) (map_err database (env.fetch_scalar _ _ _)) _ _ _
          (refl, query, may, inr (scope, refl))
          (λ state e.
            merged-Emits (crdt_patch patch)
              (map_err (crdt_failed env) (env.apply_delta (or_empty state) patch)) _
              (λ m. bind_bytes m ∷ bind_text id ∷ []) _
              (λ m f.
                let found = map_err-ok database _ state e in
                let merged = map_err-ok (crdt_failed env) _ m f in
                (query, may, scope, (state, m, found, merged, refl, refl))))

    reported-Emits :
        (op : Op) (x : Result SyncError (Unit {0}) × List Event) (events : List Event)
        → Emits (Ok' op) events x.1
        → Emits (Ok' op) events (reported env x).1
    reported-Emits op (ok u, _) events h = h
    reported-Emits op (err e, mid) events h =
        Emits-append (Ok' op) events mid _ h (Emits-one (Ok' op) mid _ tt)

    owned-Emits :
        (op : Op) (owns : Bool)
        → (owns ≡ true → InScope env start query id)
        → Emits
            (Ok' op)
            (checked env start query id)
            (write_if_owned env ty id op owns (checked env start query id)).1
    owned-Emits op true scope = reported-Emits op _ _ (apply_write-Emits op (scope refl))
    owned-Emits op false scope = (_ ∷ [], refl, (tt, tt))

    scoped-Emits :
        (op : Op) (row : Result Text (Option Text))
        → env.fetch_scalar start (scope_statement query) (bind_text id ∷ []) ≡ row
        → Emits
            (Ok' op)
            start
            (continue_conn
              (continue_conn
                (map_err database row, checked env start query id)
                (λ r. pure (is_some r)))
              (write_if_owned env ty id op)).1
    scoped-Emits op (err e) same = Emits-one (Ok' op) start _ (refl, query, may, inl refl)
    scoped-Emits op (ok none) same =
        Emits-append (Ok' op) start _ _ (Emits-one (Ok' op) start _ (refl, query, may, inl refl))
          (owned-Emits op false (λ no_row. cc))
    scoped-Emits op (ok (some row)) same =
        Emits-append (Ok' op) start _ _ (Emits-one (Ok' op) start _ (refl, query, may, inl refl))
          (owned-Emits op true (λ _. (row, same)))

    found-Emits :
        (op : Op)
        → Emits
            (Ok' op)
            start
            (continue_conn (row_is_within_scope env query id start) (write_if_owned env ty id op)).1
    unfolding row_is_within_scope
    found-Emits op =
        scoped-Emits op (env.fetch_scalar start (scope_statement query) (bind_text id ∷ [])) refl

  write_with-Emits :
      (op : Op) (o : Option (BucketAssignment × Text))
      → find_writable ty s.authorized_buckets ≡ o
      → Emits (Ok' op) start (write_with env ty id op o start).1
  write_with-Emits op none e = Emits-one (Ok' op) start _ tt
  write_with-Emits op (some (a, query)) e =
      let (b, has, found) = find_writable-MayWrite ty s.authorized_buckets a query e in
      found-Emits query (a, b, has, found) op

-- A client's write only adds events: error frames to the client; the scope check of a query that
-- some bucket of the session has for the entity type, with the entity's id as its only bind; and, if that check
-- has found the entity, what the op asks of it. For an upsert that is `UPDATE … SET payload = $1 WHERE
-- id::text = $2` on the table of the entity type with the value and the id, for a deletion `DELETE FROM
-- … WHERE id::text = $1` with the id, and for a patch `SELECT crdt_state FROM … WHERE id::text = $1`
-- with the id and `UPDATE … SET crdt_state = $1 WHERE id::text = $2` with the id and what
-- `apply_delta` makes of the patch and of the state that this read gave.
pub handle_write-IsGuarded :
    (env : Env) (s : Session) (entity_type entity_id : Text) (op : Op) (events : List Event)
    → Emits
        (IsGuarded env (MayWrite s) events entity_type entity_id op)
        events
        (handle_write env s entity_type entity_id op events).1
unfolding handle_write
handle_write-IsGuarded env s ty id op events =
    write_with-Emits env s events ty id op (find_writable ty s.authorized_buckets) refl
