-- ===== src/Discovery/Pending.antt =====
-- PendingSchemaStore of pdf_ingestion/pipeline/discovery/pending_schema_store.py. Times are seconds;
-- the clock and the new UUID are arguments.
use smart_pdf_extractor.Prelude.{
  ℕ, ◌+◌, String, Bool, true, false, not, Option, none, some, List, [], ◌∷◌, ltb, leb, ◌==◌,
  string_eq, if◌then◌else◌, length, select,
}
use smart_pdf_extractor.Dict
use smart_pdf_extractor.Dict.{Dict}
use smart_pdf_extractor.Discovery.Fingerprint.{SchemaFingerprint, DiscoveredSchema}

-- 24 hours
abbrev pub expiry : ℕ
expiry = 86400

pub record PendingEntry : Type 0 where
  pub pending_id : String
  pub schema : DiscoveredSchema
  pub fingerprint : SchemaFingerprint
  pub tenant_id : String
  pub job_id : String
  pub created_at : ℕ

abbrev pub PendingSchemaStore : Type 0
PendingSchemaStore = Dict String PendingEntry

abbrev pub pending_entry :
    String → DiscoveredSchema → SchemaFingerprint → String → String → ℕ → PendingEntry
pending_entry uuid schema fp tid jid now = record {
  pending_id = uuid;
  schema = schema;
  fingerprint = fp;
  tenant_id = tid;
  job_id = jid;
  created_at = now;
}

unfoldable pub store_pending :
    String
    → DiscoveredSchema
    → SchemaFingerprint
    → String
    → String
    → ℕ
    → PendingSchemaStore
    → String × PendingSchemaStore
store_pending uuid schema fp tid jid now s =
    (uuid, Dict.put uuid (pending_entry uuid schema fp tid jid now) s)

-- `now - created_at >= timedelta(hours=24)`
abbrev pub has_expired : ℕ → PendingEntry → Bool
has_expired now e = leb (e.created_at + expiry) now

abbrev pub readable : String → ℕ → Option PendingEntry → Option PendingEntry
readable tid now none = none
readable tid now (some e) =
    if not (e.tenant_id == tid) then none else if has_expired now e then none else some e

unfoldable pub get_pending : String → String → ℕ → PendingSchemaStore → Option PendingEntry
get_pending pid tid now s = readable tid now (Dict.lookup pid s)

abbrev pub discard_found :
    String → String → Option PendingEntry → PendingSchemaStore → Bool × PendingSchemaStore
discard_found pid tid none s = (false, s)
discard_found pid tid (some e) s =
    if e.tenant_id == tid then (true, Dict.remove pid s) else (false, s)

unfoldable pub discard : String → String → PendingSchemaStore → Bool × PendingSchemaStore
discard pid tid s = discard_found pid tid (Dict.lookup pid s) s

-- `created_at < now - timedelta(hours=24)`
abbrev pub is_stale : ℕ → String × PendingEntry → Bool
is_stale now (pid, e) = ltb (e.created_at + expiry) now

abbrev pub delete_all : List (String × PendingEntry) → PendingSchemaStore → PendingSchemaStore
delete_all [] s = s
delete_all ((pid, e) ∷ stale) s = delete_all stale (Dict.remove pid s)

-- The sweep: the stale ids are collected, and each is deleted.
unfoldable pub expire_stale : ℕ → PendingSchemaStore → ℕ × PendingSchemaStore
expire_stale now s = let stale = select (is_stale now) s in (length stale, delete_all stale s)
