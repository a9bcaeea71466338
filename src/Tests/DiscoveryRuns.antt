-- ===== src/Tests/DiscoveryRuns.antt =====
-- A discovered schema of a bank, its way through the stores, and the theorems at it.
use smart_pdf_extractor.Prelude.{
  ℕ, underscored, lower, is_space, lower_char, ap, ◌++◌, lstrip, strip, ap, ◌+◌, ◌≤◌, String, ◌≡◌,
  ◌≢◌, ◌⊎◌, refl, true, false, none, some, List, [], ◌∷◌, arith, ==_iff, string_eq, pair_eq,
  list_eq, nat_eq, inr, Text, All, length,
}
use smart_pdf_extractor.Dict
use smart_pdf_extractor.Dict.{Dict}
use smart_pdf_extractor.Discovery.Fingerprint.{
  split_once, SchemaFingerprint, DiscoveredSchema, key, slug, from_key, from_key-key,
}
use smart_pdf_extractor.Discovery.Cache
use smart_pdf_extractor.Discovery.Cache.{SchemaCache, store, serialize_schema, deserialize_schema}
use smart_pdf_extractor.Discovery.CacheLaws.{
  CacheCall, save, drop, mark, call_all, lookups, usage, Serves, approved_served,
  unapproved_unserved, lookup_isolated, deserialize_schema-serialize_schema,
}
use smart_pdf_extractor.Discovery.Pending.{
  PendingEntry, PendingSchemaStore, get_pending, store_pending, expire_stale, pending_entry, expiry,
}
use smart_pdf_extractor.Discovery.PendingLaws.{get_pending-store_pending, expire_stale_lem}
use smart_pdf_extractor.Discovery.Approval.{
  AppState, approve_schema, approve_schema_moves, approve_schema_refuses, approved, job_not_found,
  schema_not_found,
}

abbrev dbs : Text
dbs = b'D' ∷ b'B' ∷ b'S' ∷ []

-- " Db S", normalised to "db_s"
abbrev spaced : Text
spaced = b' ' ∷ b'D' ∷ b'b' ∷ b' ' ∷ b'S' ∷ []

-- "a::b"
abbrev label : Text
label = b'a' ∷ b':' ∷ b':' ∷ b'b' ∷ []

abbrev fingerprint : SchemaFingerprint
fingerprint = record { institution = spaced; document_type_label = label }

abbrev giro : DiscoveredSchema
giro = record {
  document_type_label = label;
  institution = spaced;
  metadata_fields = [];
  table_definitions =
      record {
        table_type = dbs;
        expected_headers = dbs ∷ [];
        data_pattern = [];
        location_hint = dbs;
      }
      ∷ [];
}

from_key-key_example :
    from_key (key fingerprint)
    ≡ some (record { institution = slug spaced; document_type_label = label })
unfolding split_once slug strip lstrip underscored lower is_space lower_char
from_key-key_example = from_key-key fingerprint no_separator
  where
    no_separator : split_once (slug spaced ++ b':' ∷ []) ≡ none
    no_separator = refl

giro_round_trip : deserialize_schema (serialize_schema giro) ≡ giro
giro_round_trip = deserialize_schema-serialize_schema giro

abbrev served : SchemaCache
served = lookups (20 ∷ 30 ∷ []) fingerprint "t1" (store giro fingerprint "t1" false true 10 [])

approved_served_example :
    ((Cache.lookup fingerprint "t1" 40 served).0 ≡ some giro)
    × (usage (Dict.lookup ("t1", key fingerprint) served) ≡ 1 + 2)
approved_served_example = approved_served (20 ∷ 30 ∷ []) fingerprint "t1" giro false 10 40 []

differ : ◌≢◌ {A = String} "t2" "t1"
differ = ground (arith, ==_iff {K = String} "t2" "t1")

abbrev calls : List (String × CacheCall)
calls =
    ("t1", save giro fingerprint false false 10)
    ∷ ("t2", save giro fingerprint false true 11)
    ∷ ("t1", mark fingerprint 12)
    ∷ []

unapproved_unserved_example :
    Cache.lookup fingerprint "t1" 40 (call_all calls []) ≡ (none, call_all calls [])
unapproved_unserved_example =
    unapproved_unserved calls fingerprint "t1" 40
      (λ e. refl, (λ e. ground (arith, ap (λ x. x.0) e, differ), (tt, tt)))

lookup_isolated_run :
    (Cache.lookup fingerprint "t1" 40 (call_all (("t2", drop fingerprint) ∷ []) served)).0
    ≡ (Cache.lookup fingerprint "t1" 40 served).0
lookup_isolated_run =
    lookup_isolated (("t2", drop fingerprint) ∷ []) fingerprint "t1" 40 served (differ, tt)

abbrev waiting : PendingSchemaStore
waiting = ("p1", pending_entry "p1" giro fingerprint "t1" "job1" 100) ∷ []

pending_readable :
    get_pending "p2" "t1" 1000 (store_pending "p2" giro fingerprint "t1" "job2" 200 waiting).1
    ≡ some (pending_entry "p2" giro fingerprint "t1" "job2" 200)
pending_readable =
    get_pending-store_pending "p2" giro fingerprint "t1" "job2" 200 waiting "p2" "t1" 1000

expire_stale_lem_run :
    let (n, left) = expire_stale 100000 waiting in
    (get_pending "p1" "t1" 100000 left ≡ get_pending "p1" "t1" 100000 waiting)
    × All (λ x. 100000 ≤ x.1.created_at + expiry) left
    × (n + length left ≡ length waiting)
unfolding Dict.lookup
expire_stale_lem_run = expire_stale_lem 100000 waiting "p1" "t1" (unique, tt)
  where
    unique : Dict.lookup {K = String} {V = PendingEntry} "p1" [] ≡ none
    unique = refl

abbrev app : AppState
app = record {
  results = ("job1", "t1") ∷ [];
  pending_schema_store = some waiting;
  schema_cache = some [];
}

approve_schema_moves_example :
    let (answer, after) = approve_schema "job1" "p1" "t1" 1000 app in
    (answer ≡ approved (key fingerprint))
    × ((cache : SchemaCache) × (after.schema_cache ≡ some cache)
        × Serves fingerprint "t1" giro 1 cache
        × ((later : ℕ) → (Cache.lookup fingerprint "t1" later cache).0 ≡ some giro))
    × ((left : PendingSchemaStore) × (after.pending_schema_store ≡ some left)
        × ((later : ℕ) → get_pending "p1" "t1" later left ≡ none))
unfolding Dict.lookup get_pending
approve_schema_moves_example =
    approve_schema_moves "job1" "p1" "t1" 1000 app waiting []
      (pending_entry "p1" giro fingerprint "t1" "job1" 100) owned refl refl readable_now
  where
    owned : Dict.lookup "job1" app.results ≡ some "t1"
    owned = refl

    readable_now :
        get_pending "p1" "t1" 1000 waiting
        ≡ some (pending_entry "p1" giro fingerprint "t1" "job1" 100)
    readable_now = refl

approve_schema_refuses_run :
    let (answer, after) = approve_schema "job1" "p1" "t2" 1000 app in
    (after ≡ app) × ((answer ≡ job_not_found) ⊎ (answer ≡ schema_not_found))
unfolding get_pending Dict.lookup
approve_schema_refuses_run =
    approve_schema_refuses "job1" "p1" "t2" 1000 app waiting refl (inr unreadable)
  where
    unreadable : get_pending "p1" "t2" 1000 waiting ≡ none
    unreadable = refl
