-- ===== src/Discovery/PendingLaws.antt =====
-- What the store of pending schemas (pdf_ingestion/pipeline/discovery/pending_schema_store.py)
-- promises: an entry is read by its tenant for 24 hours, and the sweep takes only what nobody reads.
use smart_pdf_extractor.Prelude.{
  ℕ, ◌+◌, ◌≤◌, String, ◌≡◌, refl, Bool, not, ◌&&◌, none, some, [], ◌∷◌, arith, ◌==◌, ==_iff,
  string_eq, if◌then◌else◌, All, length, select, ltb,
}
use smart_pdf_extractor.Dict
use smart_pdf_extractor.Dict.{
  Dict, UniqueKeys, lookup-put, lookup-remove, remove_missing, lookup-select,
}
use smart_pdf_extractor.Discovery.Fingerprint.{SchemaFingerprint, DiscoveredSchema}
use smart_pdf_extractor.Discovery.Pending.{
  PendingEntry, PendingSchemaStore, expiry, store_pending, get_pending, expire_stale, is_stale,
  delete_all, pending_entry,
}

-- After a schema was stored, its id reads the new entry for its own tenant until 24 hours have
-- passed and nothing otherwise, and every other id reads what it read before.
pub get_pending-store_pending :
    (uuid : String) (s : DiscoveredSchema) (fp : SchemaFingerprint) (tid jid : String) (now : ℕ)
    (ps : PendingSchemaStore) (pid reader : String) (later : ℕ)
    → get_pending pid reader later (store_pending uuid s fp tid jid now ps).1 ≡ (
        if uuid == pid
        then (if tid == reader && ltb later (now + expiry)
            then some (pending_entry uuid s fp tid jid now)
            else none)
        else get_pending pid reader later ps)
unfolding get_pending store_pending
get_pending-store_pending uuid s fp tid jid now ps pid reader later =
    ground (arith, lookup-put uuid pid (pending_entry uuid s fp tid jid now) ps)

delete_all_kept :
    (stale : PendingSchemaStore) (pid : String) (e : PendingEntry) (s : PendingSchemaStore)
    → Dict.lookup pid stale ≡ none
    → delete_all stale ((pid, e) ∷ s) ≡ (pid, e) ∷ delete_all stale s
unfolding Dict.lookup Dict.remove
delete_all_kept [] pid e s h = refl
delete_all_kept ((q, d) ∷ stale) pid e s h =
    ground (arith, delete_all_kept stale pid e (Dict.remove q s), ==_iff q pid, ==_iff pid q)

fresh : ℕ → String × PendingEntry → Bool
fresh now x = not (is_stale now x)

delete_all_stale :
    (now : ℕ) (s : PendingSchemaStore)
    → UniqueKeys s
    → delete_all (select (is_stale now) s) s ≡ select (fresh now) s
unfolding fresh Dict.lookup Dict.remove
delete_all_stale now [] u = refl
delete_all_stale now ((pid, e) ∷ s) u = ground (
  arith,
  delete_all_stale now s u.1,
  delete_all_kept (select (is_stale now) s) pid e s (lookup-select pid (is_stale now) s u.0),
  remove_missing pid s u.0,
  ==_iff pid pid,
)

get_pending-fresh :
    (pid tid : String) (now : ℕ) (s : PendingSchemaStore)
    → UniqueKeys s
    → get_pending pid tid now (select (fresh now) s) ≡ get_pending pid tid now s
unfolding get_pending fresh Dict.lookup
get_pending-fresh pid tid now [] u = refl
get_pending-fresh pid tid now ((q, e) ∷ s) u =
    ground
      (arith, get_pending-fresh pid tid now s u.1, ==_iff q pid, lookup-select pid (fresh now) s)

select-fresh :
    (now : ℕ) (s : PendingSchemaStore)
    → All (λ x. now ≤ x.1.created_at + expiry) (select (fresh now) s)
unfolding fresh
select-fresh now [] = tt
select-fresh now ((pid, e) ∷ s) = ground (arith, select-fresh now s)

length-fresh :
    (now : ℕ) (s : PendingSchemaStore)
    → length (select (is_stale now) s) + length (select (fresh now) s) ≡ length s
unfolding fresh
length-fresh now [] = omega arith
length-fresh now ((pid, e) ∷ s) = ground (arith, length-fresh now s)

-- The sweep, in a store with no id twice: whatever could be read before can be read after, no entry
-- older than 24 hours is left, and the count returned is the number of entries that went.
pub expire_stale_lem :
    (now : ℕ) (s : PendingSchemaStore) (pid tid : String)
    → UniqueKeys s
    → let (n, left) = expire_stale now s in
      (get_pending pid tid now left ≡ get_pending pid tid now s)
      × All (λ x. now ≤ x.1.created_at + expiry) left
      × (n + length left ≡ length s)
unfolding expire_stale
expire_stale_lem now s pid tid u =
    rw (delete_all_stale now s u)
      (get_pending-fresh pid tid now s u, select-fresh now s, length-fresh now s)
