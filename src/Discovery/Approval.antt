-- ===== src/Discovery/Approval.antt =====
-- The route approve_schema of pdf_ingestion/api/routes/chat.py: a pending schema that a user
-- approves moves to the cache.
use smart_pdf_extractor.Prelude.{
  ℕ, String, ◌≡◌, ◌≢◌, ◌⊎◌, refl, Bool, true, false, Option, none, some, arith, ◌==◌, ==_iff,
  string_eq, pair_eq, list_eq, nat_eq, if◌then◌else◌, Option-cases, inl, inr, Text,
}
use smart_pdf_extractor.Dict
use smart_pdf_extractor.Dict.{Dict, lookup-remove}
use smart_pdf_extractor.Discovery.Fingerprint.{key}
use smart_pdf_extractor.Discovery.Cache.{SchemaCache, store, lookup}
use smart_pdf_extractor.Discovery.CacheLaws.{Serves, store-Serves, Serves-lookup}
use smart_pdf_extractor.Discovery.Pending.{PendingEntry, PendingSchemaStore, get_pending, discard}

pub data Response : Type 0 where
  job_not_found : Response
  schema_not_found : Response
  approved : Text → Response

-- The tenant of each job's result, and the two stores that the application may have.
pub record AppState : Type 0 where
  pub results : Dict String String
  pub pending_schema_store : Option PendingSchemaStore
  pub schema_cache : Option SchemaCache

abbrev pub owns : String → Option String → Bool
owns tid none = false
owns tid (some owner) = owner == tid

abbrev pub store_approved : PendingEntry → String → ℕ → Option SchemaCache → Option SchemaCache
store_approved e tid now none = none
store_approved e tid now (some c) = some (store e.schema e.fingerprint tid false true now c)

abbrev pub move :
    String → String → ℕ → PendingSchemaStore → Option PendingEntry → AppState → Response × AppState
move pid tid now ps none st = (schema_not_found, st)
move pid tid now ps (some e) st = (
  approved (key e.fingerprint),
  record st {
    schema_cache = store_approved e tid now st.schema_cache;
    pending_schema_store = some (discard pid tid ps).1;
  },
)

abbrev pub move_pending :
    String → String → ℕ → Option PendingSchemaStore → AppState → Response × AppState
move_pending pid tid now none st = (schema_not_found, st)
move_pending pid tid now (some ps) st = move pid tid now ps (get_pending pid tid now ps) st

unfoldable pub approve_schema : String → String → String → ℕ → AppState → Response × AppState
approve_schema jid pid tid now st =
    if owns tid (Dict.lookup jid st.results)
    then move_pending pid tid now st.pending_schema_store st
    else (job_not_found, st)

get_pending-discard :
    (pid tid : String) (now later : ℕ) (ps : PendingSchemaStore) (e : PendingEntry)
    → get_pending pid tid now ps ≡ some e
    → get_pending pid tid later (discard pid tid ps).1 ≡ none
unfolding get_pending discard
get_pending-discard pid tid now later ps e h = elim (Option-cases (Dict.lookup pid ps)) [
  | inl m ↦ ground arith
  | inr (x, m) ↦ ground (arith, lookup-remove pid pid ps, ==_iff pid pid, ==_iff x.tenant_id tid)
]

owns_own : (tid : String) (o : Option String) → o ≡ some tid → owns tid o ≡ true
owns_own tid none h = cc
owns_own tid (some owner) h = ground (arith, ==_iff owner tid)

-- A tenant that approves a readable pending schema from a job of its own is answered with the
-- schema's key. The stores are then such that, as long as neither is written to again, a lookup of
-- the cache at any time gives that tenant that schema, which has one use counted, and the pending
-- entry cannot be read at any time.
pub approve_schema_moves :
    (jid pid tid : String) (now : ℕ) (st : AppState) (ps : PendingSchemaStore) (c : SchemaCache)
    (e : PendingEntry)
    → Dict.lookup jid st.results ≡ some tid
    → st.pending_schema_store ≡ some ps
    → st.schema_cache ≡ some c
    → get_pending pid tid now ps ≡ some e
    → let (answer, after) = approve_schema jid pid tid now st in
      (answer ≡ approved (key e.fingerprint))
      × ((cache : SchemaCache) × (after.schema_cache ≡ some cache)
          × Serves e.fingerprint tid e.schema 1 cache
          × ((later : ℕ) → (lookup e.fingerprint tid later cache).0 ≡ some e.schema))
      × ((left : PendingSchemaStore) × (after.pending_schema_store ≡ some left)
          × ((later : ℕ) → get_pending pid tid later left ≡ none))
unfolding approve_schema
approve_schema_moves jid pid tid now st ps c e j p q h =
    simp (owns_own tid _ j, p, q, h)
      (
        refl,
        (
          _,
          refl,
          store-Serves e.fingerprint tid e.schema false now c,
          λ later.
              Serves-lookup e.fingerprint tid e.schema 1 later _
                (store-Serves e.fingerprint tid e.schema false now c),
        ),
        (_, refl, λ later. get_pending-discard pid tid now later ps e h),
      )

-- A tenant that asks for another tenant's job, or for a pending schema that it cannot read, changes
-- nothing and is refused.
pub approve_schema_refuses :
    (jid pid tid : String) (now : ℕ) (st : AppState) (ps : PendingSchemaStore)
    → st.pending_schema_store ≡ some ps
    → (Dict.lookup jid st.results ≢ some tid) ⊎ (get_pending pid tid now ps ≡ none)
    → let (answer, after) = approve_schema jid pid tid now st in
      (after ≡ st) × ((answer ≡ job_not_found) ⊎ (answer ≡ schema_not_found))
unfolding approve_schema
approve_schema_refuses jid pid tid now st ps p h =
    elim (Option-cases (Dict.lookup jid st.results)) [
      | inl m ↦ simp m (refl, inl refl)
      | inr (owner, m) ↦ elim (Option-cases (get_pending pid tid now ps)) [
        | inl g ↦ ground (arith, m, g, p)
        | inr (e, g) ↦ ground (arith, m, g, p, h, ==_iff owner tid)
      ]
    ]
