-- ===== src/Discovery/CacheLaws.antt =====
-- What the schema cache (pdf_ingestion/pipeline/discovery/schema_cache.py) promises its callers.
use smart_pdf_extractor.Prelude.{
  ℕ, ◌+◌, String, ◌≡◌, ◌≢◌, refl, ap, Bool, true, false, Option, none, some, List, [], ◌∷◌, map,
  arith, ==_iff, string_eq, pair_eq, list_eq, nat_eq, Text, Option-cases, inl, inr, All, length,
  ◌∙◌, subst,
}
use smart_pdf_extractor.Dict
use smart_pdf_extractor.Dict.{Dict, lookup-put, lookup-put_same, lookup-remove}
use smart_pdf_extractor.Discovery.Fingerprint.{
  SchemaFingerprint, DiscoveredTableDefinition, DiscoveredSchema, key,
}
use smart_pdf_extractor.Discovery.Cache
use smart_pdf_extractor.Discovery.Cache.{
  SchemaCache, CacheEntry, table_dict, table_definition, serialize_schema, deserialize_schema,
  store, invalidate, mark_needs_refinement, new_entry, used, hit,
}

map-table_dict :
    (ts : List DiscoveredTableDefinition) → map table_definition (map table_dict ts) ≡ ts
map-table_dict [] = refl
map-table_dict (t ∷ ts) = ap (◌∷◌ t) (map-table_dict ts)

-- A schema comes back from its JSON form as it was.
pub deserialize_schema-serialize_schema :
    (s : DiscoveredSchema) → deserialize_schema (serialize_schema s) ≡ s
unfolding deserialize_schema serialize_schema
deserialize_schema-serialize_schema s =
    ap (λ (ts : List DiscoveredTableDefinition). record s { table_definitions = ts })
      (map-table_dict s.table_definitions)

-- The successive lookups of one schema.
abbrev pub lookups : List ℕ → SchemaFingerprint → String → SchemaCache → SchemaCache
lookups [] fp tid c = c
lookups (now ∷ times) fp tid c = lookups times fp tid (Cache.lookup fp tid now c).1

abbrev pub entry : SchemaFingerprint → String → SchemaCache → Option CacheEntry
entry fp tid c = Dict.lookup (tid, key fp) c

-- The calls that tenants make of the cache.
pub data CacheCall : Type 0 where
  look : SchemaFingerprint → ℕ → CacheCall
  save : DiscoveredSchema → SchemaFingerprint → Bool → Bool → ℕ → CacheCall
  drop : SchemaFingerprint → CacheCall
  mark : SchemaFingerprint → ℕ → CacheCall

abbrev pub call : String → CacheCall → SchemaCache → SchemaCache
call tid (look fp now) c = (Cache.lookup fp tid now c).1
call tid (save s fp refine approved now) c = store s fp tid refine approved now c
call tid (drop fp) c = (invalidate fp tid c).1
call tid (mark fp now) c = (mark_needs_refinement fp tid now c).1

abbrev pub call_all : List (String × CacheCall) → SchemaCache → SchemaCache
call_all [] c = c
call_all ((tid, op) ∷ calls) c = call_all calls (call tid op c)

-- A call that does not approve a schema of this tenant under this key.
abbrev pub IsNoApproval : String × Text → String × CacheCall → Type 0
IsNoApproval k (tid, look fp now) = Unit
IsNoApproval k (tid, save s fp refine approved now) = ((tid, key fp) ≡ k → approved ≡ false)
IsNoApproval k (tid, drop fp) = Unit
IsNoApproval k (tid, mark fp now) = Unit

abbrev pub is_hit : Option CacheEntry → Bool
is_hit none = false
is_hit (some e) = e.approved

call-is_hit :
    (k : String × Text) (tid : String) (op : CacheCall) (c : SchemaCache)
    → IsNoApproval k (tid, op)
    → is_hit (Dict.lookup k c) ≡ false
    → is_hit (Dict.lookup k (call tid op c)) ≡ false
unfolding Cache.lookup store invalidate mark_needs_refinement
call-is_hit k tid (look fp now) c u h = elim (Option-cases (Dict.lookup (tid, key fp) c)) [
  | inl e ↦ ground arith
  | inr (x, e) ↦ ground (arith, lookup-put (tid, key fp) k (used now x) c, ==_iff (tid, key fp) k)
]
call-is_hit k tid (save s fp refine approved now) c u h = ground (
  arith,
  lookup-put (tid, key fp) k (new_entry s fp refine approved now) c,
  ==_iff (tid, key fp) k,
)
call-is_hit k tid (drop fp) c u h = ground (arith, lookup-remove (tid, key fp) k c)
call-is_hit k tid (mark fp now) c u h = elim (Option-cases (Dict.lookup (tid, key fp) c)) [
  | inl e ↦ ground arith
  | inr (x, e) ↦
      ground (arith, lookup-put (tid, key fp) k (Cache.marked now x) c, ==_iff (tid, key fp) k)
]

call_all-is_hit :
    (k : String × Text) (calls : List (String × CacheCall)) (c : SchemaCache)
    → All (IsNoApproval k) calls
    → is_hit (Dict.lookup k c) ≡ false
    → is_hit (Dict.lookup k (call_all calls c)) ≡ false
call_all-is_hit k [] c u h = h
call_all-is_hit k ((tid, op) ∷ calls) c u h =
    call_all-is_hit k calls (call tid op c) u.1 (call-is_hit k tid op c u.0 h)

-- Whatever calls the tenants made of an empty cache: if none of them approved a schema of this
-- tenant under this key, then a lookup finds nothing and changes nothing.
pub unapproved_unserved :
    (calls : List (String × CacheCall)) (fp : SchemaFingerprint) (tid : String) (now : ℕ)
    → All (IsNoApproval (tid, key fp)) calls
    → Cache.lookup fp tid now (call_all calls []) ≡ (none, call_all calls [])
unfolding Cache.lookup Dict.lookup
unapproved_unserved calls fp tid now u =
    let k : String × Text = (tid, key fp) in
    let c = call_all calls [] in
    let h = call_all-is_hit k calls [] u refl in
    elim (Option-cases (Dict.lookup k c)) [ inl e ↦ ground arith | inr (x, e) ↦ ground arith ]

call-other :
    (k : String × Text) (tid : String) (op : CacheCall) (c : SchemaCache)
    → tid ≢ k.0
    → Dict.lookup k (call tid op c) ≡ Dict.lookup k c
unfolding Cache.lookup store invalidate mark_needs_refinement
call-other k tid (look fp now) c n = elim (Option-cases (Dict.lookup (tid, key fp) c)) [
  | inl e ↦ ground arith
  | inr (x, e) ↦ ground (arith, lookup-put (tid, key fp) k (used now x) c, ==_iff (tid, key fp) k)
]
call-other k tid (save s fp refine approved now) c n = ground (
  arith,
  lookup-put (tid, key fp) k (new_entry s fp refine approved now) c,
  ==_iff (tid, key fp) k,
)
call-other k tid (drop fp) c n =
    ground (arith, lookup-remove (tid, key fp) k c, ==_iff (tid, key fp) k)
call-other k tid (mark fp now) c n = elim (Option-cases (Dict.lookup (tid, key fp) c)) [
  | inl e ↦ ground arith
  | inr (x, e) ↦
      ground (arith, lookup-put (tid, key fp) k (Cache.marked now x) c, ==_iff (tid, key fp) k)
]

call_all-other :
    (k : String × Text) (calls : List (String × CacheCall)) (c : SchemaCache)
    → All (λ x. x.0 ≢ k.0) calls
    → Dict.lookup k (call_all calls c) ≡ Dict.lookup k c
call_all-other k [] c n = refl
call_all-other k ((tid, op) ∷ calls) c n =
    call_all-other k calls (call tid op c) n.1 ∙ call-other k tid op c n.0

-- Whatever other tenants do, a tenant's lookup answers as before.
pub lookup_isolated :
    (calls : List (String × CacheCall)) (fp : SchemaFingerprint) (tid : String) (now : ℕ)
    (c : SchemaCache)
    → All (λ x. x.0 ≢ tid) calls
    → (Cache.lookup fp tid now (call_all calls c)).0 ≡ (Cache.lookup fp tid now c).0
unfolding Cache.lookup
lookup_isolated calls fp tid now c n = elim (Option-cases (Dict.lookup (tid, key fp) c)) [
  | inl e ↦ ground (arith, call_all-other (tid, key fp) calls c n)
  | inr (x, e) ↦ ground (arith, call_all-other (tid, key fp) calls c n)
]

-- A cache that serves this schema under the fingerprint, with this many uses counted.
pub record Serves (fp : SchemaFingerprint) (tid : String) (s : DiscoveredSchema) (n : ℕ)
    (c : SchemaCache) : Type 0 where
  pub found : CacheEntry
  pub at_key : Dict.lookup (tid, key fp) c ≡ some found
  pub is_approved : found.approved ≡ true
  pub same_schema : found.schema_json ≡ serialize_schema s
  pub uses : found.usage_count ≡ n

lookup-Serves :
    (fp : SchemaFingerprint) (tid : String) (s : DiscoveredSchema) (n now : ℕ) (c : SchemaCache)
    → Serves fp tid s n c
    → Serves fp tid s (n + 1) (Cache.lookup fp tid now c).1
unfolding Cache.lookup
lookup-Serves fp tid s n now c h = record {
  found = used now h.found;
  at_key =
      ground (arith, h.at_key, h.is_approved, lookup-put_same (tid, key fp) (used now h.found) c);
  is_approved = h.is_approved;
  same_schema = h.same_schema;
  uses = ground (arith, h.uses);
}

lookups-Serves :
    (times : List ℕ) (fp : SchemaFingerprint) (tid : String) (s : DiscoveredSchema) (n : ℕ)
    (c : SchemaCache)
    → Serves fp tid s n c
    → Serves fp tid s (n + length times) (lookups times fp tid c)
lookups-Serves [] fp tid s n c h = subst (λ m. Serves fp tid s m c) (ground arith) h
lookups-Serves (now ∷ times) fp tid s n c h =
    subst (λ m. Serves fp tid s m (lookups times fp tid (Cache.lookup fp tid now c).1))
      (ground arith) (lookups-Serves times fp tid s (n + 1) _ (lookup-Serves fp tid s n now c h))

pub Serves-lookup :
    (fp : SchemaFingerprint) (tid : String) (s : DiscoveredSchema) (n now : ℕ) (c : SchemaCache)
    → Serves fp tid s n c
    → (Cache.lookup fp tid now c).0 ≡ some s
unfolding Cache.lookup
Serves-lookup fp tid s n now c h =
    ground (arith, h.at_key, h.is_approved, h.same_schema, deserialize_schema-serialize_schema s)

pub store-Serves :
    (fp : SchemaFingerprint) (tid : String) (s : DiscoveredSchema) (refine : Bool) (now : ℕ)
    (c : SchemaCache)
    → Serves fp tid s 1 (store s fp tid refine true now c)
unfolding store
store-Serves fp tid s refine now c = record {
  found = new_entry s fp refine true now;
  at_key = lookup-put_same (tid, key fp) (new_entry s fp refine true now) c;
  is_approved = refl;
  same_schema = refl;
  uses = refl;
}

-- The uses counted for a fingerprint.
abbrev pub usage : Option CacheEntry → ℕ
usage none = 0
usage (some e) = e.usage_count

-- An approved schema is served unchanged at every lookup after it was stored, and each lookup adds
-- one to its count, which starts at one.
pub approved_served :
    (times : List ℕ) (fp : SchemaFingerprint) (tid : String) (s : DiscoveredSchema) (refine : Bool)
    (stored now : ℕ) (c : SchemaCache)
    → let after = lookups times fp tid (store s fp tid refine true stored c) in
      ((Cache.lookup fp tid now after).0 ≡ some s)
      × (usage (Dict.lookup (tid, key fp) after) ≡ 1 + length times)
approved_served times fp tid s refine stored now c =
    let h = lookups-Serves times fp tid s 1 _ (store-Serves fp tid s refine stored c) in
    (Serves-lookup fp tid s _ now _ h, ap usage h.at_key ∙ h.uses)
