-- ===== src/Templates/Refinement.antt =====
-- The Postgres store (pg_template_store.py) against the in-memory store (template_store.py): the
-- tables, read as a dict, do what the dict does.
use smart_pdf_extractor.Prelude.{
  ℕ, String, ◌≡◌, ◌≢◌, refl, ◌&&◌, not, Option, none, some, List, [], ◌∷◌, ◌++◌, arith, ◌==◌,
  string_eq, pair_eq, ==_iff, select, map, All, if◌then◌else◌, Option-cases, take, inl, inr, Bool,
  count_if, ◌∙◌, sym, ap,
}
use smart_pdf_extractor.Dict
use smart_pdf_extractor.Dict.{Dict}
use smart_pdf_extractor.Templates
use smart_pdf_extractor.Templates.{
  SchemaTemplate, TemplateDict, Key, TemplateStore, from_dict, to_dict, schema_template,
  templates_in, in_theme, next_version, version_of,
}
use smart_pdf_extractor.Templates.Postgres
use smart_pdf_extractor.Templates.Postgres.{
  TemplateRow, QuarantineRow, TemplateTables, row_is, find_row, get_row_is, order_limit,
  upsert_template, row_of,
}

pub key-next_version :
    (v : Option ℕ) (t : SchemaTemplate) → (next_version v t).fingerprint_key ≡ t.fingerprint_key
key-next_version none t = refl
key-next_version (some v) t = refl

module _ (slug : String → String) where
  -- A template with a key survives the way into the table and back.
  pub from_dict-to_dict :
      (t : SchemaTemplate) → t.fingerprint_key ≢ "" → from_dict slug (to_dict t) ≡ t
  unfolding from_dict to_dict
  from_dict-to_dict t h = ground (arith, ==_iff t.fingerprint_key "")

  -- The columns of a row repeat what its template says.
  pub record IsFaithful (r : TemplateRow) : Type 0 where
    pub key : (from_dict slug r.template_json).fingerprint_key ≡ r.fingerprint_key
    pub theme : (from_dict slug r.template_json).theme ≡ r.theme
    pub version : (from_dict slug r.template_json).version ≡ r.version

  abbrev pub entry_of : TemplateRow → Key × SchemaTemplate
  entry_of r = ((r.tenant_id, r.fingerprint_key), from_dict slug r.template_json)

  abbrev pub key_of : QuarantineRow → Key
  key_of q = (q.tenant_id, q.fingerprint_key)

  -- The store that the tables stand for.
  abbrev pub stands_for : TemplateTables → TemplateStore
  stands_for db = record {
    store = map entry_of db.schema_templates;
    quarantined = map key_of db.template_quarantine;
  }

  lookup-entry_of :
      (tid k : String) (rs : List TemplateRow)
      → Dict.lookup (tid, k) (map entry_of rs) ≡ Postgres.read_row slug (find_row tid k rs)
  unfolding Dict.lookup
  lookup-entry_of tid k [] = refl
  lookup-entry_of tid k (r ∷ rs) = ground (arith, lookup-entry_of tid k rs)

  pub tenant_rows :
      (tid k : String) (rs : List TemplateRow)
      → Postgres.first_of_tenant tid (select (get_row_is tid k) rs) ≡ find_row tid k rs
  tenant_rows tid k [] = refl
  tenant_rows tid k (r ∷ rs) = ground (arith, tenant_rows tid k rs)

  pub global_rows :
      (tid k : String) (rs : List TemplateRow)
      → find_row tid k rs ≡ none
      → Postgres.head_row (select (get_row_is tid k) rs) ≡ find_row "*" k rs
  global_rows tid k [] h = refl
  global_rows tid k (r ∷ rs) h = ground (arith, global_rows tid k rs)

  pub get-stands_for :
      (tid k : String) (db : TemplateTables)
      → Postgres.get slug tid k db ≡ Templates.get tid k (stands_for db)
  unfolding Postgres.get Templates.get
  get-stands_for tid k db =
      let rs = db.schema_templates in
      elim (Option-cases (find_row tid k rs)) [
        | inl e ↦ ground (
          arith,
          tenant_rows tid k rs,
          global_rows tid k rs,
          lookup-entry_of tid k rs,
          lookup-entry_of "*" k rs,
        )
        | inr (r, e) ↦ ground (arith, tenant_rows tid k rs, lookup-entry_of tid k rs)
      ]

  is_quarantined-key_of :
      (tid k : String) (q : List QuarantineRow)
      → Templates.is_quarantined tid k (map key_of q) ≡ Postgres.is_quarantined slug tid k q
  is_quarantined-key_of tid k [] = refl
  is_quarantined-key_of tid k (p ∷ q) = ground (arith, is_quarantined-key_of tid k q)

  find_rows :
      (tid theme : String) (q : List QuarantineRow) (rs : List TemplateRow)
      → All IsFaithful rs
      → map (λ r. from_dict slug r.template_json) (select (Postgres.theme_row slug tid theme q) rs)
        ≡ templates_in tid theme (map key_of q) (map entry_of rs)
  find_rows tid theme q [] f = refl
  find_rows tid theme q (r ∷ rs) f = ground (
    arith,
    find_rows tid theme q rs f.1,
    f.0.theme,
    f.0.key,
    is_quarantined-key_of tid r.fingerprint_key q,
  )

  -- The rows that the database gives are those selected, each as often, in whatever order.
  abbrev pub Reorders : (List TemplateRow → List TemplateRow) → Type 0
  Reorders order =
      (p : TemplateRow → Bool) (rs : List TemplateRow) → count_if p (order rs) ≡ count_if p rs

  count_if-map :
      (p : SchemaTemplate → Bool) (rs : List TemplateRow)
      → count_if p (map (λ r. from_dict slug r.template_json) rs)
        ≡ count_if (λ r. p (from_dict slug r.template_json)) rs
  count_if-map p [] = refl
  count_if-map p (r ∷ rs) = omega (arith, count_if-map p rs)

  pub find_in_theme-stands_for :
      (order : List TemplateRow → List TemplateRow) (tid theme : String) (db : TemplateTables)
      (p : SchemaTemplate → Bool)
      → Reorders order
      → All IsFaithful db.schema_templates
      → count_if p (Postgres.find_in_theme slug order tid theme db)
        ≡ count_if p (Templates.find_in_theme tid theme (stands_for db))
  unfolding Postgres.find_in_theme Templates.find_in_theme
  find_in_theme-stands_for order tid theme db p reorders f =
      let rs =
        select (Postgres.theme_row slug tid theme db.template_quarantine) db.schema_templates in
      count_if-map p (order rs)
      ∙ reorders (λ r. p (from_dict slug r.template_json)) rs
      ∙ sym (count_if-map p rs)
      ∙ ap (count_if p) (find_rows tid theme db.template_quarantine db.schema_templates f)

  quarantine_rows :
      (n : QuarantineRow) (q : List QuarantineRow)
      → map key_of (Postgres.upsert_quarantine n q) ≡ (
          if Templates.is_quarantined n.tenant_id n.fingerprint_key (map key_of q)
          then map key_of q
          else map key_of q ++ (n.tenant_id, n.fingerprint_key) ∷ [])
  quarantine_rows n [] = refl
  quarantine_rows n (p ∷ q) = ground (arith, quarantine_rows n q)

  pub quarantine-stands_for :
      (tid k : String) (reason : List ℕ) (now : ℕ) (db : TemplateTables)
      → stands_for (Postgres.quarantine tid k reason now db)
        ≡ Templates.quarantine tid k (stands_for db)
  unfolding Postgres.quarantine Templates.quarantine
  quarantine-stands_for tid k reason now db = ground (
    arith,
    quarantine_rows
        (record {
          tenant_id = tid;
          fingerprint_key = k;
          reason = take 1000 reason;
          created_at = now;
        })
        db.template_quarantine,
  )

  put_rows :
      (tid : String) (t : SchemaTemplate) (rs : List TemplateRow)
      → from_dict slug (to_dict t) ≡ t
      → map entry_of (upsert_template (row_of tid t) rs)
        ≡ Dict.put (tid, t.fingerprint_key) t (map entry_of rs)
  unfolding upsert_template Dict.put
  put_rows tid t [] h = ground arith
  put_rows tid t (r ∷ rs) h = ground (arith, put_rows tid t rs h)

  lift_rows :
      (tid k : String) (q : List QuarantineRow)
      → map key_of (select (λ p. not (p.tenant_id == tid && p.fingerprint_key == k)) q)
        ≡ select (λ p. not (p == (tid, k))) (map key_of q)
  lift_rows tid k [] = refl
  lift_rows tid k (p ∷ q) = ground (arith, lift_rows tid k q)

  version_rows :
      (tid k : String) (rs : List TemplateRow)
      → All IsFaithful rs
      → version_of (Dict.lookup (tid, k) (map entry_of rs))
        ≡ Postgres.row_version (find_row tid k rs)
  unfolding Dict.lookup
  version_rows tid k [] f = refl
  version_rows tid k (r ∷ rs) f = ground (arith, version_rows tid k rs f.1, f.0.version)

  pub save-stands_for :
      (tid : String) (t : SchemaTemplate) (db : TemplateTables)
      → t.fingerprint_key ≢ ""
      → All IsFaithful db.schema_templates
      → stands_for (Postgres.save tid t db) ≡ Templates.save tid t (stands_for db)
  unfolding Postgres.save Templates.save
  save-stands_for tid t db ne f =
      let rs = db.schema_templates in
      let t' = next_version (Postgres.row_version (find_row tid t.fingerprint_key rs)) t in
      let same : t'.fingerprint_key ≡ t.fingerprint_key = key-next_version _ t in
      ground (
        arith,
        version_rows tid t.fingerprint_key rs f,
        same,
        put_rows tid t' rs (from_dict-to_dict t' (rw same ne)),
        lift_rows tid t.fingerprint_key db.template_quarantine,
      )
