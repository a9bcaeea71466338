-- ===== src/Templates/Postgres.antt =====
-- PostgresTemplateStore of pdf_ingestion/pipeline/schemas/pg_template_store.py: the tables
-- schema_templates and template_quarantine, and each statement on them. In what order a query
-- without ORDER BY gives its rows is a parameter. A template is read back through `from_dict`; JSON
-- itself is taken to keep a dict.
use smart_pdf_extractor.Prelude.{
  ℕ, String, Bool, ◌&&◌, ◌||◌, not, Option, none, some, List, [], ◌∷◌, ◌==◌, string_eq,
  if◌then◌else◌, any, select, map, take,
}
use smart_pdf_extractor.Templates.{SchemaTemplate, TemplateDict, from_dict, to_dict, next_version}

pub record TemplateRow : Type 0 where
  pub tenant_id : String
  pub fingerprint_key : String
  pub theme : String
  pub institution : String
  pub document_type_label : String
  pub template_json : TemplateDict
  pub source : String
  pub version : ℕ

pub record QuarantineRow : Type 0 where
  pub tenant_id : String
  pub fingerprint_key : String
  pub reason : List ℕ
  pub created_at : ℕ

pub record TemplateTables : Type 0 where
  pub schema_templates : List TemplateRow
  pub template_quarantine : List QuarantineRow

abbrev pub row_is : String → String → TemplateRow → Bool
row_is tid k r = r.tenant_id == tid && r.fingerprint_key == k

-- The first row of a tenant with this key.
abbrev pub find_row : String → String → List TemplateRow → Option TemplateRow
find_row tid k [] = none
find_row tid k (r ∷ rs) = if row_is tid k r then some r else find_row tid k rs

-- `WHERE fingerprint_key = :fk AND tenant_id IN (:tid, '*')`
abbrev pub get_row_is : String → String → TemplateRow → Bool
get_row_is tid k r = r.fingerprint_key == k && (r.tenant_id == tid || r.tenant_id == "*")

abbrev pub first_of_tenant : String → List TemplateRow → Option TemplateRow
first_of_tenant tid [] = none
first_of_tenant tid (r ∷ rs) = if r.tenant_id == tid then some r else first_of_tenant tid rs

abbrev pub head_row : List TemplateRow → Option TemplateRow
head_row [] = none
head_row (r ∷ rs) = some r

abbrev pub or_row : Option TemplateRow → Option TemplateRow → Option TemplateRow
or_row none b = b
or_row (some a) b = some a

-- `ORDER BY (tenant_id = :tid) DESC LIMIT 1`: the first row of the tenant, or else the first row.
abbrev pub order_limit : String → List TemplateRow → Option TemplateRow
order_limit tid rs = or_row (first_of_tenant tid rs) (head_row rs)

module _ (slug : String → String) where
  abbrev pub read_row : Option TemplateRow → Option SchemaTemplate
  read_row none = none
  read_row (some r) = some (from_dict slug r.template_json)

  unfoldable pub get : String → String → TemplateTables → Option SchemaTemplate
  get tid k db = read_row (order_limit tid (select (get_row_is tid k) db.schema_templates))

  -- `fingerprint_key NOT IN (SELECT … WHERE tenant_id = :tid)`
  abbrev pub is_quarantined : String → String → List QuarantineRow → Bool
  is_quarantined tid k q = any (λ p. p.tenant_id == tid && p.fingerprint_key == k) q

  abbrev pub theme_row : String → String → List QuarantineRow → TemplateRow → Bool
  theme_row tid theme q r =
      r.theme == theme
      && (r.tenant_id == tid || r.tenant_id == "*")
      && not (is_quarantined tid r.fingerprint_key q)

  -- `order` is the order in which the database gives the rows.
  unfoldable pub find_in_theme :
      (List TemplateRow → List TemplateRow) → String → String → TemplateTables → List SchemaTemplate
  find_in_theme order tid theme db =
      map (λ r. from_dict slug r.template_json)
        (order (select (theme_row tid theme db.template_quarantine) db.schema_templates))

-- `INSERT … ON CONFLICT (tenant_id, fingerprint_key) DO UPDATE SET reason, created_at`, with
-- `reason[:1000]`
abbrev pub upsert_quarantine : QuarantineRow → List QuarantineRow → List QuarantineRow
upsert_quarantine n [] = n ∷ []
upsert_quarantine n (p ∷ q) =
    if p.tenant_id == n.tenant_id && p.fingerprint_key == n.fingerprint_key
    then record p { reason = n.reason; created_at = n.created_at } ∷ q
    else p ∷ upsert_quarantine n q

unfoldable pub quarantine : String → String → List ℕ → ℕ → TemplateTables → TemplateTables
quarantine tid k reason now db = record db {
  template_quarantine =
      upsert_quarantine
        (record {
          tenant_id = tid;
          fingerprint_key = k;
          reason = take 1000 reason;
          created_at = now;
        })
        db.template_quarantine;
}

abbrev pub row_version : Option TemplateRow → Option ℕ
row_version none = none
row_version (some r) = some r.version

-- `INSERT … ON CONFLICT (tenant_id, fingerprint_key) DO UPDATE SET …`: every other column is
-- overwritten.
unfoldable pub upsert_template : TemplateRow → List TemplateRow → List TemplateRow
upsert_template n [] = n ∷ []
upsert_template n (r ∷ rs) =
    if row_is n.tenant_id n.fingerprint_key r
    then record r {
      theme = n.theme;
      institution = n.institution;
      document_type_label = n.document_type_label;
      template_json = n.template_json;
      source = n.source;
      version = n.version;
    }
      ∷ rs
    else r ∷ upsert_template n rs

abbrev pub row_of : String → SchemaTemplate → TemplateRow
row_of tid t = record {
  tenant_id = tid;
  fingerprint_key = t.fingerprint_key;
  theme = t.theme;
  institution = t.institution;
  document_type_label = t.document_type_label;
  template_json = to_dict t;
  source = t.source;
  version = t.version;
}

unfoldable pub save : String → SchemaTemplate → TemplateTables → TemplateTables
save tid t db =
    let t' = next_version (row_version (find_row tid t.fingerprint_key db.schema_templates)) t in
    record {
      schema_templates = upsert_template (row_of tid t') db.schema_templates;
      template_quarantine =
          select (λ p. not (p.tenant_id == tid && p.fingerprint_key == t.fingerprint_key))
            db.template_quarantine;
    }

abbrev pub seed_one : Option SchemaTemplate → SchemaTemplate → TemplateTables → TemplateTables
seed_one none t db = save "*" t db
seed_one (some _) t db = db

-- The hand-authored templates are inserted for every tenant, if absent.
unfoldable pub ensure_seeded :
    (String → String) → List SchemaTemplate → TemplateTables → TemplateTables
ensure_seeded slug [] db = db
ensure_seeded slug (t ∷ ts) db =
    ensure_seeded slug ts (seed_one (get slug "*" t.fingerprint_key db) t db)
