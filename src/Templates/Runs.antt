-- ===== src/Templates/Runs.antt =====
-- Whole runs of the two template stores (template_store.py and pg_template_store.py), and the
-- seeding of the Postgres store.
use smart_pdf_extractor.Prelude.{
  ℕ, String, ◌≡◌, ◌≢◌, refl, ap, subst, ◌∙◌, Option, none, some, List, [], ◌∷◌, arith, string_eq,
  ==_iff, All, Bool-cases, Option-cases, inl, inr, Bool, count_if,
}
use smart_pdf_extractor.Templates
use smart_pdf_extractor.Templates.{SchemaTemplate, TemplateStore, from_dict, to_dict, next_version}
use smart_pdf_extractor.Templates.Postgres
use smart_pdf_extractor.Templates.Postgres.{
  TemplateRow, TemplateTables, row_is, find_row, upsert_template, row_of, ensure_seeded, seed_one,
}
use smart_pdf_extractor.Templates.Refinement.{
  IsFaithful, Reorders, stands_for, from_dict-to_dict, get-stands_for, find_in_theme-stands_for,
  quarantine-stands_for, save-stands_for, key-next_version, tenant_rows, global_rows,
}

-- A call that changes a store; the reason and the time of a quarantine are only kept in Postgres.
pub data Call : Type 0 where
  save : String → SchemaTemplate → Call
  quarantine : String → String → List ℕ → ℕ → Call

abbrev pub HasKey : Call → Type 0
HasKey (save tid t) = t.fingerprint_key ≢ ""
HasKey (quarantine tid k reason now) = Unit

abbrev pub in_memory : Call → TemplateStore → TemplateStore
in_memory (save tid t) s = Templates.save tid t s
in_memory (quarantine tid k reason now) s = Templates.quarantine tid k s

abbrev pub in_postgres : Call → TemplateTables → TemplateTables
in_postgres (save tid t) db = Postgres.save tid t db
in_postgres (quarantine tid k reason now) db = Postgres.quarantine tid k reason now db

unfoldable pub run_memory : List Call → TemplateStore → TemplateStore
run_memory [] s = s
run_memory (c ∷ cs) s = run_memory cs (in_memory c s)

unfoldable pub run_postgres : List Call → TemplateTables → TemplateTables
run_postgres [] db = db
run_postgres (c ∷ cs) db = run_postgres cs (in_postgres c db)

module _ (slug : String → String) where
  upsert-IsFaithful :
      (tid : String) (t : SchemaTemplate) (rs : List TemplateRow)
      → from_dict slug (to_dict t) ≡ t
      → All (IsFaithful slug) rs
      → All (IsFaithful slug) (upsert_template (row_of tid t) rs)
  unfolding upsert_template
  upsert-IsFaithful tid t [] h f = (record { key = rw h; theme = rw h; version = rw h }, tt)
  upsert-IsFaithful tid t (r ∷ rs) h f = elim (Bool-cases (row_is tid t.fingerprint_key r)) [
    | inl e ↦ rw e (
      record {
        key =
            ap (λ (u : SchemaTemplate). u.fingerprint_key) h
            ∙ ground (arith, ==_iff r.fingerprint_key t.fingerprint_key);
        theme = rw h;
        version = rw h;
      },
      f.1,
    )
    | inr e ↦ rw e (f.0, upsert-IsFaithful tid t rs h f.1)
  ]

  call-IsFaithful :
      (c : Call) (db : TemplateTables)
      → HasKey c
      → All (IsFaithful slug) db.schema_templates
      → All (IsFaithful slug) (in_postgres c db).schema_templates
  unfolding Postgres.save Postgres.quarantine
  call-IsFaithful (save tid t) db h f =
      let v = Postgres.row_version (find_row tid t.fingerprint_key db.schema_templates) in
      upsert-IsFaithful tid (next_version v t) db.schema_templates
        (from_dict-to_dict slug (next_version v t) (rw (key-next_version v t) h)) f
  call-IsFaithful (quarantine tid k reason now) db h f = f

  call-stands_for :
      (c : Call) (db : TemplateTables)
      → HasKey c
      → All (IsFaithful slug) db.schema_templates
      → stands_for slug (in_postgres c db) ≡ in_memory c (stands_for slug db)
  call-stands_for (save tid t) db h f = save-stands_for slug tid t db h f
  call-stands_for (quarantine tid k reason now) db h f =
      quarantine-stands_for slug tid k reason now db

  -- After the same calls, each with a template of its own that has a key, both stores answer `get`
  -- alike, and `find_in_theme` with the same templates, each as often, in whatever order the database
  -- gives its rows, if the tables were faithful to the dict at the start.
  pub runs_agree :
      (order : List TemplateRow → List TemplateRow) (cs : List Call) (db : TemplateTables)
      (tid k theme : String)
      → Reorders slug order
      → All HasKey cs
      → All (IsFaithful slug) db.schema_templates
      → (Postgres.get slug tid k (run_postgres cs db)
          ≡ Templates.get tid k (run_memory cs (stands_for slug db)))
        × ((p : SchemaTemplate → Bool)
            → count_if p (Postgres.find_in_theme slug order tid theme (run_postgres cs db))
              ≡ count_if p (Templates.find_in_theme tid theme (run_memory cs (stands_for slug db))))
  unfolding run_postgres run_memory
  runs_agree order [] db tid k theme o h f =
      (get-stands_for slug tid k db, λ p. find_in_theme-stands_for slug order tid theme db p o f)
  runs_agree order (c ∷ cs) db tid k theme o h f =
      rw (← call-stands_for c db h.0 f)
        (runs_agree order cs (in_postgres c db) tid k theme o h.1 (call-IsFaithful c db h.0 f))

-- Seeding. A row is there, for a tenant and a key, after an upsert exactly if it was there or is
-- the new one.
abbrev pub HasRow : String → String → List TemplateRow → Type 0
HasRow tid k rs = find_row tid k rs ≢ none

HasRow-upsert :
    (tid k : String) (n : TemplateRow) (rs : List TemplateRow)
    → HasRow tid k rs
    → HasRow tid k (upsert_template n rs)
unfolding upsert_template
HasRow-upsert tid k n [] h e = h refl
HasRow-upsert tid k n (r ∷ rs) h e = elim (Bool-cases (row_is tid k r)) [
  | inl a ↦ ground arith
  | inr a ↦ elim (Bool-cases (row_is n.tenant_id n.fingerprint_key r)) [
    | inl b ↦ ground arith
    | inr b ↦ HasRow-upsert tid k n rs (λ x. h (ground arith)) (ground arith)
  ]
]

HasRow-upsert_self :
    (n : TemplateRow) (rs : List TemplateRow)
    → HasRow n.tenant_id n.fingerprint_key (upsert_template n rs)
unfolding upsert_template
HasRow-upsert_self n [] e =
    ground (arith, ==_iff n.tenant_id n.tenant_id, ==_iff n.fingerprint_key n.fingerprint_key)
HasRow-upsert_self n (r ∷ rs) e = elim (Bool-cases (row_is n.tenant_id n.fingerprint_key r)) [
  | inl b ↦ ground arith
  | inr b ↦ HasRow-upsert_self n rs (ground arith)
]

HasRow-save :
    (tid k tid' : String) (t : SchemaTemplate) (db : TemplateTables)
    → HasRow tid k db.schema_templates
    → HasRow tid k (Postgres.save tid' t db).schema_templates
unfolding Postgres.save
HasRow-save tid k tid' t db h = HasRow-upsert tid k _ db.schema_templates h

HasRow-save_self :
    (tid : String) (t : SchemaTemplate) (db : TemplateTables)
    → HasRow tid t.fingerprint_key (Postgres.save tid t db).schema_templates
unfolding Postgres.save
HasRow-save_self tid t db =
    let v = Postgres.row_version (find_row tid t.fingerprint_key db.schema_templates) in
    subst (λ k. HasRow tid k (Postgres.save tid t db).schema_templates) (key-next_version v t)
      (HasRow-upsert_self (row_of tid (next_version v t)) db.schema_templates)

module _ (slug : String → String) where
  missing_row :
      (k : String) (db : TemplateTables)
      → Postgres.get slug "*" k db ≡ none
      → find_row "*" k db.schema_templates ≡ none
  unfolding Postgres.get
  missing_row k db h = ground (arith, tenant_rows slug "*" k db.schema_templates)

  found_row :
      (k : String) (db : TemplateTables)
      → find_row "*" k db.schema_templates ≡ none
      → Postgres.get slug "*" k db ≡ none
  unfolding Postgres.get
  found_row k db h = ground (
    arith,
    tenant_rows slug "*" k db.schema_templates,
    global_rows slug "*" k db.schema_templates h,
  )

  HasRow-seeded :
      (k : String) (ts : List SchemaTemplate) (db : TemplateTables)
      → HasRow "*" k db.schema_templates
      → HasRow "*" k (ensure_seeded slug ts db).schema_templates
  unfolding ensure_seeded
  HasRow-seeded k [] db h = h
  HasRow-seeded k (t ∷ ts) db h =
      HasRow-seeded k ts _ (one (Postgres.get slug "*" t.fingerprint_key db))
    where
      one : (o : Option SchemaTemplate) → HasRow "*" k (seed_one o t db).schema_templates
      one none = HasRow-save "*" k "*" t db h
      one (some u) = h

  seeds_present :
      (ts : List SchemaTemplate) (db : TemplateTables)
      → All (λ t. HasRow "*" t.fingerprint_key (ensure_seeded slug ts db).schema_templates) ts
  unfolding ensure_seeded
  seeds_present [] db = tt
  seeds_present (t ∷ ts) db = (
    HasRow-seeded t.fingerprint_key ts _ (one (Postgres.get slug "*" t.fingerprint_key db) refl),
    seeds_present ts _,
  )
    where
      one :
          (o : Option SchemaTemplate)
          → Postgres.get slug "*" t.fingerprint_key db ≡ o
          → HasRow "*" t.fingerprint_key (seed_one o t db).schema_templates
      one none e = HasRow-save_self "*" t db
      one (some u) e = λ n. ground (arith, found_row t.fingerprint_key db)

  seeded_again :
      (ts : List SchemaTemplate) (db : TemplateTables)
      → All (λ t. HasRow "*" t.fingerprint_key db.schema_templates) ts
      → ensure_seeded slug ts db ≡ db
  unfolding ensure_seeded
  seeded_again [] db h = refl
  seeded_again (t ∷ ts) db h = elim (Option-cases (Postgres.get slug "*" t.fingerprint_key db)) [
    | inl e ↦ absurd (h.0 (missing_row t.fingerprint_key db e))
    | inr (u, e) ↦ rw e (seeded_again ts db h.1)
  ]

  -- Seeding again changes nothing, whatever the seeds and the tables, and after a seeding every
  -- seed has a global row.
  pub ensure_seeded_idem :
      (ts : List SchemaTemplate) (db : TemplateTables)
      → (ensure_seeded slug ts (ensure_seeded slug ts db) ≡ ensure_seeded slug ts db)
        × All (λ t. HasRow "*" t.fingerprint_key (ensure_seeded slug ts db).schema_templates) ts
  ensure_seeded_idem ts db =
      (seeded_again ts (ensure_seeded slug ts db) (seeds_present ts db), seeds_present ts db)
