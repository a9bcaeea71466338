-- ===== src/Router/LearnOnce.antt =====
-- One discovery for many callers (_locked_discover of pdf_ingestion/pipeline/schemas/router.py
-- under the lock of learn_lock.py).
use smart_pdf_extractor.Prelude.{
  ℕ, ◌+◌, ◌≤◌, ◌<◌, ◌≡◌, ◌≢◌, refl, sym, subst, String, Option, none, some, List, [], ◌∷◌,
  string_eq, Text, All, Elem, ◌⊎◌, inl, inr, arith,
}
use smart_pdf_extractor.Assembler.Documents.{AssembledDocument}
use smart_pdf_extractor.Templates.{
  SchemaTemplate, TemplateStore, find_in_theme, save, next_version, version_of,
}
use smart_pdf_extractor.Dict
use smart_pdf_extractor.Dict.{Dict}
use smart_pdf_extractor.Templates.Store.{saved, save_visible, tenants_isolated}
use smart_pdf_extractor.Templates.Choice.{
  Extraction, extract, clean_score, try_theme_templates_best,
}
use smart_pdf_extractor.Router.Cascade.{Extractors, learned, Discovery, hit_of, discover_and_learn}
use smart_pdf_extractor.Router.LearnLock.{
  compute_layout_signature, Lock, free, entered, learning, LearnState, Moves, enter, reuse, miss,
  finish, fail, raise, save_elsewhere, quarantine_elsewhere, Run, stop, moved,
}

All-Elem : {A : Type 0} (P : A → Type 0) (a : A) (xs : List A) → Elem a xs → All P xs → P a
All-Elem P a [] at all = elim at [ ]
All-Elem P a (x ∷ xs) (inl same) all = subst P (sym same) all.0
All-Elem P a (x ∷ xs) (inr later) all = All-Elem P a xs later all.1

abbrev empty : String → SchemaTemplate
empty key = record {
  theme = "";
  document_type_label = "";
  institution = "";
  field_anchors = [];
  table_anchors = [];
  source = "";
  version = 0;
  fingerprint_key = key;
}

module _ (hexdigest : Text → Text) {Field Table Abstention : Type 0}
    (x : Extractors Field Table Abstention) (tid theme : String) (signature : Text) where
  -- A template that extracts something from each document of the layout, and abstains from nothing.
  abbrev pub Fits : SchemaTemplate → Type 0
  Fits t =
      (doc : AssembledDocument)
      → compute_layout_signature hexdigest doc (some theme) ≡ signature
      → 0
        < clean_score x.find_field x.extract_table_by_header
            (extract x.find_field x.extract_table_by_header t doc)

  -- The discovery extracts, and a template of the theme is made of it that fits.
  pub record IsUseful (d : Discovery Field Table Abstention) : Type 0 where
    pub name : String
    pub result : Extraction Field Table Abstention
    pub template : SchemaTemplate
    pub extracted : d.discovered ≡ inr (name, result)
    pub synthesised : d.synthesis ≡ learned template
    pub filed : template.theme ≡ theme
    pub fits : Fits template

  -- A template that fits is listed.
  abbrev pub Served : TemplateStore → Type 0
  Served s = (t : SchemaTemplate) × Elem t (find_in_theme tid theme s) × Fits t

  extract-next_version :
      (o : Option ℕ) (t : SchemaTemplate) (doc : AssembledDocument)
      → extract x.find_field x.extract_table_by_header (next_version o t) doc
        ≡ extract x.find_field x.extract_table_by_header t doc
  unfolding extract
  extract-next_version none t doc = refl
  extract-next_version (some v) t doc = refl

  Fits-saved : (t : SchemaTemplate) (s : TemplateStore) → Fits t → Fits (saved tid t s)
  Fits-saved t s fits doc h =
      rw (extract-next_version (version_of (Dict.lookup (tid, t.fingerprint_key) s.store)) t doc)
        (fits doc h)

  Served-hit :
      (doc : AssembledDocument) (s : TemplateStore)
      → compute_layout_signature hexdigest doc (some theme) ≡ signature
      → Served s
      → hit_of x doc (some theme) tid s ≢ none
  Served-hit doc s h (t, at, fits) missed =
      elim (try_theme_templates_best x.find_field x.extract_table_by_header doc theme s tid) [
        | inl (same, tops) ↦
            absurd (omega (arith, fits doc h, All-Elem _ t (find_in_theme tid theme s) at tops))
        | inr (p, is, picks) ↦ cc
      ]

  Served-learned :
      (s : TemplateStore) (d : Discovery Field Table Abstention)
      → IsUseful d
      → Served (discover_and_learn x (some theme) tid d s).template_store
  Served-learned s d u =
      rw (u.extracted, u.synthesised)
        (
          saved tid u.template s,
          subst (λ th. Elem (saved tid u.template s) (find_in_theme tid th (save tid u.template s)))
              u.filed (save_visible tid u.template s).1,
          Fits-saved u.template s u.fits,
        )

  abbrev Settled : LearnState → Type 0
  Settled u =
      (u.discoveries ≤ u.failures) ⊎ ((u.discoveries ≤ u.failures + 1) × Served u.template_store)

  abbrev Kept : Lock → LearnState → Type 0
  Kept free u = Settled u
  Kept (entered doc) u =
      (compute_layout_signature hexdigest doc (some theme) ≡ signature) × Settled u
  Kept (learning doc) u = u.discoveries ≤ u.failures + 1

  Settled-same :
      (s s' : TemplateStore) (l : Lock) (n f : ℕ)
      → find_in_theme tid theme s' ≡ find_in_theme tid theme s
      → Settled (record { lock = l; template_store = s; discoveries = n; failures = f })
      → Settled (record { lock = l; template_store = s'; discoveries = n; failures = f })
  Settled-same s s' l n f same (inl le) = inl le
  Settled-same s s' l n f same (inr (le, (t, at, fits))) =
      inr (le, (t, subst (Elem t) (sym same) at, fits))

  Kept-same :
      (l : Lock) (s s' : TemplateStore) (n f : ℕ)
      → find_in_theme tid theme s' ≡ find_in_theme tid theme s
      → Kept l (record { lock = l; template_store = s; discoveries = n; failures = f })
      → Kept l (record { lock = l; template_store = s'; discoveries = n; failures = f })
  Kept-same free s s' n f same k = Settled-same s s' free n f same k
  Kept-same (entered doc) s s' n f same k = (k.0, Settled-same s s' (entered doc) n f same k.1)
  Kept-same (learning doc) s s' n f same k = k

  Moves-Kept :
      (u v : LearnState)
      → Moves hexdigest x tid theme signature IsUseful u v
      → Kept u.lock u
      → Kept v.lock v
  Moves-Kept _ _ (enter doc s n f h) k = (h, k)
  Moves-Kept _ _ (reuse doc s n f hit h) k = k.1
  Moves-Kept _ _ (miss doc s n f h) k = elim k.1 [
    | inl le ↦ omega (arith, le)
    | inr (le, served) ↦ absurd (Served-hit doc s k.0 served h)
  ]
  Moves-Kept _ _ (finish doc s n f d u) k = inr (k, Served-learned s d u)
  Moves-Kept _ _ (fail doc s n f d) k = inl k
  Moves-Kept _ _ (raise doc s n f) k = inl k
  Moves-Kept _ _ (save_elsewhere lock s n f other t ne glob) k =
      Kept-same lock s _ n f (tenants_isolated other tid theme "" "" t s ne glob).2 k
  Moves-Kept _ _ (quarantine_elsewhere lock s n f other key ne glob) k =
      Kept-same lock s _ n f (tenants_isolated other tid theme key "" (empty key) s ne glob).0 k

  Run-Kept :
      (u v : LearnState)
      → Run hexdigest x tid theme signature IsUseful u v
      → Kept u.lock u
      → Kept v.lock v
  Run-Kept _ _ (stop u) k = k
  Run-Kept _ _ (moved u v w m run) k = Run-Kept v w run (Moves-Kept u v m k)

  Kept-count : (l : Lock) (u : LearnState) → Kept l u → u.discoveries ≤ u.failures + 1
  Kept-count free u (inl le) = omega (arith, le)
  Kept-count free u (inr (le, served)) = le
  Kept-count (entered doc) u (same, inl le) = omega (arith, le)
  Kept-count (entered doc) u (same, inr (le, served)) = le
  Kept-count (learning doc) u le = le

  -- However many callers of one tenant come with documents of one layout, and whatever other
  -- tenants save and quarantine meanwhile: the discovery is begun at most once more than it ended
  -- without use. It is of use if it extracts and a template of the theme is made of it that
  -- extracts something from each document of the layout and abstains from nothing.
  pub learn_once :
      (s : TemplateStore) (u : LearnState)
      → Run hexdigest x tid theme signature IsUseful
          (record { lock = free; template_store = s; discoveries = 0; failures = 0 })
          u
      → u.discoveries ≤ u.failures + 1
  learn_once s u run = Kept-count u.lock u (Run-Kept _ u run (inl (omega arith)))
