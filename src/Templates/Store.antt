-- ===== src/Templates/Store.antt =====
-- What the in-memory store of pdf_ingestion/pipeline/schemas/template_store.py promises: a saved
-- template is found, a quarantined one is hidden from its tenant only, tenants do not meet.
use smart_pdf_extractor.Prelude.{
  String, ◌≡◌, ◌≢◌, refl, ◌∙◌, true, false, ◌&&◌, ◌||◌, not, some, List, [], ◌∷◌, ◌++◌, arith, ◌==◌,
  string_eq, pair_eq, ==_iff, any, select, All, Elem, Bool-cases, inl, inr,
}
use smart_pdf_extractor.Dict
use smart_pdf_extractor.Dict.{Dict, lookup-put}
use smart_pdf_extractor.Templates.{
  SchemaTemplate, Key, TemplateStore, get, is_quarantined, in_theme, templates_in, find_in_theme,
  quarantine, next_version, version_of, save,
}

-- Each template is stored under its own fingerprint.
abbrev pub KeysMatch : Dict Key SchemaTemplate → Type 0
KeysMatch d = All (λ e. e.0.1 ≡ e.1.fingerprint_key) d

-- Membership in a quarantine set, after an addition and after a removal.
any-snoc :
    (p k : Key) (q : List Key) → any (λ x. x == k) (q ++ p ∷ []) ≡ (any (λ x. x == k) q || p == k)
any-snoc p k [] = ground arith
any-snoc p k (x ∷ q) = ground (arith, any-snoc p k q)

pub is_quarantined-quarantine :
    (tid k tid' k' : String) (s : TemplateStore)
    → is_quarantined tid' k' (quarantine tid k s).quarantined
      ≡ (is_quarantined tid' k' s.quarantined || (tid == tid' && k == k'))
unfolding quarantine
is_quarantined-quarantine tid k tid' k' s = elim (Bool-cases (is_quarantined tid k s.quarantined)) [
  | inl e ↦ rw e (elim (Bool-cases (tid == tid' && k == k')) [
    | inl same ↦ ground (arith, ==_iff tid tid', ==_iff k k')
    | inr ne ↦ ground (arith)
  ])
  | inr e ↦ rw e (any-snoc (tid, k) (tid', k') s.quarantined)
]

any-select_self :
    (k : Key) (q : List Key) → any (λ x. x == k) (select (λ p. not (p == k)) q) ≡ false
any-select_self k [] = refl
any-select_self k (x ∷ q) = ground (arith, any-select_self k q)

any-select_ne :
    (k k' : Key) (q : List Key)
    → (k == k') ≡ false
    → any (λ x. x == k') (select (λ p. not (p == k)) q) ≡ any (λ x. x == k') q
any-select_ne k k' [] ne = refl
any-select_ne k k' (x ∷ q) ne =
    ground (arith, any-select_ne k k' q ne, ==_iff x k, ==_iff x k', ==_iff k k')

-- The template that `save` puts in the store.
abbrev pub saved : String → SchemaTemplate → TemplateStore → SchemaTemplate
saved tid t s = next_version (version_of (Dict.lookup (tid, t.fingerprint_key) s.store)) t

later-Elem :
    (tid theme : String) (q : List Key) (j : Key) (u t : SchemaTemplate)
    (d : Dict Key SchemaTemplate)
    → Elem t (templates_in tid theme q d)
    → Elem t (templates_in tid theme q ((j, u) ∷ d))
later-Elem tid theme q j u t d h = elim (Bool-cases (in_theme tid theme q j u)) [
  | inl e ↦ rw e (inr h)
  | inr e ↦ rw e h
]

theme-saved :
    (tid : String) (t : SchemaTemplate) (s : TemplateStore) → (saved tid t s).theme ≡ t.theme
theme-saved tid t s = ground arith

Elem-templates_in-put :
    (tid theme : String) (q : List Key) (k : Key) (t : SchemaTemplate) (d : Dict Key SchemaTemplate)
    → in_theme tid theme q k t ≡ true
    → Elem t (templates_in tid theme q (Dict.put k t d))
unfolding Dict.put
Elem-templates_in-put tid theme q k t [] h = rw h (inl refl)
Elem-templates_in-put tid theme q k t ((j, u) ∷ d) h = elim (Bool-cases (j == k)) [
  | inl e ↦ rw e (let same : j ≡ k = (==_iff j k).0 e in rw same (rw h (inl refl)))
  | inr e ↦ rw e (later (Elem-templates_in-put tid theme q k t d h))
]
  where
    later :
        Elem t (templates_in tid theme q (Dict.put k t d))
        → Elem t (templates_in tid theme q ((j, u) ∷ Dict.put k t d))
    later = later-Elem tid theme q j u t (Dict.put k t d)

-- A saved template is returned for its fingerprint and listed under its theme, with the version
-- after the one it replaces, whether or not the tenant had quarantined the fingerprint.
pub save_visible :
    (tid : String) (t : SchemaTemplate) (s : TemplateStore)
    → (get tid t.fingerprint_key (save tid t s) ≡ some (saved tid t s))
      × Elem (saved tid t s) (find_in_theme tid t.theme (save tid t s))
unfolding get save find_in_theme
save_visible tid t s = (
  ground (
    arith,
    lookup-put (tid, t.fingerprint_key) (tid, t.fingerprint_key) (saved tid t s) s.store,
    ==_iff {K = Key} (tid, t.fingerprint_key) (tid, t.fingerprint_key),
  ),
  Elem-templates_in-put tid t.theme _ (tid, t.fingerprint_key) (saved tid t s) s.store
      (ground (
        arith,
        ==_iff t.theme t.theme,
        ==_iff tid tid,
        theme-saved tid t s,
        any-select_self (tid, t.fingerprint_key) s.quarantined,
      )),
)

store-quarantine : (tid k : String) (s : TemplateStore) → (quarantine tid k s).store ≡ s.store
unfolding quarantine
store-quarantine tid k s = ground arith

hidden :
    (tid theme k : String) (q : List Key) (d : Dict Key SchemaTemplate)
    → is_quarantined tid k q ≡ true
    → KeysMatch d
    → All (λ t. t.fingerprint_key ≢ k) (templates_in tid theme q d)
hidden tid theme k q [] h m = tt
hidden tid theme k q ((j, u) ∷ d) h m = elim (Bool-cases (in_theme tid theme q j u)) [
  | inl e ↦ rw e ((λ same. ground (arith, m.0)), hidden tid theme k q d h m.1)
  | inr e ↦ rw e (hidden tid theme k q d h m.1)
]

-- Once a tenant has quarantined a fingerprint, no template of that fingerprint is listed for it
-- under any theme, where each template is stored under its own fingerprint.
pub quarantine_hides :
    (tid theme k : String) (s : TemplateStore)
    → KeysMatch s.store
    → All (λ t. t.fingerprint_key ≢ k) (find_in_theme tid theme (quarantine tid k s))
unfolding find_in_theme
quarantine_hides tid theme k s m = rw (store-quarantine tid k s) (
    hidden tid theme k (quarantine tid k s).quarantined s.store
      (ground (arith, is_quarantined-quarantine tid k tid k s, ==_iff tid tid, ==_iff k k)) m)

-- The listing reads a quarantine set only at its own tenant.
templates_in_same :
    (tid theme : String) (q q' : List Key) (d : Dict Key SchemaTemplate)
    → ((k : String) → is_quarantined tid k q ≡ is_quarantined tid k q')
    → templates_in tid theme q d ≡ templates_in tid theme q' d
templates_in_same tid theme q q' [] same = refl
templates_in_same tid theme q q' ((j, u) ∷ d) same =
    ground (arith, same j.1, templates_in_same tid theme q q' d same)

templates_in-put_ne :
    (tid theme owner k : String) (q : List Key) (t : SchemaTemplate) (d : Dict Key SchemaTemplate)
    → (owner == tid) ≡ false
    → (owner == "*") ≡ false
    → templates_in tid theme q (Dict.put (owner, k) t d) ≡ templates_in tid theme q d
unfolding Dict.put
templates_in-put_ne tid theme owner k q t [] a b = ground arith
templates_in-put_ne tid theme owner k q t ((j, u) ∷ d) a b =
    ground (arith, templates_in-put_ne tid theme owner k q t d a b, ==_iff j.0 owner, ==_iff j.1 k)

-- Quarantining and saving for one tenant, which is not the global one, change neither what another
-- tenant gets for any fingerprint nor what it is listed under any theme.
pub tenants_isolated :
    (tid tid' theme k k' : String) (t : SchemaTemplate) (s : TemplateStore)
    → tid ≢ tid'
    → tid ≢ "*"
    → (find_in_theme tid' theme (quarantine tid k s) ≡ find_in_theme tid' theme s)
      × (get tid' k' (quarantine tid k s) ≡ get tid' k' s)
      × (find_in_theme tid' theme (save tid t s) ≡ find_in_theme tid' theme s)
      × (get tid' k' (save tid t s) ≡ get tid' k' s)
unfolding find_in_theme get save
tenants_isolated tid tid' theme k k' t s ne glob =
    let ne' : (tid == tid') ≡ false = ground (arith, ==_iff tid tid') in
    let glob' : (tid == "*") ≡ false = ground (arith, ==_iff tid "*") in
    (
      rw (store-quarantine tid k s) (
          templates_in_same tid' theme (quarantine tid k s).quarantined s.quarantined s.store
            (λ j. ground (arith, is_quarantined-quarantine tid k tid' j s))),
      rw (store-quarantine tid k s),
      templates_in-put_ne tid' theme tid t.fingerprint_key _ (saved tid t s) s.store ne' glob'
          ∙ templates_in_same tid' theme _ s.quarantined s.store
              (λ j. any-select_ne (tid, t.fingerprint_key) (tid', j) s.quarantined (ground arith)),
      ground (
        arith,
        lookup-put (tid, t.fingerprint_key) (tid', k') (saved tid t s) s.store,
        lookup-put (tid, t.fingerprint_key) ("*", k') (saved tid t s) s.store,
      ),
    )
