-- ===== src/Submission/Duplicates.antt =====
-- A document that was submitted before (submit_extraction of pdf_ingestion/api/routes/extract.py with
-- pdf_ingestion/pipeline/dedup_store.py).
use smart_pdf_extractor.Prelude.{
  ℕ, String, ◌≡◌, ◌≢◌, ◌⊎◌, inl, inr, refl, ap, subst, ◌∙◌, Bool, true, false, none, some, List, [],
  ◌∷◌, arith, ==_iff, string_eq, All, Bool-cases, Option-cases,
}
use smart_pdf_extractor.Dict.{lookup-put, lookup-put_same, lookup-remove}
use smart_pdf_extractor.Submission.{
  DedupStore, Service, Upload, JobResponse, Faults, should_force, lookup_hash, store_hash,
  remove_hash, accept, existing, submit_extraction, background_failed,
}

-- A request to the route: what fails while it is served, the new job's id, its tenant, the time and the upload.
pub record Request : Type 0 where
  pub faults : Faults
  pub job_id : String
  pub tenant_id : String
  pub now : ℕ
  pub upload : Upload

pub data Event : Type 0 where
  served : Request → Event
  run_failed : (disk_raises : Bool) (doc_hash : String) → Event

module _ (sha256 : List ℕ → String) where
  abbrev pub submit : Request → Service → JobResponse × Service
  submit r s = submit_extraction sha256 r.faults r.job_id r.tenant_id r.now r.upload s

  -- What happens to the service: a request is served, or a run in the process ends in a failure.
  abbrev pub happen : Event → Service → Service
  happen (served r) s = (submit r s).1
  happen (run_failed disk_raises doc_hash) s = background_failed disk_raises doc_hash s

  abbrev pub happen_all : List Event → Service → Service
  happen_all [] s = s
  happen_all (v ∷ events) s = happen_all events (happen v s)

  -- A request that is processed anew: its document is not known, or the client forces it.
  abbrev pub IsNew : Request → Service → Type 0
  IsNew r s =
      (should_force r.upload.force_reprocess ≡ true)
      ⊎ (existing sha256 (lookup_hash (sha256 r.upload.file_bytes) s.dedup_store) ≡ none)

  abbrev KnownAs : String → String → Service → Type 0
  KnownAs h jid s = lookup_hash h s.dedup_store ≡ some jid

  accept-KnownAs :
      (r : Request) (s : Service)
      → KnownAs
          (sha256 r.upload.file_bytes)
          r.job_id
          (accept sha256 r.faults r.job_id r.tenant_id r.now r.upload s).1
  unfolding accept lookup_hash store_hash
  accept-KnownAs r s =
      ground (arith, lookup-put_same (sha256 r.upload.file_bytes) r.job_id s.dedup_store.cache)

  abbrev pub forgotten : Request → Service → Service
  forgotten r s = record s {
    dedup_store = remove_hash r.faults.disk_raises (sha256 r.upload.file_bytes) s.dedup_store;
  }

  submit-KnownAs :
      (r : Request) (s : Service)
      → IsNew r s
      → KnownAs (sha256 r.upload.file_bytes) r.job_id (submit r s).1
  unfolding submit_extraction
  submit-KnownAs r s (inl e) = simp e (accept-KnownAs r (forgotten r s))
  submit-KnownAs r s (inr e) = elim (Bool-cases (should_force r.upload.force_reprocess)) [
    | inl n ↦ simp n (accept-KnownAs r (forgotten r s))
    | inr n ↦ simp (n, e) (accept-KnownAs r s)
  ]

  -- A request that does not force this document anew, or the failure of another document.
  abbrev pub Spares : String → Event → Type 0
  Spares h (served r) =
      (should_force r.upload.force_reprocess ≡ false) ⊎ (sha256 r.upload.file_bytes ≢ h)
  Spares h (run_failed disk_raises doc_hash) = doc_hash ≢ h

  accept-kept :
      (h jid : String) (r : Request) (s : Service)
      → sha256 r.upload.file_bytes ≢ h
      → KnownAs h jid s
      → KnownAs h jid (accept sha256 r.faults r.job_id r.tenant_id r.now r.upload s).1
  unfolding accept lookup_hash store_hash
  accept-kept h jid r s n k = ground (
    arith,
    k,
    n,
    lookup-put (sha256 r.upload.file_bytes) h r.job_id s.dedup_store.cache,
    ==_iff (sha256 r.upload.file_bytes) h,
  )

  remove-kept :
      (h g jid : String) (disk_raises : Bool) (d : DedupStore)
      → g ≢ h
      → lookup_hash h d ≡ some jid
      → lookup_hash h (remove_hash disk_raises g d) ≡ some jid
  unfolding lookup_hash remove_hash
  remove-kept h g jid disk_raises d n k =
      ground (arith, k, n, lookup-remove g h d.cache, ==_iff g h)

  named : (jid : String) → jid ≢ "" → existing sha256 (some jid) ≡ some jid
  named jid m = ground (arith, m, ==_iff jid "")

  known_twice :
      (h g jid : String) (d : DedupStore)
      → jid ≢ ""
      → lookup_hash h d ≡ some jid
      → existing sha256 (lookup_hash g d) ≡ none
      → g ≢ h
  known_twice h g jid d m k e same =
      let none_there : existing sha256 (some jid) ≡ none =
        subst (λ o. existing sha256 o ≡ none) (ap (λ x. lookup_hash x d) same ∙ k) e in
      ground (arith, named jid m, none_there)

  submit-kept :
      (h jid : String) (r : Request) (s : Service)
      → jid ≢ ""
      → Spares h (served r)
      → KnownAs h jid s
      → KnownAs h jid (submit r s).1
  unfolding submit_extraction
  submit-kept h jid r s m p k =
      let g = sha256 r.upload.file_bytes in
      elim (Bool-cases (should_force r.upload.force_reprocess)) [
        | inl f ↦
            let other : g ≢ h = elim p [ inl n ↦ absurd (ground (arith, f, n)) | inr n ↦ n ] in
            simp f (
              accept-kept h jid r (forgotten r s) other
                (remove-kept h g jid r.faults.disk_raises s.dedup_store other k))
        | inr f ↦ elim (Option-cases (existing sha256 (lookup_hash g s.dedup_store))) [
          | inl e ↦ simp (f, e) (accept-kept h jid r s (known_twice h g jid s.dedup_store m k e) k)
          | inr (first, e) ↦ simp (f, e) k
        ]
      ]

  happen-kept :
      (h jid : String) (v : Event) (s : Service)
      → jid ≢ ""
      → Spares h v
      → KnownAs h jid s
      → KnownAs h jid (happen v s)
  unfolding background_failed
  happen-kept h jid (served r) s m p k = submit-kept h jid r s m p k
  happen-kept h jid (run_failed disk_raises g) s m p k =
      remove-kept h g jid disk_raises s.dedup_store p k

  happen_all-kept :
      (h jid : String) (events : List Event) (s : Service)
      → jid ≢ ""
      → All (Spares h) events
      → KnownAs h jid s
      → KnownAs h jid (happen_all events s)
  happen_all-kept h jid [] s m p k = k
  happen_all-kept h jid (v ∷ events) s m p k =
      happen_all-kept h jid events (happen v s) m p.1 (happen-kept h jid v s m p.0 k)

  -- A document is processed once, where requests are served one after the other: after it was
  -- processed anew under a job id that is not empty, and after whatever requests that do not force
  -- it anew and failures of runs in the process of other documents, a request with a document of
  -- the same hash that does not force it either, by whichever tenant, is answered as a duplicate
  -- with the first job's id and changes nothing.
  pub processed_once :
      (r : Request) (events : List Event) (again : Request) (s : Service)
      → r.job_id ≢ ""
      → IsNew r s
      → All (Spares (sha256 r.upload.file_bytes)) events
      → sha256 again.upload.file_bytes ≡ sha256 r.upload.file_bytes
      → should_force again.upload.force_reprocess ≡ false
      → let before = happen_all events (submit r s).1 in
        submit again before ≡ (record { job_id = r.job_id; status = "duplicate" }, before)
  unfolding submit_extraction
  processed_once r events again s m n p same f =
      let known =
        happen_all-kept (sha256 r.upload.file_bytes) r.job_id events (submit r s).1 m p
          (submit-KnownAs r s n) in
      simp (f, same, known, named r.job_id m) refl
