-- ===== src/Queue/Claim.antt =====
-- What the claim function of migration 0007 promises to the workers: which row it hands out.
use smart_pdf_extractor.Prelude.{
  ℕ, ◌≤◌, String, ◌≡◌, Bool, true, false, ◌&&◌, not, none, some, arith, ◌==◌, string_eq, All,
  get_elem?, Option-cases, inl, inr,
}
use smart_pdf_extractor.Queue.{Job, Tables, update_where, eligible, pick, start, claim_next_job}
use smart_pdf_extractor.Queue.Lemmas.{pick_holds, pick-get_elem?, pick-eq-none, pick_earliest}

-- The rows that a claim may take: eligible, and not held by another transaction.
abbrev pub claimable : (Job → Bool) → ℕ → ℕ → Job → Bool
claimable locked stale now j = eligible stale now j && not (locked j)

-- `j` is the row of the table that has waited longest among those a claim may take.
pub record IsNext (locked : Job → Bool) (stale now : ℕ) (db : Tables) (j : Job) : Type 0 where
  pub place : ℕ
  pub stored : get_elem? db.jobs place ≡ some j
  pub takes : claimable locked stale now j ≡ true
  pub earliest :
      All (λ k. claimable locked stale now k ≡ true → j.available_at ≤ k.available_at) db.jobs

-- The tables after `j` was claimed: its row is started, and nothing else changes.
abbrev pub after_claim : String → ℕ → Job → Tables → Tables
after_claim worker now j db = record db {
  jobs = update_where (λ k. k.job_id == j.job_id) (start worker now) db.jobs;
}

module _ (locked : Job → Bool) (worker : String) (stale now : ℕ) (db : Tables) where
  -- A claim that returns a row returns the eligible, unlocked row that has been available longest,
  -- as started by this worker, and changes only the rows with its id.
  pub claim-IsNext :
      (r : Job) (db' : Tables)
      → claim_next_job locked worker stale now db ≡ (some r, db')
      → (j : Job) × IsNext locked stale now db j
        × (r ≡ start worker now j)
        × (db' ≡ after_claim worker now j db)
  unfolding claim_next_job
  claim-IsNext r db' h = elim (Option-cases (pick (claimable locked stale now) db.jobs)) [
    | inl e ↦ absurd (ground arith)
    | inr (j, e) ↦
        let (i, at) = pick-get_elem? (claimable locked stale now) db.jobs j e in
        let next : IsNext locked stale now db j = record {
          place = i;
          stored = at;
          takes = pick_holds (claimable locked stale now) db.jobs j e;
          earliest = pick_earliest (claimable locked stale now) db.jobs j e;
        } in
        (j, next, ground arith, ground arith)
  ]

  -- A claim returns no row only if no row may be taken, and then the tables stay as they are.
  pub claim_idle :
      (db' : Tables)
      → claim_next_job locked worker stale now db ≡ (none, db')
      → All (λ j. claimable locked stale now j ≡ false) db.jobs × (db' ≡ db)
  unfolding claim_next_job
  claim_idle db' h = elim (Option-cases (pick (claimable locked stale now) db.jobs)) [
    | inl e ↦ (pick-eq-none (claimable locked stale now) db.jobs e, ground arith)
    | inr (j, e) ↦ absurd (ground arith)
  ]
