-- ===== src/Chunked/Coverage.antt =====
-- What the sliding windows of pdf_ingestion/pipeline/vlm/chunked_extractor.py hold: every page,
-- in few windows of bounded size.
use smart_pdf_extractor.Prelude.{
  ℕ, zero, suc, ◌+◌, ◌-◌, ◌*◌, ◌≤◌, ◌<◌, String, ◌≡◌, refl, sym, subst, ap, ◌∙◌, ◌⊎◌, inl, inr,
  List, [], ◌∷◌, min, ltb, leb, ltb→lt, leb→le, drop, length, arith, All, Some, get_elem?,
  get_elem?-take, get_elem?-drop, length-take-drop, Bool-cases,
}
use smart_pdf_extractor.Chunked.Windows.{
  PageWindow, WindowConfig, num_pages, step_of, window_at, sliding, create_sliding_windows,
}

-- A window that has this page, in its place.
abbrev pub HoldsPage : List String → ℕ → PageWindow → Type 0
HoldsPage pages i w =
    (w.start_page ≤ i + 1)
    × (i + 1 ≤ w.end_page)
    × (get_elem? w.page_texts (i + 1 - w.start_page) ≡ get_elem? pages i)

window_at-HoldsPage :
    (config : WindowConfig) (pages : List String) (start i : ℕ)
    → start ≤ i
    → i < start + config.window_size
    → i < length pages
    → HoldsPage pages i (window_at config pages start)
window_at-HoldsPage config pages start i a b c =
    let stop = min (start + config.window_size) (length pages) in
    (
      omega (arith, a),
      ground (arith, b, c),
      get_elem?-take (stop - start) (i + 1 - (start + 1)) (drop start pages)
            (ground (arith, a, b, c))
          ∙ get_elem?-drop start (i + 1 - (start + 1)) pages
          ∙ ap (get_elem? pages) (omega (arith, a)),
    )

-- The three ways out of a round.
sliding_end :
    (fuel : ℕ) (config : WindowConfig) (pages : List String) (start : ℕ)
    → length pages ≤ start
    → sliding fuel config pages start ≡ []
unfolding sliding
sliding_end zero config pages start h = refl
sliding_end (suc fuel) config pages start h = ground arith

sliding_last :
    (fuel : ℕ) (config : WindowConfig) (pages : List String) (start : ℕ)
    → start < length pages
    → length pages ≤ start + config.window_size
    → sliding (suc fuel) config pages start ≡ window_at config pages start ∷ []
unfolding sliding
sliding_last fuel config pages start h l = ground arith

sliding_next :
    (fuel : ℕ) (config : WindowConfig) (pages : List String) (start : ℕ)
    → start + config.window_size < length pages
    → sliding (suc fuel) config pages start
      ≡ window_at config pages start ∷ sliding fuel config pages (start + step_of config)
unfolding sliding
sliding_next fuel config pages start l = ground arith

step_positive : (config : WindowConfig) → 0 < step_of config
step_positive config = ground arith

step_bound : (config : WindowConfig) → 0 < config.window_size → step_of config ≤ config.window_size
step_bound config h = ground arith

sliding-suc :
    (f g : ℕ) (config : WindowConfig) (pages : List String) (start : ℕ)
    → sliding f config pages (start + step_of config)
      ≡ sliding g config pages (start + step_of config)
    → sliding (suc f) config pages start ≡ sliding (suc g) config pages start
unfolding sliding
sliding-suc f g config pages start h = ground (arith, h)

-- The loop of the windows ends by itself: fuel that is enough for the pages that are left gives
-- the same windows whatever its amount.
pub sliding_fuel :
    (f g : ℕ) (config : WindowConfig) (pages : List String) (start : ℕ)
    → length pages ≤ start + f
    → length pages ≤ start + g
    → sliding f config pages start ≡ sliding g config pages start
unfolding sliding
sliding_fuel zero g config pages start a b =
    sym (sliding_end g config pages start (omega (arith, a)))
sliding_fuel (suc f) zero config pages start a b =
    sliding_end (suc f) config pages start (omega (arith, b))
sliding_fuel (suc f) (suc g) config pages start a b =
    let p = step_positive config in
    let later =
      sliding_fuel f g config pages (start + step_of config) (omega (arith, a, p))
        (omega (arith, b, p)) in
    sliding-suc f g config pages start later

sliding-HoldsPage :
    (fuel : ℕ) (config : WindowConfig) (pages : List String) (start i : ℕ)
    → 0 < config.window_size
    → start ≤ i
    → i < length pages
    → length pages ≤ start + fuel
    → Some (HoldsPage pages i) (sliding fuel config pages start)
sliding-HoldsPage zero config pages start i z a b f = absurd (omega (arith, a, b, f))
sliding-HoldsPage (suc fuel) config pages start i z a b f =
    let size = config.window_size in
    elim (Bool-cases (leb (length pages) (start + size))) [
      | inl e ↦
          let l = leb→le _ _ e in
          rw (sliding_last fuel config pages start (omega (arith, a, b)) l)
            (inl (window_at-HoldsPage config pages start i a (omega (arith, b, l)) b))
      | inr e ↦
          let l : start + size < length pages = ground (arith, e) in
          rw (sliding_next fuel config pages start l) (elim (Bool-cases (ltb i (start + size))) [
            | inl n ↦ inl (window_at-HoldsPage config pages start i a (ltb→lt _ _ n) b)
            | inr n ↦
                let g : start + size ≤ i = ground (arith, n) in
                let s = step_bound config z in
                let p = step_positive config in
                inr (
                  sliding-HoldsPage fuel config pages (start + step_of config) i z
                    (omega (arith, g, s)) b (omega (arith, f, p)))
          ])
    ]

-- Windows of at least one page hold every page of the document, each in its place.
pub create_sliding_windows-HoldsPage :
    (pages : List String) (config : WindowConfig) (i : ℕ)
    → 0 < config.window_size
    → i < length pages
    → Some (HoldsPage pages i) (create_sliding_windows pages config)
unfolding create_sliding_windows
create_sliding_windows-HoldsPage pages config i z b =
    sliding-HoldsPage (length pages) config pages 0 i z (omega arith) b (omega arith)

-- A window of the document's pages, no more than allowed, with as many texts as it has numbers.
abbrev pub IsWindowOf : List String → WindowConfig → PageWindow → Type 0
IsWindowOf pages config w =
    (0 < w.start_page)
    × (w.end_page ≤ length pages)
    × (num_pages w ≤ config.window_size)
    × (length w.page_texts ≡ num_pages w)

window_at-IsWindowOf :
    (config : WindowConfig) (pages : List String) (start : ℕ)
    → start < length pages
    → IsWindowOf pages config (window_at config pages start)
window_at-IsWindowOf config pages start h =
    let stop = min (start + config.window_size) (length pages) in
    (
      omega arith,
      ground arith,
      ground arith,
      length-take-drop (stop - start) start pages (ground (arith, h)) ∙ omega arith,
    )

sliding-IsWindowOf :
    (fuel : ℕ) (config : WindowConfig) (pages : List String) (start : ℕ)
    → All (IsWindowOf pages config) (sliding fuel config pages start)
unfolding sliding
sliding-IsWindowOf zero config pages start = tt
sliding-IsWindowOf (suc fuel) config pages start = ground (
  arith,
  sliding-IsWindowOf fuel config pages (start + step_of config),
  window_at-IsWindowOf config pages start,
)

-- One window, or so few of this step that the last one's own pages lie within the document.
abbrev pub IsFew : (len step overlap start n : ℕ) → Type 0
IsFew len step overlap start n = (n ≤ 1) ⊎ (start + (n - 1) * step + overlap < len)

suc-IsFew :
    (len step overlap start n : ℕ)
    → start + step + overlap < len
    → IsFew len step overlap (start + step) n
    → IsFew len step overlap start (suc n)
suc-IsFew len step overlap start zero l h = inl (omega arith)
suc-IsFew len step overlap start (suc zero) l h = inr (omega (arith, l))
suc-IsFew len step overlap start (suc (suc n)) l (inl h) = absurd (omega (arith, h))
suc-IsFew len step overlap start (suc (suc n)) l (inr h) =
    let longer : (suc (suc (suc n)) - 1) * step ≡ (n + 2) * step =
      ap (λ k. k * step) (omega arith) in
    let shorter : (suc (suc n) - 1) * step ≡ (n + 1) * step = ap (λ k. k * step) (omega arith) in
    inr (omega (arith, h, longer, shorter))

sliding-IsFew :
    (fuel : ℕ) (config : WindowConfig) (pages : List String) (start : ℕ)
    → config.overlap < config.window_size
    → IsFew
        (length pages)
        (config.window_size - config.overlap)
        config.overlap
        start
        (length (sliding fuel config pages start))
unfolding sliding
sliding-IsFew zero config pages start o = inl (omega arith)
sliding-IsFew (suc fuel) config pages start o =
    let size = config.window_size in
    let overlap = config.overlap in
    elim (Bool-cases (leb (length pages) (start + size))) [
      | inl e ↦ inl (ground (arith, e))
      | inr e ↦
          let l : start + size < length pages = ground (arith, e) in
          let more = length (sliding fuel config pages (start + step_of config)) in
          let step : step_of config ≡ size - overlap = ground (arith, o) in
          rw (sliding_next fuel config pages start l) (
            suc-IsFew (length pages) (size - overlap) overlap start more (omega (arith, l, o)) (
              subst (λ s. IsFew (length pages) (size - overlap) overlap (start + s) more) step
                (sliding-IsFew fuel config pages (start + step_of config) o)))
    ]

-- No window too many: of more than one window, the last starts before the document ends, even
-- when its overlap with the one before is left aside.
pub create_sliding_windows-IsFew :
    (pages : List String) (config : WindowConfig)
    → config.overlap < config.window_size
    → IsFew
        (length pages)
        (config.window_size - config.overlap)
        config.overlap
        0
        (length (create_sliding_windows pages config))
unfolding create_sliding_windows
create_sliding_windows-IsFew pages config o = sliding-IsFew (length pages) config pages 0 o

-- Every window holds pages of the document, no more than allowed, and as many texts as page numbers.
pub create_sliding_windows-IsWindowOf :
    (pages : List String) (config : WindowConfig)
    → All (IsWindowOf pages config) (create_sliding_windows pages config)
unfolding create_sliding_windows
create_sliding_windows-IsWindowOf pages config = sliding-IsWindowOf (length pages) config pages 0
