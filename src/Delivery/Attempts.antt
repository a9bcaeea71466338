-- ===== src/Delivery/Attempts.antt =====
-- How often and how long a delivery is tried (WebhookDeliveryClient.deliver of
-- pdf_ingestion/pipeline/delivery.py).
use smart_pdf_extractor.Prelude.{ℕ, suc, ◌+◌, Bool, List, [], ◌∷◌}
use smart_pdf_extractor.Delivery.{Reply, Action, post, sleep, result_of}

abbrev pub posts : List Action → ℕ
posts [] = 0
posts (post n ∷ actions) = suc (posts actions)
posts (sleep d ∷ actions) = posts actions

abbrev pub waited : List Action → ℕ
waited [] = 0
waited (post n ∷ actions) = waited actions
waited (sleep d ∷ actions) = d + waited actions

module _ (reply : ℕ → Reply) (jitter : ℕ → ℕ) where
  abbrev good : ℕ → Bool
  good attempt = (result_of attempt (reply attempt)).success
