-- ===== src/Main/Journal/Served.antt =====
-- Where the metrics are served (main.go, config.go).
use damon.Prelude.{
  arith, Bool, ◌||◌, if◌then◌else◌, ◌↔◌, ◌≡◌, refl, ap, ◌∙◌, true, false, String, none, some,
}
use damon.Host.{Host, is_set}
use damon.Config.{listen_address, metrics_endpoint}
use damon.Log.Writer.{Logger}
use damon.Main.Journal.{Serving, serving}

chosen-is_set : (x y : String) → is_set (if is_set x then x else y) ≡ (is_set x || is_set y)
chosen-is_set x y = of (is_set x) refl
  where
    of : (b : Bool) → is_set x ≡ b → is_set (if b then x else y) ≡ (b || is_set y)
    of true e = e
    of false e = refl

listen_address-is_set :
    (P : Host)
    → is_set (listen_address P)
      ≡ (is_set (P.getenv "DAMON_ADDR") || (is_set (P.getenv "NOMAD_ADDR_damon") || false))
unfolding listen_address
listen_address-is_set P =
    let second = P.getenv "NOMAD_ADDR_damon" in
    chosen-is_set (P.getenv "DAMON_ADDR") (if is_set second then second else "")
    ∙ ap (λ (b : Bool). is_set (P.getenv "DAMON_ADDR") || b) (chosen-is_set second "")

metrics_endpoint-is_set :
    (P : Host) → is_set (metrics_endpoint P) ≡ (is_set (P.getenv "DAMON_METRICS_ENDPOINT") || true)
unfolding metrics_endpoint
metrics_endpoint-is_set P = chosen-is_set (P.getenv "DAMON_METRICS_ENDPOINT") "/metrics"

-- The metrics are served exactly if one of the two variables gives an address, and then under an endpoint
-- that is not empty.
pub serving-is_set :
    (P : Host) (l : Logger)
    → ((serving P l ≡ none) ↔ (
        (is_set (P.getenv "DAMON_ADDR") ≡ false) × (is_set (P.getenv "NOMAD_ADDR_damon") ≡ false)))
      × ((s : Serving) → serving P l ≡ some s → (is_set s.addr ≡ true) × (is_set s.endpoint ≡ true))
unfolding serving
serving-is_set P l = (
  ground (arith, listen_address-is_set P),
  λ s h. ground (arith, listen_address-is_set P, metrics_endpoint-is_set P),
)
