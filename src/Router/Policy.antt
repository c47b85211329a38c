-- ===== src/Router/Policy.antt =====
-- cea/router.ts: the release policy, the circuit breaker and the fallback from PAUL.
use soqtec.Base.{Option, List, [], ◌∷◌, Text}
use soqtec.Router.{ReleaseRecord}

abbrev pub release_ids : List ReleaseRecord → List (Option Text)
release_ids [] = []
release_ids (r ∷ rs) = r.release_tx_id ∷ release_ids rs
