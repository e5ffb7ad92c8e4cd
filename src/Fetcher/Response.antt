-- ===== src/Fetcher/Response.antt =====
-- What the fetcher takes for a page.
use habr_parser.Base.{◌≡◌, ◌≤◌, ◌<◌, Option, none, some, written}
use habr_parser.Fetcher.{HttpResponse, Transfer}

-- A transfer that gave a whole page with a status of success.
pub record Succeeded (o : Option Transfer) (r : HttpResponse) : Type 0 where
  pub transfer : Transfer
  pub happened : o ≡ some transfer
  pub no_failure : transfer.failure ≡ none
  pub status : (200 ≤ transfer.status) × (transfer.status < 300)
  pub body : r.body ≡ written transfer.chunks
