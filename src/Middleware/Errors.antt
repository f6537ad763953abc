-- ===== src/Middleware/Errors.antt =====
-- The error codes of the two providers in internal/server/provider_middleware.go: tokopediaErrorCode
-- and tokopediaError, shopeeErrorCode, and the status that idempotencyError writes.
use enterprise_integration_s.Common.{
  ℕ, ◌≤◌, ◌≡◌, ◌≢◌, ◌↔◌, ◌⊎◌, String, ◌&&◌, ◌||◌, str_eq, if◌then◌else◌, leb, ◌==◌, arith,
}

-- `tokopediaErrorCode`
unfoldable pub tokopedia_error_code : ℕ → String → ℕ
tokopedia_error_code status code =
    if status == 429
    then 429
    else if status == 401
    then 36000001
    else if leb 500 status
    then status
    else if str_eq code "INVALID_TRANSITION"
    then 36000003
    else 400

-- The status of `tokopediaError`.
unfoldable pub tokopedia_status : ℕ → ℕ
tokopedia_status code =
    if code == 429
    then 429
    else if code == 413
    then 413
    else if leb 500 code && leb code 599
    then code
    else if code == 36000001 || code == 36000002
    then 401
    else 400

-- `shopeeErrorCode`
unfoldable pub shopee_error_code : String → String
shopee_error_code code =
    if str_eq code "INVALID_TRANSITION"
    then "error_invalid_state"
    else if str_eq code "NOT_FOUND"
    then "error_not_found"
    else if str_eq code "INVALID_REQUEST"
        || str_eq code "INVALID_DATE"
        || str_eq code "INVALID_SORT"
        || str_eq code "INVALID_CURSOR"
    then "error_param"
    else "error_system"

-- The code of `idempotencyError` for a TOKOPEDIA_LIKE shop.
unfoldable pub idempotency_code : ℕ → ℕ
idempotency_code status = if leb 500 status then 50000 else 36000004

-- Every error that providerError writes for a TOKOPEDIA_LIKE shop has a status from 400 to 599, for
-- whichever error status it is given: 401, 429 and all from 500 on are kept, and any other is 400. So a
-- client error stays one, and a server error stays one.
pub tokopedia_status-tokopedia_error_code :
    (status : ℕ) (code : String)
    → 400 ≤ status
    → status ≤ 599
    → let written = tokopedia_status (tokopedia_error_code status code) in
      (400 ≤ written)
      × (written ≤ 599)
      × ((500 ≤ written) ↔ (500 ≤ status))
      × ((status ≡ 401) ⊎ ((status ≡ 429) ⊎ (500 ≤ status)) → written ≡ status)
      × (status ≢ 401 → status ≢ 429 → status ≤ 499 → written ≡ 400)
unfolding tokopedia_status tokopedia_error_code
tokopedia_status-tokopedia_error_code status code low high = ground arith
