-- ===== src/LocalApi/Guarding.antt =====
-- Which requests pass the middleware of internal/ipc/server.go.
use serverkit_agent.Base.{Bool, false, [], Text, codes, text_eq_iff, ◌≡◌, ◌≢◌, ◌↔◌, ◌⊎◌, arith}
use serverkit_agent.LocalApi.{
  ApiRequest, handled, bearer_token, auth_middleware, cors_middleware, serve,
}

-- With authentication, a request reaches the handlers exactly when it is no preflight, and is for /health or carries
-- the token of the server, which is not empty.
pub serve_iff :
    (equal_fold : Text → Text → Bool) (expected : Text) (r : ApiRequest)
    → ((serve equal_fold false expected r).served ≡ handled) ↔ (
        (r.method ≢ codes "OPTIONS")
        × ((r.path ≡ codes "/health") ⊎ ((bearer_token equal_fold r ≡ expected) × (expected ≢ []))))
unfolding serve cors_middleware auth_middleware
serve_iff equal_fold expected r = ground (
  arith,
  text_eq_iff r.method (codes "OPTIONS"),
  text_eq_iff r.path (codes "/health"),
  text_eq_iff (bearer_token equal_fold r) expected,
  text_eq_iff (bearer_token equal_fold r) [],
)
