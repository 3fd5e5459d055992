-- ===== src/Security/Tests.antt =====
-- Runs of the rate limiter.
use Prim.Native.Nat.{min}
use email_security_gateway.Prelude.{ℕ, ◌≡◌, refl, List, [], ◌∷◌, arith}
use email_security_gateway.Text.{Str, str, str_beq}
use email_security_gateway.Text.Decimal.{read_int}
use email_security_gateway.Int.{◌+ℤ◌}
use email_security_gateway.Storage.{is_live, incr}
use email_security_gateway.Dict
use email_security_gateway.Storage.Interface.{in_memory}
use email_security_gateway.Security.RateLimit.{RateLimiter, check, admitted}
use email_security_gateway.Security.RateLimit.Window.{window_admits, admitted_of, requests_of}

abbrev limiter : RateLimiter
limiter = record { max_requests = 2; window_seconds = 60; key_prefix = str "rl" }

-- Four requests, of which three are of one address.
abbrev requests : List (ℕ × Str)
requests = (12, str "b") ∷ (20, str "a") ∷ (59, str "a") ∷ []

window_admits_example :
    admitted_of in_memory limiter (str "a") ((10, str "a") ∷ requests) []
    ≡ min (requests_of (str "a") ((10, str "a") ∷ requests)) 2
unfolding is_live Dict.get
window_admits_example =
    window_admits in_memory limiter 10 (str "a") requests [] refl (omega arith)
      ((λ e. omega arith), ((λ e. omega arith), ((λ e. omega arith), tt)))

second_is_admitted :
    (check in_memory limiter 11 (str "a") (check in_memory limiter 10 (str "a") []).1).0 ≡ admitted
unfolding check is_live incr Dict.get Dict.put str_beq read_int ◌+ℤ◌
second_is_admitted = refl
