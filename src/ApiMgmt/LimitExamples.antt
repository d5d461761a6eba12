-- ===== src/ApiMgmt/LimitExamples.antt =====
-- The theorems on the rate limiter at a counter in memory and at one that is down.
use rago_desk.Base.{ℕ, true, ◌+◌, ◌-◌, ◌≡◌, refl, none, some, [], leb, if◌then◌else◌, codes, pos}
use rago_desk.ApiMgmt.Types.{ApiKey}
use rago_desk.ApiMgmt.Limits.{RateLimiter}
use rago_desk.ApiMgmt.Quotas.{Counts, successes, successes-exact}

-- The world is the count of the one key.
abbrev limiter : RateLimiter ℕ
limiter = record {
  client = record {
    incr = λ k w. (some (w + 1), w + 1);
    expire = λ k ttl w. w;
    now = λ w. (0, w);
    second = λ t. [];
    day = λ t. [];
  };
  tenant_qps_limit = pos 2;
  tenant_quota_daily = pos 0;
}

abbrev unreachable : RateLimiter ℕ
unreachable = record limiter { client = record (limiter.client) { incr = λ k w. (none, w) } }

abbrev counts : Counts limiter.client (codes "k")
counts = record { counted = λ w. w; answered = λ w. refl; added = λ w. refl; kept = λ ttl w. refl }

abbrev small_key : ApiKey
small_key = record {
  id = codes "k1";
  tenant_id = codes "t1";
  bot_id = codes "b1";
  name = [];
  key_hash = [];
  public_chat_id = [];
  public_chat_enabled = true;
  api_versions = [];
  scopes = [];
  status = [];
  rotated_from = [];
  quota_daily = pos 1;
  qps_limit = pos 1;
  created_at = 0;
  last_used_at = 0;
}

successes-exact_example :
    successes limiter (codes "k") (codes "API_QPS_LIMIT") 3 10 5 1
    ≡ (if leb 5 (3 - 1) then 5 else 3 - 1)
successes-exact_example =
    successes-exact limiter (codes "k") (codes "API_QPS_LIMIT") 3 10 counts 5 1 refl
