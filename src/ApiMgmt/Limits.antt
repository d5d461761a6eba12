-- ===== src/ApiMgmt/Limits.antt =====
-- The rate limiter of apps/server/internal/apimgmt/data/apimgmt.go. Redis is a parameter.
use rago_desk.Base.{
  ℕ, Bool, not, Option, none, some, ◌++◌, ◌==◌, nat_eq, if◌then◌else◌, null, Text, codes, Error,
  Result, ok, err, Exec, pure, ◌>>◌, ℤ, pos, ltℤ, leℤ,
}
use rago_desk.ApiMgmt.Types.{ApiKey, Time}

-- INCR (`none` where it fails), EXPIRE, whose errors are dropped, the clock, and the two formats of
-- a time: to the second, and to the day.
pub record LimitClient (W : Type 0) : Type 0 where
  pub incr : Text → W → Option ℕ × W
  pub expire : Text → Time → W → W
  pub now : W → Time × W
  pub second : Time → Text
  pub day : Time → Text

pub record RateLimiter (W : Type 0) : Type 0 where
  pub client : LimitClient W
  pub tenant_qps_limit : ℤ
  pub tenant_quota_daily : ℤ

abbrev pub too_many : Text → Error
too_many code = record { code = 429; reason = code }

module _ {W : Type 0} (l : RateLimiter W) where
  -- What is made of a count.
  unfoldable pub judge : Text → ℤ → Time → Text → Option ℕ → W → Result (Unit {0}) × W
  judge key limit ttl code none w = (ok tt, w)
  judge key limit ttl code (some count) w =
      let w' = if count == 1 then l.client.expire key ttl w else w in
      (if ltℤ limit (pos count) then err (too_many code) else ok tt, w')

  unfoldable pub check_limit_count : Text → ℤ → Time → Text → Exec W (Unit {0})
  check_limit_count key limit ttl code w =
      let (count, w') = l.client.incr key w in
      if leℤ limit (pos 0) then (ok tt, w) else judge key limit ttl code count w'

  unfoldable pub check_tenant : Bool → Exec W (Unit {0}) → Exec W (Unit {0})
  check_tenant named check = if named then check else pure tt

  unfoldable pub key_qps : ApiKey → Text → Exec W (Unit {0})
  key_qps key second =
      check_limit_count (codes "ragodesk:qps:key:" ++ key.id ++ codes ":" ++ second) key.qps_limit
        2000000000 (codes "API_QPS_LIMIT")

  unfoldable pub tenant_qps : ApiKey → Text → Exec W (Unit {0})
  tenant_qps key second = check_tenant (not (null key.tenant_id)) (
      check_limit_count (codes "ragodesk:qps:tenant:" ++ key.tenant_id ++ codes ":" ++ second)
        l.tenant_qps_limit 2000000000 (codes "API_TENANT_QPS_LIMIT"))

  unfoldable pub key_quota : ApiKey → Text → Exec W (Unit {0})
  key_quota key day =
      check_limit_count (codes "ragodesk:quota:key:" ++ key.id ++ codes ":" ++ day) key.quota_daily
        172800000000000 (codes "API_QUOTA_LIMIT")

  unfoldable pub tenant_quota : ApiKey → Text → Exec W (Unit {0})
  tenant_quota key day = check_tenant (not (null key.tenant_id)) (
      check_limit_count (codes "ragodesk:quota:tenant:" ++ key.tenant_id ++ codes ":" ++ day)
        l.tenant_quota_daily 172800000000000 (codes "API_TENANT_QUOTA_LIMIT"))

  -- The four counters, in order; the first one that is over its limit ends the check.
  unfoldable pub check : ApiKey → Exec W (Unit {0})
  check key w =
      let (now, w') = l.client.now w in
      let second = l.client.second now in
      let day = l.client.day now in
      (key_qps key second >> (tenant_qps key second >> (key_quota key day >> tenant_quota key day)))
        w'
