-- ===== src/ApiMgmt/Quotas.antt =====
-- How many requests a limit lets through.
use rago_desk.Base.{
  ℕ, zero, suc, ◌+◌, ◌-◌, ◌≡◌, refl, ◌∙◌, inl, inr, Bool, true, false, none, some, leb, nat_eq,
  if◌then◌else◌, Text, Exec, ◌>>◌, Result, ok, err, arith, Bool-cases, ℤ, pos, leℤ,
}
use rago_desk.ApiMgmt.Types.{ApiKey, Time}
use rago_desk.ApiMgmt.Limits.{
  LimitClient, RateLimiter, judge, check_limit_count, check_tenant, key_qps, tenant_qps, key_quota,
  tenant_quota, check,
}

-- What Redis promises of a counter that does not expire in between: INCR adds one and answers the
-- count.
pub record Counts {W : Type 0} (client : LimitClient W) (key : Text) : Type 0 where
  pub counted : W → ℕ
  pub answered : (w : W) → (client.incr key w).0 ≡ some (counted w + 1)
  pub added : (w : W) → counted (client.incr key w).1 ≡ counted w + 1
  pub kept : (ttl : Time) (w : W) → counted (client.expire key ttl w) ≡ counted w

abbrev pub passes : Result (Unit {0}) → ℕ
passes (ok _) = 1
passes (err e) = 0

module _ {W : Type 0} (l : RateLimiter W) (key code : Text) (limit : ℕ) (ttl : Time) where
  -- How many of a number of checks, one after the other, let through.
  unfoldable pub successes : ℕ → W → ℕ
  successes zero w = 0
  successes (suc n) w =
      let (r, w') = check_limit_count l key (pos limit) ttl code w in passes r + successes n w'

  module _ (redis : Counts l.client key) where
    judge-passes :
        (count : ℕ) (w : W)
        → (passes (judge l key (pos limit) ttl code (some count) w).0
            ≡ (if leb count limit then 1 else 0))
          × (redis.counted (judge l key (pos limit) ttl code (some count) w).1 ≡ redis.counted w)
    unfolding judge
    judge-passes count w = (ground arith, ground (arith, redis.kept ttl w))

    check-passes :
        (w : W)
        → leb 1 limit ≡ true
        → (passes (check_limit_count l key (pos limit) ttl code w).0
            ≡ (if leb (redis.counted w + 1) limit then 1 else 0))
          × (redis.counted (check_limit_count l key (pos limit) ttl code w).1 ≡ redis.counted w + 1)
    unfolding check_limit_count
    check-passes w h =
        let on : leℤ (pos limit) (pos 0) ≡ false = ground (arith, h) in
        let (p, c) = judge-passes (redis.counted w + 1) (l.client.incr key w).1 in
        rw (check_limit_count, on, redis.answered w) (p, c ∙ redis.added w)

    -- Of any number of checks against one positive limit, over a counter that does not expire in
    -- between, exactly as many are let through as the limit leaves above the count.
    pub successes-exact :
        (n : ℕ) (w : W)
        → leb 1 limit ≡ true
        → successes n w ≡ (if leb n (limit - redis.counted w) then n else limit - redis.counted w)
    unfolding successes
    successes-exact zero w h = ground arith
    successes-exact (suc n) w h =
        let (p, c) = check-passes w h in
        let w' = (check_limit_count l key (pos limit) ttl code w).1 in
        ground (arith, p, c, successes-exact n w' h)

module _ {W : Type 0} (l : RateLimiter W)
    (down : (k : Text) (w : W) → (l.client.incr k w).0 ≡ none) where
  check_limit_count-open :
      (k : Text) (n : ℤ) (ttl : Time) (code : Text) (w : W)
      → (check_limit_count l k n ttl code w).0 ≡ ok tt
  unfolding check_limit_count judge
  check_limit_count-open k n ttl code w = elim (Bool-cases (leℤ n (pos 0))) [
    | inl e ↦ rw (check_limit_count, e) refl
    | inr e ↦ rw (check_limit_count, e, down k w) refl
  ]

  check_tenant-open :
      (named : Bool) (m : Exec W (Unit {0})) (w : W)
      → ((w : W) → (m w).0 ≡ ok tt)
      → (check_tenant l named m w).0 ≡ ok tt
  unfolding check_tenant
  check_tenant-open true m w h = h w
  check_tenant-open false m w h = refl

  next-open :
      (m n : Exec W (Unit {0})) (w : W)
      → (m w).0 ≡ ok tt
      → ((w : W) → (n w).0 ≡ ok tt)
      → ((m >> n) w).0 ≡ ok tt
  next-open m n w h k = rw h (k (m w).1)

  -- If every INCR fails, every key is let through, whatever its limits.
  pub check-open : (key : ApiKey) (w : W) → (check l key w).0 ≡ ok tt
  unfolding check key_qps tenant_qps key_quota tenant_quota
  check-open key w =
      let (now, w') = l.client.now w in
      let second = l.client.second now in
      let day = l.client.day now in
      next-open (key_qps l key second)
        (tenant_qps l key second >> (key_quota l key day >> tenant_quota l key day)) w'
        (check_limit_count-open _ _ _ _ w')
        (λ w1.
          next-open (tenant_qps l key second) (key_quota l key day >> tenant_quota l key day) w1
            (check_tenant-open _ _ w1 (λ w. check_limit_count-open _ _ _ _ w))
            (λ w2.
              next-open (key_quota l key day) (tenant_quota l key day) w2
                (check_limit_count-open _ _ _ _ w2)
                (λ w3. check_tenant-open _ _ w3 (λ w. check_limit_count-open _ _ _ _ w))))
