-- ===== src/Conversation/Purges.antt =====
-- How often expired sessions are purged.
use rago_desk.Base.{
  ℕ, ◌+◌, ◌*◌, ◌%◌, ◌^◌, ◌≤◌, ◌<◌, ◌≡◌, refl, inl, inr, true, false, not, ◌&&◌, some, List, [], ◌∷◌,
  ltb, ◌==◌, nat_eq, if◌then◌else◌, Text, ℤ, pos, pos_part, ltℤ, All, arith, Bool-cases,
}
use rago_desk.Conversation.Types.{Time, Purge, Host, ConversationUsecase}
use rago_desk.Conversation.Retention.{load_retention_policy, wrap_int64, try_purge}

-- Each purge starts at least `gap` after the one before it.
abbrev pub Spaced : ℕ → List Purge → Type 0
Spaced gap [] = Unit
Spaced gap (p ∷ []) = Unit
Spaced gap (p ∷ q ∷ ps) = (q.started_at + gap ≤ p.started_at) × Spaced gap (q ∷ ps)

abbrev pub newest : List Purge → Time
newest [] = 0
newest (p ∷ ps) = p.started_at

module _ {W M : Type 0} (uc : ConversationUsecase W M) where
  -- The calls that reach the lock, one after the other: the tenant and the time of each.
  unfoldable pub purge_all : List (Text × Time) → Host W → Host W
  purge_all [] h = h
  purge_all ((t, now) ∷ calls) h = purge_all calls (try_purge uc t now h)

  abbrev pub started : Text → Time → Purge
  started t now = record {
    tenant_id = t;
    cutoff = uc.system.days_before uc.retention_days now;
    started_at = now;
  }

  -- The last purge is the newest of the log, whose purges are spaced and have a time.
  pub record IsPaced (h : Host W) : Type 0 where
    pub last : h.last_purge ≡ newest h.purges
    pub spaced : Spaced (pos_part uc.purge_interval) h.purges
    pub dated : All (λ (p : Purge). 0 < p.started_at) h.purges

  Spaced-cons :
      (p : Purge) (ps : List Purge)
      → Spaced (pos_part uc.purge_interval) ps
      → All (λ (p : Purge). 0 < p.started_at) ps
      → (not (newest ps == 0) && ltb p.started_at (newest ps + pos_part uc.purge_interval)) ≡ false
      → Spaced (pos_part uc.purge_interval) (p ∷ ps)
  Spaced-cons p [] s d h = tt
  Spaced-cons p (q ∷ ps) s (d, ds) h = (ground (arith, d, h), s)

  try_purge-IsPaced :
      (t : Text) (now : Time) (h : Host W) → 0 < now → IsPaced h → IsPaced (try_purge uc t now h)
  unfolding try_purge
  try_purge-IsPaced t now h later paced =
      elim (Bool-cases
        (not (h.last_purge == 0) && ltb now (h.last_purge + pos_part uc.purge_interval))) [
          | inl e ↦ rw (try_purge, e) paced
          | inr e ↦
              rw (try_purge, e)
                (record {
                  last = refl;
                  spaced =
                      Spaced-cons (started t now) h.purges paced.spaced paced.dated
                        (rw (← paced.last) e);
                  dated = (later, paced.dated);
                })
        ]

  -- Whatever calls of whatever tenants come in, in whatever order and at whatever times after the
  -- zero time, to a log that is paced: the purges that are started are at least an interval apart.
  pub purge_all-IsPaced :
      (calls : List (Text × Time)) (h : Host W)
      → All (λ (c : Text × Time). 0 < c.1) calls
      → IsPaced h
      → IsPaced (purge_all calls h)
  unfolding purge_all
  purge_all-IsPaced [] h dated paced = paced
  purge_all-IsPaced ((t, now) ∷ calls) h (d, ds) paced =
      purge_all-IsPaced calls (try_purge uc t now h) ds (try_purge-IsPaced t now h d paced)

  -- A call that comes at least an interval after the last purge, or after an interval where there
  -- was none, starts a purge for its tenant; the next one that comes within the interval of that
  -- does nothing, also for another tenant.
  pub try_purge-held :
      (t t' : Text) (now now' : Time) (h : Host W)
      → 0 < now
      → h.last_purge + pos_part uc.purge_interval ≤ now
      → now' < now + pos_part uc.purge_interval
      → ((try_purge uc t now h).purges ≡ started t now ∷ h.purges)
        × (try_purge uc t' now' (try_purge uc t now h) ≡ try_purge uc t now h)
  unfolding try_purge
  try_purge-held t t' now now' h later due soon =
      let starts : (not (h.last_purge == 0) && ltb now (h.last_purge + pos_part uc.purge_interval))
          ≡ false =
        ground (arith, due) in
      let holds : (not (now == 0) && ltb now' (now + pos_part uc.purge_interval)) ≡ true =
        ground (arith, later, soon) in
      rw (try_purge, starts) (refl, rw holds refl)

wrap_small : (n : ℕ) → n < 2 ^ 63 → wrap_int64 n ≡ pos n
unfolding wrap_int64
wrap_small n h = let whole : n % 2 ^ 64 ≡ n = omega (arith, h) in rw whole (ground (arith, h))

-- If at most 153 722 867 minutes are configured, the interval in force is the configured one without
-- overflow, or an hour where it is not positive.
pub load_retention_policy-interval :
    (days minutes : ℤ)
    → pos_part minutes ≤ 153722867
    → (load_retention_policy (some (days, minutes))).1
      ≡ pos ((if ltℤ (pos 0) minutes then pos_part minutes else 60) * 60000000000)
unfolding load_retention_policy wrap_int64
load_retention_policy-interval days minutes h = wrap_small _ (ground (arith, h))
