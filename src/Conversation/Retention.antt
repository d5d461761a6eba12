-- ===== src/Conversation/Retention.antt =====
-- The retention policy and the purge of expired sessions, of
-- apps/server/internal/conversation/biz/conversation.go.
use rago_desk.Base.{
  ℕ, ◌+◌, ◌-◌, ◌*◌, ◌%◌, ◌^◌, not, ◌&&◌, ◌||◌, Option, none, some, ◌∷◌, ltb, ◌==◌, nat_eq,
  if◌then◌else◌, null, Text, trim, ℤ, pos, negsuc, pos_part, leℤ, ltℤ,
}
use rago_desk.Conversation.Types.{Time, Host, ConversationUsecase}

-- A signed 64-bit number, from its value modulo 2^64.
unfoldable pub wrap_int64 : ℕ → ℤ
wrap_int64 n =
    let bits = n % 2 ^ 64 in if ltb bits (2 ^ 63) then pos bits else negsuc (2 ^ 64 - 1 - bits)

-- The configured values: `none` where the section is missing.
unfoldable pub load_retention_policy : Option (ℤ × ℤ) → ℕ × ℤ
load_retention_policy none = (0, wrap_int64 (60 * 60000000000))
load_retention_policy (some (retention_days, purge_minutes)) = (
  if ltℤ (pos 0) retention_days then pos_part retention_days else 0,
  wrap_int64 ((if ltℤ (pos 0) purge_minutes then pos_part purge_minutes else 60) * 60000000000),
)

abbrev pub named_tenant : Option Text → Option Text
named_tenant none = none
named_tenant (some t) = if null t || null (trim t) then none else some t

module _ {W M : Type 0} (uc : ConversationUsecase W M) where
  -- Under the lock: a purge starts if there was none, or the last is an interval ago.
  unfoldable pub try_purge : Text → Time → Host W → Host W
  try_purge tenant_id now h =
      if not (h.last_purge == 0) && ltb now (h.last_purge + pos_part uc.purge_interval)
      then h
      else record h {
        last_purge = now;
        purges =
            record {
              tenant_id = tenant_id;
              cutoff = uc.system.days_before uc.retention_days now;
              started_at = now;
            }
            ∷ h.purges;
      }

  unfoldable pub maybe_purge : Host W → Host W
  maybe_purge h =
      let (now, w') = uc.system.now h.world in
      if uc.retention_days == 0 || leℤ uc.purge_interval (pos 0)
      then h
      else elim (named_tenant uc.tenant) [
        | none ↦ h
        | some t ↦ try_purge t now (record h { world = w' })
      ]
