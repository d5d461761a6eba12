-- ===== src/ApiMgmt/Normalize.antt =====
-- The normalising helpers of apps/server/internal/apimgmt/biz/apimgmt.go, and of
-- apps/server/internal/kit/paging/paging.go.
use rago_desk.Base.{
  ℕ, ◌-◌, Bool, not, ◌&&◌, ◌||◌, List, [], ◌∷◌, ◌++◌, ltb, ◌==◌, nat_eq, text_eq, if◌then◌else◌,
  null, any, Text, codes, trim, to_lower, Unicode, Error, ℤ, pos, ltℤ, leℤ,
}
use rago_desk.ApiMgmt.Types.{Time, UsageFilter, status_active, status_revoked, scope_all}

-- paging.Normalize
unfoldable pub normalize_page : ℤ → ℤ → ℤ × ℤ
normalize_page limit offset = (
  if leℤ limit (pos 0) || ltℤ (pos 200) limit then pos 50 else limit,
  if ltℤ offset (pos 0) then pos 0 else offset,
)

unfoldable pub contains : Text → List Text → Bool
contains x = any (λ y. x == y)

unfoldable pub status_code_from_error : Error → ℕ
status_code_from_error e = if ltb 0 e.code then e.code else 500

unfoldable pub is_duplicate_key_error : Error → Bool
is_duplicate_key_error e = e.reason == codes "DUPLICATE_KEY"

module _ ⦃u : Unicode⦄ where
  unfoldable pub clean : Text → Text
  clean item = to_lower (trim item)

  unfoldable pub normalize_status : Text → Text
  unfolding clean
  normalize_status status = if clean status == status_active then status_active else status_revoked

  -- `seen` holds the items of `out`.
  unfoldable pub scope_loop : List Text → List Text → List Text
  unfolding contains
  scope_loop [] out = out
  scope_loop (item ∷ items) out =
      let value = clean item in
      let skip = scope_loop items out in
      let more = scope_loop items (out ++ value ∷ []) in
      if null value
      then skip
      else if value == scope_all
      then scope_all ∷ []
      else if contains value out
      then skip
      else more

  unfoldable pub normalize_scopes : List Text → List Text
  normalize_scopes scopes = scope_loop scopes []

  unfoldable pub version_loop : List Text → List Text → List Text
  unfolding contains
  version_loop [] out = out
  version_loop (item ∷ items) out =
      let value = clean item in
      let skip = version_loop items out in
      let more = version_loop items (out ++ value ∷ []) in
      if null value then skip else if contains value out then skip else more

  unfoldable pub normalize_versions : List Text → List Text
  normalize_versions versions = version_loop versions []

  unfoldable pub scope_allowed : List Text → Text → Bool
  scope_allowed scopes required =
      null required
      || null scopes
      || any (λ item. clean item == scope_all || clean item == clean required) scopes

  unfoldable pub version_allowed : List Text → Text → Bool
  version_allowed versions required =
      null required || null versions || any (λ item. clean item == clean required) versions

-- `filter.End = now`, `filter.Start = now - window` where neither is set; the clock stands more
-- than the window after the zero time.
unfoldable pub default_window : Time → Time → UsageFilter → UsageFilter
default_window now window f =
    if ltb 0 window && f.start == 0 && f.end == 0
    then record f { start = now - window; end = now }
    else f

unfoldable pub order_window : UsageFilter → UsageFilter
order_window f =
    if not (f.start == 0) && not (f.end == 0) && ltb f.end f.start
    then record f { start = f.end; end = f.start }
    else f

unfoldable pub normalize_usage_filter : Time → UsageFilter → ℤ → Time → UsageFilter
unfolding default_window order_window
normalize_usage_filter now f max_limit window =
    let limit = if leℤ f.limit (pos 0) || ltℤ max_limit f.limit then max_limit else f.limit in
    let offset = if ltℤ f.offset (pos 0) then pos 0 else f.offset in
    order_window (default_window now window (record f { limit = limit; offset = offset }))
