-- ===== src/Base.antt =====
-- The names that the other modules share: the libraries', passed on, and those of the children.
pub mod Tests
pub mod Lists
pub mod Strings
pub mod Ascii
pub mod Int
pub mod Monad
pub use Prim.Native.Nat.{ℕ, zero, suc, ◌+◌, ◌-◌, ◌*◌, ◌/◌, ◌%◌, ◌^◌, ◌≤◌, ◌<◌}
pub use mathlib.Core.Path.{◌≡◌, refl, sym, ap, ◌∙◌}
pub use mathlib.Core.Logic.{◌≢◌, ◌↔◌, ◌⊎◌, inl, inr}
pub use mathlib.Core.Bool.{Bool, true, false, not, ◌&&◌, ◌||◌}
pub use mathlib.Core.Option.{Option, none, some}
pub use mathlib.Core.List.{List, [], ◌∷◌, ◌++◌, map, append_assoc, append-nil}
pub use native.Mathlib.Omega.{arith}
pub use Tests.{
  ltb, leb, Eq, ◌==◌, eq_refl, nat_eq, if◌then◌else◌, Bool-cases, Option-cases, ltb→lt, leb→le,
  tests, not_both,
}
pub use Lists.{
  length, get_elem?, get_or, take, drop, length-append, All, All-append, All-map, Has, null, any,
}
pub use Strings.{
  Text, codes, text_beq, text_beq_iff, text_eq, Unicode, is_space, trim_left, trim_right, keep,
  trim_idem,
}
unfoldable pub use Strings.{
  trim, to_lower, has_prefix, contains_text, split_lines, fields_from, replace_pair, drop_while,
}
pub use Strings.{onto_first}
pub use Int.{ℤ, pos, negsuc, pos_part, neg_part, ltℤ, leℤ, is_pos}
pub use Monad.{
  Error, Result, ok, err, Exec, pure, raise, ◌>>=◌, ◌>>◌, call, lift, ignore, continue, continue-ok,
  ok_inj, if-ok, Result-cases,
}
pub use Monad.{bad_request, unauthorized, forbidden, not_found, conflict, internal_server}
pub use Ascii.{ascii}
