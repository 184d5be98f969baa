-- ===== src/Core/RuleCache/Examples.antt =====
-- The cache at concrete rules.
use distributed_rate_limiter.Base.{ℕ, ◌≡◌, refl, none, some, [], ◌∷◌, inl, inr}
use distributed_rate_limiter.Base.Int.{pos}
use distributed_rate_limiter.Base.Str.{bytes, str_eq}
use distributed_rate_limiter.Base.Assoc.{lookup, insert, remove}
use distributed_rate_limiter.Core.Models.{Rule}
use distributed_rate_limiter.Core.RuleCache.{
  RulesSnapshot, get, put, replace_all, upsert_if_newer, delete_if_older_or_equal,
}
use distributed_rate_limiter.Core.RuleCache.Laws.{get-delete}
use distributed_rate_limiter.Core.RuleCache.Convergence.{
  upsert_all, AtLeast, upsert_all-latest, last_for, get-replace_all,
}

abbrev rule : ℕ → Rule
rule version = record {
  tenant_id = bytes "t";
  resource = bytes "r";
  algorithm = bytes "fixed_window";
  limit = pos 10;
  window = pos 1000;
  burst_size = pos 0;
  version = pos version;
  updated_at = 5000;
}

abbrev cache : RulesSnapshot
cache = upsert_if_newer (some (rule 2)) []

program : Unit {0}
unfolding get put upsert_if_newer lookup insert remove str_eq last_for
program = tt

get-delete_example :
    get (bytes "t") (bytes "r") (delete_if_older_or_equal (bytes "t") (bytes "r") (pos 1) cache)
    ≡ some (rule 2)
unfolding program
get-delete_example = get-delete (bytes "t") (bytes "r") (pos 1) (bytes "t") (bytes "r") cache

upsert_all-latest_example :
    AtLeast (pos 3) (get (bytes "t") (bytes "r") (upsert_all (rule 1 ∷ rule 3 ∷ rule 2 ∷ []) []))
upsert_all-latest_example =
    upsert_all-latest (rule 1 ∷ rule 3 ∷ rule 2 ∷ []) (rule 3) [] (inr (inl refl))

get-replace_all_example :
    get (bytes "t") (bytes "r") (replace_all (some (rule 3) ∷ none ∷ some (rule 2) ∷ []))
    ≡ some (rule 2)
unfolding program
get-replace_all_example =
    get-replace_all (some (rule 3) ∷ none ∷ some (rule 2) ∷ []) (bytes "t") (bytes "r")
