-- ===== src/Interceptor/Tests.antt =====
-- A pattern with wildcards, and a chain that its second interceptor halts.
use mathlib.Core.List.{reverse}
use springo.Base.{
  executable, ◌≡◌, refl, true, false, List, [], ◌∷◌, none, Text, codes, if◌then◌else◌,
}
use springo.Interceptor.{
  Interceptor, proceeds, halts, pre_handle, after_completion, match_parts, match_path,
  match_single_segment, match_suffix, trim, trim_left, split_from, run_pre_handle, run_post_handle,
  trigger_after_completion, interceptor_middleware,
}
use springo.Interceptor.Chain.{
  completed, count_served, names, proceeding, all_proceed, interceptor_middleware-unwinds,
}

program : Unit {0}
unfolding executable match_parts match_path match_single_segment match_suffix trim trim_left
    split_from run_pre_handle run_post_handle trigger_after_completion interceptor_middleware
program = tt

abbrev pattern : List Text
pattern = codes "api" ∷ codes "**" ∷ codes "{id}" ∷ []

abbrev path : List Text
path = codes "api" ∷ codes "v1" ∷ codes "users" ∷ codes "7" ∷ []

matched : match_path (codes "/api/**/{id}/") (codes "api/v1/users/7") ≡ true
unfolding program
matched = refl

abbrev two : List Interceptor
two =
    record { name = 1; pre_handle = proceeds; post_handle_panics = false }
    ∷ record { name = 2; pre_handle = halts; post_handle_panics = false }
    ∷ []

interceptor_middleware-unwinds_example :
    (completed (interceptor_middleware two false).1 ≡ names (reverse (proceeding two)))
    × (count_served (interceptor_middleware two false).1 ≡ (if all_proceed two then 1 else 0))
interceptor_middleware-unwinds_example = interceptor_middleware-unwinds two false

halted :
    (interceptor_middleware two false).1
    ≡ pre_handle 1 ∷ pre_handle 2 ∷ after_completion 1 none ∷ []
unfolding program
halted = refl
