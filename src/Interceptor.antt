-- ===== src/Interceptor.antt =====
-- framework/web/interceptor.go: the patterns that select interceptors, and the chain that runs them
-- around a handler. A path is taken apart at its slashes, as strings.Trim and strings.Split do.
pub mod Patterns
pub mod Chain
mod Tests
use mathlib.Core.List.{reverse}
use springo.Base.{
  ℕ, Bool, true, false, List, [], ◌∷◌, ◌++◌, Option, none, some, Text, codes, ◌==◌, text_key,
  text_eqb, nat_eqb, has_prefix, has_suffix, if◌then◌else◌, ◌||◌, ◌&&◌, any,
}

abbrev pub slash : ℕ
slash = 47

-- strings.TrimLeft(s, "/").
unfoldable pub trim_left : Text → Text
trim_left [] = []
trim_left (c ∷ s) = if nat_eqb c slash then trim_left s else c ∷ s

unfoldable pub trim : Text → Text
unfolding trim_left
trim s = reverse (trim_left (reverse (trim_left s)))

-- strings.Split(s, "/"): `current` is the part that is being read.
unfoldable pub split_from : Text → Text → List Text
split_from current [] = current ∷ []
split_from current (c ∷ s) =
    if nat_eqb c slash then current ∷ split_from [] s else split_from (current ++ c ∷ []) s

unfoldable pub match_single_segment : Text → Text → Bool
match_single_segment pattern part =
    pattern == codes "*"
    || has_prefix pattern (codes "{") && has_suffix pattern (codes "}")
    || has_prefix pattern (codes ":")
    || pattern == part

-- The loop of matchDoubleStar: some suffix of the path matches.
unfoldable pub match_suffix : (List Text → Bool) → List Text → Bool
match_suffix matches [] = matches []
match_suffix matches (x ∷ xs) = matches (x ∷ xs) || match_suffix matches xs

abbrev pub is_null : List Text → Bool
is_null [] = true
is_null (x ∷ xs) = false

unfoldable pub match_parts : List Text → List Text → Bool
unfolding match_single_segment match_suffix
match_parts [] xs = is_null xs
match_parts (p ∷ ps) xs =
    if p == codes "**"
    then is_null ps || match_suffix (match_parts ps) xs
    else elim xs [ [] ↦ false | x ∷ rest ↦ match_single_segment p x && match_parts ps rest ]

unfoldable pub match_path : Text → Text → Bool
unfolding trim split_from match_parts
match_path pattern path =
    let pattern = trim pattern in
    let path = trim path in
    if pattern == [] && path == []
    then true
    else if pattern == [] || path == []
    then pattern == codes "**"
    else match_parts (split_from [] pattern) (split_from [] path)

-- What PreHandle returns, and whether a later method of the interceptor returns.
pub data Pre : Type 0 where
  proceeds halts : Pre
  errs : Text → Pre

pub record Interceptor : Type 0 where
  pub name : ℕ
  pub pre_handle : Pre
  pub post_handle_panics : Bool

pub record Registration : Type 0 where
  pub interceptor : Interceptor
  pub includes : List Text
  pub excludes : List Text

unfoldable pub match : Registration → Text → Bool
unfolding match_path
match ir path =
    if any (λ pattern. match_path pattern path) ir.excludes then false else elim ir.includes [
      | [] ↦ true
      | pattern ∷ patterns ↦ any (λ pattern. match_path pattern path) (pattern ∷ patterns)
    ]

unfoldable pub get_matching_interceptors : List Registration → Text → List Interceptor
unfolding match
get_matching_interceptors [] path = []
get_matching_interceptors (reg ∷ regs) path =
    let matched = get_matching_interceptors regs path in
    if match reg path then reg.interceptor ∷ matched else matched

-- The calls of the interceptors' methods and of the next handler, in their order. `after_completion`
-- carries the error that it is given.
pub data Call : Type 0 where
  pre_handle post_handle : ℕ → Call
  after_completion : ℕ → Option Text → Call
  serves : Call

abbrev pub panic_error : Text
panic_error = codes "panic"

-- matched[maxIndex..0], in this order.
unfoldable pub trigger_after_completion : List Interceptor → Option Text → List Call
trigger_after_completion [] err = []
trigger_after_completion (i ∷ is) err =
    after_completion i.name err ∷ trigger_after_completion is err

-- `executed` is matched[lastExecutedIndex..0]; the result is `executed` at the end, or `none` where
-- the request is halted, and the calls.
unfoldable pub run_pre_handle :
    List Interceptor → List Interceptor → Option (List Interceptor) × List Call
unfolding trigger_after_completion
run_pre_handle executed [] = (some executed, [])
run_pre_handle executed (i ∷ is) =
    let (result, calls) = run_pre_handle (i ∷ executed) is in
    elim i.pre_handle [
      | proceeds ↦ (result, pre_handle i.name ∷ calls)
      | halts ↦ (none, pre_handle i.name ∷ trigger_after_completion executed none)
      | errs e ↦ (none, pre_handle i.name ∷ trigger_after_completion executed (some e))
    ]

-- The loop of runPostHandle, and whether a PostHandle panicked.
unfoldable pub run_post_handle : List Interceptor → Bool × List Call
run_post_handle [] = (false, [])
run_post_handle (i ∷ is) =
    let (panicked, calls) = run_post_handle is in
    if i.post_handle_panics
    then (true, post_handle i.name ∷ [])
    else (panicked, post_handle i.name ∷ calls)

-- InterceptorMiddleware: whether the request ends in a panic, and the calls. The second argument
-- says whether the next handler panics. AfterCompletion itself is taken to return.
unfoldable pub interceptor_middleware : List Interceptor → Bool → Bool × List Call
unfolding run_pre_handle run_post_handle trigger_after_completion
interceptor_middleware [] handler_panics = (handler_panics, serves ∷ [])
interceptor_middleware (i ∷ is) handler_panics =
    let (result, calls) = run_pre_handle [] (i ∷ is) in
    elim result [
      | none ↦ (false, calls)
      | some executed ↦
          let (post_panics, posts) = run_post_handle executed in
          if handler_panics
          then (true, calls ++ (serves ∷ trigger_after_completion executed (some panic_error)))
          else (
            post_panics,
            calls
                ++ (serves
                    ∷ (posts
                        ++ trigger_after_completion executed
                            (if post_panics then some panic_error else none))),
          )
    ]
