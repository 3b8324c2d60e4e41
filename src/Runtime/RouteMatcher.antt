-- ===== src/Runtime/RouteMatcher.antt =====
-- runtime/router/route-matcher.ts. `URLPattern` is a parameter, its constructor and its test; patterns
-- that its constructor refuses are not modelled. A winner is kept with its score, and none stands for
-- the score -1.
pub mod Choice
pub mod Examples
use railfog.Prelude.{
  ℕ, suc, ◌+◌, Bool, true, false, ◌&&◌, ◌||◌, Option, none, some, List, [], ◌∷◌, Text, ◌==◌, ltb,
  leb, any, if◌then◌else◌, find_entry, put_entry, length,
}

pub record RouteConfig : Type 0 where
  pub pattern : Text
  pub function_name : Text

-- `segment.includes(…)` of `*`, `:`, `(` and `{`.
abbrev pub is_wildcard_or_named_segment : Text → Bool
is_wildcard_or_named_segment = any (λ c. (c == b'*' || c == b':') || (c == b'(' || c == b'{'))

abbrev pub literal_segment_weight : ℕ
literal_segment_weight = 2

abbrev pub wildcard_or_named_segment_weight : ℕ
wildcard_or_named_segment_weight = 1

-- `text.split("/")`: the first segment and the others.
abbrev pub split_slash : Text → Text × List Text
split_slash [] = ([], [])
split_slash (c ∷ cs) =
    let (segment, segments) = split_slash cs in
    if c == b'/' then ([], segment ∷ segments) else (c ∷ segment, segments)

abbrev segment_score : Text → ℕ
segment_score [] = 0
segment_score (c ∷ cs) =
    if is_wildcard_or_named_segment (c ∷ cs)
    then wildcard_or_named_segment_weight
    else literal_segment_weight

abbrev sum_scores : List Text → ℕ
sum_scores [] = 0
sum_scores (segment ∷ segments) = segment_score segment + sum_scores segments

-- An empty segment, which the code filters out, scores nothing.
unfoldable pub specificity_score : Text → ℕ
specificity_score pattern =
    let (segment, segments) = split_slash pattern in segment_score segment + sum_scores segments

abbrev pub max_pattern_cache_size : ℕ
max_pattern_cache_size = 1000

abbrev pub normalized_pattern : Text → Text
normalized_pattern [] = b'/' ∷ []
normalized_pattern (c ∷ cs) = if c == b'/' then c ∷ cs else b'/' ∷ c ∷ cs

-- A winner that a score of `score` does not beat stays.
abbrev pub beats : (score : ℕ) → Option (RouteConfig × ℕ) → Bool
beats score none = true
beats score (some (route, highest_score)) = ltb highest_score score

module _ {UrlPattern : Type 0} (compile : Text → UrlPattern)
    (test : UrlPattern → (path : Text) → Bool) where
  -- The end of `getCompiledPattern`, by what the cache has.
  unfoldable pub from_cache :
      Text → Option UrlPattern → List (Text × UrlPattern) → UrlPattern × List (Text × UrlPattern)
  from_cache pattern (some p) cache = (p, cache)
  from_cache pattern none cache = (
    compile pattern,
    put_entry pattern (compile pattern)
        (if leb max_pattern_cache_size (length cache) then [] else cache),
  )

  unfoldable pub get_compiled_pattern :
      Text → List (Text × UrlPattern) → UrlPattern × List (Text × UrlPattern)
  get_compiled_pattern pattern cache = from_cache pattern (find_entry pattern cache) cache

  -- The `for` loop, with the winner so far.
  unfoldable pub match_from :
      (path : Text)
      → List RouteConfig
      → Option (RouteConfig × ℕ)
      → List (Text × UrlPattern)
      → Option (RouteConfig × ℕ) × List (Text × UrlPattern)
  match_from path [] winner cache = (winner, cache)
  match_from path (route ∷ routes) winner cache =
      let (p, cache') = get_compiled_pattern (normalized_pattern route.pattern) cache in
      let score = specificity_score route.pattern in
      match_from path routes
        (if test p path && beats score winner then some (route, score) else winner) cache'

  unfoldable pub match_route :
      List RouteConfig
      → (path : Text) → List (Text × UrlPattern)
      → Option (RouteConfig × ℕ) × List (Text × UrlPattern)
  match_route routes path cache = match_from path routes none cache
