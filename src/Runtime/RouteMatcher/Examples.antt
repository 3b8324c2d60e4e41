-- ===== src/Runtime/RouteMatcher/Examples.antt =====
-- runtime/router/route-matcher.ts: the theorem at concrete routes, and tests by evaluation.
use railfog.Prelude.{
  ◌==◌, ◌||◌, ◌≤◌, ◌≡◌, refl, inl, inr, Bool, true, false, some, [], ◌∷◌, Text, codes, text_eq,
  find_entry,
}
use railfog.Runtime.RouteMatcher.{RouteConfig, specificity_score, match_route}
use railfog.Runtime.RouteMatcher.Choice.{match_route-best, IsSound, In, matches}

-- Patterns that are compiled to themselves, and match one path only or, ending in `*`, each.
abbrev identity : Text → Text
identity pattern = pattern

abbrev last_is_star : Text → Bool
last_is_star [] = false
last_is_star (c ∷ []) = c == b'*'
last_is_star (c ∷ d ∷ cs) = last_is_star (d ∷ cs)

abbrev matches_text : Text → Text → Bool
matches_text pattern path = text_eq pattern path || last_is_star pattern

abbrev anything : RouteConfig
anything = record { pattern = codes "/*"; function_name = codes "any" }

abbrev users : RouteConfig
users = record { pattern = codes "/users"; function_name = codes "users" }

two_literals : specificity_score (codes "/users//list") ≡ 4
unfolding specificity_score
two_literals = refl

no_cache-IsSound : IsSound identity matches_text (codes "/users") []
unfolding find_entry
no_cache-IsSound key p e = absurd cc

users-matches : matches identity matches_text (codes "/users") users ≡ true
unfolding text_eq
users-matches = refl

match_route-best_example :
    ((w : RouteConfig) × ((match_route identity matches_text
          (anything ∷ users ∷ [])
          (codes "/users")
          []).0
        ≡ some (w, specificity_score w.pattern))
      × In identity matches_text (codes "/users") w (anything ∷ users ∷ [])
      × (matches identity matches_text (codes "/users") w ≡ true)
      × (specificity_score users.pattern ≤ specificity_score w.pattern))
    × IsSound identity matches_text
        (codes "/users")
        (match_route identity matches_text (anything ∷ users ∷ []) (codes "/users") []).1
match_route-best_example =
    match_route-best identity matches_text (codes "/users") (anything ∷ users ∷ []) users []
      no_cache-IsSound (inr (inl refl)) users-matches
