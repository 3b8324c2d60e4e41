-- ===== src/Runtime/RouteMatcher/Choice.antt =====
-- runtime/router/route-matcher.ts: which route wins, whatever the cache holds.
use railfog.Prelude.{
  subst, ℕ, ◌≤◌, ◌≡◌, ◌⊎◌, inl, inr, refl, sym, ◌∙◌, ap, Bool, true, false, ◌&&◌, Option, none,
  some, some-inj, List, [], ◌∷◌, Text, text_eq_iff, ltb, leb, if◌then◌else◌, find_entry, put_entry,
  find_entry-put_entry, length, arith, Bool-cases,
}
use railfog.Runtime.RouteMatcher.{
  RouteConfig, specificity_score, normalized_pattern, beats, from_cache, get_compiled_pattern,
  match_from, match_route, max_pattern_cache_size,
}

abbrev won : RouteConfig → ℕ → Option (RouteConfig × ℕ)
won w score = some (w, score)

module _ {UrlPattern : Type 0} (compile : Text → UrlPattern)
    (test : UrlPattern → (path : Text) → Bool) (path : Text) where
  -- Every cached pattern is the one that its key compiles to.
  abbrev pub IsSound : List (Text × UrlPattern) → Type 0
  IsSound cache = (key : Text) (p : UrlPattern) → find_entry key cache ≡ some p → p ≡ compile key

  abbrev pub matches : RouteConfig → Bool
  matches route = test (compile (normalized_pattern route.pattern)) path

  empty-IsSound : IsSound []
  unfolding find_entry
  empty-IsSound key p e = absurd cc

  put_entry-IsSound :
      (pattern : Text) (cache : List (Text × UrlPattern))
      → IsSound cache
      → IsSound (put_entry pattern (compile pattern) cache)
  put_entry-IsSound pattern cache sound key p e = ground (
    arith,
    find_entry-put_entry pattern key (compile pattern) cache,
    text_eq_iff pattern key,
    sound key p,
  )

  from_cache-IsSound :
      (pattern : Text) (o : Option UrlPattern) (cache : List (Text × UrlPattern))
      → find_entry pattern cache ≡ o
      → IsSound cache
      → ((from_cache compile test pattern o cache).0 ≡ compile pattern)
        × IsSound (from_cache compile test pattern o cache).1
  unfolding from_cache
  from_cache-IsSound pattern (some p) cache found sound = (sound pattern p found, sound)
  from_cache-IsSound pattern none cache found sound = (
    refl,
    put_entry-IsSound pattern (if leb max_pattern_cache_size (length cache) then [] else cache)
        (kept (leb max_pattern_cache_size (length cache))),
  )
    where
      kept : (full : Bool) → IsSound (if full then [] else cache)
      kept true = empty-IsSound
      kept false = sound

  -- The choice without a cache: of the matching routes, the later one only if it scores higher.
  abbrev pub choose : List RouteConfig → Option (RouteConfig × ℕ) → Option (RouteConfig × ℕ)
  choose [] winner = winner
  choose (route ∷ routes) winner = choose routes (
      if matches route && beats (specificity_score route.pattern) winner
      then some (route, specificity_score route.pattern)
      else winner)

  match_from-choose :
      (routes : List RouteConfig) (winner : Option (RouteConfig × ℕ))
      (cache : List (Text × UrlPattern))
      → IsSound cache
      → ((match_from compile test path routes winner cache).0 ≡ choose routes winner)
        × IsSound (match_from compile test path routes winner cache).1
  unfolding match_from get_compiled_pattern
  match_from-choose [] winner cache sound = (refl, sound)
  match_from-choose (route ∷ routes) winner cache sound =
      let (same, sound') =
        from_cache-IsSound (normalized_pattern route.pattern)
          (find_entry (normalized_pattern route.pattern) cache) cache refl sound in
      let (chosen, sound'') =
        match_from-choose routes
          (if test (get_compiled_pattern compile test (normalized_pattern route.pattern) cache).0
                path
              && beats (specificity_score route.pattern) winner
            then some (route, specificity_score route.pattern)
            else winner)
          (get_compiled_pattern compile test (normalized_pattern route.pattern) cache).1 sound' in
      (
        chosen
            ∙ ap
                (λ p. choose routes (
                  if test p path && beats (specificity_score route.pattern) winner
                  then some (route, specificity_score route.pattern)
                  else winner))
                same,
        sound'',
      )

  abbrev pub In : RouteConfig → List RouteConfig → Type 0
  In r [] = ⊥
  In r (x ∷ routes) = (x ≡ r) ⊎ In r routes

  and-first : (a b : Bool) → (a && b) ≡ true → a ≡ true
  and-first true b e = refl
  and-first false b e = absurd cc

  -- A matching route of the list, with its score.
  abbrev pub Candidate : List RouteConfig → RouteConfig → ℕ → Type 0
  Candidate routes w score =
      In w routes × ((matches w ≡ true) × (score ≡ specificity_score w.pattern))

  later :
      (x w : RouteConfig) (routes : List RouteConfig) (score : ℕ)
      → Candidate routes w score
      → Candidate (x ∷ routes) w score
  later x w routes score (there, holds) = (inr there, holds)

  -- What a winner so far of score `s` leads to.
  Kept : List RouteConfig → RouteConfig → ℕ → Option (RouteConfig × ℕ) → Type 0
  Kept routes v s o =
      (w : RouteConfig) × (score : ℕ) × (o ≡ some (w, score))
      × (s ≤ score)
      × (((w ≡ v) × (score ≡ s)) ⊎ Candidate routes w score)

  newest :
      (x : RouteConfig) (routes : List RouteConfig) {w : RouteConfig} {score : ℕ}
      → matches x ≡ true
      → ((w ≡ x) × (score ≡ specificity_score x.pattern)) ⊎ Candidate routes w score
      → Candidate (x ∷ routes) w score
  newest x routes hit (inl (same, scored)) = (
    inl (sym same),
    (
      subst (λ r. matches r ≡ true) (sym same) hit,
      scored ∙ ap (λ r. specificity_score r.pattern) (sym same),
    ),
  )
  newest x routes hit (inr (there, holds)) = (inr there, holds)

  older :
      (x : RouteConfig) (routes : List RouteConfig) (v : RouteConfig) (s : ℕ) {w : RouteConfig}
      {score : ℕ}
      → ((w ≡ v) × (score ≡ s)) ⊎ Candidate routes w score
      → (won v s ≡ won w score) ⊎ Candidate (x ∷ routes) w score
  older x routes v s (inl (same, scored)) = inl (cc)
  older x routes v s (inr (there, holds)) = inr (inr there, holds)

  choose-Kept :
      (routes : List RouteConfig) (v : RouteConfig) (s : ℕ)
      → Kept routes v s (choose routes (some (v, s)))
  unfolding Kept
  choose-Kept [] v s = (v, s, refl, omega arith, inl (refl, refl))
  choose-Kept (x ∷ routes) v s =
      elim (Bool-cases (matches x && ltb s (specificity_score x.pattern))) [
        | inl wins ↦ rw wins (
            let (w, score, e, le, from) = choose-Kept routes x (specificity_score x.pattern) in
            (
              w,
              score,
              e,
              ground (arith, wins, le),
              inr (
                  newest x routes (and-first (matches x) (ltb s (specificity_score x.pattern)) wins)
                    from),
            ))
        | inr loses ↦
            rw loses (
              let (w, score, e, le, from) = choose-Kept routes v s in (w, score, e, le, wider from))
      ]
    where
      wider :
          {w : RouteConfig} {score : ℕ}
          → ((w ≡ v) × (score ≡ s)) ⊎ Candidate routes w score
          → ((w ≡ v) × (score ≡ s)) ⊎ Candidate (x ∷ routes) w score
      wider (inl same) = inl same
      wider (inr (there, holds)) = inr (inr there, holds)

  Found :
      List RouteConfig → RouteConfig → Option (RouteConfig × ℕ) → Option (RouteConfig × ℕ) → Type 0
  Found routes r winner o =
      (w : RouteConfig) × (score : ℕ) × (o ≡ some (w, score))
      × (specificity_score r.pattern ≤ score)
      × ((winner ≡ some (w, score)) ⊎ Candidate routes w score)

  -- The route itself, against a winner so far.
  meets :
      (x : RouteConfig) (routes : List RouteConfig) (winner : Option (RouteConfig × ℕ))
      → matches x ≡ true
      → Found (x ∷ routes) x winner (choose (x ∷ routes) winner)
  unfolding Found Kept
  meets x routes none hit = rw hit (
      let (w, score, e, le, from) = choose-Kept routes x (specificity_score x.pattern) in
      (w, score, e, le, inr (newest x routes hit from)))
  meets x routes (some (v, s)) hit = elim (Bool-cases (ltb s (specificity_score x.pattern))) [
    | inl wins ↦
        rw (hit, wins)
          (let (w, score, e, le, from) = choose-Kept routes x (specificity_score x.pattern) in
            (w, score, e, le, inr (newest x routes hit from)))
    | inr loses ↦
        rw (hit, loses)
          (let (w, score, e, le, from) = choose-Kept routes v s in
            (w, score, e, ground (arith, loses, le), older x routes v s from))
  ]

  choose-Found :
      (routes : List RouteConfig) (r : RouteConfig) (winner : Option (RouteConfig × ℕ))
      → In r routes
      → matches r ≡ true
      → Found routes r winner (choose routes winner)
  unfolding Found
  choose-Found [] r winner i hit = absurd i
  choose-Found (x ∷ routes) r winner (inl here) hit =
      subst (λ y. Found (x ∷ routes) y winner (choose (x ∷ routes) winner)) here
        (meets x routes winner (subst (λ y. matches y ≡ true) (sym here) hit))
  choose-Found (x ∷ routes) r winner (inr there) hit =
      elim (Bool-cases (matches x && beats (specificity_score x.pattern) winner)) [
        | inl wins ↦ rw wins (
            let (w, score, e, le, from) =
              choose-Found routes r (some (x, specificity_score x.pattern)) there hit in
            (
              w,
              score,
              e,
              le,
              inr (
                  newest x routes
                    (and-first (matches x) (beats (specificity_score x.pattern) winner) wins)
                    (unwrap from)),
            ))
        | inr loses ↦ rw loses (
            let (w, score, e, le, from) = choose-Found routes r winner there hit in
            (w, score, e, le, passed from))
      ]
    where
      unwrap :
          {w : RouteConfig} {score : ℕ}
          → (won x (specificity_score x.pattern) ≡ won w score) ⊎ Candidate routes w score
          → ((w ≡ x) × (score ≡ specificity_score x.pattern)) ⊎ Candidate routes w score
      unwrap (inl same) =
          inl (ap (λ y. y.0) (sym (some-inj same)), ap (λ y. y.1) (sym (some-inj same)))
      unwrap (inr found) = inr found

      passed :
          {w : RouteConfig} {score : ℕ}
          → (winner ≡ some (w, score)) ⊎ Candidate routes w score
          → (winner ≡ some (w, score)) ⊎ Candidate (x ∷ routes) w score
      passed (inl same) = inl same
      passed (inr (inside, holds)) = inr (inr inside, holds)

  -- Where some route matches the path, `matchRoute` returns one that matches, whose score is at least
  -- that of this route and so of every matching route, whatever sound cache of compiled patterns it
  -- starts with; and it leaves a sound cache.
  pub match_route-best :
      (routes : List RouteConfig) (r : RouteConfig) (cache : List (Text × UrlPattern))
      → IsSound cache
      → In r routes
      → matches r ≡ true
      → ((w : RouteConfig) × ((match_route compile test routes path cache).0
            ≡ some (w, specificity_score w.pattern))
          × In w routes
          × (matches w ≡ true)
          × (specificity_score r.pattern ≤ specificity_score w.pattern))
        × IsSound (match_route compile test routes path cache).1
  unfolding match_route Found
  match_route-best routes r cache sound there hit =
      let (chosen, sound') = match_from-choose routes none cache sound in
      let (w, score, e, le, from) = choose-Found routes r none there hit in
      (finish w score (chosen ∙ e) le from, sound')
    where
      finish :
          (w : RouteConfig) (score : ℕ)
          → (match_from compile test path routes none cache).0 ≡ some (w, score)
          → specificity_score r.pattern ≤ score
          → (none ≡ won w score) ⊎ Candidate routes w score
          → (w' : RouteConfig) × ((match_from compile test path routes none cache).0
              ≡ some (w', specificity_score w'.pattern))
            × In w' routes
            × (matches w' ≡ true)
            × (specificity_score r.pattern ≤ specificity_score w'.pattern)
      finish w score e le (inl impossible) = absurd cc
      finish w score e le (inr (inside, (hits, scored))) =
          (w, e ∙ ap (λ n. some (w, n)) scored, inside, hits, rw (sym scored) le)
