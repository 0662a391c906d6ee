-- ===== src/Template/Sources.antt =====
-- Where the source of a rendered template comes from.
use edu_learn_notification_s.Prelude.{
  ℕ, ◌+◌, ◌≤◌, ◌<◌, String, List, ◌≡◌, ◌≢◌, ◌⊎◌, inl, inr, refl, sym, ap, ◌∙◌, subst, Option, some,
  arith, lt→ltb, ◌==◌, eq_iff, eq_refl, Bool-cases, true,
}
use edu_learn_notification_s.Errors.{Err, Result, ok, err, Result-cases}
use edu_learn_notification_s.Effect.{Exec}
use edu_learn_notification_s.Ports.{Cache}
use edu_learn_notification_s.Redis.Laws.{CacheLaws}
use edu_learn_notification_s.Template.{
  template_cache_expiration, cache_key, cached_source, is_cache_miss, clean_and_join_path,
  load_source, find_source, rendered, render,
}

module _ {W T : Type 0} (cache : Cache W String) (peek : ℕ → String → W → Option String)
    (laws : CacheLaws cache peek) (read_file : String → Exec W String)
    (join : String → String → String) (base : String → String) (parse : String → String → Result T)
    (execute : T → List (String × String) → Result String) (base_path : String) where
  -- The entry of a template holds `source` for ten days from `now` on.
  abbrev pub IsKept : ℕ → String → String → W → Type 0
  IsKept now name source w =
      (n : ℕ)
      → now ≤ n
      → n < now + template_cache_expiration
      → peek n (cache_key name) w ≡ some source

  abbrev pub path_of : String → String
  path_of name = clean_and_join_path cache read_file join base parse execute base_path name

  load_source-ok :
      (now : ℕ) (name source : String) (w : W)
      → (load_source cache read_file join base parse execute base_path now name w).0 ≡ ok source
      → ((read_file (path_of name) w).0 ≡ ok source)
        × IsKept now name source
            (load_source cache read_file join base parse execute base_path now name w).1
  unfolding load_source
  load_source-ok now name source w h = elim (Result-cases (read_file (path_of name) w).0) [
    | inr (x, e) ↦ ground (arith, h, e)
    | inl (s, e) ↦
        let v = (read_file (path_of name) w).1 in
        elim (Result-cases (cache.set now (cache_key name) s template_cache_expiration v).0) [
          | inr (x, bad) ↦ ground (arith, h, e, bad)
          | inl (u, good) ↦
              let same : s ≡ source = ground (arith, h, e, good) in
              (
                e ∙ ap ok same,
                λ n from until.
                    let stored =
                      laws.set_ok now (cache_key name) s template_cache_expiration v good n
                        (cache_key name) from in
                    let alive = lt→ltb n (now + template_cache_expiration) until in
                    rw (e, good) (ground (arith, stored, alive, same, eq_refl (cache_key name))),
              )
        ]
  ]

  rendered-ok :
      (name : String) (fields : List (String × String)) (source r : String)
      → rendered cache read_file join base parse execute base_path name fields source ≡ ok r
      → (t : T) × (parse (base name) source ≡ ok t) × (execute t fields ≡ ok r)
  unfolding rendered
  rendered-ok name fields source r h = elim (Result-cases (parse (base name) source)) [
    | inl (t, e) ↦ (t, e, ground (arith, h, e))
    | inr (x, e) ↦ ground (arith, h, e)
  ]

  -- The cache has no source to give: a miss, or the empty text.
  abbrev pub IsMissed : Result String → Type 0
  IsMissed found = (found ≡ ok "") ⊎ ((e : Err) × (found ≡ err e) × (is_cache_miss e ≡ true))

  -- Where a source is from: the entry of the cache, or, where there is none, the file, and then it is
  -- kept.
  abbrev pub IsFrom : ℕ → String → String → W → W → Type 0
  IsFrom now name source w w' =
      ((source ≢ "")
        × (peek now (cache_key name) w ≡ some source)
        × (w' ≡ (cache.get now (cache_key name) w).1))
      ⊎ (IsMissed (cache.get now (cache_key name) w).0
          × ((read_file (path_of name) (cache.get now (cache_key name) w).1).0 ≡ ok source)
          × IsKept now name source w')

  abbrev find : ℕ → String → Exec W String
  find now name = find_source cache read_file join base parse execute base_path now name

  abbrev load : ℕ → String → Exec W String
  load now name = load_source cache read_file join base parse execute base_path now name

  abbrev after_get : ℕ → String → W → W
  after_get now name w = (cache.get now (cache_key name) w).1

  find_source-load :
      (now : ℕ) (name source : String) (w : W)
      → IsMissed (cache.get now (cache_key name) w).0
      → find now name w ≡ load now name (after_get now name w)
      → (find now name w).0 ≡ ok source
      → IsFrom now name source w (find now name w).1
  find_source-load now name source w missed run =
      subst (λ r. r.0 ≡ ok source → IsFrom now name source w r.1) (sym run)
        λ h.
          let (read, kept) = load_source-ok now name source (after_get now name w) h in
          inr (missed, read, kept)

  find_source-ok :
      (now : ℕ) (name source : String) (w : W)
      → (find now name w).0 ≡ ok source
      → IsFrom now name source w (find now name w).1
  unfolding find_source cached_source
  find_source-ok now name source w h = elim (Result-cases (cache.get now (cache_key name) w).0) [
    | inr (x, e) ↦ elim (Bool-cases (is_cache_miss x)) [
      | inl miss ↦ find_source-load now name source w (inr (x, e, miss)) (rw (e, miss) refl) h
      | inr failed ↦ ground (arith, h, e, failed)
    ]
    | inl (s, e) ↦ elim (Bool-cases (s == "")) [
      | inl none ↦
          let empty : s ≡ "" = ground (arith, none, eq_iff s "") in
          find_source-load now name source w (inl (e ∙ ap ok empty)) (rw (e, none) refl) h
      | inr full ↦
          let same : s ≡ source = ground (arith, h, e, full) in
          inl (
            λ q. ground (arith, full, same, q, eq_iff s ""),
            laws.get_found now (cache_key name) w source (e ∙ ap ok same),
            rw (e, full) refl,
          )
    ]
  ]

  -- A template that is rendered has been parsed from the source that the cache held at that time, which
  -- is not empty, and then nothing but the cache has been asked; or else, where the cache answered with
  -- a miss or an empty text, from its file, and then the cache holds the source for the ten days that
  -- follow. The text is the result of this template on the fields that were given.
  pub render-IsFrom :
      (now : ℕ) (name : String) (fields : List (String × String)) (w : W) (r : String)
      → (render cache read_file join base parse execute base_path now name fields w).0 ≡ ok r
      → (source : String) × (t : T) × (parse (base name) source ≡ ok t)
        × (execute t fields ≡ ok r)
        × IsFrom now name source w
            (render cache read_file join base parse execute base_path now name fields w).1
  unfolding render
  render-IsFrom now name fields w r h = elim (Result-cases (find now name w).0) [
    | inr (x, e) ↦ ground (arith, h, e)
    | inl (source, e) ↦
        let (t, parsed, executed) = rendered-ok name fields source r (ground (arith, h, e)) in
        (source, t, parsed, executed, rw e (find_source-ok now name source w e))
  ]
