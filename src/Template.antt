-- ===== src/Template.antt =====
-- internal/infrastructure/template/renderer.go: the templates of the mails, with their sources in the
-- cache. The file system (`read_file`), filepath (`join`, `base`) and html/template (`parse`, `execute`)
-- are parameters. Paths have the separator "/".
pub mod Sources
use edu_learn_notification_s.Prelude.{
  ℕ, ◌*◌, Bool, true, false, ◌&&◌, String, List, Char, code, eqb, ◌==◌, if◌then◌else◌,
}
use edu_learn_notification_s.Errors.{Err, Result, ok, err, domain, new, wrap, with_context}
use edu_learn_notification_s.Effect.{Exec, lift, context, attempt, pure, ◌>>=◌, ◌>>◌}
use edu_learn_notification_s.Otp.{minute}
use edu_learn_notification_s.Ports.{Cache, TemplateRenderer}
use Prim.Native.String.{◌++◌}

abbrev pub template_cache_expiration : ℕ
template_cache_expiration = 10 * (24 * (60 * minute))

-- strings.TrimLeft(s, "//") and strings.TrimRight
unfoldable pub trim_left : String → String
trim_left String.[] = ""
trim_left (String.◌∷◌ c s) =
    let rest = trim_left s in if eqb (code c) 47 then rest else String.◌∷◌ c s

unfoldable pub trim_right : String → String
trim_right String.[] = ""
trim_right (String.◌∷◌ c s) =
    let rest = trim_right s in if eqb (code c) 47 && (rest == "") then "" else String.◌∷◌ c rest

-- errors.Is(err, redis.ErrorCacheMiss)
unfoldable pub is_cache_miss : Err → Bool
is_cache_miss (domain e) = false
is_cache_miss (new text) =
    text == "the requested item was not found in the Redis cache (cache miss)"
is_cache_miss (wrap text e) = is_cache_miss e

-- The source that the cache gives, "" on a miss.
unfoldable pub cached_source : Result String → Result String
cached_source (ok source) = ok source
cached_source (err e) =
    if is_cache_miss e then ok "" else err (wrap "failed to get template from redis" e)

abbrev pub cache_key : String → String
cache_key template_name = "tmpl:" ++ template_name

module _ {W T : Type 0} (cache : Cache W String) (read_file : String → Exec W String)
    (join : String → String → String) (base : String → String) (parse : String → String → Result T)
    (execute : T → List (String × String) → Result String) (base_path : String) where
  -- func cleanAndJoinPath(basePath, templateName string) string; filepath.Join cleans what it joins
  unfoldable pub clean_and_join_path : String → String
  clean_and_join_path template_name = join (trim_right base_path) (trim_left template_name)

  -- The source from the file, kept in the cache for the next time.
  unfoldable pub load_source : ℕ → String → Exec W String
  load_source now template_name = do
    source ← context "failed to read template file" (read_file (clean_and_join_path template_name))
    context "failed to cache template in redis"
        (cache.set now (cache_key template_name) source template_cache_expiration)
    pure source

  unfoldable pub find_source : ℕ → String → Exec W String
  unfolding cached_source load_source
  find_source now template_name = do
    found ← attempt (cache.get now (cache_key template_name))
    source ← lift (cached_source found)
    if source == "" then load_source now template_name else pure source

  unfoldable pub rendered : String → List (String × String) → String → Result String
  rendered template_name fields source = elim (parse (base template_name) source) [
    | err e ↦ err (wrap "failed to parse template" e)
    | ok t ↦ with_context "failed to render template" (execute t fields)
  ]

  -- func (r *TemplateRenderer) Render(templateName string, data map[string]string) (string, error)
  unfoldable pub render : ℕ → String → List (String × String) → Exec W String
  unfolding find_source rendered
  render now template_name fields = do
    source ← find_source now template_name
    lift (rendered template_name fields source)

  -- The renderer as its users see it, in a request at the time `now`.
  unfoldable template_renderer : ℕ → TemplateRenderer W
  template_renderer now = record { render = render now }
