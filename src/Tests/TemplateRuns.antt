-- ===== src/Tests/TemplateRuns.antt =====
-- The renderer over a cache in memory and a disk with one template, "otp.html"; a template is its own
-- text, and renders to it.
use edu_learn_notification_s.Prelude.{
  ℕ, ◌+◌, ltb, false, String, ◌≡◌, refl, ap, List, [], ◌∷◌, Option, none, some, arith, ◌==◌,
  if◌then◌else◌,
}
use edu_learn_notification_s.Errors.{Result, ok, err, new}
use edu_learn_notification_s.Effect.{Exec}
use edu_learn_notification_s.Ports.{Cache}
use edu_learn_notification_s.Redis.Laws.{CacheLaws, lifetime}
use edu_learn_notification_s.Template.{
  render, find_source, load_source, cached_source, is_cache_miss, clean_and_join_path, rendered,
  trim_left, trim_right,
}
use edu_learn_notification_s.Template.Sources.{IsFrom, render-IsFrom}
use Prim.Native.String.{◌++◌}

abbrev Texts : Type 0
Texts = List (String × Option (String × ℕ))

abbrev alive : ℕ → Option (String × ℕ) → Option String
alive now none = none
alive now (some (text, deadline)) = if ltb now deadline then some text else none

abbrev look : ℕ → String → Texts → Option String
look now key [] = none
look now key ((j, v) ∷ w) = if j == key then alive now v else look now key w

abbrev or_missing : Option String → Result String
or_missing none = err (new "the requested item was not found in the Redis cache (cache miss)")
or_missing (some text) = ok text

abbrev texts : Cache Texts String
texts = record {
  set = λ now key text ttl w. (ok tt, (key, some (text, now + lifetime ttl)) ∷ w);
  get = λ now key w. (or_missing (look now key w), w);
  delete = λ key w. (ok tt, (key, none) ∷ w);
  exists = λ now key w. (ok false, w);
}

or_missing-ok : (o : Option String) (v : String) → or_missing o ≡ ok v → o ≡ some v
or_missing-ok none v h = ground arith
or_missing-ok (some text) v h = ground arith

texts-CacheLaws : CacheLaws texts look
texts-CacheLaws = record {
  get_found = λ now key w v h. or_missing-ok (look now key w) v h;
  get_keeps = λ now key w n j. refl;
  set_ok = λ now key v ttl w h n j le. refl;
  delete_ok = λ key w h n j. refl;
}

abbrev disk : String → Exec Texts String
disk path w =
    if path == "/templates/otp.html" then (ok "Your code", w) else (err (new "no such file"), w)

abbrev join : String → String → String
join a b = a ++ ("/" ++ b)

abbrev parse : String → String → Result String
parse name source = ok source

abbrev execute : String → List (String × String) → Result String
execute t fields = ok t

trim_runs : (trim_right "/templates//" ≡ "/templates") × (trim_left "/otp.html" ≡ "otp.html")
unfolding trim_left trim_right
trim_runs = (refl, refl)

abbrev after : Texts
after = ("tmpl:/otp.html", some ("Your code", 864000000000007)) ∷ []

render_run :
    render texts disk join (λ s. s) parse execute "/templates/" 7 "/otp.html" [] []
    ≡ (ok "Your code", after)
unfolding render find_source load_source cached_source is_cache_miss clean_and_join_path rendered
    trim_left trim_right
render_run = refl

render-IsFrom_example :
    (source : String) × (t : String) × (parse "/otp.html" source ≡ ok t)
    × (execute t [] ≡ ok "Your code")
    × IsFrom texts look texts-CacheLaws disk join
        (λ s. s)
        parse
        execute
        "/templates/"
        7
        "/otp.html"
        source
        []
        (render texts disk join (λ s. s) parse execute "/templates/" 7 "/otp.html" [] []).1
render-IsFrom_example =
    render-IsFrom texts look texts-CacheLaws disk join (λ s. s) parse execute "/templates/" 7
      "/otp.html" [] [] "Your code" (ap (λ r. r.0) render_run)
