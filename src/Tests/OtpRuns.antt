-- ===== src/Tests/OtpRuns.antt =====
-- One-time passwords: a password of "ann" is stored until the moment 100, and the service runs over the
-- server in memory.
use edu_learn_notification_s.Prelude.{
  ℕ, ◌+◌, ◌≤◌, ◌<◌, ◌↔◌, true, false, String, ◌≡◌, ◌≢◌, refl, List, [], ◌∷◌, All, Option, some,
  arith, eq_iff,
}
use edu_learn_notification_s.Errors.{Err, Result, ok, err}
use edu_learn_notification_s.Grpc.{
  Request, Response, ProtoError, success, EmailOtpService, serve_verify_otp,
}
use edu_learn_notification_s.Grpc.Otp.{email_otp_service, serve_verify_otp_sound}
use edu_learn_notification_s.Effect.{Exec}
use edu_learn_notification_s.Otp.{
  Otp, new_otp, generate_otp, otp_expiration, verify, max_otp_attempts,
}
use edu_learn_notification_s.Ports.{OtpRepository, TemplateRenderer, EventPublisher, EmailSender}
use edu_learn_notification_s.Redis.{redis_cache, build_key}
use edu_learn_notification_s.Redis.Laws.{CacheLaws, decode, redis_cache-CacheLaws}
use edu_learn_notification_s.OtpStore.{save_otp, otp_key, otp_repository}
use edu_learn_notification_s.OtpStore.Laws.{OtpRepositoryLaws, otp_repository-OtpRepositoryLaws}
use edu_learn_notification_s.EmailOtp.{send_otp, verify_otp}
use edu_learn_notification_s.EmailOtp.Sent.{IsCalm, send, send_otp-verify_otp}
use edu_learn_notification_s.EmailOtp.Verification.{
  IsQuiet, IsReachable, verify_otp_sound, verify_otp_once, guess_all, guess_all-verify_otp,
}
use edu_learn_notification_s.Tests.Memory.{
  Writes, look, memory, memory-RedisLaws, plain, plain_round_trip,
}

abbrev ann : Otp
ann = record { code = "731904"; email = "ann@x.io"; user_id = "u1"; expires_at = 100; attempts = 0 }

abbrev repo : OtpRepository Writes
repo = otp_repository (redis_cache memory "svc" plain)

abbrev peek_svc : ℕ → String → Writes → Option Otp
peek_svc n j w = decode plain (look n (build_key "svc" j) w)

cache_laws : CacheLaws (redis_cache memory "svc" plain) peek_svc
cache_laws = redis_cache-CacheLaws memory look memory-RedisLaws plain plain_round_trip "svc"

abbrev stored : ℕ → String → Writes → Option Otp
stored n email w = peek_svc n (otp_key email) w

repo_laws : OtpRepositoryLaws repo stored
repo_laws = otp_repository-OtpRepositoryLaws (redis_cache memory "svc" plain) peek_svc cache_laws

abbrev stored_ann : Writes
stored_ann = ("svc:otp:ann@x.io", some (ann, some 100)) ∷ []

abbrev renderer : TemplateRenderer Writes
renderer = record { render = λ name fields w. (ok "", w) }

abbrev broker : EventPublisher Writes
broker = record { publish_otp_verified = λ e w. (ok tt, w) }

abbrev sender : EmailSender Writes
sender = record { send = λ n w. (ok tt, w) }

abbrev dice : ℕ → Result ℕ
dice k = ok (k + 3)

abbrev new_id : Exec Writes String
new_id w = (ok "id", w)

redis_cache-CacheLaws_example : CacheLaws (redis_cache memory "svc" plain) peek_svc
redis_cache-CacheLaws_example =
    redis_cache-CacheLaws memory look memory-RedisLaws plain plain_round_trip "svc"

otp_repository-OtpRepositoryLaws_example : OtpRepositoryLaws repo stored
otp_repository-OtpRepositoryLaws_example =
    otp_repository-OtpRepositoryLaws (redis_cache memory "svc" plain) peek_svc cache_laws

run_result :
    (verify_otp repo renderer broker sender
      (λ w. dice)
      new_id
      ""
      7
      "ann@x.io"
      "731904"
      stored_ann).0
    ≡ ok true
unfolding verify_otp otp_repository redis_cache build_key otp_key verify
run_result = refl

quiet : IsQuiet repo stored repo_laws renderer broker sender (λ w. dice) new_id ""
quiet = record { publish_keeps = λ e w n j. refl; new_id_keeps = λ w n j. refl }

get-stored :
    (now : ℕ) (email : String) (w : Writes) (o : Otp)
    → stored now email w ≡ some o
    → (repo.get_otp now email w).0 ≡ ok o
unfolding otp_repository redis_cache build_key otp_key
get-stored now email w o h = ground arith

save-runs :
    (now : ℕ) (o : Otp) (w : Writes) → now < o.expires_at → (repo.save_otp now o w).0 ≡ ok tt
unfolding otp_repository redis_cache save_otp
save-runs now o w h = ground arith

reach : IsReachable repo stored repo_laws renderer broker sender (λ w. dice) new_id ""
reach = record {
  get_stored = get-stored;
  save_runs = save-runs;
  delete_runs = λ email w. unfold otp_repository redis_cache in refl;
}

stored_now : stored 7 "ann@x.io" stored_ann ≡ some ann
unfolding build_key otp_key
stored_now = refl

verify_otp_sound_example :
    (o : Otp) × (stored 7 "ann@x.io" stored_ann ≡ some o)
    × (o.code ≡ "731904")
    × (7 < o.expires_at)
    × (o.attempts < max_otp_attempts)
verify_otp_sound_example =
    verify_otp_sound repo stored repo_laws renderer broker sender (λ w. dice) new_id "" 7 "ann@x.io"
      "731904" stored_ann run_result

verify_otp_once_example :
    (verify_otp repo renderer broker sender
      (λ w. dice)
      new_id
      ""
      8
      "ann@x.io"
      "731904"
      (verify_otp repo renderer broker sender
        (λ w. dice)
        new_id
        ""
        7
        "ann@x.io"
        "731904"
        stored_ann).1).0
    ≡ ok false
verify_otp_once_example =
    verify_otp_once repo stored repo_laws renderer broker sender (λ w. dice) new_id "" quiet reach 7
      8 "ann@x.io" "731904" "731904" stored_ann run_result

abbrev guesses : List String
guesses = "000000" ∷ "111111" ∷ "222222" ∷ "333333" ∷ []

guesses_wrong : All (λ g. g ≢ "731904") guesses
guesses_wrong = ground (
  arith,
  eq_iff "000000" "731904",
  eq_iff "111111" "731904",
  eq_iff "222222" "731904",
  eq_iff "333333" "731904",
)

guess_all-verify_otp_example :
    (verify_otp repo renderer broker sender
      (λ w. dice)
      new_id
      ""
      7
      "ann@x.io"
      "731904"
      (guess_all repo stored repo_laws renderer broker sender
        (λ w. dice)
        new_id
        ""
        7
        "ann@x.io"
        guesses
        stored_ann)).0
    ≡ ok true
guess_all-verify_otp_example =
    guess_all-verify_otp repo stored repo_laws renderer broker sender (λ w. dice) new_id "" reach 7
      "ann@x.io" ann guesses stored_ann stored_now refl (omega arith) (omega arith) guesses_wrong

abbrev no_text : Err → String
no_text e = ""

abbrev accept : Request → Result (Unit {0})
accept r = ok tt

abbrev otps : EmailOtpService Writes
otps = email_otp_service repo renderer broker sender (λ w. dice) new_id "" 7

served :
    (serve_verify_otp no_text accept otps "ann@x.io" "731904" stored_ann).0
    ≡ success "OTP verified successfully"
unfolding serve_verify_otp email_otp_service verify_otp otp_repository redis_cache build_key otp_key
    verify
served = refl

serve_verify_otp_sound_example :
    let otps = email_otp_service repo renderer broker sender (λ w. dice) new_id "" 7 in
    let call = serve_verify_otp no_text accept otps "ann@x.io" "731904" stored_ann in
    ((said : String)
      → call.0 ≡ success said
      → (accept (Request.verify_otp_request "ann@x.io" "731904") ≡ ok tt)
        × (o : Otp) × (stored 7 "ann@x.io" stored_ann ≡ some o)
        × (o.code ≡ "731904")
        × (7 < o.expires_at)
        × (o.attempts < max_otp_attempts))
    × ((e : Err)
        → accept (Request.verify_otp_request "ann@x.io" "731904") ≡ err e
        → (p : ProtoError) × (call ≡ (Response.error p, stored_ann)))
serve_verify_otp_sound_example =
    serve_verify_otp_sound repo stored repo_laws renderer broker sender (λ w. dice) new_id ""
      no_text accept 7 "ann@x.io" "731904" stored_ann

calm : IsCalm repo stored repo_laws renderer broker sender (λ w. dice) new_id ""
calm = record {
  render_keeps = λ name fields w n j. refl;
  new_id_keeps = λ w n j. refl;
  send_keeps = λ m w n j. refl;
}

sent :
    (send repo stored repo_laws renderer broker sender
      (λ w. dice)
      new_id
      ""
      7
      "u2"
      "bob@x.io"
      "Bob"
      []).0
    ≡ ok tt
unfolding send_otp new_otp generate_otp otp_repository redis_cache
sent = refl

send_otp-verify_otp_example :
    (o : Otp) × (new_otp dice 7 "u2" "bob@x.io" ≡ ok o)
    × ((later : ℕ) (code : String)
        → 7 ≤ later
        → later < 7 + otp_expiration
        → ((verify_otp repo renderer broker sender
              (λ w. dice)
              new_id
              ""
              later
              "bob@x.io"
              code
              (send repo stored repo_laws renderer broker sender
                (λ w. dice)
                new_id
                ""
                7
                "u2"
                "bob@x.io"
                "Bob"
                []).1).0
            ≡ ok true)
          ↔ (code ≡ o.code))
send_otp-verify_otp_example =
    send_otp-verify_otp repo stored repo_laws renderer broker sender (λ w. dice) new_id "" calm
      reach 7 "u2" "bob@x.io" "Bob" [] sent
