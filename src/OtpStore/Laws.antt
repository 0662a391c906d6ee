-- ===== src/OtpStore/Laws.antt =====
-- The contract of `repository.OTPRepository`, and the proof that the repository meets it over a cache
-- that keeps its own.
use edu_learn_notification_s.Prelude.{
  ℕ, ◌≤◌, String, ◌≡◌, Option, none, some, if◌then◌else◌, ◌==◌, arith, ==-append,
}
use edu_learn_notification_s.Errors.{Err, ok, err, domain, otp_not_found}
use edu_learn_notification_s.Otp.{Otp}
use edu_learn_notification_s.Ports.{Cache, OtpRepository}
use edu_learn_notification_s.Redis.Laws.{CacheLaws, after_set}
use edu_learn_notification_s.OtpStore.{otp_key, save_otp, get_otp, delete_otp, otp_repository}

-- What the services may rely on. `stored now email w` is the password that is kept for an address.
pub record OtpRepositoryLaws {W : Type 0} (r : OtpRepository W)
    (stored : ℕ → String → W → Option Otp) : Type 0 where
  pub get_found :
      (now : ℕ) (email : String) (w : W) (o : Otp)
      → (r.get_otp now email w).0 ≡ ok o
      → stored now email w ≡ some o
  pub get_missing :
      (now : ℕ) (email : String) (w : W)
      → stored now email w ≡ none
      → (r.get_otp now email w).0 ≡ err (domain otp_not_found)
  pub get_fails :
      (now : ℕ) (email : String) (w : W) (e : Err)
      → (r.get_otp now email w).0 ≡ err e
      → e ≡ domain otp_not_found
  pub get_keeps :
      (now : ℕ) (email : String) (w : W) (n : ℕ) (j : String)
      → stored n j (r.get_otp now email w).1 ≡ stored n j w
  pub save_ok :
      (now : ℕ) (o : Otp) (w : W)
      → (r.save_otp now o w).0 ≡ ok tt
      → (n : ℕ) (j : String) → now ≤ n
      → stored n j (r.save_otp now o w).1 ≡ after_set o.email o o.expires_at n j (stored n j w)
  pub delete_ok :
      (email : String) (w : W)
      → (r.delete_otp email w).0 ≡ ok tt
      → (n : ℕ) (j : String)
      → stored n j (r.delete_otp email w).1 ≡ (if email == j then none else stored n j w)

module _ {W : Type 0} (cache : Cache W Otp) (peek : ℕ → String → W → Option Otp)
    (laws : CacheLaws cache peek) where
  key-eq : (a b : String) → (otp_key a == otp_key b) ≡ (a == b)
  unfolding otp_key
  key-eq a b = ==-append _ a b

  get-missing :
      (now : ℕ) (email : String) (w : W)
      → peek now (otp_key email) w ≡ none
      → (get_otp cache now email w).0 ≡ err (domain otp_not_found)
  unfolding get_otp
  get-missing now email w h = grind (arith, laws.get_found)

  get-found :
      (now : ℕ) (email : String) (w : W) (o : Otp)
      → (get_otp cache now email w).0 ≡ ok o
      → peek now (otp_key email) w ≡ some o
  unfolding get_otp
  get-found now email w o h = grind (arith, laws.get_found)

  get-fails :
      (now : ℕ) (email : String) (w : W) (e : Err)
      → (get_otp cache now email w).0 ≡ err e
      → e ≡ domain otp_not_found
  unfolding get_otp
  get-fails now email w e h = ground arith

  get-keeps :
      (now : ℕ) (email : String) (w : W) (n : ℕ) (j : String)
      → peek n j (get_otp cache now email w).1 ≡ peek n j w
  unfolding get_otp
  get-keeps now email w n j = ground (arith, laws.get_keeps now (otp_key email) w n j)

  save-ok :
      (now : ℕ) (o : Otp) (w : W)
      → (save_otp cache now o w).0 ≡ ok tt
      → (n : ℕ) (j : String) → now ≤ n
      → peek n (otp_key j) (save_otp cache now o w).1
        ≡ after_set o.email o o.expires_at n j (peek n (otp_key j) w)
  unfolding save_otp
  save-ok now o w h n j le = grind (arith, laws.set_ok, key-eq)

  -- Over a cache that keeps its contract the repository keeps its own: a password that is found is the
  -- stored one, and where none is stored none is found; a failure, one of the cache too, is always the
  -- error "not found"; a search changes nothing; after a save that succeeds the password is the one of
  -- its address until it expires, and those of the other addresses are as before; after a delete that
  -- succeeds the address has none.
  pub otp_repository-OtpRepositoryLaws :
      OtpRepositoryLaws (otp_repository cache) (λ n email w. peek n (otp_key email) w)
  unfolding otp_repository delete_otp
  otp_repository-OtpRepositoryLaws = record {
    get_found = get-found;
    get_missing = get-missing;
    get_fails = get-fails;
    get_keeps = λ now email w n j. get-keeps now email w n (otp_key j);
    save_ok = save-ok;
    delete_ok =
        λ email w h n j. rw (laws.delete_ok (otp_key email) w h n (otp_key j), key-eq email j);
  }
