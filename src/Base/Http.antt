-- ===== src/Base/Http.antt =====
-- What a FastAPI route ends with: a value, or the status and the detail of a raised HTTPException. A
-- route also returns the state that it leaves, since what it wrote before the exception stays.
use Prim.Native.Nat.{ℕ}
use mathlib.Core.Path.{◌≡◌, refl}
use mathlib.Core.Bool.{Bool, true, false}
use gov_crawler.Base.Tests.{if◌then◌else◌}
use gov_crawler.Base.Text.{Text}

pub data Response {ℓ} (A : Type ℓ) : Type ℓ where
  ok : A → Response A
  http_error : ℕ → Text → Response A

abbrev pub is_ok {ℓ} : {A : Type ℓ} → Response A → Bool
is_ok (ok a) = true
is_ok (http_error status detail) = false

module _ {A : Type 0} where
  pub error_ne_ok : (status : ℕ) (detail : Text) (a : A) → http_error status detail ≡ ok a → ⊥
  error_ne_ok status detail a h = cc

  -- A guard that raises was passed where the route returned a value.
  pub guard_passed :
      (b : Bool) (status : ℕ) (detail : Text) (r : Response A) (a : A)
      → (if b then http_error status detail else r) ≡ ok a
      → (b ≡ false) × (r ≡ ok a)
  guard_passed true status detail r a h = absurd (error_ne_ok status detail a h)
  guard_passed false status detail r a h = (refl, h)
