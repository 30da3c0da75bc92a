-- ===== src/Common/Actions.antt =====
-- Go functions that use the outside world: a call takes the world and gives the world it leaves,
-- with a value, an error, or a panic that unwinds the whole call.
use mathlib.Core.Option.{Option, none, some}
use multi_cloud.Common.Texts.{Text}

pub data Result {ℓ} (A : Type ℓ) : Type ℓ where
  done : A → Result A
  failed : Text → Result A
  panicked : Result A

abbrev pub Act : Type 0 → Type 0 → Type 0
Act W A = W → W × Result A

abbrev pub return : {W A : Type 0} → A → Act W A
return a w = (w, done a)

abbrev pub fail : {W A : Type 0} → Text → Act W A
fail e w = (w, failed e)

abbrev pub panic : {W A : Type 0} → Act W A
panic w = (w, panicked)

abbrev pub continue : {W A B : Type 0} → (A → Act W B) → W × Result A → W × Result B
continue rest (w, done a) = rest a w
continue rest (w, failed e) = (w, failed e)
continue rest (w, panicked) = (w, panicked)

-- `if err != nil { return err }` after the call.
infixl 5 ◌>>=◌
unfoldable pub ◌>>=◌ : {W A B : Type 0} → Act W A → (A → Act W B) → Act W B
◌>>=◌ act rest w = continue rest (act w)

abbrev pub caught : {W A : Type 0} → W × Result A → W × Result (Option Text)
caught (w, done a) = (w, done none)
caught (w, failed e) = (w, done (some e))
caught (w, panicked) = (w, panicked)

-- `err := call`, for a caller that goes on after an error.
unfoldable pub attempt : {W A : Type 0} → Act W A → Act W (Option Text)
attempt act w = caught (act w)

abbrev pub taken : {W A : Type 0} → W × Result A → W × Result (Option A)
taken (w, done a) = (w, done (some a))
taken (w, failed e) = (w, done none)
taken (w, panicked) = (w, panicked)

-- `a, err := call`, for a caller that only asks whether there was an error.
unfoldable pub tried : {W A : Type 0} → Act W A → Act W (Option A)
tried act w = taken (act w)

abbrev pub renamed : {W A : Type 0} → Text → W × Result A → W × Result A
renamed e (w, done a) = (w, done a)
renamed e (w, failed d) = (w, failed e)
renamed e (w, panicked) = (w, panicked)

-- `if err != nil { return errors.New(e) }` after the call.
unfoldable pub or_fail : {W A : Type 0} → Text → Act W A → Act W A
or_fail e act w = renamed e (act w)
