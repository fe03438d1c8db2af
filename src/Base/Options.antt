-- ===== src/Base/Options.antt =====
-- Chains of results that may be missing: `none` ends the chain, as an exception does.
use mathlib.Core.Option.{Option, none, some}

infixl 5 ◌>>=◌
abbrev pub ◌>>=◌ {ℓ κ} :
    {A : Type ℓ} {B : Type κ} (first : Option A) (next : A → Option B) → Option B
none >>= next = none
some a >>= next = next a
