-- ===== src/Base/Results.antt =====
-- What a Python function does: it returns a value or raises an exception.
use mathlib.Core.Option.{Option, none, some}
use mathlib.Core.Path.{◌≡◌, refl}

-- NeedData, UnpackError and PackError of dpkt/dpkt.py, struct.error, IndexError,
-- UnicodeDecodeError, AttributeError, TypeError. `stuck` is no exception: it says that the fuel of a
-- loop has run out.
pub data Error : Type 0 where
  need_data unpack_error pack_error struct_error index_error unicode_error attribute_error
        type_error stuck :
      Error

pub data Outcome {ℓ} (V : Type ℓ) : Type ℓ where
  raises : Error → Outcome V
  returns : V → Outcome V

-- An attribute that an object may not have
unfoldable pub attribute {ℓ} : {A : Type ℓ} → Option A → Outcome A
attribute none = raises attribute_error
attribute (some a) = returns a

infixl 5 ◌>>=◌
abbrev pub ◌>>=◌ {ℓ κ} : {V : Type ℓ} {W : Type κ} → Outcome V → (V → Outcome W) → Outcome W
raises e >>= next = raises e
returns v >>= next = next v

-- A sequence that returns has returned from its first step.
pub bind_inversion {ℓ κ} :
    {V : Type ℓ} {W : Type κ} (first : Outcome V) (next : V → Outcome W) {w : W}
    → (first >>= next) ≡ returns w
    → (v : V) × (first ≡ returns v) × (next v ≡ returns w)
bind_inversion (raises e) next h = cc
bind_inversion (returns v) next h = (v, refl, h)
