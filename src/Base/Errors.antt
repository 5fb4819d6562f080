-- ===== src/Base/Errors.antt =====
-- Go's error values, as far as the code looks into them: the text, and what `errors.Is` and
-- `errors.As` find in the chain.
use mathlib.Core.Bool.{Bool, false, ◌||◌}
use mathlib.Core.Option.{Option, none, some}
use mathlib.Core.List.{◌∷◌, ◌++◌}
use Prim.Native.String.{String}
use cf_herdr_poc.Base.Text.{Bytes, codes}

-- The first value of the chain that has the methods `Absent` and `AlreadyExists` (`*cf.Error` is
-- the one type that has them, and it has both).
pub record Class : Type 0 where
  pub absent : Bool
  pub already_exists : Bool

pub record Err : Type 0 where
  pub text : Bytes
  pub unsupported : Bool  -- `errors.Is(err, errors.ErrUnsupported)`
  pub class : Option Class

-- `errors.New`, and `fmt.Errorf` with no `%w`.
abbrev pub error_text : Bytes → Err
error_text t = record { text = t; unsupported = false; class = none }

abbrev pub error_new : String → Err
error_new t = error_text (codes t)

-- `fmt.Errorf("prefix: %w", err)`.
abbrev pub wrap : String → Err → Err
wrap prefix e = record e { text = codes prefix ++ codes ": " ++ e.text }

abbrev pub first_class : Option Class → Option Class → Option Class
first_class (some c) _ = some c
first_class none d = d

-- `errors.Join(cause, other)` where `cause` is not nil.
abbrev pub join : Err → Option Err → Err
join e none = e
join e (some d) = record {
  text = e.text ++ (b'\n' ∷ d.text);
  unsupported = e.unsupported || d.unsupported;
  class = first_class e.class d.class;
}
