-- ===== src/Common/Maps.antt =====
-- Dictionaries with text keys, as functions.
use Prim.Native.String.{String}
use mathlib.Core.Bool.{Bool}
use mathlib.Core.Option.{Option, none, some}
use text.Mathlib.Text.{◌==◌}
use event_sourcing_testbed.Common.Tests.{if◌then◌else◌}

abbrev pub str_eq : String → String → Bool
str_eq a b = a == b

abbrev pub Dict {ℓ} : Type ℓ → Type ℓ
Dict V = String → Option V

abbrev pub empty_dict {ℓ} : {V : Type ℓ} → Dict V
empty_dict k = none

abbrev pub put {ℓ} : {V : Type ℓ} → Dict V → String → V → Dict V
put d k v j = if str_eq k j then some v else d j
