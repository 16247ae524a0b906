-- ===== src/Prelude/Texts.antt =====
-- Texts that are put together.
use Prim.Native.String.{String, [], ◌∷◌, ◌++◌}
use mathlib.Core.Path.{refl}
use mathlib.Core.Logic.{◌≢◌}
use text.Mathlib.TextLemmas.{cons-append}

pub append-ne-empty : (label text : String) → label ≢ "" → label ++ text ≢ ""
append-ne-empty [] text named = absurd (named refl)
append-ne-empty (c ∷ label) text named = λ e. cc (cons-append c label text, e)
