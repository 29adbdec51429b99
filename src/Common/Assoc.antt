-- ===== src/Common/Assoc.antt =====
-- `HashMap<String, V>` as an association list: what `insert`, `get` and `remove` do to the entries.
use openid_tls_connector.Common.Tests.{if◌then◌else◌}
use Prim.Native.String.{String}
use mathlib.Core.Path.{◌≡◌}
use mathlib.Core.Option.{Option, none, some}
use mathlib.Core.List.{List, [], ◌∷◌}
use native.Mathlib.Omega.{arith}
use text.Mathlib.Text.{◌==◌}
use text.Mathlib.TextEquality.{eq_iff}

abbrev pub Table {ℓ} : Type ℓ → Type ℓ
Table V = List (String × V)

module _ {ℓ} {V : Type ℓ} where
  unfoldable pub lookup : String → Table V → Option V
  lookup wanted [] = none
  lookup wanted (entry ∷ table) =
      let further = lookup wanted table in if entry.0 == wanted then some entry.1 else further

  -- Every entry of the key goes.
  unfoldable pub remove : String → Table V → Table V
  remove gone [] = []
  remove gone (entry ∷ table) =
      let kept = remove gone table in if entry.0 == gone then kept else entry ∷ kept

  -- The new entry takes the place of the key's old ones.
  unfoldable pub insert : String → V → Table V → Table V
  unfolding remove
  insert added value table = (added, value) ∷ remove added table

  pub lookup-remove :
      (gone wanted : String) (table : Table V)
      → lookup wanted (remove gone table) ≡ (if gone == wanted then none else lookup wanted table)
  unfolding lookup remove
  lookup-remove gone wanted [] = ground arith
  lookup-remove gone wanted (entry ∷ table) = ground (
    arith,
    eq_iff gone wanted,
    eq_iff entry.0 gone,
    eq_iff entry.0 wanted,
    lookup-remove gone wanted table,
  )

  pub lookup-insert :
      (added wanted : String) (value : V) (table : Table V)
      → lookup wanted (insert added value table)
        ≡ (if added == wanted then some value else lookup wanted table)
  unfolding lookup insert
  lookup-insert added wanted value table = ground (arith, lookup-remove added wanted table)
