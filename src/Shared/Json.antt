-- ===== src/Shared/Json.antt =====
-- JSON values. A number is its sign, its integer part and whether it is whole; the code under
-- verification uses no more of it.
use Prim.Native.Nat.{ℕ}
use Prim.Native.String.{String}
use mathlib.Core.Bool.{Bool}
use mathlib.Core.Option.{Option, none, some}
use mathlib.Core.List.{List, [], ◌∷◌}
use wordclaw.Shared.Tests.{if◌then◌else◌, ◌==◌, string_eq}

pub record Number : Type 0 where
  pub negative : Bool
  pub integer_part : ℕ
  pub whole : Bool

mutual
  pub data Json : Type 0 where
    null : Json
    bool : Bool → Json
    num : Number → Json
    str : String → Json
    arr : Items → Json
    obj : Fields → Json

  pub data Items : Type 0 where
    nil : Items
    cons : Json → Items → Items

  pub data Fields : Type 0 where
    end : Fields
    field : String → Json → Fields → Fields

-- `o[key]`, `none` for undefined.
unfoldable pub get : String → Fields → Option Json
get k end = none
get k (field j v fs) = let rest = get k fs in if j == k then some v else rest

unfoldable pub put : String → Json → Fields → Fields
put k v end = field k v end
put k v (field j w fs) = let rest = field j w (put k v fs) in if j == k then field j v fs else rest

-- `{ ...base, ...patch }`.
unfoldable pub spread : Fields → Fields → Fields
unfolding put
spread base end = base
spread base (field k v patch) = spread (put k v base) patch

abbrev pub items : Items → List Json
items nil = []
items (cons v vs) = v ∷ items vs

abbrev pub entries : Fields → List (String × Json)
entries end = []
entries (field k v fs) = (k, v) ∷ entries fs
