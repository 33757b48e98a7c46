-- ===== src/Prelude/Map.antt =====
-- Hash maps behind an interface: `std::collections::HashMap` and `HashSet`, and the crate `dashmap`.
-- Only what their documentation says is used; the order in which they are iterated is left open.
pub mod Assoc
pub mod Laws
pub mod Collect
use mathlib.Core.List.{Permᴰ, List, [], ◌∷◌}
use mathlib.Core.List
use mathlib.Core.Path.{◌≡◌}
use mathlib.Core.Option.{Option, none, some}
use strawberry_background.Prelude.Tests.{Eq, ◌==◌, if◌then◌else◌}
use strawberry_background.Prelude.Lists.{In, IsDistinct}

pub record HashMap (K : Type 0) (V : Type 0) (e : Eq K) : Type 1 where
  pub Map : Type 0
  pub empty : Map
  pub get : K → Map → Option V
  pub insert : K → V → Map → Map
  pub remove : K → Map → Map
  pub entries : Map → List (K × V)
  pub entries-empty : entries empty ≡ []
  pub get-empty : (k : K) → get k empty ≡ none
  pub get-insert :
      (k j : K) (v : V) (m : Map) → get j (insert k v m) ≡ (if e.beq k j then some v else get j m)
  pub get-remove : (k j : K) (m : Map) → get j (remove k m) ≡ (if e.beq k j then none else get j m)
  pub entries-insert :
      (k : K) (v : V) (m : Map) → Permᴰ (entries (insert k v m)) ((k, v) ∷ entries (remove k m))
  pub entries-present :
      (k : K) (v : V) (m : Map)
      → get k m ≡ some v
      → Permᴰ (entries m) ((k, v) ∷ entries (remove k m))
  pub entries-absent : (k : K) (m : Map) → get k m ≡ none → Permᴰ (entries m) (entries (remove k m))
  pub keys_distinct : (m : Map) → IsDistinct (List.map (λ (p : K × V). p.0) (entries m))
  pub get_of_entry : (k : K) (v : V) (m : Map) → In (k, v) (entries m) → get k m ≡ some v

module _ {K V : Type 0} {e : Eq K} (H : HashMap K V e) where
  abbrev pub values : H.Map → List V
  values m = List.map (λ (p : K × V). p.1) (H.entries m)

  abbrev pub keys : H.Map → List K
  keys m = List.map (λ (p : K × V). p.0) (H.entries m)
