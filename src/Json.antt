-- ===== src/Json.antt =====
-- JSON documents as `json.loads` gives them to the program: `F` is the type of floats. A dictionary
-- is its items in order; a key is looked up at its first item.
pub mod Laws
use Prim.Native.String.{String}
use text.Mathlib.Text.{◌==◌}
use snake_lab.Base.{
  ℕ, Bool, true, false, ◌&&◌, ◌||◌, Option, none, some, List, [], ◌∷◌, if◌then◌else◌,
}
use snake_lab.Base.Int.{ℤ}

mutual
  pub data Json (F : Type 0) : Type 0 where
    null : Json F
    bool : Bool → Json F
    int : ℤ → Json F
    float : F → Json F
    str : String → Json F
    arr : Items F → Json F
    obj : Fields F → Json F

  pub data Items (F : Type 0) : Type 0 where
    nil : Items F
    cons : Json F → Items F → Items F

  pub data Fields (F : Type 0) : Type 0 where
    end : Fields F
    field : String → Json F → Fields F → Fields F

module _ {F : Type 0} where
  abbrev pub to_list : Items F → List (Json F)
  to_list nil = []
  to_list (cons j js) = j ∷ to_list js

  abbrev pub of_list : List (Json F) → Items F
  of_list [] = nil
  of_list (j ∷ js) = cons j (of_list js)

  -- {"k": v, …}
  abbrev pub of_fields : List (String × Json F) → Fields F
  of_fields [] = end
  of_fields ((k, v) ∷ kvs) = field k v (of_fields kvs)

  -- data.get(k)
  abbrev pub get : String → Fields F → Option (Json F)
  get k end = none
  get k (field j v fs) = if j == k then some v else get k fs

  abbrev pub keys : Fields F → List String
  keys end = []
  keys (field k v fs) = k ∷ keys fs

abbrev pub has_key : String → List String → Bool
has_key k [] = false
has_key k (j ∷ js) = (j == k) || has_key k js

abbrev pub all_in : List String → List String → Bool
all_in [] js = true
all_in (k ∷ ks) js = has_key k js && all_in ks js

-- set(data) == {…}
abbrev pub has_exactly : {F : Type 0} → Fields F → List String → Bool
has_exactly fs expected = all_in (keys fs) expected && all_in expected (keys fs)

abbrev pub is_empty : {F : Type 0} → Fields F → Bool
is_empty end = true
is_empty (field k v fs) = false
