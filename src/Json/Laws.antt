-- ===== src/Json/Laws.antt =====
-- Laws of JSON items.
use snake_lab.Base.{◌≡◌, refl, ap, List, [], ◌∷◌}
use snake_lab.Json.{Json, to_list, of_list}

pub to_list-of_list : {F : Type 0} (js : List (Json F)) → to_list (of_list js) ≡ js
to_list-of_list [] = refl
to_list-of_list (j ∷ js) = ap (λ r. j ∷ r) (to_list-of_list js)
